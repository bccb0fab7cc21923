-- ===== src/Node/RoundTrip.antt =====
-- common/snode.cpp: reading back the text that SNode::serialize writes.
use mathlib.Core.List.{append-nil}
use sector_sphere.Base.{
  ℕ, ◌^◌, ◌%◌, ◌<◌, ◌≡◌, refl, ap, ◌∙◌, Text, Set, Bool, true, false, not, some, List, [], ◌∷◌,
  ◌++◌, pos, ◌==◌, length, length-append, flag, All, arith, lt→ltb,
}
use sector_sphere.Base.Sets.{add, add_all}
use sector_sphere.Base.Decimal.{
  atoi, print, print32, print64, word32, NoComma, NoComma-print, NoComma-print32, NoComma-print64,
  atoi-print, atoi-print32, atoi-print64,
}
use sector_sphere.Address.{Address, addr_key}
use sector_sphere.Index.Tree.{Attr}
use sector_sphere.Node.{
  put_locations, put_fields, serialize, cut, fields, split_at, restore_locations, restore,
  restore_name, deserialize,
}

cut_comma : (s t : Text) → NoComma s → cut (s ++ b',' ∷ t) ≡ (s, some t)
unfolding cut
cut_comma [] t h = refl
cut_comma (c ∷ s) t h = ground (arith, h.0, cut_comma s t h.1)

fields_comma : (s t : Text) → NoComma s → fields (s ++ b',' ∷ t) ≡ s ∷ fields t
unfolding fields
fields_comma [] t h = refl
fields_comma (c ∷ s) t h = rw (fields_comma s t h.1) (ground (arith, h.0))

fields_last : (s : Text) → NoComma s → fields s ≡ s ∷ []
unfolding fields
fields_last [] h = refl
fields_last (c ∷ s) h = rw (fields_last s h.1) (ground (arith, h.0))

split_at_append : (s t : Text) → split_at (length s) (s ++ t) ≡ (s, t)
unfolding split_at
split_at_append [] t = refl
split_at_append (c ∷ s) t = ap (λ r. (c ∷ r.0, r.1)) (split_at_append s t)

-- What the format asks of an address: an unsigned short, and no comma in the other field.
abbrev pub IsPlain : Address → Type 0
IsPlain a = NoComma a.ip × (a.port < 2 ^ 16)

-- What the format asks of a node.
pub record Fits (n : Attr) : Type 0 where
  pub time_word : n.time_stamp < 2 ^ 64
  pub size_word : n.size < 2 ^ 64
  pub plain : All IsPlain n.location

-- The fields of the locations.
abbrev texts_of : Set Address → List Text
texts_of [] = []
texts_of (a ∷ s) = a.ip ∷ print a.port ∷ texts_of s

fields_locations :
    (t : Text) (s : Set Address)
    → NoComma t
    → All IsPlain s
    → fields (t ++ put_locations s) ≡ t ∷ texts_of s
unfolding put_locations
fields_locations t [] h k = rw (append-nil t) (fields_last t h)
fields_locations t (a ∷ s) h k =
    fields_comma t (a.ip ++ b',' ∷ (print a.port ++ put_locations s)) h
    ∙ ap (λ r. t ∷ r)
        (fields_comma a.ip (print a.port ++ put_locations s) k.0.0
          ∙ ap (λ r. a.ip ∷ r) (fields_locations (print a.port) s (NoComma-print a.port) k.1))

same_port : (a : Address) → a.port < 2 ^ 16 → word32 (atoi (print a.port)) % 2 ^ 16 ≡ a.port
same_port a h = rw (atoi-print a.port (ground arith)) (ground arith)

restore_texts :
    (s l : Set Address) → All IsPlain s → restore_locations (texts_of s) l ≡ (add_all s l, pos 0)
unfolding restore_locations add_all
restore_texts [] l h = refl
restore_texts (a ∷ s) l h =
    ap (λ p. restore_locations (texts_of s) (add (record { ip = a.ip; port = p }) l))
      (same_port a h.0.1)
    ∙ restore_texts s (add a l) h.1

fields_of :
    (n : Attr)
    → Fits n
    → fields (put_fields n)
      ≡ print (flag n.is_dir) ∷ print64 n.time_stamp ∷ print64 n.size ∷ texts_of n.location
unfolding put_fields
fields_of n h =
    rw
      (
        fields_comma (print (flag n.is_dir))
            (print64 n.time_stamp ++ b',' ∷ (print64 n.size ++ put_locations n.location))
            (NoComma-print (flag n.is_dir)),
        fields_comma (print64 n.time_stamp) (print64 n.size ++ put_locations n.location)
            (NoComma-print64 n.time_stamp),
        fields_locations (print64 n.size) n.location (NoComma-print64 n.size) h.plain,
      )
      refl

same_flag : (b : Bool) → not (word32 (atoi (print (flag b))) == 0) ≡ b
same_flag true = rw (atoi-print 1 (ground arith)) refl
same_flag false = rw (atoi-print 0 (ground arith)) refl

-- The node that a text of n, read into m, makes.
abbrev pub taken : Attr → Attr → Attr
taken n m = record {
  name = n.name;
  is_dir = n.is_dir;
  location = add_all n.location m.location;
  time_stamp = n.time_stamp;
  size = n.size;
  checksum = m.checksum;
}

restore-fields :
    (n m : Attr)
    → Fits n
    → restore (fields (put_fields n)) (record m { name = n.name }) ≡ (taken n m, pos 0)
unfolding restore
restore-fields n m h =
    rw
      (
        fields_of n h,
        same_flag n.is_dir,
        atoi-print64 n.time_stamp h.time_word,
        atoi-print64 n.size h.size_word,
        restore_texts n.location m.location h.plain,
      )
      refl

restore_name_of :
    (n m : Attr)
    → Fits n
    → restore_name (length n.name) (n.name ++ b',' ∷ put_fields n) m ≡ some (taken n m, pos 0)
unfolding restore_name
restore_name_of n m h =
    rw
      (
        length-append n.name (b',' ∷ put_fields n),
        ap (λ r. r.1) (split_at_append n.name (b',' ∷ put_fields n)),
        ap (λ r. r.0) (split_at_append n.name (b',' ∷ put_fields n)),
        restore-fields n m h,
      )
      (ground arith)

same_length : (n : ℕ) → n < 2 ^ 12 → word32 (atoi (print32 (n % 2 ^ 32))) ≡ n
same_length n h = rw (atoi-print32 (n % 2 ^ 32) (ground arith)) (ground arith)

name_short : (n : Attr) → length (serialize n) < 4096 → length n.name < 2 ^ 12
unfolding serialize
name_short n h = ground (
  arith,
  length-append (print32 (length n.name % 2 ^ 32)) (b',' ∷ (n.name ++ b',' ∷ put_fields n)),
  length-append n.name (b',' ∷ put_fields n),
)

cut-serialize :
    (n : Attr)
    → cut (serialize n) ≡ (print32 (length n.name % 2 ^ 32), some (n.name ++ b',' ∷ put_fields n))
unfolding serialize
cut-serialize n =
    cut_comma (print32 (length n.name % 2 ^ 32)) (n.name ++ b',' ∷ put_fields n)
      (NoComma-print32 (length n.name % 2 ^ 32))

-- The text of a node whose addresses hold no comma, whose ports are below 2^16, whose size and time
-- are 64-bit words and which is shorter than the reader's buffer is read back without an error: into
-- a node m it stores the name (which may hold commas), the kind, the time and the size, keeps the
-- checksum of m, and adds the locations to those of m.
pub deserialize-serialize_node :
    (n m : Attr)
    → Fits n
    → length (serialize n) < 4096
    → deserialize (serialize n) m ≡ some (taken n m, pos 0)
unfolding deserialize
deserialize-serialize_node n m h k =
    rw
      (
        ap (λ r. r.1) (cut-serialize n),
        ap (λ r. r.0) (cut-serialize n),
        lt→ltb (length (serialize n)) 4096 k,
        same_length (length n.name) (name_short n k),
        restore_name_of n m h,
      )
      refl
