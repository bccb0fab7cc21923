-- ===== src/Index/Saved/Lines.antt =====
-- A line that Index::serialize writes, read back.
use sector_sphere.Base.{
  ℕ, ◌+◌, ◌<◌, ◌≡◌, ◌≢◌, refl, ap, pos, Text, false, none, some, [], ◌∷◌, ◌++◌, length,
  length-append, ◌==◌, ltb, All, arith, ◌||◌,
}
use sector_sphere.Base.Sets.{add_all}
use sector_sphere.Base.Decimal.{
  print, print32, IsDigits, print-IsDigits, atoi-print, length-print32,
}
use sector_sphere.Address.{addr_key}
use sector_sphere.Node
use sector_sphere.Node.RoundTrip.{Fits, taken, deserialize-serialize_node}
use sector_sphere.Index.Tree.{Attr}
use sector_sphere.Index.Saved.{cut_space, read_line, blank_node}

abbrev pub NoFeed : Text → Type 0
NoFeed = All (λ c. c ≢ b'\n')

abbrev NoSpace : Text → Type 0
NoSpace = All (λ c. c ≢ b' ')

cut_space_at : (s t : Text) → NoSpace s → cut_space (s ++ b' ' ∷ t) ≡ (s, some t)
unfolding cut_space
cut_space_at [] t h = refl
cut_space_at (c ∷ s) t h = ground (arith, h.0, cut_space_at s t h.1)

NoSpace-digits : (s : Text) → IsDigits s → NoSpace s
NoSpace-digits [] h = tt
NoSpace-digits (c ∷ s) h = (ground (arith, h.0), NoSpace-digits s h.1)

pub print32_small : (w : ℕ) → w < 1024 → print32 w ≡ print w
unfolding print32
print32_small w h = ground (arith, h)

pub NoFeed-digits : (s : Text) → IsDigits s → NoFeed s
NoFeed-digits [] h = tt
NoFeed-digits (c ∷ s) h = (ground (arith, h.0), NoFeed-digits s h.1)

pub NoFeed-append : (s t : Text) → NoFeed s → NoFeed t → NoFeed (s ++ t)
NoFeed-append [] t h k = k
NoFeed-append (c ∷ s) t h k = (h.0, NoFeed-append s t h.1 k)

-- What the file keeps of a node: it has no checksum, and its locations are in their order. Its text fits the
-- buffers and has no line feed.
pub record IsKept (a : Attr) : Type 0 where
  pub fits : Fits a
  pub short : length (Node.serialize a) < 4083
  pub room : length (Node.serialize a) < length a.name + 64
  pub one_line : NoFeed (Node.serialize a)
  pub no_checksum : a.checksum ≡ []
  pub in_order : add_all a.location [] ≡ a.location

abbrev pub line : ℕ → Attr → Text
line level a = print32 level ++ b' ' ∷ Node.serialize a

line-length :
    (level : ℕ) (a : Attr)
    → level < 1024
    → IsKept a
    → (0 < length (line level a)) × (length (line level a) < 4095)
line-length level a h k = ground (
  arith,
  h,
  k.short,
  length-append (print32 level) (b' ' ∷ Node.serialize a),
  length-print32 level,
)

cut-line :
    (level : ℕ) (a : Attr)
    → level < 1024
    → cut_space (line level a) ≡ (print level, some (Node.serialize a))
cut-line level a h = rw (print32_small level h) (
    cut_space_at (print level) (Node.serialize a)
      (NoSpace-digits (print level) (print-IsDigits level)))

taken-blank_node : (a : Attr) → IsKept a → taken a blank_node ≡ a
taken-blank_node a k = rw (k.in_order) (ground (arith, k.no_checksum))

pub read_line_back :
    (level : ℕ) (a : Attr)
    → level < 1024
    → IsKept a
    → read_line none (line level a) ≡ some (pos level, a)
unfolding read_line
read_line_back level a h k =
    rw
      (
        read_line,
        ap (λ r. r.1) (cut-line level a h),
        deserialize-serialize_node a blank_node k.fits (ground (arith, k.short)),
        ap (λ r. r.0) (cut-line level a h),
        atoi-print level (ground (arith, h)),
        taken-blank_node a k,
      )
      refl

pub not_skipped :
    (level : ℕ) (a : Attr)
    → level < 1024
    → IsKept a
    → (length (line level a) == 0 || length (line level a) == 4095) ≡ false
not_skipped level a h k = let l = line-length level a h k in ground (arith, l.0, l.1)

pub not_too_long :
    (level : ℕ) (a : Attr) → level < 1024 → IsKept a → ltb 4095 (length (line level a)) ≡ false
not_too_long level a h k = let l = line-length level a h k in ground (arith, l.1)

pub NoFeed-line : (level : ℕ) (a : Attr) → level < 1024 → IsKept a → NoFeed (line level a)
NoFeed-line level a h k =
    NoFeed-append (print32 level) (b' ' ∷ Node.serialize a)
      (rw (print32_small level h) (NoFeed-digits (print level) (print-IsDigits level)))
      (ground (arith), k.one_line)
