-- ===== src/Node.antt =====
-- common/snode.cpp, SNode::serialize and SNode::deserialize: the text of a node, its fields set apart
-- by commas. The name stands behind its length, and may hold commas.
pub mod RoundTrip
pub mod Bounds
mod Examples
use sector_sphere.Base.{
  ℕ, zero, suc, ◌+◌, ◌^◌, ◌%◌, Text, Set, Bool, true, false, not, Option, none, some, List, [], ◌∷◌,
  ◌++◌, ℤ, pos, negsuc, ◌==◌, ltb, if◌then◌else◌, length, flag,
}
use sector_sphere.Base.Sets.{add}
use sector_sphere.Base.Decimal.{atoi, print, print32, print64, word32, word64}
use sector_sphere.Address.{Address, addr_key}
use sector_sphere.Index.Tree.{Attr}

-- ",%s,%d" for each location.
unfoldable pub put_locations : Set Address → Text
put_locations [] = []
put_locations (a ∷ s) = b',' ∷ (a.ip ++ b',' ∷ (print a.port ++ put_locations s))

-- "%d,%lld,%lld", and the locations.
unfoldable pub put_fields : Attr → Text
unfolding put_locations
put_fields n =
    print (flag n.is_dir)
    ++ b',' ∷ (print64 n.time_stamp ++ b',' ∷ (print64 n.size ++ put_locations n.location))

-- "%d,%s,%d,%lld,%lld", then the locations.
unfoldable pub serialize : Attr → Text
unfolding put_fields
serialize n = print32 (length n.name % 2 ^ 32) ++ b',' ∷ (n.name ++ b',' ∷ put_fields n)

-- A loop up to the first comma: what stands before it, and what follows, where there is a comma.
unfoldable pub cut : Text → Text × Option Text
cut [] = ([], none)
cut (c ∷ t) = let rest = cut t in if c == b',' then ([], some t) else (c ∷ rest.0, rest.1)

-- The same loop, again and again: a text of n commas has n + 1 fields.
unfoldable pub fields : Text → List Text
unfolding cut
fields [] = [] ∷ []
fields (c ∷ t) =
    let rest = fields t in
    if c == b',' then [] ∷ rest else elim rest [ [] ↦ (c ∷ []) ∷ [] | f ∷ fs ↦ (c ∷ f) ∷ fs ]

-- strlen of a prefix, and the bytes before and behind it.
unfoldable pub split_at : ℕ → Text → Text × Text
split_at zero t = ([], t)
split_at (suc n) [] = ([], [])
split_at (suc n) (c ∷ t) = let rest = split_at n t in (c ∷ rest.0, rest.1)

-- The loop "restore locations": an address without a port is an error.
unfoldable pub restore_locations : List Text → Set Address → Set Address × ℤ
restore_locations [] s = (s, pos 0)
restore_locations (ip ∷ []) s = (s, negsuc 0)
restore_locations (ip ∷ port ∷ fs) s =
    restore_locations fs (add (record { ip = ip; port = word32 (atoi port) % 2 ^ 16 }) s)

-- From the flag of a directory on. A field is stored also where the comma behind it is missing.
unfoldable pub restore : List Text → Attr → Attr × ℤ
unfolding restore_locations
restore [] n = (n, negsuc 0)
restore (dir ∷ fs) n =
    let n = record n { is_dir = not (word32 (atoi dir) == 0) } in
    elim fs [
      | [] ↦ (n, negsuc 0)
      | ts ∷ fs ↦
          let n = record n { time_stamp = word64 (atoi ts) } in
          elim fs [
            | [] ↦ (n, negsuc 0)
            | size ∷ fs ↦
                let s = restore_locations fs n.location in
                (record n { size = word64 (atoi size); location = s.0 }, s.1)
          ]
    ]

-- What stands behind the length of the name: an error where it is shorter than the name, and a read
-- behind the end of the text (`none`) where it ends with the name.
unfoldable pub restore_name : ℕ → Text → Attr → Option (Attr × ℤ)
unfolding split_at
restore_name namelen t n =
    if ltb (length t) namelen
    then some (n, negsuc 0)
    else let (name, rest) = split_at namelen t in
      elim rest [ [] ↦ none | c ∷ rest ↦ some (restore (fields rest) (record n { name = name })) ]

-- A text that does not fit the buffer of 4096 bytes is `none` too.
unfoldable pub deserialize : Text → Attr → Option (Attr × ℤ)
unfolding cut
deserialize buf n =
    let (tmp, rest) = cut buf in
    if ltb (length buf) 4096
    then elim rest [ none ↦ some (n, negsuc 0) | some t ↦ restore_name (word32 (atoi tmp)) t n ]
    else none
