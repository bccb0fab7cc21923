-- ===== src/Index/Collect.antt =====
-- common/index.cpp, both functions collectDataInfo: a line for each data file, with its size, the number of its
-- records and its locations. The buffer of 1024 bytes is not bounded.
pub mod DataFiles
pub mod Entries
pub mod Lines
mod Examples
use sector_sphere.Base.{
  ℕ, ◌+◌, ◌-◌, ◌/◌, ◌%◌, ◌^◌, ℤ, pos, negsuc, Text, Set, Bool, true, false, not, ◌&&◌, ◌||◌, Option,
  none, some, List, [], ◌∷◌, ◌++◌, length, if◌then◌else◌, is_empty, ltb, codes,
}
use sector_sphere.Base.Decimal.{print32, print64}
use sector_sphere.Base.Keys.{text_eq}
use sector_sphere.Address.{Address}
use sector_sphere.Meta.{parse_path, slash}
use sector_sphere.Index.Tree.{Attr, Directory, nil, entry, SNode, find}
use sector_sphere.Index.Walk.{locate}

abbrev pub index_suffix : Text
index_suffix = codes ".idx"

unfoldable pub ends_with : Text → Text → Bool
ends_with s [] = text_eq s []
ends_with s (c ∷ t) = text_eq s (c ∷ t) || ends_with s t

-- A name that is longer than ".idx" and ends with it.
unfoldable pub is_index : Text → Bool
unfolding ends_with
is_index n = ltb 4 (length n) && ends_with index_suffix n

-- m_llSize / 8 - 1 as an int: the quotient of a signed word is rounded towards zero.
unfoldable pub rows_of : ℕ → ℕ
rows_of size =
    if ltb size (2 ^ 63)
    then (size / 8 + 2 ^ 32 - 1) % 2 ^ 32
    else (2 ^ 32 - (2 ^ 64 - size) / 8 % 2 ^ 32 + 2 ^ 32 - 1) % 2 ^ 32

-- The number of the records by the index file beside a file, or -1.
unfoldable pub rows : Text → Directory → ℕ
unfolding rows_of
rows name beside = elim (find (name ++ index_suffix) beside) [
  | none ↦ 2 ^ 32 - 1
  | some s ↦ rows_of s.size
]

unfoldable pub put_places : Set Address → Text
put_places [] = []
put_places (a ∷ s) = b' ' ∷ (a.ip ++ b' ' ∷ (print32 a.port ++ put_places s))

-- "%s %lld %d", and " %s %d" for each location.
unfoldable pub info_line : Text → Text → Attr → Directory → Text
unfolding rows put_places
info_line path name a beside =
    path ++ b' ' ∷ (print64 a.size ++ b' ' ∷ (print32 (rows name beside) ++ put_places a.location))

-- The entries that the loop has left, of the directory `whole`.
unfoldable pub collect_in : Directory → Text → Directory → List Text → List Text
unfolding is_index info_line
collect_in nil path whole result = result
collect_in (entry n a d rest) path whole result =
    let name = path ++ slash ∷ n in
    let sub = collect_in d name d result in
    let here = if is_index n then result else result ++ info_line name n a whole ∷ [] in
    collect_in rest path whole (if a.is_dir then sub else here)

-- The last of the names, and the names above it.
abbrev pub last_of : List Text → Text
last_of [] = []
last_of (n ∷ []) = n
last_of (n ∷ m ∷ p) = last_of (m ∷ p)

abbrev pub above_of : List Text → List Text
above_of [] = []
above_of (n ∷ []) = []
above_of (n ∷ m ∷ p) = n ∷ above_of (m ∷ p)

-- `updir`, the directory that the last step of the walk starts from.
abbrev pub beside_of : List Text → SNode → Directory
beside_of dir root = elim (locate (above_of dir) root) [ none ↦ nil | some s ↦ s.directory ]

unfoldable pub collect_data_info : Text → List Text → SNode → List Text × ℤ
unfolding collect_in
collect_data_info file result root =
    let dir = parse_path file in
    if is_empty dir then (result, negsuc 2) else elim (locate dir root) [
      | none ↦ (result, negsuc 0)
      | some s ↦
          let line = info_line file (last_of dir) s.attr (beside_of dir root) in
          let all =
            collect_in s.directory file s.directory
              (if s.is_dir then result else result ++ line ∷ []) in
          (all, pos (length all))
    ]
