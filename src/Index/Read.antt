-- ===== src/Index/Read.antt =====
-- common/index.cpp: the operations that read the index: list, list_r, both overloads of lookup, the
-- totals and getUnderReplicated. A private member function takes a directory, and so does its
-- definition, with _in at its name's end; the public one first walks to the node of a path. A listing holds the
-- attributes that SNode::serialize prints.
pub mod Files
pub mod Listing
pub mod Locations
use sector_sphere.Base.{
  ℕ, zero, suc, ◌+◌, ◌-◌, ◌^◌, ℤ, pos, negsuc, Text, Map, Set, Bool, true, false, ◌&&◌, ◌||◌,
  Option, none, some, List, [], ◌∷◌, ◌++◌, length, if◌then◌else◌, ◌==◌, is_empty, ltb, add64, slt64,
}
use sector_sphere.Base.Sets
use sector_sphere.Base.Keys.{text_eq}
use sector_sphere.Meta.{parse_path, slash}
use sector_sphere.Address.{Address, addr_key}
use sector_sphere.Index.Tree.{Attr, Directory, nil, entry, SNode, find, size_of}
use sector_sphere.Index.Walk.{locate}
use sector_sphere.Index.Edit.{e_invalid}

-- SectorError::E_NOEXIST
abbrev pub e_noexist : ℤ
e_noexist = negsuc 1002

unfoldable pub total_data_size_in : Directory → ℕ
total_data_size_in nil = 0
total_data_size_in (entry n a d rest) =
    let sub = total_data_size_in d in
    add64 (if a.is_dir then sub else a.size) (total_data_size_in rest)

unfoldable pub total_file_num_in : Directory → ℕ
total_file_num_in nil = 0
total_file_num_in (entry n a d rest) =
    let sub = total_file_num_in d in (if a.is_dir then sub else 1) + total_file_num_in rest

unfoldable pub list_r_in : Text → Directory → List Text → List Text
list_r_in path nil filelist = filelist
list_r_in path (entry n a d rest) filelist =
    let name = path ++ slash ∷ a.name in
    let sub = list_r_in name d filelist in
    list_r_in path rest (if a.is_dir then sub else filelist ++ name ∷ [])

-- `path.find(s)`: whether a text stands somewhere in another.
unfoldable pub text_starts : Text → Text → Bool
text_starts [] t = true
text_starts (c ∷ s) [] = false
text_starts (c ∷ s) (d ∷ t) = (c == d) && text_starts s t

unfoldable pub text_contains : Text → Text → Bool
text_contains s [] = text_starts s []
text_contains s (d ∷ t) = text_starts s (d ∷ t) || text_contains s t

-- The threshold of a path: that of the first special pattern that it contains.
unfoldable pub threshold : ℕ → Map Text ℕ → Text → ℕ
threshold thresh [] path = thresh
threshold thresh ((s, d) ∷ special) path =
    if text_contains s path then d else threshold thresh special path

abbrev pub abs_path : Text → Text → Text
abs_path path n = if text_eq path (slash ∷ []) then path ++ n else path ++ slash ∷ n

unfoldable pub under_replicated_in : ℕ → Map Text ℕ → Text → Directory → List Text → List Text
under_replicated_in thresh special path nil replica = replica
under_replicated_in thresh special path (entry n a d rest) replica =
    let p = abs_path path n in
    let sub = under_replicated_in thresh special p d replica in
    let here =
      if ltb (length a.location) (threshold thresh special p) then replica ++ p ∷ [] else replica in
    under_replicated_in thresh special path rest (if a.is_dir then sub else here)

-- The int64_t -1.
abbrev pub minus_one : ℕ
minus_one = 2 ^ 64 - 1

unfoldable pub total_data_size : Text → SNode → ℕ
total_data_size path root = elim (locate (parse_path path) root) [
  | none ↦ minus_one
  | some s ↦ total_data_size_in s.directory
]

unfoldable pub total_file_num : Text → SNode → ℕ
total_file_num path root = elim (locate (parse_path path) root) [
  | none ↦ minus_one
  | some s ↦ total_file_num_in s.directory
]

unfoldable pub list_r : Text → List Text → SNode → List Text × ℤ
list_r path filelist root = elim (locate (parse_path path) root) [
  | none ↦ (filelist, e_noexist)
  | some s ↦
      let all = list_r_in path s.directory filelist in
      if is_empty (parse_path path) || s.is_dir
      then (all, pos (length all))
      else (filelist ++ path ∷ [], pos 1)
]

unfoldable pub get_under_replicated : ℕ → Map Text ℕ → Text → List Text → SNode → List Text × ℤ
get_under_replicated thresh special path replica root = elim (locate (parse_path path) root) [
  | none ↦ (replica, negsuc 0)
  | some s ↦
      let all = under_replicated_in thresh special path s.directory replica in
      (all, pos (length all))
]

unfoldable pub attrs : Directory → List Attr
attrs nil = []
attrs (entry n a d rest) = a ∷ attrs rest

unfoldable pub list_walk : List Text → List Attr → SNode → List Attr × ℤ
list_walk [] filelist s = (attrs s.directory, pos (size_of s.directory))
list_walk (n ∷ p) filelist s = elim (find n s.directory) [
  | none ↦ (filelist, e_noexist)
  | some c ↦
      let below = list_walk p filelist c in
      if c.is_dir
      then below
      else if is_empty p
      then (filelist ++ c.attr ∷ [], pos 1)
      else (filelist, e_noexist)
]

unfoldable pub list : Text → List Attr → SNode → List Attr × ℤ
unfolding list_walk
list path filelist root = list_walk (parse_path path) filelist root

unfoldable pub sum_sizes : Directory → ℕ
sum_sizes nil = 0
sum_sizes (entry n a d rest) = add64 a.size (sum_sizes rest)

-- The later of a time and those of the entries, as signed words.
unfoldable pub last_time : ℕ → Directory → ℕ
last_time ts nil = ts
last_time ts (entry n a d rest) =
    last_time (if slt64 ts a.time_stamp then a.time_stamp else ts) rest

unfoldable pub lookup : Text → Attr → SNode → Attr × ℤ
lookup path attr root = elim (locate (parse_path path) root) [
  | none ↦ (attr, negsuc 0)
  | some s ↦
      if is_empty (parse_path path)
      then (
        record attr {
          name = slash ∷ [];
          is_dir = true;
          size = sum_sizes root.directory;
          time_stamp = last_time 0 root.directory;
        },
        pos (size_of root.directory),
      )
      else (record s.attr { checksum = attr.checksum }, pos (size_of s.directory))
]

-- The nodes of a directory pushed on a stack, the last one on top.
unfoldable pub push_all : Directory → List SNode → List SNode
push_all nil stack = stack
push_all (entry n a d rest) stack = push_all rest (record { attr = a; directory = d } ∷ stack)

-- The loop over the stack scanmap; none if the fuel does not reach its end.
unfoldable pub scan_map : ℕ → List SNode → Set Address → Option (Set Address)
scan_map fuel [] addr = some addr
scan_map zero (n ∷ stack) addr = none
scan_map (suc fuel) (n ∷ stack) addr =
    scan_map fuel (if n.is_dir then push_all n.directory stack else stack)
      (if n.is_dir then addr else Sets.add_all n.location addr)

unfoldable pub nodes_in : Directory → ℕ
nodes_in nil = 0
nodes_in (entry n a d rest) = suc (nodes_in d + nodes_in rest)

unfoldable pub lookup_locations : ℕ → Text → Set Address → SNode → Option (Set Address × ℤ)
lookup_locations fuel path addr root =
    if is_empty (parse_path path)
    then some (addr, e_invalid)
    else elim (locate (parse_path path) root) [
      | none ↦ some (addr, negsuc 0)
      | some s ↦ elim (scan_map fuel (s ∷ []) addr) [
        | none ↦ none
        | some found ↦ some (found, pos (length found))
      ]
    ]
