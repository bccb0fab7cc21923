-- ===== src/Index/Edit.antt =====
-- common/index.cpp: create, move, remove, update and utime. The index is a node whose directory is
-- m_mDirectory; an operation returns the new index and the code of the C++ function.
pub mod Create
pub mod Remove
pub mod Graft
pub mod Move
pub mod Update
pub mod Order
use sector_sphere.Base.{
  ℕ, ℤ, pos, negsuc, Text, Bool, true, false, not, ◌&&◌, ◌||◌, Option, none, some, List, [], ◌∷◌,
  length, if◌then◌else◌, ◌==◌, is_empty,
}
use sector_sphere.Base.Sets
use sector_sphere.Meta.{parse_path}
use sector_sphere.Address.{Address, addr_key}
use sector_sphere.Index.Tree.{Attr, Directory, nil, SNode, find, put, erase}
use sector_sphere.Index.Walk.{locate, modify, fresh, ensure, last_name}

-- SectorError::E_INVALID
abbrev pub e_invalid : ℤ
e_invalid = negsuc 5999

abbrev pub with_dir : Bool → SNode → SNode
with_dir isdir t = record t { attr = record t.attr { is_dir = isdir } }

unfoldable pub create : Text → Bool → SNode → SNode × ℤ
create path isdir root =
    let dir = parse_path path in
    let made = ensure dir root in
    if is_empty dir
    then (root, negsuc 2)
    else if made.1
    then (made.0, negsuc 0)
    else (modify (with_dir isdir) dir made.0, pos 0)

abbrev pub with_time : ℕ → SNode → SNode
with_time ts t = record t { attr = record t.attr { time_stamp = ts } }

unfoldable pub utime : Text → ℕ → SNode → SNode × ℤ
utime path ts root =
    let dir = parse_path path in
    if is_empty dir then (root, pos 0) else elim (locate dir root) [
      | none ↦ (root, negsuc 0)
      | some s ↦ (modify (with_time ts) dir root, pos 1)
    ]

abbrev pub with_child : Text → SNode → SNode → SNode
with_child n s c = record s { directory = put n c s.directory }

-- The loop of `remove`, with `none` for the code -1.
unfoldable pub remove_in : Bool → List Text → SNode → Option SNode
remove_in recursive [] s = none
remove_in recursive (n ∷ []) s = elim (find n s.directory) [
  | none ↦ none
  | some c ↦
      if c.is_dir && not recursive
      then none
      else some (record s { directory = erase n s.directory })
]
remove_in recursive (n ∷ m ∷ ns) s = elim (find n s.directory) [
  | none ↦ none
  | some c ↦ elim (remove_in recursive (m ∷ ns) c) [
    | none ↦ none
    | some c' ↦ some (with_child n s c')
  ]
]

unfoldable pub remove : Text → Bool → SNode → SNode × ℤ
remove path recursive root =
    let dir = parse_path path in
    if is_empty dir
    then (root, e_invalid)
    else elim (remove_in recursive dir root) [ none ↦ (root, negsuc 0) | some r ↦ (r, pos 0) ]

-- Types 2 and 3 are for files that exist.
abbrev pub for_old : ℕ → Bool
for_old type = type == 3 || type == 2

abbrev pub differs : Attr → Attr → Bool
differs a b = not (a.size == b.size) || not (a.time_stamp == b.time_stamp)

abbrev pub with_replica : Address → Attr → Attr
with_replica loc a = record a { location = Sets.add loc a.location }

abbrev pub with_content : Attr → Address → Attr → Attr
with_content sn loc a = record a {
  size = sn.size;
  time_stamp = sn.time_stamp;
  location = Sets.add loc a.location;
}

-- A file that is there: types 1 and 2 bring a new content, type 3 a new replica.
unfoldable pub update_file : Attr → Address → ℕ → Attr → Attr × ℤ
update_file sn loc type a =
    if type == 1 || type == 2
    then (let a' = if differs a sn then with_content sn loc a else a in
        (a', pos (length a'.location)))
    else if type == 3
    then if Sets.has loc a.location
      then (a, negsuc 0)
      else if differs a sn
      then (a, negsuc 0)
      else (with_replica loc a, pos (length (with_replica loc a).location))
    else (a, negsuc 0)

unfoldable pub update_in : Attr → Address → ℕ → List Text → SNode → SNode × ℤ
update_in sn loc type [] s = (s, negsuc 0)
update_in sn loc type (n ∷ []) s = elim (find n s.directory) [
  | none ↦
      if for_old type
      then (s, negsuc 0)
      else (with_child n s (record { attr = record sn { name = n }; directory = nil }), pos 1)
  | some c ↦
      let r = update_file sn loc type c.attr in (with_child n s (record c { attr = r.0 }), r.1)
]
update_in sn loc type (n ∷ m ∷ ns) s = elim (find n s.directory) [
  | none ↦
      let r = update_in sn loc type (m ∷ ns) (fresh n sn.time_stamp) in
      if for_old type then (s, negsuc 0) else (with_child n s r.0, r.1)
  | some c ↦
      let r = update_in sn loc type (m ∷ ns) (with_time sn.time_stamp c) in
      (with_child n s r.0, r.1)
]

-- The file's information is taken as SNode::deserialize reads it from the message.
unfoldable pub update : Attr → Address → ℕ → SNode → SNode × ℤ
update fileinfo loc type root =
    let sn : Attr = record fileinfo { location = Sets.add loc fileinfo.location } in
    update_in sn loc type (parse_path fileinfo.name) root

abbrev pub with_name : Text → SNode → SNode
with_name name t = record t { attr = record t.attr { name = name } }

-- `(*nd)[name] = s` for the directory `nd` at the names.
unfoldable pub graft : List Text → Text → SNode → SNode → SNode
graft new name s = modify (λ t. with_child name t s) new

-- `od->erase(...)` for the last of the names.
unfoldable pub cut : List Text → SNode → SNode
cut [] s = s
cut (n ∷ []) s = record s { directory = erase n s.directory }
cut (n ∷ m ∷ ns) s = elim (find n s.directory) [
  | none ↦ s
  | some c ↦ with_child n s (cut (m ∷ ns) c)
]

-- The node at `old` is copied to the directory `new`, then taken from its place. The copy is of
-- what stands there once the directories of `new` are made.
unfoldable pub move_node : List Text → List Text → Text → SNode → SNode
move_node old new newname made = elim (locate old made) [
  | none ↦ made
  | some os ↦
      let key = last_name [] old in
      if is_empty newname
      then cut old (graft new key os made)
      else cut old (graft new newname (with_name newname os) (modify (with_name newname) old made))
]

unfoldable pub move : Text → Text → Text → SNode → SNode × ℤ
move oldpath newpath newname root =
    let olddir = parse_path oldpath in
    let newdir = parse_path newpath in
    if is_empty olddir then (root, negsuc 2) else elim (locate olddir root) [
      | none ↦ (root, negsuc 0)
      | some os ↦ (move_node olddir newdir newname (ensure newdir root).0, pos 1)
    ]
