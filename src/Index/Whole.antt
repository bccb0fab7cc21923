-- ===== src/Index/Whole.antt =====
-- common/index.cpp: substract and merge, which change a whole directory.
pub mod Replicas
pub mod Order
pub mod Merge
use sector_sphere.Base.{
  ℕ, suc, ◌+◌, ℤ, pos, negsuc, Text, Map, Set, Bool, true, false, not, ◌&&◌, ◌||◌, Option, none,
  some, List, [], ◌∷◌, ◌++◌, length, if◌then◌else◌, ◌==◌, is_empty, ltb, add64,
}
use sector_sphere.Base.Sets
use sector_sphere.Base.Keys.{text_eq}
use sector_sphere.Meta.{parse_path, slash}
use sector_sphere.Address.{Address, addr_key}
use sector_sphere.Index.Tree.{Attr, Directory, nil, entry, SNode, find, put}
use sector_sphere.Index.Walk.{locate, modify}

-- A file without a location is erased.
unfoldable pub substract_in : Address → Directory → Directory
substract_in addr nil = nil
substract_in addr (entry n a d rest) =
    let rest' = substract_in addr rest in
    let d' = substract_in addr d in
    let left = Sets.del addr a.location in
    if a.is_dir
    then entry n a d' rest'
    else if is_empty left
    then rest'
    else entry n (record a { location = left }) d rest'

unfoldable pub substract : Text → Address → SNode → SNode × ℤ
substract path addr root = elim (locate (parse_path path) root) [
  | none ↦ (root, negsuc 0)
  | some s ↦ (
    modify (λ t. record t { directory = substract_in addr t.directory }) (parse_path path) root,
    pos 0,
  )
]

-- Two nodes whose locations are joined.
abbrev pub same_file : Attr → Attr → Bool
same_file b a = not b.is_dir && not a.is_dir && (b.size == a.size) && (b.time_stamp == a.time_stamp)

-- What merging does with one entry of the branch: the new directory, and what stays of the entry.
unfoldable pub merge_entry :
    ℕ
    → Text
    → Attr
    → Directory
    → (Directory → Directory × Directory)
    → Directory
    → Directory × Option Directory
merge_entry replica n b d sub cur = elim (find n cur) [
  | none ↦ (put n (record { attr = b; directory = d }) cur, none)
  | some s ↦
      let m = sub s.directory in
      if b.is_dir && s.is_dir
      then (put n (record s { directory = m.0 }) cur, some m.1)
      else if same_file b s.attr && ltb (length s.location) replica
      then (
        put n (record s { attr = record s.attr { location = Sets.add_all b.location s.location } })
            cur,
        none,
      )
      else (cur, some d)
]

unfoldable pub merge_in : ℕ → Directory → Directory → Directory × Directory
merge_in replica nil cur = (cur, nil)
merge_in replica (entry n b d rest) cur =
    let e = merge_entry replica n b d (merge_in replica d) cur in
    let r = merge_in replica rest e.0 in (r.0, elim e.1 [ none ↦ r.1 | some d' ↦ entry n b d' r.1 ])

unfoldable pub merge : ℕ → SNode → SNode → SNode × SNode
merge replica root branch =
    let r = merge_in replica branch.directory root.directory in
    (record root { directory = r.0 }, record branch { directory = r.1 })
