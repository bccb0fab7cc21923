-- ===== src/Master/Files.antt =====
-- Master::processFSCmd but for the opening of files: listing, status, new directories, moves, removals,
-- copies and time stamps.
use sector_sphere.Base.{
  ℕ, suc, pos, Text, Set, Bool, true, not, ◌&&◌, none, some, List, [], ◌∷◌, ◌++◌, if◌then◌else◌,
  ◌==◌, length, is_empty,
}
use sector_sphere.Address.{Address, addr_key}
use sector_sphere.Node
use sector_sphere.Index.Tree.{Attr, SNode}
use sector_sphere.Index.Saved.{blank_node}
use sector_sphere.Index.Read.{list, list_r, lookup, lookup_locations, nodes_in, e_noexist}
use sector_sphere.Index.Edit.{create, move, remove, utime}
use sector_sphere.Routing.{match_path}
use sector_sphere.User.{match}
use sector_sphere.Slaves.{SlaveNode}
use sector_sphere.Slaves.IoNode.{choose_io_node}
use sector_sphere.Slaves.Members.{update_slave_list}
use sector_sphere.Master.{
  Master, World, Client, mkdir, rm, touch, Change, made_dir, renamed, moved, deleted, touched,
  echoed, listing, status, Sent, to_client, forward, relocate, Outcome, reject, sync_all, sync_many,
  forward_all, is_neg, address_of,
}
use sector_sphere.Master.{
  e_master, e_permission, e_exist, e_noempty, e_resource, uplevel_of, newname_of, parent_of,
  sublevel_of, first_part, drop,
}

abbrev pub routed : World → Text → Master → Bool
routed w path m = match_path w.hash path m.router_key m.routing

-- The two tests at the head of most requests.
abbrev pub permit : World → Client → Text → ℕ → Master → Outcome → Outcome
permit w c path rwx m go =
    if not (routed w path m)
    then reject e_master m
    else if not (match path rwx c.user)
    then reject e_permission m
    else go

abbrev pub exists : Text → Master → Bool
exists path m = not (is_neg (lookup path blank_node m.metadata).1)

abbrev pub attr_of : Text → Master → Attr
attr_of path m = (lookup path blank_node m.metadata).0

-- The fuel is the number of nodes, which is enough for the loop of lookup.
abbrev pub locations : Text → SNode → Set Address
locations path root = elim (lookup_locations (suc (nodes_in root.directory)) path [] root) [
  | none ↦ []
  | some r ↦ r.0
]

unfoldable pub put_list : List Attr → Text
put_list [] = []
put_list (a ∷ l) = Node.serialize a ++ b';' ∷ put_list l

unfoldable pub list_dir : World → Client → Text → Master → Outcome
unfolding put_list
list_dir w c dir m =
    permit w c dir 1 m (some (m, to_client (listing (put_list (list dir [] m.metadata).0)) ∷ []))

-- The locations of a directory are looked up by its name, not by its path.
unfoldable pub stat_path : World → Client → Text → Master → Outcome
stat_path w c path m =
    let a = attr_of path m in
    let at = if a.is_dir then locations a.name m.metadata else a.location in
    permit w c path 1 m (
      if not (exists path m)
      then reject e_noexist m
      else some (m, to_client (status (Node.serialize a) at) ∷ []))

-- The first of the slaves makes the directory.
unfoldable pub new_dir : Text → List SlaveNode → Master → Outcome
new_dir path [] m = none
new_dir path (s ∷ addr) m = some (
  record m { metadata = (create path true m.metadata).0 },
  forward (address_of s) (mkdir path) ∷ (sync_all (made_dir path) m ++ to_client echoed ∷ []),
)

unfoldable pub make_dir : World → Client → Text → Master → Outcome
unfolding new_dir
make_dir w c path m = permit w c path 2 m (
    if exists path m
    then reject e_exist m
    else elim (choose_io_node w.inet_pton w.coin w.first w.picks w.blank [] c.ip 2 [] 1 m.slaves) [
      | none ↦ none
      | some (slaves, (addr, n)) ↦
          if n == 0
          then reject e_resource (record m { slaves = slaves })
          else new_dir path addr (record m { slaves = slaves })
    ])

unfoldable pub relocate_all : Text → Text → Text → List Address → List Sent
relocate_all src uplevel newname [] = []
relocate_all src uplevel newname (a ∷ l) =
    relocate a src uplevel newname ∷ relocate_all src uplevel newname l

abbrev pub missing_above : Text → Master → Bool
missing_above uplevel m = not (is_empty uplevel) && not (exists uplevel m)

abbrev pub permit_at : World → Client → Text → Text → Text → Text → Master → Outcome → Outcome
permit_at w c src dst uplevel sublevel m go =
    if not (routed w src m)
    then reject e_master m
    else if missing_above uplevel m
    then reject e_noexist m
    else if exists sublevel m
    then reject e_exist m
    else if not (match src 1 c.user)
    then reject e_permission m
    else if not (match dst 2 c.user)
    then reject e_permission m
    else if not (exists src m)
    then reject e_noexist m
    else if exists dst m && not (attr_of dst m).is_dir
    then reject e_exist m
    else go

-- The tests that moves and copies share, each with its own `uplevel`.
abbrev pub permit_two : World → Client → Text → Text → Text → Master → Outcome → Outcome
permit_two w c src dst uplevel m go = elim (sublevel_of src dst) [
  | none ↦ none
  | some sublevel ↦ permit_at w c src dst uplevel sublevel m go
]

-- What a move does to the metadata, and what the other masters hear of it.
abbrev pub move_metadata : Text → Text → Master → SNode
move_metadata src dst m =
    if exists dst m
    then (move src dst [] m.metadata).0
    else (move src (uplevel_of dst) (newname_of dst) m.metadata).0

abbrev pub move_change : Text → Text → Master → Change
move_change src dst m =
    if exists dst m then moved src dst else renamed src (uplevel_of dst) (newname_of dst)

unfoldable pub move_path : World → Client → Text → Text → Master → Outcome
unfolding relocate_all
move_path w c src dst m = permit_two w c src dst (uplevel_of dst) m (
    some (
      record m { metadata = move_metadata src dst m },
      relocate_all src (uplevel_of dst) (newname_of dst) (locations src m.metadata)
          ++ (sync_many (move_change src dst m) m ++ to_client echoed ∷ []),
    ))

-- A directory is passed on to all slaves, a file to those that hold it.
unfoldable pub remove_path : World → Client → Text → Master → Outcome
remove_path w c path m =
    let a = attr_of path m in
    let l = update_slave_list w.now m.slave_list m.last_update m.slaves in
    let m' : Master = record m { metadata = (remove path true m.metadata).0 } in
    let told = sync_all (deleted path) m ++ to_client echoed ∷ [] in
    permit w c path 2 m (
      if not (exists path m)
      then reject e_noexist m
      else if not a.is_dir
      then some (m', forward_all (rm path) a.location ++ told)
      else elim (list path [] m.metadata).1 [
        | pos (suc n) ↦ reject e_noempty m
        | code ↦
            some (
              record m' { slave_list = l.0; last_update = l.1.0 },
              forward_all (rm path) l.0 ++ told,
            )
      ])

-- The list of the copies to make, each put in front.
unfoldable pub queue_copies : Text → Text → Text → List Text → List Text → List Text
queue_copies src rep dst [] queue = queue
queue_copies src rep dst (i ∷ filelist) queue =
    queue_copies src rep dst filelist ((src ++ b'\t' ∷ (dst ++ drop (length rep) i)) ∷ queue)

unfoldable pub copy_path : World → Client → Text → Text → Master → Outcome
unfolding queue_copies
copy_path w c src dst m =
    let rep = if exists dst m then parent_of src else src in
    let filelist = (list_r src [] m.metadata).0 in
    permit_two w c src dst (first_part dst) m (
      some (
        record m { to_be_replicated = queue_copies src rep dst filelist m.to_be_replicated },
        to_client echoed ∷ [],
      ))

unfoldable pub touch_path : World → Client → Text → ℕ → Master → Outcome
touch_path w c path ts m = permit w c path 2 m (
    if not (exists path m)
    then reject e_noexist m
    else some (
      record m { metadata = (utime path ts m.metadata).0 },
      forward_all (touch path ts) (attr_of path m).location
          ++ (sync_many (touched path ts) m ++ to_client echoed ∷ []),
    ))
