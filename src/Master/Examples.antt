-- ===== src/Master/Examples.antt =====
-- A master at concrete requests.
use sector_sphere.User
use sector_sphere.Master.Dispatch.{refresh}
use sector_sphere.Master.Access.{Throws}
use sector_sphere.Base.{
  ◌^◌, ◌≡◌, subst, ◌≤◌, length, ◌⊎◌, refl, ℕ, ◌+◌, ◌<◌, pos, negsuc, codes, Text, false, true, ◌&&◌,
  Option, some, none, List, [], ◌∷◌, arith, inl, inr, is_some, ◌==◌,
}
use sector_sphere.Base.Maps
use sector_sphere.Base.Sets
use sector_sphere.Base.Keys.{nat_key, text_eq}
use sector_sphere.Address.{addr_key}
use sector_sphere.Index.Tree.{Attr, Directory, nil, entry, SNode}
use sector_sphere.Meta.{lock, lock_of, writes}
use sector_sphere.Trans
use sector_sphere.Trans.{Transaction, retrieve, opened}
use sector_sphere.Trans.Ledger.{init-IsValid}
use sector_sphere.Routing
use sector_sphere.Routing.Table
use sector_sphere.Routing.Table.{inserts}
use sector_sphere.User.{User, match}
use sector_sphere.Slaves.{SlaveNode, SlaveManager}
use sector_sphere.Slaves.IoNode.{choose_io_node}
use sector_sphere.Master.{
  is_neg, Master, World, Client, FsRequest, ls, stat, mkdir, rm, cp, touch, open_file, Sent,
  Outcome, reject, e_expired, e_security,
}
use sector_sphere.Master.Files.{exists, routed}
use sector_sphere.Master.Open.{open_path, open_old, set_up}
use sector_sphere.Master.Opened.{Opening, open_path-Opening, IsOpened}
use sector_sphere.Master.Opened.Unlocked.{open_path_unlocked}
use sector_sphere.Master.Life.{reports-open_path}
use sector_sphere.Master.Life.Reports.{Report, reports}
use sector_sphere.Master.Dispatch.{Request, process_ex, is_secure, process_fs, process, fs_cmd}
use sector_sphere.Master.Access.{
  IsRefused, process_fs-IsRefused, IsKnown, process-IsKnown, allowed, path_of,
}
use sector_sphere.Master.Setup.{slave, manager, node, user, client, world, calls, master}
use sector_sphere.Master.Run.{IsSound}
use sector_sphere.Master.Run.History.{Reach, gets, step, Reach-IsSound}

-- The user may not write /x.
abbrev outside : FsRequest
outside = mkdir (codes "/x")

not_allowed : (routed world (path_of outside) master && allowed user outside) ≡ false
unfolding path_of allowed match sector_sphere.Routing.match_path sector_sphere.Routing.finger
    sector_sphere.User.after
not_allowed = refl

process_fs-IsRefused_example :
    IsRefused (Throws outside) (process_fs world client outside master) master
process_fs-IsRefused_example = process_fs-IsRefused world client outside master not_allowed

process-IsKnown_example :
    (IsKnown (codes "10.0.1.2") 5000 7 master
      × ((user : User) × (User.lookup 7 master.users ≡ some user)
          × (process world (codes "10.0.1.2") 5000 7 (fs_cmd (ls (codes "/"))) master
              ≡ process_ex world
                  (record { ip = codes "10.0.1.2"; port = 5000; user = user; key = 7 })
                  (fs_cmd (ls (codes "/")))
                  (refresh 9 7 user master))))
    ⊎ (((User.lookup 7 master.users ≡ none)
          × (process world (codes "10.0.1.2") 5000 7 (fs_cmd (ls (codes "/"))) master
              ≡ reject e_expired master))
        ⊎ ((user : User) × (User.lookup 7 master.users ≡ some user)
            × (process world (codes "10.0.1.2") 5000 7 (fs_cmd (ls (codes "/"))) master
                ≡ reject e_security master)
            × (0 < 7 → 7 < 2 ^ 31 → ¬ ((user.ip ≡ codes "10.0.1.2") × (user.port ≡ 5000)))))
process-IsKnown_example =
    process-IsKnown world (codes "10.0.1.2") 5000 7 (fs_cmd (ls (codes "/"))) master

open_path-Opening_example :
    Opening world client 2 5001
      (codes "/d/g")
      master
      (open_path world client 2 5001 [] (codes "/d/g") master)
open_path-Opening_example =
    open_path-Opening world client 2 5001 [] (codes "/d/g") master init-IsValid

-- What the opening of /d/f for writing leaves.
abbrev held : Master
held = record master { locks = (lock (codes "/d/f") 7 2 []).0 }

abbrev opened_file : Master × List Sent
opened_file = set_up world client 2 5001 (codes "/d/f") 80 (slave 1 ∷ []) held

open_file_run : open_path world client 2 5001 [] (codes "/d/f") master ≡ some opened_file
unfolding open_path open_old Routing.match_path Routing.finger match sector_sphere.User.after
    sector_sphere.User.covered sector_sphere.User.covers sector_sphere.Index.Read.lookup
    sector_sphere.Index.Walk.locate sector_sphere.Meta.parse_path sector_sphere.Meta.parse_loop
    sector_sphere.Meta.parse_step sector_sphere.Index.Tree.find text_eq lock lock_of Maps.find
    sector_sphere.Slaves.IoNode.choose_io_node_of sector_sphere.Slaves.IoNode.choose_io_node
    sector_sphere.Slaves.location_ids Sets.add Sets.has sector_sphere.Slaves.IoNode.choose_located
    Maps.put sector_sphere.Meta.lock_read sector_sphere.Meta.lock_write
    sector_sphere.Slaves.IoNode.all_but sector_sphere.Slaves.IoNode.enter_all
    sector_sphere.Slaves.IoNode.good_ones sector_sphere.Slaves.IoNode.nodes_of
    sector_sphere.Slaves.IoNode.pick_loop sector_sphere.Slaves.IoNode.distance_of
    sector_sphere.Topology.distance sector_sphere.Topology.lookup sector_sphere.Topology.match
    sector_sphere.Topology.entry_of Trans.add_slave sector_sphere.Topology.zeros
open_file_run = refl

abbrev done_by : Report
done_by = record {
  sender = record { ip = codes "10.0.0.1"; port = 6001; user = user; key = 0 };
  slave = 1;
  change = 1;
  infos = node (codes "/d/f") ∷ [];
}

lock_granted : (lock (codes "/d/f") 7 2 []).1 ≡ pos 0
unfolding lock lock_of Maps.find
lock_granted = refl

not_read : Sets.has 7 (lock_of (codes "/d/f") []).read_lock ≡ false
unfolding lock_of Maps.find Sets.has
not_read = refl

abbrev transaction : Transaction
transaction = record (opened 0 7 110 (codes "/d/f") 2 9 1) { slave_id = 1 ∷ [] }

no_transaction : retrieve 1 master.trans ≡ none
unfolding retrieve Maps.find
no_transaction = refl

new_transaction : retrieve 1 opened_file.0.trans ≡ some transaction
unfolding retrieve set_up Maps.find Maps.put Sets.add Trans.create Trans.add_slave Trans.joined
new_transaction = refl

has_reported : (s : ℕ) → Sets.has s (1 ∷ []) ≡ true → Sets.has s (1 ∷ []) ≡ true
has_reported s h = h

reports-open_path_example :
    let m'' = reports 1 (done_by ∷ []) opened_file.0 in
    ((j : ℕ) → retrieve j m''.trans ≡ retrieve j master.trans)
    × ((q : Text) → lock_of q m''.locks ≡ lock_of q master.locks)
reports-open_path_example =
    reports-open_path world client 2 5001 [] (codes "/d/f") master opened_file.0 opened_file.1 1
      transaction done_by [] init-IsValid open_file_run lock_granted not_read no_transaction
      new_transaction has_reported

routing_run : Routing.Table.run calls Routing.init ≡ master.routing
unfolding Routing.Table.run Routing.insert Maps.find Maps.put Routing.insert_finger
routing_run = refl

no_locks : (path : Text) → length (lock_of path []).write_lock ≤ 1
unfolding lock_of Maps.find
no_locks path = ground arith

sound : IsSound master
sound = record {
  ordered = ground arith;
  exclusive = no_locks;
  routes = subst Routing.Table.IsValid routing_run (Routing.Table.run-IsValid calls);
}

abbrev after_open : Master
after_open = record (opened_file.0) {
  users = record { active_users = (7, record user { last_refresh_time = 9 }) ∷ [] };
}

abbrev request : Request
request = fs_cmd (open_file 2 5001 [] (codes "/d/f"))

request_run :
    process world (codes "10.0.1.1") 5000 7 request master ≡ some (after_open, opened_file.1)
unfolding process process_ex process_fs is_secure sector_sphere.User.lookup open_path open_old
    Routing.match_path Routing.finger match sector_sphere.User.after sector_sphere.User.covered
    sector_sphere.User.covers sector_sphere.Index.Read.lookup sector_sphere.Index.Walk.locate
    sector_sphere.Meta.parse_path sector_sphere.Meta.parse_loop sector_sphere.Meta.parse_step
    sector_sphere.Index.Tree.find text_eq lock lock_of Maps.find
    sector_sphere.Slaves.IoNode.choose_io_node_of sector_sphere.Slaves.IoNode.choose_io_node
    sector_sphere.Slaves.location_ids Sets.add Sets.has sector_sphere.Slaves.IoNode.choose_located
    Maps.put sector_sphere.Meta.lock_read sector_sphere.Meta.lock_write
    sector_sphere.Slaves.IoNode.all_but sector_sphere.Slaves.IoNode.enter_all
    sector_sphere.Slaves.IoNode.good_ones sector_sphere.Slaves.IoNode.nodes_of
    sector_sphere.Slaves.IoNode.pick_loop sector_sphere.Slaves.IoNode.distance_of
    sector_sphere.Topology.distance sector_sphere.Topology.lookup sector_sphere.Topology.match
    sector_sphere.Topology.entry_of Trans.add_slave sector_sphere.Topology.zeros
request_run = refl

opens :
    step world (gets (codes "10.0.1.1") 5000 7 request) master ≡ some (after_open, opened_file.1)
unfolding step
opens = request_run

reached : Reach master after_open
reached = Reach.next Reach.here world (gets (codes "10.0.1.1") 5000 7 request) opens

Reach-IsSound_example : IsSound after_open
Reach-IsSound_example = Reach-IsSound sound reached

-- The file /d/h is missing, and user 8 is still its writer.
abbrev locked_master : Master
locked_master = record master {
  locks = (codes "/d/h", record { read_lock = []; write_lock = 8 ∷ [] }) ∷ [];
}

h_routed : routed world (codes "/d/h") locked_master ≡ true
unfolding Routing.match_path Routing.finger
h_routed = refl

h_allowed : match (codes "/d/h") 2 user ≡ true
unfolding match sector_sphere.User.after sector_sphere.User.covered sector_sphere.User.covers
h_allowed = refl

h_missing : exists (codes "/d/h") locked_master ≡ false
unfolding sector_sphere.Index.Read.lookup sector_sphere.Index.Walk.locate
    sector_sphere.Meta.parse_path sector_sphere.Meta.parse_loop sector_sphere.Meta.parse_step
    sector_sphere.Index.Tree.find text_eq
h_missing = refl

h_locked : is_neg (lock (codes "/d/h") 7 2 locked_master.locks).1 ≡ true
unfolding lock lock_of Maps.find text_eq
h_locked = refl

h_chosen :
    choose_io_node world.inet_pton world.coin world.first world.picks world.blank []
      (codes "10.0.1.1")
      2
      []
      2
      manager
    ≡ some (manager, (slave 1 ∷ [], 1))
unfolding choose_io_node sector_sphere.Slaves.IoNode.choose_new sector_sphere.Slaves.IoNode.roomy
    Sets.has Maps.find sector_sphere.Base.Words.slt64
h_chosen = refl

open_path_unlocked_example :
    (m' : Master) × ((sent : List Sent) × (open_path world client 2 5001 []
          (codes "/d/h")
          locked_master
        ≡ some (m', sent))
      × IsOpened client 2 5001 (codes "/d/h") locked_master m' sent
      × ((q : Text) → lock_of q m'.locks ≡ lock_of q locked_master.locks))
open_path_unlocked_example =
    open_path_unlocked world client 2 5001 [] (codes "/d/h") locked_master manager (slave 1 ∷ []) 1
      init-IsValid h_routed h_allowed h_missing refl h_locked h_chosen refl
