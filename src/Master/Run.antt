-- ===== src/Master/Run.antt =====
-- Whatever the master is asked, its index stays ordered and its locks exclusive.
pub mod Events
pub mod History
use sector_sphere.Base.{
  ◌≡◌, refl, ℕ, zero, suc, ℤ, pos, negsuc, Text, Bool, true, false, not, ◌&&◌, Option, none, some,
  List, [], ◌∷◌, arith, inl, inr, Bool-cases, Option-cases, if◌then◌else◌, ◌==◌,
}
use sector_sphere.Address.{Address}
use sector_sphere.Meta.{LockTable, lock, writes}
use sector_sphere.Meta.Locks.{IsExclusive, lock-IsExclusive, unlock-IsExclusive}
use sector_sphere.Index.Tree.{Attr, SNode}
use sector_sphere.Index.Tree.Order.{IsOrdered}
use sector_sphere.Index.Edit.{create, move, remove, update, utime}
use sector_sphere.Index.Edit.Order.{apply-IsOrdered, creates, moves, removes, updates, utimes}
use sector_sphere.Index.Whole.Order.{substract-IsOrdered}
use sector_sphere.Routing
use sector_sphere.Routing.Table
use sector_sphere.Trans
use sector_sphere.Trans.{TransManager}
use sector_sphere.Slaves.{SlaveNode, SlaveManager}
use sector_sphere.Master.{
  Master, World, Client, Change, reported, made_dir, renamed, moved, deleted, touched, Sent,
  Outcome, reject,
}
use sector_sphere.Master.Guards.{rejects, permits, permits_two}
use sector_sphere.Index.Read.{list, e_noexist}
use sector_sphere.Slaves.IoNode.{choose_io_node, choose_io_node_of}
use sector_sphere.Master.{uplevel_of, newname_of, e_exist, e_noempty, e_resource, e_busy, is_neg}
use sector_sphere.Master.Files.{
  exists, attr_of, new_dir, make_dir, move_path, remove_path, move_metadata,
}
use sector_sphere.Master.Open.{set_up, open_new, open_old, hint_of}
use sector_sphere.Master.Sync.{apply}
use sector_sphere.Master.System.{update_all, remove_all}

-- The metadata is ordered at every level, no path has two writers, and the finger table of the masters fits their list.
pub record IsSound (m : Master) : Type 0 where
  pub ordered : IsOrdered m.metadata.directory
  pub exclusive : IsExclusive m.locks
  pub routes : Routing.Table.IsValid m.routing

abbrev pub IsSafe : Outcome → Type 0
IsSafe none = Unit
IsSafe (some (m, sent)) = IsSound m

abbrev pub Ordered : SNode → Type 0
Ordered s = IsOrdered s.directory

pub update_all-Ordered :
    (change : ℕ) (addr : Address) (l : List Attr) (s : SNode)
    → Ordered s
    → Ordered (update_all change addr l s)
unfolding update_all sector_sphere.Index.Edit.Order.apply
update_all-Ordered change addr [] s o = o
update_all-Ordered change addr (a ∷ l) s o =
    update_all-Ordered change addr l (update a addr change s).0
      (apply-IsOrdered (updates a addr change) s o)

pub remove_all-Ordered : (l : List Text) (s : SNode) → Ordered s → Ordered (remove_all l s)
unfolding remove_all sector_sphere.Index.Edit.Order.apply
remove_all-Ordered [] s o = o
remove_all-Ordered (p ∷ l) s o =
    remove_all-Ordered l (remove p false s).0 (apply-IsOrdered (removes p false) s o)

pub apply-Ordered : (change : Change) (s : SNode) → Ordered s → Ordered (apply change s)
unfolding apply sector_sphere.Index.Edit.Order.apply
apply-Ordered (reported change addr infos) s o = update_all-Ordered change addr infos s o
apply-Ordered (made_dir path) s o = apply-IsOrdered (creates path true) s o
apply-Ordered (renamed src uplevel newname) s o = apply-IsOrdered (moves src uplevel newname) s o
apply-Ordered (moved src dst) s o = apply-IsOrdered (moves src dst []) s o
apply-Ordered (deleted path) s o = apply-IsOrdered (removes path true) s o
apply-Ordered (touched path ts) s o = apply-IsOrdered (utimes path ts) s o

pub reject-IsSafe : (m : Master) → IsSound m → (code : ℤ) → IsSafe (reject code m)
reject-IsSafe m s code = s

pub with_metadata :
    (m : Master) (root : SNode) → IsSound m → Ordered root → IsSound (record m { metadata = root })
with_metadata m root s o = record { ordered = o; exclusive = s.exclusive; routes = s.routes }

module _ (w : World) (c : Client) (m : Master) (s : IsSound m) where
  new_dir-IsSafe :
      (path : Text) (addr : List SlaveNode) (slaves : SlaveManager)
      → IsSafe (new_dir path addr (record m { slaves = slaves }))
  unfolding new_dir apply
  new_dir-IsSafe path [] slaves = tt
  new_dir-IsSafe path (n ∷ addr) slaves = record {
    ordered = apply-Ordered (made_dir path) m.metadata s.ordered;
    exclusive = s.exclusive;
    routes = s.routes;
  }

  chosen-IsSafe :
      (path : Text) (addr : List SlaveNode) (none_left : Bool) (slaves : SlaveManager)
      → IsSafe (
          if none_left
          then reject e_resource (record m { slaves = slaves })
          else new_dir path addr (record m { slaves = slaves }))
  chosen-IsSafe path addr true slaves = record {
    ordered = s.ordered;
    exclusive = s.exclusive;
    routes = s.routes;
  }
  chosen-IsSafe path addr false slaves = new_dir-IsSafe path addr slaves

  pub make_dir-IsSafe : (path : Text) → IsSafe (make_dir w c path m)
  unfolding make_dir
  make_dir-IsSafe path = permits IsSafe m (reject-IsSafe m s) w c path 2 _ (
      rejects IsSafe m (reject-IsSafe m s) (exists path m) e_exist _
        (elim (Option-cases
          (choose_io_node w.inet_pton w.coin w.first w.picks w.blank [] c.ip 2 [] 1 m.slaves)) [
            | inl e ↦ rw e tt
            | inr ((slaves, (addr, n)), e) ↦ rw e (chosen-IsSafe path addr (n == 0) slaves)
          ]))

  pub move_path-IsSafe : (src dst : Text) → IsSafe (move_path w c src dst m)
  unfolding move_path apply
  move_path-IsSafe src dst =
      permits_two IsSafe m (reject-IsSafe m s) w c src dst (uplevel_of dst) _ tt
        (elim (Bool-cases (exists dst m)) [
          | inl e ↦ rw e (with_metadata m _ s (apply-Ordered (moved src dst) m.metadata s.ordered))
          | inr e ↦ rw e (
              with_metadata m _ s (
                apply-Ordered (renamed src (uplevel_of dst) (newname_of dst)) m.metadata s.ordered))
        ])

  emptied-IsSafe :
      (code : ℤ) (m' : Master) (sent : List Sent)
      → IsSound m'
      → IsSafe (elim code [ pos (suc n) ↦ reject e_noempty m | other ↦ some (m', sent) ])
  emptied-IsSafe (pos (suc n)) m' sent h = s
  emptied-IsSafe (pos zero) m' sent h = h
  emptied-IsSafe (negsuc n) m' sent h = h

  pub remove_path-IsSafe : (path : Text) → IsSafe (remove_path w c path m)
  unfolding remove_path apply
  remove_path-IsSafe path =
      let h = apply-Ordered (deleted path) m.metadata s.ordered in
      permits IsSafe m (reject-IsSafe m s) w c path 2 _ (
        rejects IsSafe m (reject-IsSafe m s) (not (exists path m)) e_noexist _
          (elim (Bool-cases (attr_of path m).is_dir) [
            | inl e ↦ rw e (
                emptied-IsSafe (list path [] m.metadata).1 _ _
                  (record { ordered = h; exclusive = s.exclusive; routes = s.routes }))
            | inr e ↦ rw e (with_metadata m _ s h)
          ]))

  pub open_new-IsSafe :
      (mode dataport : ℕ) (hintip path : Text) → IsSafe (open_new w c mode dataport hintip path m)
  unfolding open_new set_up sector_sphere.Index.Edit.Order.apply
  open_new-IsSafe mode dataport hintip path =
      rejects IsSafe m (reject-IsSafe m s) (not (writes mode)) e_noexist _
        (elim (Option-cases (
          choose_io_node w.inet_pton w.coin w.first w.picks w.blank [] (hint_of c hintip) mode []
            m.replica_num m.slaves)) [
              | inl e ↦ rw e tt
              | inr ((slaves, (addr, n)), e) ↦ rw e (elim (Bool-cases (n == 0)) [
                | inl f ↦
                    rw f
                      (record { ordered = s.ordered; exclusive = s.exclusive; routes = s.routes })
                | inr f ↦ rw f (record {
                  ordered = apply-IsOrdered (creates path false) m.metadata s.ordered;
                  exclusive = lock-IsExclusive path c.key mode m.locks s.exclusive;
                  routes = s.routes;
                })
              ])
            ])

  pub open_old-IsSafe :
      (mode dataport : ℕ) (hintip path : Text) → IsSafe (open_old w c mode dataport hintip path m)
  unfolding open_old set_up
  open_old-IsSafe mode dataport hintip path =
      let x = lock-IsExclusive path c.key mode m.locks s.exclusive in
      let held : (l : LockTable) → IsExclusive l → IsSound (record m { locks = l }) =
        λ l h. record { ordered = s.ordered; exclusive = h; routes = s.routes } in
      elim (Bool-cases (is_neg (lock path c.key mode m.locks).1)) [
        | inl e ↦ rw (open_old, e) (held (lock path c.key mode m.locks).0 x)
        | inr e ↦
            elim (Option-cases (
              choose_io_node_of w.inet_pton w.coin w.first w.picks w.blank (attr_of path m).location
                (hint_of c hintip) mode [] m.replica_num m.slaves)) [
                  | inl f ↦ rw (open_old, e, f) tt
                  | inr ((slaves, (addr, n)), f) ↦
                      rw (open_old, e, f)
                        (record { ordered = s.ordered; exclusive = x; routes = s.routes })
                ]
      ]
