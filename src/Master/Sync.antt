-- ===== src/Master/Sync.antt =====
-- What masters tell each other: Master::processSyncCmd, Master::processMCmd, and the loss of a slave in
-- Master::run.
use sector_sphere.Base.{ℕ, true, none, some, List, [], ◌∷◌, if◌then◌else◌, ◌==◌}
use sector_sphere.Address.{Address}
use sector_sphere.Meta.{slash, LockTable, unlock}
use sector_sphere.Index.Tree.{SNode}
use sector_sphere.Index.Edit.{create, move, remove, utime}
use sector_sphere.Index.Whole.{substract}
use sector_sphere.Trans
use sector_sphere.Trans.{TransManager, Transaction}
use sector_sphere.Routing
use sector_sphere.Slaves.{get_slave_addr}
use sector_sphere.Slaves.Members
use sector_sphere.Master.{
  Master, World, Change, reported, made_dir, renamed, moved, deleted, touched, echoed, probed, Sent,
  to_client, lost, Outcome, is_neg, others,
}
use sector_sphere.Master.System.{update_all}

unfoldable pub apply : Change → SNode → SNode
unfolding update_all
apply (reported change addr infos) root = update_all change addr infos root
apply (made_dir path) root = (create path true root).0
apply (renamed src uplevel newname) root = (move src uplevel newname root).0
apply (moved src dst) root = (move src dst [] root).0
apply (deleted path) root = (remove path true root).0
apply (touched path ts) root = (utime path ts root).0

unfoldable pub process_sync : Change → Master → Master × List Sent
unfolding apply
process_sync change m = (record m { metadata = apply change m.metadata }, to_client echoed ∷ [])

-- The message types 1001, 1005 and 1007.
pub data MasterRequest : Type 0 where
  new_master : ℕ → Address → MasterRequest
  probe : ℕ → MasterRequest
  slave_lost : ℕ → MasterRequest

abbrev pub no_address : Address
no_address = record { ip = []; port = 0 }

-- The replicas of a slave leave the metadata.
abbrev pub drop_replicas : Address → SNode → SNode
drop_replicas addr root = (substract (slash ∷ []) addr root).0

unfoldable pub on_slave_lost : World → ℕ → Master → Outcome
on_slave_lost w sid m =
    let a = get_slave_addr sid no_address m.slaves in
    let root = if is_neg a.1 then m.metadata else drop_replicas a.0 m.metadata in
    elim (Members.remove w.inet_pton w.now sid m.slaves) [
      | none ↦ none
      | some r ↦ some (record m { metadata = root; slaves = r.0 }, to_client echoed ∷ [])
    ]

unfoldable pub process_m : World → MasterRequest → Master → Outcome
unfolding on_slave_lost
process_m w (new_master key addr) m =
    some (record m { routing = (Routing.insert key addr m.routing).0 }, to_client echoed ∷ [])
process_m w (probe key) m = some (m, to_client (probed (key == m.router_key)) ∷ [])
process_m w (slave_lost sid) m = on_slave_lost w sid m

-- The locks and the transactions once a slave has left one of these.
unfoldable pub settle_one : ℕ → ℕ → LockTable × TransManager → LockTable × TransManager
settle_one slaveid transid (locks, tm) =
    let t = Trans.or_blank (Trans.retrieve transid tm) in
    ((unlock t.file t.user_key t.mode locks).0, (Trans.update_slave transid slaveid tm).0)

unfoldable pub settle_all : ℕ → List ℕ → LockTable × TransManager → LockTable × TransManager
unfolding settle_one
settle_all slaveid [] s = s
settle_all slaveid (t ∷ trans) s = settle_all slaveid trans (settle_one slaveid t s)

-- The loop of Master::run over the slaves that are lost, for one of them; its restart is left out.
unfoldable pub lose_slave : World → ℕ → Address → Master → Outcome
unfolding settle_all
lose_slave w sid addr m =
    let s = settle_all sid (Trans.retrieve_slave sid m.trans) (m.locks, m.trans) in
    elim (Members.remove w.inet_pton w.now sid m.slaves) [
      | none ↦ none
      | some r ↦ some (
        record m {
          metadata = drop_replicas addr m.metadata;
          locks = s.0;
          trans = s.1;
          slaves = r.0;
        },
        lost (others m.router_key m.routing.address_list) sid ∷ [],
      )
    ]
