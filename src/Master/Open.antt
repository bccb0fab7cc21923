-- ===== src/Master/Open.antt =====
-- Master::processFSCmd: the opening of a file, which locks it, starts a transaction, and sets up the chain
-- of the slaves that write it.
use sector_sphere.Base.{
  ℕ, ◌-◌, ◌/◌, ◌%◌, Text, false, not, none, some, List, [], ◌∷◌, ◌++◌, if◌then◌else◌, ◌==◌,
  is_empty,
}
use sector_sphere.Address.{Address}
use sector_sphere.Index.Read.{e_noexist}
use sector_sphere.Index.Edit.{create}
use sector_sphere.Meta.{lock, writes}
use sector_sphere.Trans
use sector_sphere.Trans.{TransManager}
use sector_sphere.Slaves.{SlaveNode, e_nodisk}
use sector_sphere.Slaves.IoNode.{choose_io_node, choose_io_node_of}
use sector_sphere.Master.{
  Master, World, Client, Order, opened, rejected, Sent, to_client, order, Outcome, reject, is_neg,
  address_of, e_busy, e_resource,
}
use sector_sphere.Master.Files.{permit, exists, attr_of}

abbrev pub data_address : SlaveNode → Address
data_address s = record { ip = s.ip; port = s.data_port }

-- SF_MODE::SECURE is bit 4.
abbrev pub insecure : ℕ → ℕ
insecure mode = if mode / 16 % 2 == 1 then mode - 16 else mode

-- The order of a slave: the source is the next slave or else the client, the target the slave before.
abbrev pub source_of : Address → List SlaveNode → Address
source_of client [] = client
source_of client (s ∷ addr) = data_address s

-- The mode stays in the message once a slave with a next one has changed it.
abbrev pub sent_mode : ℕ → ℕ → List SlaveNode → ℕ
sent_mode mode last [] = last
sent_mode mode last (s ∷ addr) = insecure mode

-- The loop over the slaves: what is sent, the transactions, and the last target. `o` is the message of
-- the slave before.
unfoldable pub chain :
    World
    → ℕ
    → Address
    → Order
    → List SlaveNode
    → TransManager
    → List Sent × (TransManager × Address)
chain w mode client o [] tm = ([], (tm, o.target))
chain w mode client o (s ∷ addr) tm =
    let o' : Order = record o {
      source = source_of client addr;
      mode = sent_mode mode o.mode addr;
    } in
    let failed = if w.answers s then [] else to_client (rejected e_resource) ∷ [] in
    let tm' = (Trans.add_slave o.trans_id s.node_id tm).0 in
    let r = chain w mode client (record o' { target = data_address s }) addr tm' in
    (order (address_of s) o' ∷ (failed ++ r.0), r.1)

abbrev pub first_order : Client → ℕ → ℕ → Text → Order
first_order c mode transid path = record {
  source = record { ip = []; port = 0 };
  target = record { ip = []; port = 0 };
  key = c.key;
  mode = mode;
  trans_id = transid;
  path = path;
}

-- The transaction of an open file, with the slaves in its chain.
unfoldable pub set_up :
    World → Client → ℕ → ℕ → Text → ℕ → List SlaveNode → Master → Master × List Sent
unfolding chain
set_up w c mode dataport path size addr m =
    let t = Trans.create 0 c.key 110 path mode w.now m.trans in
    let client : Address = record { ip = c.ip; port = dataport } in
    let r = chain w mode client (first_order c mode t.1 path) addr t.0 in
    (record m { trans = r.1.0 }, r.0 ++ to_client (opened r.1.1 t.1 size) ∷ [])

abbrev pub hint_of : Client → Text → Text
hint_of c hintip = if is_empty hintip then c.ip else hintip

-- A file that does not exist: the code of `lock` is not looked at.
unfoldable pub open_new : World → Client → ℕ → ℕ → Text → Text → Master → Outcome
unfolding set_up
open_new w c mode dataport hintip path m =
    if not (writes mode)
    then reject e_noexist m
    else elim (choose_io_node w.inet_pton w.coin w.first w.picks w.blank [] (hint_of c hintip) mode
        [] m.replica_num m.slaves) [
          | none ↦ none
          | some (slaves, (addr, n)) ↦
              if n == 0
              then reject e_nodisk (record m { slaves = slaves })
              else some (
                  set_up w c mode dataport path 0 addr (record m {
                    slaves = slaves;
                    metadata = (create path false m.metadata).0;
                    locks = (lock path c.key mode m.locks).0;
                  }))
        ]

-- A file that exists: the number of its slaves is not looked at.
unfoldable pub open_old : World → Client → ℕ → ℕ → Text → Text → Master → Outcome
unfolding set_up
open_old w c mode dataport hintip path m =
    let l = lock path c.key mode m.locks in
    let a = attr_of path m in
    if is_neg l.1
    then reject e_busy (record m { locks = l.0 })
    else elim (choose_io_node_of w.inet_pton w.coin w.first w.picks w.blank a.location
        (hint_of c hintip) mode [] m.replica_num m.slaves) [
          | none ↦ none
          | some (slaves, (addr, n)) ↦ some (
              set_up w c mode dataport path a.size addr (record m { slaves = slaves; locks = l.0 }))
        ]

unfoldable pub open_path : World → Client → ℕ → ℕ → Text → Text → Master → Outcome
unfolding open_new open_old
open_path w c mode dataport hintip path m = permit w c path mode m (
    if exists path m
    then open_old w c mode dataport hintip path m
    else open_new w c mode dataport hintip path m)
