-- ===== src/Master/Opened.antt =====
-- What the opening of a file leaves: a lock, a transaction with its slaves, and an order for each slave.
pub mod Chain
pub mod Unlocked
use sector_sphere.Base.{
  ◌≡◌, ◌≢◌, refl, ◌∙◌, ℕ, ℤ, Text, Set, true, false, not, ◌&&◌, none, some, List, [], ◌∷◌, ◌++◌,
  arith, inl, inr, Bool-cases, Option-cases, if◌then◌else◌, ◌==◌,
}
use sector_sphere.Base.Sets
use sector_sphere.Base.Keys.{nat_key}
use sector_sphere.Address.{Address}
use sector_sphere.Meta.{lock, lock_of, writes}
use sector_sphere.Meta.Locks.{lock_cases}
use sector_sphere.Index.Edit.{create}
use sector_sphere.Index.Read.{e_noexist}
use sector_sphere.Trans
use sector_sphere.Trans.{Transaction, TransManager, opened, retrieve}
use sector_sphere.Trans.Ledger
use sector_sphere.Trans.Ledger.{create_fresh, retrieve-add_slave}
use sector_sphere.User.{match}
use sector_sphere.Slaves.{SlaveNode, e_nodisk}
use sector_sphere.Slaves.IoNode.{choose_io_node, choose_io_node_of}
use sector_sphere.Master.{
  Master, World, Client, Order, Sent, to_client, forward, relocate, order, replicate, start, sync,
  lost, Outcome, reject, address_of, is_neg, e_master, e_permission, e_busy,
}
use sector_sphere.Master.Files.{exists, routed, attr_of}
use sector_sphere.Master.Open.{
  chain, first_order, set_up, open_new, open_old, open_path, hint_of, data_address, source_of,
}
use sector_sphere.Master.Opened.Chain.{
  add_ids, orders, IsChain, chain-IsChain, chain-retrieve, chain_other,
}

-- The file is locked for the user as far as the lock is granted, and a new transaction has it and the slaves
-- of a chain, which have their orders.
pub record IsOpened (c : Client) (mode dataport : ℕ) (path : Text) (m m' : Master)
    (sent : List Sent) : Type 0 where
  pub transid : ℕ
  pub addr : List SlaveNode
  pub fresh : retrieve transid m.trans ≡ none
  pub now : ℕ
  pub found :
      retrieve transid m'.trans
      ≡ some (record (opened 0 c.key 110 path mode now transid) { slave_id = add_ids addr [] })
  pub others : (j : ℕ) → j ≢ transid → retrieve j m'.trans ≡ retrieve j m.trans
  pub locked : m'.locks ≡ (lock path c.key mode m.locks).0
  pub made : m'.metadata ≡ (if exists path m then m.metadata else (create path false m.metadata).0)
  pub ordered :
      IsChain
        (record { ip = c.ip; port = dataport })
        c.key
        transid
        path
        (record { ip = []; port = 0 })
        addr
        (orders sent)

pub set_up-IsOpened :
    (w : World) (c : Client) (mode dataport : ℕ) (path : Text) (size : ℕ) (addr : List SlaveNode)
    (m m' : Master)
    → Ledger.IsValid m.trans
    → m'.trans ≡ m.trans
    → m'.locks ≡ (lock path c.key mode m.locks).0
    → m'.metadata ≡ (if exists path m then m.metadata else (create path false m.metadata).0)
    → let r = set_up w c mode dataport path size addr m' in IsOpened c mode dataport path m r.0 r.1
unfolding set_up
set_up-IsOpened w c mode dataport path size addr m m' v e l k =
    let f = create_fresh 0 c.key 110 path mode w.now m.trans v in
    let t = Trans.create 0 c.key 110 path mode w.now m.trans in
    let client : Address = record { ip = c.ip; port = dataport } in
    let o = first_order c mode t.1 path in
    rw e (record {
      transid = t.1;
      addr = addr;
      fresh = f.0;
      now = w.now;
      found = chain-retrieve w mode client addr o t.0 (opened 0 c.key 110 path mode w.now t.1) f.1;
      others = λ j h. chain_other w mode client addr o t.0 j h ∙ f.3 j h;
      locked = l;
      made = k;
      ordered = chain-IsChain w mode client addr o t.0 _ (unfold orders in refl);
    })

-- How the opening of a file may end: undefined, where the choice of slaves is; refused by a code, with the metadata, the
-- transactions and every lock as before; or done, by a user who may, on a file that exists and whose lock is
-- granted, or on a new one for writing.
pub data Opening (w : World) (c : Client) (mode dataport : ℕ) (path : Text) (m : Master)
    : Outcome → Type 0 where
  undefined : Opening w c mode dataport path m none
  refused :
      (code : ℤ) (m' : Master)
      → m'.metadata ≡ m.metadata
      → m'.trans ≡ m.trans
      → ((q : Text) → lock_of q m'.locks ≡ lock_of q m.locks)
      → Opening w c mode dataport path m (reject code m')
  done :
      (m' : Master) (sent : List Sent)
      → (routed w path m && match path mode c.user) ≡ true
      → (if exists path m then not (is_neg (lock path c.key mode m.locks).1) else writes mode)
        ≡ true
      → IsOpened c mode dataport path m m' sent
      → Opening w c mode dataport path m (some (m', sent))

stays :
    (path : Text) (user mode : ℕ) (m : Master)
    → is_neg (lock path user mode m.locks).1 ≡ true
    → (q : Text) → lock_of q (lock path user mode m.locks).0 ≡ lock_of q m.locks
stays path user mode m h q = ground (arith, h, lock_cases path q user mode m.locks)

module _ (w : World) (c : Client) (mode dataport : ℕ) (hintip path : Text) (m : Master)
    (v : Ledger.IsValid m.trans) (may : (routed w path m && match path mode c.user) ≡ true) where
  open_new-Opening :
      exists path m ≡ false
      → Opening w c mode dataport path m (open_new w c mode dataport hintip path m)
  unfolding open_new
  open_new-Opening x = elim (Bool-cases (writes mode)) [
    | inr e ↦ rw (open_new, e) (Opening.refused e_noexist m refl refl (λ q. refl))
    | inl e ↦
        elim (Option-cases (
          choose_io_node w.inet_pton w.coin w.first w.picks w.blank [] (hint_of c hintip) mode []
            m.replica_num m.slaves)) [
              | inl f ↦ rw (open_new, e, f) Opening.undefined
              | inr ((slaves, (addr, n)), f) ↦ elim (Bool-cases (n == 0)) [
                | inl g ↦
                    rw (open_new, e, f, g)
                      (Opening.refused e_nodisk (record m { slaves = slaves }) refl refl
                        (λ q. refl))
                | inr g ↦
                    let m' : Master = record m {
                      slaves = slaves;
                      metadata = (create path false m.metadata).0;
                      locks = (lock path c.key mode m.locks).0;
                    } in
                    rw (open_new, e, f, g)
                      (Opening.done _ _ may (rw x e) (
                        set_up-IsOpened w c mode dataport path 0 addr m m' v refl refl (rw x refl)))
              ]
            ]
  ]

  open_old-Opening :
      exists path m ≡ true
      → Opening w c mode dataport path m (open_old w c mode dataport hintip path m)
  unfolding open_old
  open_old-Opening x = elim (Bool-cases (is_neg (lock path c.key mode m.locks).1)) [
    | inl e ↦
        rw (open_old, e)
          (Opening.refused e_busy (record m { locks = (lock path c.key mode m.locks).0 }) refl refl
            (stays path c.key mode m e))
    | inr e ↦
        elim (Option-cases (
          choose_io_node_of w.inet_pton w.coin w.first w.picks w.blank (attr_of path m).location
            (hint_of c hintip) mode [] m.replica_num m.slaves)) [
              | inl f ↦ rw (open_old, e, f) Opening.undefined
              | inr ((slaves, (addr, n)), f) ↦
                  let m' : Master = record m {
                    slaves = slaves;
                    locks = (lock path c.key mode m.locks).0;
                  } in
                  rw (open_old, e, f)
                    (Opening.done _ _ may (rw x (ground (arith, e))) (
                      set_up-IsOpened w c mode dataport path (attr_of path m).size addr m m' v refl
                        refl (rw x refl)))
            ]
  ]

-- The opening of a file is undefined where the choice of slaves is, or refused with nothing changed, or done.
-- Done it is only for a user who may and by the master whose share the path is, on an existing file whose lock is
-- granted or on a new one for writing. It leaves exactly one transaction more, whose identifier was free, with the file, the
-- user and the slaves of the chain, and sends to each slave of the chain an order that names its neighbours. The list of
-- transactions is well formed before.
pub open_path-Opening :
    (w : World) (c : Client) (mode dataport : ℕ) (hintip path : Text) (m : Master)
    → Ledger.IsValid m.trans
    → Opening w c mode dataport path m (open_path w c mode dataport hintip path m)
unfolding open_path
open_path-Opening w c mode dataport hintip path m v = elim (Bool-cases (routed w path m)) [
  | inr e ↦ rw (open_path, e) (Opening.refused e_master m refl refl (λ q. refl))
  | inl e ↦ elim (Bool-cases (match path mode c.user)) [
    | inr f ↦ rw (open_path, e, f) (Opening.refused e_permission m refl refl (λ q. refl))
    | inl f ↦
        let may : (routed w path m && match path mode c.user) ≡ true = rw (e, f) refl in
        elim (Bool-cases (exists path m)) [
          | inl g ↦
              rw (open_path, e, f, g) (open_old-Opening w c mode dataport hintip path m v may g)
          | inr g ↦
              rw (open_path, e, f, g) (open_new-Opening w c mode dataport hintip path m v may g)
        ]
  ]
]
