-- ===== src/Master/Opened/Chain.antt =====
-- Master::processFSCmd: the chain of slaves of a file that is opened.
use sector_sphere.Base.{
  ◌≡◌, ◌≢◌, refl, ◌∙◌, ℕ, Text, Set, some, List, [], ◌∷◌, ◌++◌, arith, inl, inr, Bool-cases,
}
use sector_sphere.Base.Sets
use sector_sphere.Base.Keys.{nat_key}
use sector_sphere.Address.{Address}
use sector_sphere.Trans
use sector_sphere.Trans.{Transaction, TransManager, opened, retrieve}
use sector_sphere.Trans.Ledger.{retrieve-add_slave}
use sector_sphere.Slaves.{SlaveNode}
use sector_sphere.Master.{
  World, Order, Sent, to_client, forward, relocate, order, replicate, start, sync, lost, address_of,
}
use sector_sphere.Master.Open.{chain, data_address, source_of}

unfoldable pub add_ids : List SlaveNode → Set ℕ → Set ℕ
add_ids [] s = s
add_ids (n ∷ addr) s = add_ids addr (Sets.add n.node_id s)

-- The orders among what is sent, with the slaves that get them.
unfoldable pub orders : List Sent → List (Address × Order)
orders [] = []
orders (order a o ∷ l) = (a, o) ∷ orders l
orders (to_client r ∷ l) = orders l
orders (forward a r ∷ l) = orders l
orders (relocate a src uplevel newname ∷ l) = orders l
orders (replicate a t ts src dst ∷ l) = orders l
orders (start a t ip p d ∷ l) = orders l
orders (sync al change ∷ l) = orders l
orders (lost al sid ∷ l) = orders l

-- Each slave of the chain gets one order, in the order of the chain, which is for the transaction and takes its data from the next
-- slave, the last one from the client; its target is the slave before.
abbrev pub IsChain :
    Address → ℕ → ℕ → Text → Address → List SlaveNode → List (Address × Order) → Type 0
IsChain client key transid path before [] [] = Unit
IsChain client key transid path before (s ∷ addr) [] = ⊥
IsChain client key transid path before [] (o ∷ l) = ⊥
IsChain client key transid path before (s ∷ addr) ((a, o) ∷ l) =
    (a ≡ address_of s)
    × (o.trans_id ≡ transid)
    × (o.key ≡ key)
    × (o.path ≡ path)
    × (o.source ≡ source_of client addr)
    × (o.target ≡ before)
    × IsChain client key transid path (data_address s) addr l

pub chain-IsChain :
    (w : World) (mode : ℕ) (client : Address) (addr : List SlaveNode) (o : Order)
    (tm : TransManager) (rest : List Sent)
    → orders rest ≡ []
    → IsChain client o.key o.trans_id o.path o.target addr
        (orders ((chain w mode client o addr tm).0 ++ rest))
unfolding chain orders
chain-IsChain w mode client [] o tm rest h = rw h tt
chain-IsChain w mode client (s ∷ addr) o tm rest h = elim (Bool-cases (w.answers s)) [
  | inl e ↦ rw e (refl, refl, refl, refl, refl, refl, chain-IsChain w mode client addr _ _ rest h)
  | inr e ↦ rw e (refl, refl, refl, refl, refl, refl, chain-IsChain w mode client addr _ _ rest h)
]

-- The transaction of the chain gets its slaves.
pub chain-retrieve :
    (w : World) (mode : ℕ) (client : Address) (addr : List SlaveNode) (o : Order)
    (tm : TransManager) (t : Transaction)
    → retrieve o.trans_id tm ≡ some t
    → retrieve o.trans_id (chain w mode client o addr tm).1.0
      ≡ some (record t { slave_id = add_ids addr t.slave_id })
unfolding chain add_ids Trans.joined
chain-retrieve w mode client [] o tm t h = h
chain-retrieve w mode client (s ∷ addr) o tm t h =
    chain-retrieve w mode client addr _ (Trans.add_slave o.trans_id s.node_id tm).0
      (record t { slave_id = Sets.add s.node_id t.slave_id })
      (ground (arith, retrieve-add_slave o.trans_id s.node_id o.trans_id tm))

-- No other transaction is touched.
pub chain_other :
    (w : World) (mode : ℕ) (client : Address) (addr : List SlaveNode) (o : Order)
    (tm : TransManager) (j : ℕ)
    → j ≢ o.trans_id
    → retrieve j (chain w mode client o addr tm).1.0 ≡ retrieve j tm
unfolding chain
chain_other w mode client [] o tm j h = refl
chain_other w mode client (s ∷ addr) o tm j h =
    chain_other w mode client addr _ (Trans.add_slave o.trans_id s.node_id tm).0 j h
    ∙ ground (arith, h, retrieve-add_slave o.trans_id s.node_id j tm)
