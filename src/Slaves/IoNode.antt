-- ===== src/Slaves/IoNode.antt =====
-- SlaveManager::chooseIONode: the slaves that a client reads a file from, or writes it to.
pub mod Nearest
use sector_sphere.Base.{
  ℕ, zero, suc, ◌+◌, ◌-◌, ◌/◌, ◌%◌, ◌≤◌, ◌≡◌, refl, ℤ, pos, negsuc, Text, Map, Set, Bool, true,
  false, not, ◌&&◌, ◌||◌, Option, none, some, List, [], ◌∷◌, ◌++◌, length, get_elem?, if◌then◌else◌,
  ◌==◌, ltb, slt64, nat_key, is_empty,
}
use sector_sphere.Base.Maps
use sector_sphere.Base.Sets
use sector_sphere.Topology.{distance}
use sector_sphere.Address.{Address, addr_key}
use sector_sphere.Slaves.{SlaveNode, SlaveManager, choose_replica_node, location_ids}

-- m_mSlaveList[i], which enters a blank node for an id that is missing.
abbrev pub or_blank : SlaveNode → Option SlaveNode → SlaveNode
or_blank blank none = blank
or_blank blank (some s) = s

unfoldable pub enter_all : SlaveNode → List ℕ → Map ℕ SlaveNode → Map ℕ SlaveNode
enter_all blank [] slaves = slaves
enter_all blank (i ∷ l) slaves =
    enter_all blank l (Maps.put i (or_blank blank (Maps.find i slaves)) slaves)

-- The ids that are not bad: the loop looks these up.
unfoldable pub good_ones : Set ℕ → List ℕ → List ℕ
good_ones bad [] = []
good_ones bad (i ∷ l) = let rest = good_ones bad l in if Sets.has i bad then rest else i ∷ rest

-- The loop for the nearest node. A node as near as the nearest so far replaces it by a coin.
unfoldable pub pick_loop : (ℕ → Bool) → (ℕ → ℕ) → List ℕ → ℕ → ℕ → ℕ
pick_loop coin d [] dist n = n
pick_loop coin d (i ∷ l) dist n =
    let closer = ltb (d i) dist in
    let taken = closer || (d i == dist && coin i) in
    pick_loop coin d l (if closer then d i else dist) (if taken then i else n)

unfoldable pub all_but : ℕ → List ℕ → List ℕ
all_but n [] = []
all_but n (i ∷ l) = let rest = all_but n l in if i == n then rest else i ∷ rest

unfoldable pub nodes_of : SlaveNode → Map ℕ SlaveNode → List ℕ → List SlaveNode
nodes_of blank slaves [] = []
nodes_of blank slaves (i ∷ l) = or_blank blank (Maps.find i slaves) ∷ nodes_of blank slaves l

-- A bad node is as far as can be.
unfoldable pub distance_of : (Text → ℤ × ℕ) → Text → SlaveNode → SlaveManager → ℕ → ℕ
distance_of inet_pton client blank m i =
    if Sets.has i m.bad_slaves
    then 1000000000
    else distance inet_pton client (or_blank blank (Maps.find i m.slave_list)).ip m.topology

abbrev pub is_write : ℕ → Bool
is_write mode = mode / 2 % 2 == 1

-- The branch for a file that has locations, n0 the first of them.
unfoldable pub choose_located :
    (Text → ℤ × ℕ)
    → (ℕ → Bool)
    → SlaveNode
    → Text
    → ℕ
    → ℕ
    → List ℕ
    → SlaveManager
    → SlaveManager × List SlaveNode
unfolding enter_all good_ones pick_loop all_but nodes_of distance_of
choose_located inet_pton coin blank client mode n0 l m =
    let loclist = n0 ∷ l in
    let n = pick_loop coin (distance_of inet_pton client blank m) loclist 1000000000 n0 in
    let others = if is_write mode then all_but n loclist else [] in
    let looked = good_ones m.bad_slaves loclist ++ n ∷ others in
    (
      record m { slave_list = enter_all blank looked m.slave_list },
      nodes_of blank m.slave_list (n ∷ others),
    )

unfoldable pub roomy : Set ℕ → Map ℕ SlaveNode → List ℕ
roomy bad [] = []
roomy bad ((i, s) ∷ slaves) =
    let rest = roomy bad slaves in
    if Sets.has i bad then rest else if slt64 10000000000 s.avail_disk_space then i ∷ rest else rest

unfoldable pub ids_of : List SlaveNode → Set ℕ
ids_of [] = []
ids_of (s ∷ sl) = Sets.add s.node_id (ids_of sl)

-- The further nodes for immediate replicas, with a random number for each round.
unfoldable pub more_nodes :
    (ℕ → ℕ → ℕ) → SlaveNode → ℕ → List SlaveNode → SlaveManager → Option (List SlaveNode)
unfolding ids_of
more_nodes picks blank zero sl m = some sl
more_nodes picks blank (suc k) sl m =
    elim (choose_replica_node (picks k) (ids_of sl) blank 10000000000 m) [
      | none ↦ none
      | some (s, pos c) ↦ more_nodes picks blank k (sl ++ s ∷ []) m
      | some (s, negsuc c) ↦ more_nodes picks blank k sl m
    ]

abbrev pub is_reliable : ℕ → Bool
is_reliable mode = mode / 32 % 2 == 1

-- The branch for a new file. A position in the roomy nodes is chosen by `first`, and `none` stands for
-- a read behind them, as it happens if there are none.
unfoldable pub choose_new :
    (ℕ → ℕ)
    → (ℕ → ℕ → ℕ)
    → SlaveNode
    → ℕ
    → ℕ
    → List SlaveNode
    → SlaveManager
    → Option (List SlaveNode)
unfolding roomy more_nodes
choose_new first picks blank mode replica sl m =
    let avail = roomy m.bad_slaves m.slave_list in
    elim (get_elem? avail (first (length avail))) [
      | none ↦ none
      | some n ↦
          let sl = sl ++ or_blank blank (Maps.find n m.slave_list) ∷ [] in
          if is_reliable mode then more_nodes picks blank (replica - 1) sl m else some sl
    ]

-- The slaves are put behind those that are passed in, and the code is 0, 1 or their number.
unfoldable pub choose_io_node :
    (Text → ℤ × ℕ)
    → (ℕ → Bool)
    → (ℕ → ℕ)
    → (ℕ → ℕ → ℕ)
    → SlaveNode
    → List ℕ
    → Text
    → ℕ
    → List SlaveNode
    → ℕ
    → SlaveManager
    → Option (SlaveManager × (List SlaveNode × ℕ))
unfolding choose_located choose_new
choose_io_node inet_pton coin first picks blank [] client mode sl replica m =
    let new = choose_new first picks blank mode replica sl m in
    if is_write mode
    then elim new [ none ↦ none | some sl' ↦ some (m, (sl', length sl')) ]
    else some (m, (sl, 0))
choose_io_node inet_pton coin first picks blank (n ∷ l) client mode sl replica m =
    let r = choose_located inet_pton coin blank client mode n l m in
    let sl' = sl ++ r.1 in some (r.0, (sl', if is_write mode then length sl' else 1))

-- The overload for addresses.
unfoldable pub choose_io_node_of :
    (Text → ℤ × ℕ)
    → (ℕ → Bool)
    → (ℕ → ℕ)
    → (ℕ → ℕ → ℕ)
    → SlaveNode
    → Set Address
    → Text
    → ℕ
    → List SlaveNode
    → ℕ
    → SlaveManager
    → Option (SlaveManager × (List SlaveNode × ℕ))
choose_io_node_of inet_pton coin first picks blank loclist client mode sl replica m =
    let l = location_ids loclist m.addr_list [] in
    choose_io_node inet_pton coin first picks blank l.1 client mode sl replica
      (record m { addr_list = l.0 })
