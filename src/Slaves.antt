-- ===== src/Slaves.antt =====
-- master/slavemgmt.h and master/slavemgmt.cpp, class SlaveManager, and class SlaveNode of
-- common/topology.h: the slaves of the master, and the choice of one for a new replica.
pub mod Replica
pub mod Watch
pub mod Members
pub mod Info
pub mod IoNode
pub mod Votes
mod Examples
use sector_sphere.Base.{
  ℕ, zero, suc, ◌+◌, ℤ, pos, negsuc, Text, Map, Set, Bool, true, false, ◌||◌, Option, none, some,
  List, [], ◌∷◌, length, get_elem?, is_empty, if◌then◌else◌, ◌==◌, ltb, add64, slt64,
}
use sector_sphere.Base.Maps
use sector_sphere.Base.Sets
use sector_sphere.Base.Keys.{nat_key}
use sector_sphere.Address.{Address, addr_key}
use sector_sphere.Topology.{Topology, match}
use sector_sphere.Topology.Cluster.{Clusters}

pub record SlaveNode : Type 0 where
  pub node_id : ℕ
  pub ip : Text
  pub public_ip : Text
  pub port : ℕ
  pub data_port : ℕ
  pub storage_path : Text
  pub avail_disk_space : ℕ
  pub total_file_size : ℕ
  pub time_stamp : ℕ
  pub curr_mem_used : ℕ
  pub curr_cpu_used : ℕ
  pub total_input_data : ℕ
  pub total_output_data : ℕ
  pub sys_ind_input : Map Text ℕ
  pub sys_ind_output : Map Text ℕ
  pub cli_ind_input : Map Text ℕ
  pub cli_ind_output : Map Text ℕ
  pub last_update_time : ℕ
  pub retry_num : ℕ
  pub status : ℕ
  pub bad_vote : Set ℕ
  pub last_vote_time : ℕ
  pub path : List ℕ

-- m_Cluster is its m_mSubCluster, which is all that is used of it here.
pub record SlaveManager : Type 0 where
  pub addr_list : Map Address ℕ
  pub slave_list : Map ℕ SlaveNode
  pub bad_slaves : Set ℕ
  pub topology : Topology
  pub cluster : Clusters
  pub ip_fs_info : Map Text (Set Text)
  pub last_update_time : ℕ

-- SectorError::E_NODISK
abbrev pub e_nodisk : ℤ
e_nodisk = negsuc 4000

abbrev pub shared : List ℕ → Option SlaveNode → ℕ
shared path none = 0
shared path (some jp) = match path jp.path

-- The most levels that a slave shares with one of the locations; `none` for the -1 of a slave that is
-- a location itself.
unfoldable pub level_loop : Map ℕ SlaveNode → ℕ → List ℕ → Set ℕ → ℕ → Option ℕ
level_loop slaves i path [] level = some level
level_loop slaves i path (j ∷ loclist) level =
    let tmpl = shared path (Maps.find j slaves) in
    let rest = level_loop slaves i path loclist (if ltb level tmpl then tmpl else level) in
    if i == j then none else rest

-- The level whose set a slave is put in, if it is considered: neither bad nor short of disk space.
unfoldable pub level_of : SlaveManager → Set ℕ → ℕ → ℕ → SlaveNode → Option ℕ
unfolding level_loop
level_of m loclist filesize i sn =
    if Sets.has i m.bad_slaves || slt64 sn.avail_disk_space (add64 10000000000 filesize)
    then none
    else level_loop m.slave_list i sn.path loclist 0

abbrev pub is_level : ℕ → Option ℕ → Bool
is_level k none = false
is_level k (some l) = k == l

-- avail[k], filled from the list of slaves.
unfoldable pub avail : (ℕ → SlaveNode → Option ℕ) → ℕ → Map ℕ SlaveNode → List ℕ
avail level k [] = []
avail level k ((i, sn) ∷ slaves) =
    let rest = avail level k slaves in if is_level k (level i sn) then i ∷ rest else rest

-- The first level of `n` from `k` on that is not empty.
unfoldable pub candidates : (ℕ → SlaveNode → Option ℕ) → Map ℕ SlaveNode → ℕ → ℕ → List ℕ
unfolding avail
candidates level slaves zero k = []
candidates level slaves (suc n) k =
    let rest = candidates level slaves n (suc k) in
    if is_empty (avail level k slaves) then rest else avail level k slaves

-- A position in the candidates is chosen by `pick`, from their number and a random number, as
-- int(n * (double(rand()) / RAND_MAX)). `none` stands for a read behind the candidates.
unfoldable pub choose_replica_node :
    (ℕ → ℕ) → Set ℕ → SlaveNode → ℕ → SlaveManager → Option (SlaveNode × ℤ)
choose_replica_node pick loclist sn filesize m =
    let c = candidates (level_of m loclist filesize) m.slave_list (suc m.topology.level) 0 in
    if is_empty c then some (sn, e_nodisk) else elim (get_elem? c (pick (length c))) [
      | none ↦ none
      | some n ↦ elim (Maps.find n m.slave_list) [ none ↦ none | some s ↦ some (s, pos 1) ]
    ]

unfoldable pub get_slave_id : Address → SlaveManager → ℤ
get_slave_id addr m = elim (Maps.find addr m.addr_list) [ none ↦ negsuc 0 | some i ↦ pos i ]

unfoldable pub get_slave_addr : ℕ → Address → SlaveManager → Address × ℤ
get_slave_addr id addr m = elim (Maps.find id m.slave_list) [
  | none ↦ (addr, negsuc 0)
  | some s ↦ (record { ip = s.ip; port = s.port }, pos 0)
]

-- m_mAddrList[*i], which enters 0 for an address that is missing.
unfoldable pub location_ids : Set Address → Map Address ℕ → Set ℕ → Map Address ℕ × Set ℕ
location_ids [] addrs ids = (addrs, ids)
location_ids (a ∷ loclist) addrs ids = elim (Maps.find a addrs) [
  | none ↦ location_ids loclist (Maps.put a 0 addrs) (Sets.add 0 ids)
  | some i ↦ location_ids loclist addrs (Sets.add i ids)
]

unfoldable pub choose_replica_node_of :
    (ℕ → ℕ) → Set Address → SlaveNode → ℕ → SlaveManager → SlaveManager × Option (SlaveNode × ℤ)
unfolding location_ids
choose_replica_node_of pick loclist sn filesize m =
    let l = location_ids loclist m.addr_list [] in
    let m' : SlaveManager = record m { addr_list = l.0 } in
    (m', choose_replica_node pick l.1 sn filesize m')
