-- ===== src/Slaves/Members.antt =====
-- master/slavemgmt.cpp: the slaves that come and go, and the operations that report on all of them.
pub mod Undo
pub mod Flat
pub mod Duplicates
mod Examples
use sector_sphere.Base.{
  ℕ, suc, ◌+◌, ◌^◌, ℤ, pos, negsuc, Text, Map, Set, Bool, true, false, ◌||◌, Option, none, some,
  List, [], ◌∷◌, ◌++◌, length, if◌then◌else◌, ◌==◌, is_empty, add64, slt64, text_key, nat_key,
}
use sector_sphere.Base.Maps
use sector_sphere.Base.Sets
use sector_sphere.Meta.{revise_path}
use sector_sphere.Address.{Address, addr_key}
use sector_sphere.Index.Read.{text_contains}
use sector_sphere.Topology.{Topology, lookup}
use sector_sphere.Topology.Cluster.{Clusters, Share, add_slave, remove_slave}
use sector_sphere.Slaves.{SlaveNode, SlaveManager}

abbrev pub addr_of : SlaveNode → Address
addr_of sn = record { ip = sn.ip; port = sn.port }

abbrev pub share_of : SlaveNode → Share
share_of sn = record { node = sn.node_id; disk = sn.avail_disk_space; files = sn.total_file_size }

-- m_mIPFSInfo: the first path of an address is revised, a later one is not.
unfoldable pub add_path : Text → Text → Map Text (Set Text) → Map Text (Set Text)
add_path ip path m = elim (Maps.find ip m) [
  | none ↦ Maps.put ip (Sets.add (revise_path path) []) m
  | some s ↦ Maps.put ip (Sets.add path s) m
]

unfoldable pub remove_path : Text → Text → Map Text (Set Text) → Map Text (Set Text)
remove_path ip path m = elim (Maps.find ip m) [
  | none ↦ m
  | some s ↦ let s' = Sets.del path s in if is_empty s' then Maps.erase ip m else Maps.put ip s' m
]

-- The node as insert stores it: before the path is looked up, which changes the caller's node only.
abbrev pub joined : ℕ → SlaveNode → SlaveNode
joined now sn = record sn {
  last_update_time = now;
  retry_num = 0;
  last_vote_time = now;
  status = 1;
}

-- `none` stands for the use of an iterator that is end() or was never set. The code is 1.
unfoldable pub insert : (Text → ℤ × ℕ) → ℕ → SlaveNode → SlaveManager → Option SlaveManager
unfolding add_path
insert inet_pton now sn m =
    let path = (lookup inet_pton sn.ip sn.path m.topology).0 in
    elim (add_slave (share_of sn) path m.cluster) [
      | none ↦ none
      | some c ↦ some (record m {
        addr_list = Maps.put (addr_of sn) sn.node_id m.addr_list;
        slave_list = Maps.put sn.node_id (joined now sn) m.slave_list;
        cluster = c;
        ip_fs_info = add_path sn.ip sn.storage_path m.ip_fs_info;
        last_update_time = now;
      })
    ]

unfoldable pub remove : (Text → ℤ × ℕ) → ℕ → ℕ → SlaveManager → Option (SlaveManager × ℤ)
unfolding remove_path
remove inet_pton now nodeid m = elim (Maps.find nodeid m.slave_list) [
  | none ↦ some (m, negsuc 0)
  | some sn ↦
      let path = (lookup inet_pton sn.ip [] m.topology).0 in
      let share : Share = record (share_of sn) { node = nodeid } in
      elim (remove_slave share path m.cluster) [
        | none ↦ none
        | some c ↦ some (
          record m {
            addr_list = Maps.erase (addr_of sn) m.addr_list;
            slave_list = Maps.erase nodeid m.slave_list;
            bad_slaves = Sets.del nodeid m.bad_slaves;
            cluster = c;
            ip_fs_info = remove_path sn.ip sn.storage_path m.ip_fs_info;
            last_update_time = now;
          },
          pos 1,
        )
      ]
]

-- Two paths conflict where one stands somewhere in the other.
unfoldable pub conflicts : Text → Set Text → Bool
conflicts path [] = false
conflicts path (j ∷ s) = text_contains path j || text_contains j path || conflicts path s

unfoldable pub check_duplicate_slave : Text → Text → SlaveManager → Bool
unfolding conflicts
check_duplicate_slave ip path m = elim (Maps.find ip m.ip_fs_info) [
  | none ↦ false
  | some s ↦ conflicts (revise_path path) s
]

unfoldable pub spe_nodes : Set ℕ → Map ℕ SlaveNode → List SlaveNode
spe_nodes bad [] = []
spe_nodes bad ((i, sn) ∷ slaves) =
    let rest = spe_nodes bad slaves in
    if Sets.has i bad
    then rest
    else if slt64 sn.avail_disk_space 10000000000
    then rest
    else sn ∷ rest

unfoldable pub choose_spe_nodes : List SlaveNode → SlaveManager → List SlaveNode × ℕ
unfolding spe_nodes
choose_spe_nodes sl m = let sl' = sl ++ spe_nodes m.bad_slaves m.slave_list in (sl', length sl')

unfoldable pub addresses : Map ℕ SlaveNode → List Address
addresses [] = []
addresses ((i, sn) ∷ slaves) = addr_of sn ∷ addresses slaves

-- The list and the time of the last update that a client has, and the number.
unfoldable pub update_slave_list : ℕ → List Address → ℕ → SlaveManager → List Address × (ℕ × ℕ)
unfolding addresses
update_slave_list now sl last_update_time m =
    let sl' = if slt64 last_update_time m.last_update_time then addresses m.slave_list else sl in
    (sl', (now, length sl'))

unfoldable pub total_disk_space : Map ℕ SlaveNode → ℕ
total_disk_space [] = 0
total_disk_space ((i, sn) ∷ slaves) = add64 sn.avail_disk_space (total_disk_space slaves)

abbrev pub get_total_disk_space : SlaveManager → ℕ
get_total_disk_space m = total_disk_space m.slave_list

abbrev pub get_number_of_slaves : SlaveManager → ℕ
get_number_of_slaves m = length m.slave_list
