-- ===== src/Slaves/Examples.antt =====
-- Three slaves, of which the first and the third stand in the same rack; the first holds the file.
use sector_sphere.Base.{
  ℕ, ◌≡◌, ◌⊎◌, ◌<◌, refl, ℤ, pos, codes, Text, Map, Set, false, some, [], ◌∷◌, arith, length, ◌≤◌,
  suc,
}
use sector_sphere.Base.Maps
use sector_sphere.Base.Sets
use sector_sphere.Base.Keys.{nat_key}
use sector_sphere.Topology.Cluster.{nil}
use sector_sphere.Slaves.{SlaveNode, SlaveManager, choose_replica_node, level_of, e_nodisk}
use sector_sphere.Slaves.Watch.{check_bad_and_lost, address}
use sector_sphere.Slaves.Watch.Votes.{check_bad_and_lost_cases}
use sector_sphere.Slaves.Replica.{IsValid, IsConsidered, SharesAtMost, choose_replica_node_cases}
use sector_sphere.Topology.{Topology}
use mathlib.Core.List.{List}

abbrev slave : ℕ → List ℕ → SlaveNode
slave id path = record {
  node_id = id;
  ip = codes "10.0.0.1";
  public_ip = [];
  port = 6000;
  data_port = 8000;
  storage_path = codes "/data";
  avail_disk_space = 50000000000;
  total_file_size = 0;
  time_stamp = 0;
  curr_mem_used = 0;
  curr_cpu_used = 0;
  total_input_data = 0;
  total_output_data = 0;
  sys_ind_input = [];
  sys_ind_output = [];
  cli_ind_input = [];
  cli_ind_output = [];
  last_update_time = 0;
  retry_num = 0;
  status = 1;
  bad_vote = [];
  last_vote_time = 0;
  path = path;
}

abbrev manager : SlaveManager
manager = record {
  addr_list = [];
  slave_list =
      (1, slave 1 (1 ∷ 1 ∷ [])) ∷ (2, slave 2 (1 ∷ 2 ∷ [])) ∷ (3, slave 3 (1 ∷ 1 ∷ [])) ∷ [];
  bad_slaves = [];
  topology = record { level = 2; topo_map = [] };
  cluster = nil;
  ip_fs_info = [];
  last_update_time = 0;
}

first : ℕ → ℕ
first n = 0

first_inside : (n : ℕ) → first (suc n) < suc n
unfolding first
first_inside n = omega arith

manager-IsValid : IsValid manager
unfolding Maps.find
manager-IsValid = record { is_sorted = ground arith; paths = λ i s h. ground arith }

choose_replica_node_cases_example :
    ((choose_replica_node first (1 ∷ []) (slave 0 []) 100 manager ≡ some (slave 0 [], e_nodisk))
      × ((i : ℕ) (s : SlaveNode)
          → Maps.find i manager.slave_list ≡ some s
          → ¬ (IsConsidered manager (1 ∷ []) 100 i s)))
    ⊎ ((i : ℕ) × (s : SlaveNode) × (Maps.find i manager.slave_list ≡ some s)
        × IsConsidered manager (1 ∷ []) 100 i s
        × ((j bound : ℕ) (t : SlaveNode)
            → Maps.find j manager.slave_list ≡ some t
            → IsConsidered manager (1 ∷ []) 100 j t
            → SharesAtMost manager (1 ∷ []) bound t
            → SharesAtMost manager (1 ∷ []) bound s)
        × (choose_replica_node first (1 ∷ []) (slave 0 []) 100 manager ≡ some (s, pos 1)))
choose_replica_node_cases_example =
    choose_replica_node_cases first (1 ∷ []) (slave 0 []) 100 manager first_inside manager-IsValid

-- The second slave is chosen.
choose_second :
    choose_replica_node first (1 ∷ []) (slave 0 []) 100 manager ≡ some (slave 2 (1 ∷ 2 ∷ []), pos 1)
unfolding choose_replica_node sector_sphere.Slaves.candidates level_of Sets.has
    sector_sphere.Base.Words.slt64 sector_sphere.Base.Words.add64 Maps.find
    sector_sphere.Topology.match first
choose_second = refl

-- Two of three slaves have voted against the first, which is found neither bad nor lost.
abbrev voted : SlaveManager
voted = record manager {
  slave_list =
      (1, record (slave 1 []) { bad_vote = 2 ∷ 3 ∷ [] })
      ∷ (2, record (slave 2 []) { retry_num = 11 })
      ∷ (3, slave 3 [])
      ∷ [];
}

check_bad_and_lost_cases_example :
    ((check_bad_and_lost 5 voted).1 ≡ [])
    × (Maps.find 2 (check_bad_and_lost 5 voted).2 ≡ some (address (slave 2 [])))
unfolding Maps.find
check_bad_and_lost_cases_example =
    check_bad_and_lost_cases 5 2 voted (omega arith) (ground arith) (ground arith)
