-- ===== src/Slaves/Members/Examples.antt =====
-- Slaves that come, report, vote and go, at concrete inputs.
use sector_sphere.Base.{
  ℕ, ◌≡◌, ◌≤◌, ◌+◌, ◌↔◌, ◌⊎◌, refl, ℤ, pos, negsuc, Text, codes, Map, Bool, true, false, ◌||◌, ◌&&◌,
  Option, none, some, List, [], ◌∷◌, ◌++◌, length, arith, inl, inr, if◌then◌else◌, slt64, ◌==◌,
  nat_key, text_key,
}
use sector_sphere.Base.Maps.{find, put}
use sector_sphere.Base.Sets.{has, add}
use sector_sphere.Meta.{revise_path}
use sector_sphere.Address.{addr_key}
use sector_sphere.Topology.{Topology, zeros}
use sector_sphere.Topology.Cluster.{Cluster, Clusters, nil, entry, cluster_at, add_slave}
use sector_sphere.Slaves.{SlaveNode, SlaveManager, level_of}
use sector_sphere.Slaves.Members.{addr_of, insert, remove, joined, conflicts, check_duplicate_slave}
use sector_sphere.Slaves.IoNode.{distance_of, nodes_of, choose_io_node, is_write}
use sector_sphere.Slaves.IoNode.Nearest.{IsNearest, way, ids_for, choose_io_node_cases}
use sector_sphere.Slaves.Members.Undo.{IsNew, remove-insert}
use sector_sphere.Slaves.Members.Flat.{comes, goes, run, level_of-run}

-- All addresses are in one rack.
abbrev inet : Text → ℤ × ℕ
inet t = (pos 1, 0)

abbrev cluster : ℕ → List ℕ → Cluster
cluster i path = record {
  cluster_id = i;
  path = path;
  total_nodes = 0;
  avail_disk_space = 0;
  total_file_size = 0;
  total_input_data = 0;
  total_output_data = 0;
  nodes = [];
}

abbrev slave : ℕ → Text → Text → SlaveNode
slave i ip path = record {
  node_id = i;
  ip = ip;
  public_ip = [];
  port = 6000;
  data_port = 8000;
  storage_path = path;
  avail_disk_space = 50000000000;
  total_file_size = 0;
  time_stamp = 0;
  curr_mem_used = 0;
  curr_cpu_used = 0;
  total_input_data = 0;
  total_output_data = 0;
  sys_ind_input = [];
  sys_ind_output = [];
  cli_ind_input = [];
  cli_ind_output = [];
  last_update_time = 0;
  retry_num = 0;
  status = 1;
  bad_vote = [];
  last_vote_time = 0;
  path = [];
}

abbrev tree : Clusters
tree = entry 1 (cluster 1 (1 ∷ [])) (entry 2 (cluster 2 (1 ∷ 2 ∷ [])) nil nil) nil

abbrev fresh : SlaveManager
fresh = record {
  addr_list = [];
  slave_list = [];
  bad_slaves = [];
  topology = record { level = 2; topo_map = record { ip = 0; mask = 0; path = 1 ∷ 2 ∷ [] } ∷ [] };
  cluster = tree;
  ip_fs_info = [];
  last_update_time = 0;
}

abbrev first : SlaveNode
first = slave 1 (codes "10.0.0.1") (codes "/data")

first-IsNew : IsNew inet first fresh
unfolding find has cluster_at sector_sphere.Topology.lookup sector_sphere.Topology.entry_of
    sector_sphere.Topology.bit_and sector_sphere.Meta.revise_path
first-IsNew = record {
  no_slave = refl;
  no_address = refl;
  not_bad = refl;
  no_path = refl;
  home = cluster 2 (1 ∷ 2 ∷ []);
  at_home = refl;
  not_home = refl;
  words = ground arith;
  is_sorted = tt;
  revised = refl;
  free = tt;
}

remove-insert_example :
    (m' : SlaveManager) × ((insert inet 5 first fresh ≡ some m')
      × (remove inet 9 1 m' ≡ some (record fresh { last_update_time = 9 }, pos 1)))
remove-insert_example = remove-insert inet 5 9 first fresh first-IsNew

-- The manager with the first slave.
abbrev with_first : SlaveManager
with_first = record fresh {
  addr_list = (record { ip = codes "10.0.0.1"; port = 6000 }, 1) ∷ [];
  slave_list = (1, joined 5 first) ∷ [];
  cluster =
      entry 1 (record (cluster 1 (1 ∷ [])) { total_nodes = 1; avail_disk_space = 50000000000 })
        (entry 2
          (record (cluster 2 (1 ∷ 2 ∷ [])) {
            total_nodes = 1;
            avail_disk_space = 50000000000;
            nodes = 1 ∷ [];
          })
          nil nil)
        nil;
  ip_fs_info = (codes "10.0.0.1", codes "/data" ∷ []) ∷ [];
  last_update_time = 5;
}

inserted_first : insert inet 5 first fresh ≡ some with_first
unfolding insert add_slave sector_sphere.Topology.lookup sector_sphere.Topology.entry_of
    sector_sphere.Topology.bit_and put sector_sphere.Base.Words.add64 add find revise_path
inserted_first = refl

ran_first : run inet (comes 5 first ∷ []) fresh ≡ some with_first
unfolding run sector_sphere.Slaves.Members.Flat.change
ran_first = rw (run, sector_sphere.Slaves.Members.Flat.change, inserted_first) refl

level_of-run_example :
    (level_of with_first (7 ∷ []) 100 1 (joined 5 first) ≡ none)
    ⊎ (level_of with_first (7 ∷ []) 100 1 (joined 5 first) ≡ some 0)
unfolding find
level_of-run_example =
    level_of-run inet (comes 5 first ∷ []) fresh with_first (7 ∷ []) 100 1 (joined 5 first) refl
      (refl, tt) ran_first refl

-- A path in another directory conflicts where its text stands inside the other one.
far_away : conflicts (codes "/home/database") (codes "/data" ∷ []) ≡ true
unfolding conflicts sector_sphere.Index.Read.text_contains sector_sphere.Index.Read.text_starts
far_away = refl

-- A second path that is not revised is stored as it is, and is not found again.
not_found :
    conflicts (revise_path (codes "/x//y")) (add (codes "/x//y") (codes "/data" ∷ [])) ≡ false
unfolding conflicts sector_sphere.Index.Read.text_contains sector_sphere.Index.Read.text_starts
    revise_path add sector_sphere.Base.Keys.text_eq sector_sphere.Base.Keys.text_lt
not_found = refl

-- A report of zeros: the disk is full.
abbrev report : List ℕ
report = zeros 72

abbrev emptied : SlaveNode
emptied = record (joined 5 first) { avail_disk_space = 0 }

choose_io_node_cases_example :
    (r : ℕ) × (IsNearest
        (way inet (codes "10.0.0.1") first with_first)
        with_first.bad_slaves
        (1 ∷ 4 ∷ [])
        r
      × ((m' : SlaveManager) × (choose_io_node inet
              (λ i. true)
              (λ n. 0)
              (λ k n. 0)
              first
              (1 ∷ 4 ∷ [])
              (codes "10.0.0.1")
              2
              []
              1
              with_first
            ≡ some (
              m',
              (
                [] ++ nodes_of first with_first.slave_list (ids_for 2 r (1 ∷ 4 ∷ [])),
                if is_write 2 then 0 + length (ids_for 2 r (1 ∷ 4 ∷ [])) else 1,
              ),
            ))))
unfolding distance_of sector_sphere.Topology.distance has find sector_sphere.Base.Keys.text_eq
choose_io_node_cases_example =
    choose_io_node_cases inet (λ i. true) (λ n. 0) (λ k n. 0) first 1 (4 ∷ []) (codes "10.0.0.1") 2
      1 [] with_first (ground arith)

abbrev vote_buffer : List ℕ
vote_buffer = codes "10.0.0.1" ++ (zeros 56 ++ (112 ∷ 23 ∷ 0 ∷ 0 ∷ []))
