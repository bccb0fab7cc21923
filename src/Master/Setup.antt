-- ===== src/Master/Setup.antt =====
-- A master with two slaves, a user and a second master.
use sector_sphere.Base.{ℕ, ◌+◌, pos, codes, Text, false, true, List, [], ◌∷◌}
use sector_sphere.Base.Keys.{nat_key}
use sector_sphere.Address.{Address, addr_key}
use sector_sphere.Index.Tree.{Attr, nil, entry, SNode}
use sector_sphere.Trans
use sector_sphere.Trans.{Transaction, retrieve, opened}
use sector_sphere.Routing
use sector_sphere.Routing.Table
use sector_sphere.Routing.Table.{inserts}
use sector_sphere.Topology.Cluster.{Clusters}
use sector_sphere.User.{User}
use sector_sphere.Slaves.{SlaveNode, SlaveManager}
use sector_sphere.Master.{Master, World, Client}

abbrev pub slave : ℕ → SlaveNode
slave id = record {
  node_id = id;
  ip = codes "10.0.0.1";
  public_ip = [];
  port = 6000 + id;
  data_port = 8000;
  storage_path = codes "/data";
  avail_disk_space = 50000000000;
  total_file_size = 0;
  time_stamp = 0;
  curr_mem_used = 0;
  curr_cpu_used = 0;
  total_input_data = 0;
  total_output_data = 0;
  sys_ind_input = [];
  sys_ind_output = [];
  cli_ind_input = [];
  cli_ind_output = [];
  last_update_time = 0;
  retry_num = 0;
  status = 1;
  bad_vote = [];
  last_vote_time = 0;
  path = [];
}

abbrev pub address : ℕ → Address
address id = record { ip = codes "10.0.0.1"; port = 6000 + id }

abbrev pub manager : SlaveManager
manager = record {
  addr_list = (address 1, 1) ∷ (address 2, 2) ∷ [];
  slave_list = (1, slave 1) ∷ (2, slave 2) ∷ [];
  bad_slaves = [];
  topology = record { level = 0; topo_map = [] };
  cluster = Clusters.nil;
  ip_fs_info = [];
  last_update_time = 0;
}

abbrev pub node : Text → Attr
node n = record {
  name = n;
  is_dir = false;
  location = address 1 ∷ [];
  time_stamp = 3;
  size = 80;
  checksum = [];
}

abbrev pub folder : Text → Attr
folder n = record {
  name = n;
  is_dir = true;
  location = [];
  time_stamp = 7;
  size = 0;
  checksum = [];
}

-- /d/f
abbrev pub root : SNode
root = record {
  attr = folder [];
  directory =
      entry (codes "d") (folder (codes "d")) (entry (codes "f") (node (codes "f")) nil nil) nil;
}

abbrev pub user : User
user = record {
  name = codes "u";
  ip = codes "10.0.1.1";
  port = 5000;
  data_port = 5001;
  key = 7;
  pc_key = [];
  pc_iv = [];
  last_refresh_time = 0;
  read_list = codes "/" ∷ [];
  write_list = codes "/d" ∷ [];
  exec = true;
}

abbrev pub client : Client
client = record { ip = codes "10.0.1.1"; port = 5000; user = user; key = 7 }

abbrev pub world : World
world = record {
  inet_pton = λ t. (pos 1, 0);
  coin = λ n. false;
  first = λ n. 0;
  picks = λ a b. 0;
  blank = slave 0;
  hash = λ t. 0;
  now = 9;
  answers = λ s. true;
  reachable = λ s path. true;
  starts = λ a. true;
}

abbrev pub calls : List Routing.Table.Call
calls = inserts 9 (address 9) ∷ inserts 5 (address 5) ∷ []

abbrev pub master : Master
master = record {
  metadata = root;
  locks = [];
  slaves = manager;
  trans = Trans.init;
  users = record { active_users = (7, user) ∷ [] };
  routing = record {
    finger_table = 9 ∷ 5 ∷ [];
    address_list = (5, address 5) ∷ (9, address 9) ∷ [];
  };
  router_key = 9;
  to_be_replicated = [];
  on_replicate = [];
  slave_list = [];
  last_update = 0;
  replica_num = 2;
  start_time = 1;
}
