-- ===== src/Master/System.antt =====
-- Master::processSysCmd: the reports of slaves, log-outs, the statistics, and the list of masters.
use sector_sphere.Base.{
  Map, ℕ, ◌-◌, Text, false, not, none, some, List, [], ◌∷◌, ◌++◌, if◌then◌else◌, ◌==◌,
}
use sector_sphere.Base.Sets
use sector_sphere.Base.Keys.{text_key}
use sector_sphere.Address.{Address}
use sector_sphere.Index.Tree.{Attr, SNode}
use sector_sphere.Index.Edit.{update, remove}
use sector_sphere.Meta.{unlock, slash}
use sector_sphere.Trans
use sector_sphere.Trans.{Transaction, TransManager}
use sector_sphere.User
use sector_sphere.Routing.{get_num_of_masters, match_id}
use sector_sphere.Topology.Cluster.{Cluster, Clusters, nil, entry}
use sector_sphere.Slaves.Members.{get_total_disk_space, get_number_of_slaves}
use sector_sphere.Index.Read.{total_data_size, total_file_num}
use sector_sphere.Slaves.Votes.{vote_bad_slaves}
use sector_sphere.Master.{
  Master, World, Client, SysStat, statistics, reject, e_master, reported, deleted, echoed, masters,
  Sent, to_client, Outcome, sync_all, sync_many, others,
}

-- The message types 1 to 7.
pub data SysRequest : Type 0 where
  report : ℕ → ℕ → ℕ → List Attr → SysRequest
  logout : SysRequest
  sysinfo : SysRequest
  sphere_report : ℕ → ℕ → ℕ → List ℕ → SysRequest
  master_list : SysRequest
  keep_alive : SysRequest
  unregister : List Text → SysRequest

unfoldable pub update_all : ℕ → Address → List Attr → SNode → SNode
update_all change addr [] root = root
update_all change addr (a ∷ l) root = update_all change addr l (update a addr change root).0

-- m_sstrOnReplicate loses the files of a change of type 3.
unfoldable pub replicated : ℕ → List Attr → List Text → List Text
replicated change [] s = s
replicated change (a ∷ l) s = replicated change l (if change == 3 then Sets.del a.name s else s)

-- The end of a report on a file: the lock is released and the slave leaves the transaction.
abbrev pub settle : ℕ → ℕ → Transaction → Master → Master
settle transid slaveid t m = record m {
  locks = (unlock t.file t.user_key t.mode m.locks).0;
  trans = (Trans.update_slave transid slaveid m.trans).0;
}

unfoldable pub on_report : Client → ℕ → ℕ → ℕ → List Attr → Master → Master × List Sent
unfolding update_all replicated
on_report c transid slaveid change infos m = elim (Trans.retrieve transid m.trans) [
  | none ↦ (m, to_client echoed ∷ [])
  | some t ↦
      let addr : Address = record { ip = c.ip; port = c.port } in
      let m' : Master = record m {
        metadata = update_all change addr infos m.metadata;
        on_replicate = replicated change infos m.on_replicate;
      } in
      (
        if t.type == 0 then settle transid slaveid t m' else m',
        sync_many (reported change addr infos) m ++ to_client echoed ∷ [],
      )
]

unfoldable pub on_sphere_report : World → Client → ℕ → ℕ → ℕ → List ℕ → Master → Outcome
on_sphere_report w c transid slaveid num buf m = elim (Trans.retrieve transid m.trans) [
  | none ↦ some (m, to_client echoed ∷ [])
  | some t ↦
      if not (t.type == 1)
      then some (m, to_client echoed ∷ [])
      else elim (vote_bad_slaves w.blank (record { ip = c.ip; port = c.port }) num buf m.slaves) [
        | none ↦ none
        | some slaves ↦ some (
          record m { slaves = slaves; trans = (Trans.update_slave transid slaveid m.trans).0 },
          to_client echoed ∷ [],
        )
      ]
]

-- The paths are removed one by one, a directory only if the index lets it go.
unfoldable pub remove_all : List Text → SNode → SNode
remove_all [] root = root
remove_all (p ∷ l) root = remove_all l (remove p false root).0

unfoldable pub sync_removals : List Text → Master → List Sent
sync_removals [] m = []
sync_removals (p ∷ l) m = sync_all (deleted p) m ++ sync_removals l m

-- m_Cluster.m_mSubCluster, without what is below its clusters.
unfoldable pub sub_clusters : Clusters → List Cluster
sub_clusters nil = []
sub_clusters (entry k c sub rest) = c ∷ sub_clusters rest

-- The second parts of a map.
unfoldable pub values {ℓ} : {A : Type ℓ} → Map ℕ A → List A
values [] = []
values ((k, a) ∷ l) = a ∷ values l

abbrev pub serialize_sys_stat : Master → SysStat
serialize_sys_stat m = record {
  start_time = m.start_time;
  disk_space = get_total_disk_space m.slaves;
  data_size = total_data_size (slash ∷ []) m.metadata;
  file_num = total_file_num (slash ∷ []) m.metadata;
  num_slaves = get_number_of_slaves m.slaves;
  cluster_info = sub_clusters m.slaves.cluster;
  master_info = values m.routing.address_list;
  slave_info = values m.slaves.slave_list;
}

unfoldable pub process_sys : World → Client → SysRequest → Master → Outcome
unfolding on_report on_sphere_report remove_all sync_removals sub_clusters values
process_sys w c (report transid slaveid change infos) m =
    some (on_report c transid slaveid change infos m)
process_sys w c logout m =
    some (record m { users = (User.remove c.key m.users).0 }, to_client echoed ∷ [])
process_sys w c sysinfo m =
    if not (match_id c.key m.router_key m.routing)
    then reject e_master m
    else some (m, to_client (statistics (serialize_sys_stat m)) ∷ [])
process_sys w c (sphere_report transid slaveid num buf) m =
    on_sphere_report w c transid slaveid num buf m
process_sys w c master_list m = some (
  m,
  to_client
        (masters (get_num_of_masters m.routing - 1) (others m.router_key m.routing.address_list))
      ∷ [],
)
process_sys w c keep_alive m = some (m, to_client echoed ∷ [])
process_sys w c (unregister paths) m = some (
  record m { metadata = remove_all paths m.metadata },
  sync_removals paths m ++ to_client echoed ∷ [],
)
