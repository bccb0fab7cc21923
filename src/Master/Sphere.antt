-- ===== src/Master/Sphere.antt =====
-- Master::processDCCmd: the jobs of Sphere, the parallel data processing.
use sector_sphere.Base.{ℕ, Text, not, Option, none, some, List, [], ◌∷◌, if◌then◌else◌}
use sector_sphere.Base.Decimal.{word32}
use sector_sphere.Address.{Address}
use sector_sphere.Index.Tree.{SNode}
use sector_sphere.Index.Read.{e_noexist}
use sector_sphere.Index.Collect.{collect_data_info}
use sector_sphere.Trans
use sector_sphere.Slaves.{SlaveNode, get_slave_id}
use sector_sphere.Slaves.Members.{choose_spe_nodes}
use sector_sphere.Master.{
  Master, World, Client, Reply, data_info, spes, started, echoed, rejected, Sent, to_client, start,
  is_neg, e_permission, e_resource,
}

-- The message types 201 to 204.
pub data DcRequest : Type 0 where
  prepare : List Text → DcRequest
  locate_spes : DcRequest
  start_spe : Address → DcRequest
  start_shuffler : Address → DcRequest

-- The loop over the input, up to a path that is not found.
unfoldable pub collect_all : List Text → List Text → SNode → Option (List Text)
collect_all [] result root = some result
collect_all (file ∷ req) result root =
    let r = collect_data_info file result root in
    let rest = collect_all req r.0 root in if is_neg r.1 then none else rest

unfoldable pub spe_list : List SlaveNode → List (Text × (ℕ × ℕ))
spe_list [] = []
spe_list (s ∷ sl) = (s.ip, (s.port, s.data_port)) ∷ spe_list sl

-- A job gets a transaction with its slave, which it keeps if the slave does not start it.
unfoldable pub start_job : World → Client → ℕ → Address → Reply → ℕ → Master → Master × List Sent
start_job w c type addr answer port m =
    let t = Trans.create 1 c.key type [] 0 w.now m.trans in
    let tm = (Trans.add_slave t.1 (word32 (get_slave_id addr m.slaves)) t.0).0 in
    (
      record m { trans = tm },
      start addr t.1 c.ip port c.user.data_port
          ∷ to_client (if w.starts addr then answer else rejected e_resource)
          ∷ [],
    )

unfoldable pub run_dc : World → Client → DcRequest → Master → Master × List Sent
unfolding collect_all spe_list start_job
run_dc w c (prepare req) m = elim (collect_all req [] m.metadata) [
  | none ↦ (m, to_client (rejected e_noexist) ∷ [])
  | some result ↦ (m, to_client (data_info result) ∷ [])
]
run_dc w c locate_spes m = (m, to_client (spes (spe_list (choose_spe_nodes [] m.slaves).0)) ∷ [])
run_dc w c (start_spe addr) m = start_job w c 203 addr (started m.trans.trans_id) c.port m
run_dc w c (start_shuffler addr) m = start_job w c 204 addr echoed c.port m

unfoldable pub process_dc : World → Client → DcRequest → Master → Master × List Sent
unfolding run_dc
process_dc w c r m =
    if not c.user.exec then (m, to_client (rejected e_permission) ∷ []) else run_dc w c r m
