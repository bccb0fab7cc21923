-- ===== src/Master/Replicas.antt =====
-- Master::createReplica, and a round of the loop of Master::replica.
use sector_sphere.Base.{
  ℕ, suc, ◌+◌, Text, Bool, true, false, not, Option, none, some, List, [], ◌∷◌, ◌++◌, length,
  if◌then◌else◌, ◌==◌, leb,
}
use sector_sphere.Base.Sets
use sector_sphere.Base.Keys.{text_key, text_eq, codes}
use sector_sphere.Trans
use sector_sphere.Slaves.{SlaveNode, choose_replica_node_of}
use sector_sphere.Slaves.Members.{get_number_of_slaves}
use sector_sphere.Master.{Master, World, Sent, replicate, Outcome, is_neg, address_of}
use sector_sphere.Master.Files.{exists, attr_of}

abbrev pub idx : Text → Text
idx t = t ++ codes ".idx"

abbrev pub note_replica : Text → Text → Master → Master
note_replica src dst m =
    if text_eq src dst then record m { on_replicate = Sets.add src m.on_replicate } else m

-- The transaction of a copy and the request to the slave. A copy that is refused keeps its transaction.
unfoldable pub send_copy : World → SlaveNode → ℕ → Text → Text → Master → Master × List Sent
send_copy w sn ts src dst m =
    let t = Trans.create 0 0 111 dst 0 w.now m.trans in
    let sent = replicate (address_of sn) t.1 ts src dst ∷ [] in
    if w.reachable sn src
    then (note_replica src dst (record m { trans = (Trans.add_slave t.1 sn.node_id t.0).0 }), sent)
    else (record m { trans = t.0 }, sent)

-- The file and then its index file, to the same slave.
unfoldable pub send_both : World → SlaveNode → Text → Text → Master → Master × List Sent
unfolding send_copy
send_both w sn src dst m =
    let r = send_copy w sn (attr_of src m).time_stamp src dst m in
    if not (w.reachable sn src)
    then r
    else if not (exists (idx src) m)
    then r
    else let r' = send_copy w sn (attr_of (idx src) m).time_stamp (idx src) (idx dst) r.0 in
      (r'.0, r.1 ++ r'.1)

-- The code is not looked at by the caller.
unfoldable pub create_replica : World → Text → Text → Master → Outcome
unfolding send_both
create_replica w src dst m =
    let a = attr_of src m in
    let chosen =
      choose_replica_node_of w.first (if text_eq src dst then a.location else []) w.blank a.size
        m.slaves in
    let m' : Master = record m { slaves = chosen.0 } in
    if not (exists src m) then some (m, []) else elim chosen.1 [
      | none ↦ none
      | some (sn, code) ↦ if is_neg code then some (m', []) else some (send_both w sn src dst m')
    ]

-- What stands before the first tab and behind it; without one, the whole twice.
unfoldable pub split_tab : Text → Option (Text × Text)
split_tab [] = none
split_tab (c ∷ t) =
    let rest = split_tab t in
    if c == b'\t' then some ([], t) else elim rest [ none ↦ none | some r ↦ some (c ∷ r.0, r.1) ]

abbrev pub source_target : Text → Text × Text
source_target t = elim (split_tab t) [ none ↦ (t, t) | some r ↦ r ]

abbrev pub is_busy : Master → Bool
is_busy m =
    leb (get_number_of_slaves m.slaves) (Trans.get_total_trans m.trans + length m.on_replicate)

-- A file that is being replicated is passed over.
unfoldable pub replicate_one : World → Text → Master → Outcome
unfolding create_replica split_tab
replicate_one w entry m =
    let (src, dst) = source_target entry in
    let skipped = if text_eq src dst then Sets.has src m.on_replicate else false in
    if skipped then some (m, []) else create_replica w src dst m

-- The loop, which leaves the entries that it did not come to. Each round has a world of its own.
unfoldable pub replicate_loop : (ℕ → World) → List Text → Master → Outcome
unfolding replicate_one
replicate_loop w [] m = some (record m { to_be_replicated = [] }, [])
replicate_loop w (entry ∷ queue) m = elim (is_busy m) [
  | true ↦ some (record m { to_be_replicated = entry ∷ queue }, [])
  | false ↦ elim (replicate_one (w 0) entry m) [
    | none ↦ none
    | some (m', sent) ↦ elim (replicate_loop (λ i. w (suc i)) queue m') [
      | none ↦ none
      | some (m'', sent') ↦ some (m'', sent ++ sent')
    ]
  ]
]

abbrev pub replica : (ℕ → World) → Master → Outcome
replica w m = replicate_loop w m.to_be_replicated m
