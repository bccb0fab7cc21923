-- ===== src/Master/Run/History.antt =====
-- Whatever happens to a master, its state stays sound: requests, rounds of the replication, lost slaves.
use sector_sphere.Routing.Table.{insert-IsValid}
use sector_sphere.Security.{Answer, answered, granted, is_positive}
use sector_sphere.User.{deserialize_dirs}
use sector_sphere.Master.Joins.{Login, Welcome, process_user_join, process_master_join}
use sector_sphere.Base.{
  length, suc, ◌≡◌, ℕ, ℤ, pos, negsuc, Text, Bool, true, false, not, Option, none, some, List, [],
  ◌∷◌, ◌++◌, inl, inr, Bool-cases, Option-cases, if◌then◌else◌, subst,
}
use sector_sphere.Base.Keys.{text_eq, text_key}
use sector_sphere.Base.Sets
use sector_sphere.Address.{Address}
use sector_sphere.Meta.{LockTable, unlock, slash}
use sector_sphere.Meta.Locks.{IsExclusive, unlock-IsExclusive}
use sector_sphere.Index.Whole.Order.{substract-IsOrdered}
use sector_sphere.Trans
use sector_sphere.Trans.{TransManager}
use sector_sphere.Slaves.{SlaveNode, choose_replica_node_of}
use sector_sphere.Slaves.Members
use sector_sphere.Master.{Master, World, Sent, Outcome, is_neg}
use sector_sphere.Master.Files.{exists, attr_of}
use sector_sphere.Master.Sync.{lose_slave, settle_all, settle_one}
use sector_sphere.Master.Replicas.{
  replica, replicate_loop, replicate_one, create_replica, send_both, send_copy, idx, is_busy,
  source_target,
}
use sector_sphere.Master.Dispatch.{Request, process}
use sector_sphere.Master.Run.Events.{process-IsSafe}
use sector_sphere.Master.Run.{IsSound, IsSafe}

settle_all-IsExclusive :
    (slaveid : ℕ) (trans : List ℕ) (l : LockTable) (tm : TransManager)
    → IsExclusive l
    → IsExclusive (settle_all slaveid trans (l, tm)).0
unfolding settle_all settle_one
settle_all-IsExclusive slaveid [] l tm h = h
settle_all-IsExclusive slaveid (t ∷ trans) l tm h =
    let tr = Trans.or_blank (Trans.retrieve t tm) in
    settle_all-IsExclusive slaveid trans (unlock tr.file tr.user_key tr.mode l).0
      (Trans.update_slave t slaveid tm).0 (unlock-IsExclusive tr.file tr.user_key tr.mode l h)

lose_slave-IsSafe :
    (w : World) (sid : ℕ) (addr : Address) (m : Master)
    → IsSound m
    → IsSafe (lose_slave w sid addr m)
unfolding lose_slave
lose_slave-IsSafe w sid addr m s =
    elim (Option-cases (Members.remove w.inet_pton w.now sid m.slaves)) [
      | inl e ↦ rw (lose_slave, e) tt
      | inr (r, e) ↦
          rw (lose_slave, e)
            (record {
              ordered = substract-IsOrdered (slash ∷ []) addr m.metadata s.ordered;
              exclusive =
                  settle_all-IsExclusive sid (Trans.retrieve_slave sid m.trans) m.locks m.trans
                    s.exclusive;
              routes = s.routes;
            })
    ]

send_copy-IsSound :
    (w : World) (sn : SlaveNode) (ts : ℕ) (src dst : Text) (m : Master)
    → IsSound m
    → IsSound (send_copy w sn ts src dst m).0
unfolding send_copy
send_copy-IsSound w sn ts src dst m s = elim (Bool-cases (w.reachable sn src)) [
  | inr e ↦ rw e (record { ordered = s.ordered; exclusive = s.exclusive; routes = s.routes })
  | inl e ↦ elim (Bool-cases (text_eq src dst)) [
    | inl f ↦ rw (e, f) (record { ordered = s.ordered; exclusive = s.exclusive; routes = s.routes })
    | inr f ↦ rw (e, f) (record { ordered = s.ordered; exclusive = s.exclusive; routes = s.routes })
  ]
]

last_of_two :
    (a b : Bool) (r r' : Master × List Sent) (sent : List Sent)
    → IsSound r.0
    → IsSound r'.0
    → IsSound (if a then r else if b then r else (r'.0, sent)).0
last_of_two true b r r' sent h k = h
last_of_two false true r r' sent h k = h
last_of_two false false r r' sent h k = k

send_both-IsSound :
    (w : World) (sn : SlaveNode) (src dst : Text) (m : Master)
    → IsSound m
    → IsSound (send_both w sn src dst m).0
unfolding send_both
send_both-IsSound w sn src dst m s =
    let r = send_copy w sn (attr_of src m).time_stamp src dst m in
    let r' = send_copy w sn (attr_of (idx src) m).time_stamp (idx src) (idx dst) r.0 in
    let h = send_copy-IsSound w sn (attr_of src m).time_stamp src dst m s in
    last_of_two (not (w.reachable sn src)) (not (exists (idx src) m)) r r' (r.1 ++ r'.1) h
      (send_copy-IsSound w sn (attr_of (idx src) m).time_stamp (idx src) (idx dst) r.0 h)

chosen-IsSafe :
    (w : World) (src dst : Text) (m : Master) (chosen : Option (SlaveNode × ℤ))
    → IsSound m
    → IsSafe (elim chosen [
      | none ↦ none
      | some (sn, code) ↦ if is_neg code then some (m, []) else some (send_both w sn src dst m)
    ])
chosen-IsSafe w src dst m none s = tt
chosen-IsSafe w src dst m (some (sn, pos n)) s = send_both-IsSound w sn src dst m s
chosen-IsSafe w src dst m (some (sn, negsuc n)) s = s

create_replica-IsSafe :
    (w : World) (src dst : Text) (m : Master) → IsSound m → IsSafe (create_replica w src dst m)
unfolding create_replica
create_replica-IsSafe w src dst m s = elim (Bool-cases (exists src m)) [
  | inr e ↦ rw (create_replica, e) s
  | inl e ↦
      let loclist = if text_eq src dst then (attr_of src m).location else [] in
      let chosen = choose_replica_node_of w.first loclist w.blank (attr_of src m).size m.slaves in
      rw (create_replica, e)
        (chosen-IsSafe w src dst (record m { slaves = chosen.0 }) chosen.1
          (record { ordered = s.ordered; exclusive = s.exclusive; routes = s.routes }))
]

replicate_one-IsSafe :
    (w : World) (entry : Text) (m : Master) → IsSound m → IsSafe (replicate_one w entry m)
unfolding replicate_one
replicate_one-IsSafe w entry m s =
    let (src, dst) = source_target entry in
    elim (Bool-cases (if text_eq src dst then Sets.has src m.on_replicate else false)) [
      | inl e ↦ rw (replicate_one, e) s
      | inr e ↦ rw (replicate_one, e) (create_replica-IsSafe w src dst m s)
    ]

replicate_loop-IsSafe :
    (w : ℕ → World) (queue : List Text) (m : Master) → IsSound m → IsSafe (replicate_loop w queue m)
unfolding replicate_loop
replicate_loop-IsSafe w [] m s = record {
  ordered = s.ordered;
  exclusive = s.exclusive;
  routes = s.routes;
}
replicate_loop-IsSafe w (entry ∷ queue) m s = elim (Bool-cases (is_busy m)) [
  | inl e ↦
      rw (replicate_loop, e)
        (record { ordered = s.ordered; exclusive = s.exclusive; routes = s.routes })
  | inr e ↦ elim (Option-cases (replicate_one (w 0) entry m)) [
    | inl f ↦ rw (replicate_loop, e, f) tt
    | inr ((m', sent), f) ↦
        let one : IsSafe (some (m', sent)) =
          subst IsSafe f (replicate_one-IsSafe (w 0) entry m s) in
        let more = replicate_loop-IsSafe (λ i. w (suc i)) queue m' one in
        elim (Option-cases (replicate_loop (λ i. w (suc i)) queue m')) [
          | inl g ↦ rw (replicate_loop, e, f, g) tt
          | inr ((m'', sent'), g) ↦
              let two : IsSafe (some (m'', sent')) = subst IsSafe g more in
              rw (replicate_loop, e, f, g) two
        ]
  ]
]

without_sent : Option (Master × Welcome) → Outcome
without_sent none = none
without_sent (some (m, welcome)) = some (m, [])

process_user_join-IsSafe :
    (w : World) (ip : Text) (l : Login) (a : Answer) (m : Master)
    → IsSound m
    → IsSafe (without_sent (process_user_join w ip l a m))
unfolding process_user_join without_sent
process_user_join-IsSafe w ip l (answered key) m s = elim (Bool-cases (is_positive key)) [
  | inl e ↦ rw (process_user_join, e) tt
  | inr e ↦ rw (process_user_join, e) s
]
process_user_join-IsSafe w ip l (granted key reads writes exec) m s =
    elim (Option-cases (deserialize_dirs (length reads) [] reads)) [
      | inl e ↦ rw (process_user_join, e) tt
      | inr (r, e) ↦ elim (Option-cases (deserialize_dirs (length writes) [] writes)) [
        | inl f ↦ rw (process_user_join, e, f) tt
        | inr (wr, f) ↦
            rw (process_user_join, e, f)
              (record { ordered = s.ordered; exclusive = s.exclusive; routes = s.routes })
      ]
    ]

process_master_join-IsSound :
    (w : World) (ip : Text) (port key answer : ℕ) (m : Master)
    → IsSound m
    → IsSound (process_master_join w ip port key answer m).0
unfolding process_master_join
process_master_join-IsSound w ip port key answer m s =
    elim (Bool-cases (is_positive (if is_positive answer then m.router_key else answer))) [
      | inr e ↦ rw (process_master_join, e) s
      | inl e ↦
          rw (process_master_join, e)
            (record {
              ordered = s.ordered;
              exclusive = s.exclusive;
              routes = insert-IsValid key (record { ip = ip; port = port }) m.routing s.routes;
            })
    ]

-- A request from an address with a key, a round of the loop of replicas, a slave that is found to be lost, and a user
-- and a master that join.
pub data Event : Type 0 where
  gets : Text → ℕ → ℕ → Request → Event
  replicates : (ℕ → World) → Event
  loses : ℕ → Address → Event
  enters : Text → Login → Answer → Event
  meets : Text → ℕ → ℕ → ℕ → Event

unfoldable pub step : World → Event → Master → Outcome
unfolding without_sent
step w (gets ip port key r) m = process w ip port key r m
step w (replicates ws) m = replica ws m
step w (loses sid addr) m = lose_slave w sid addr m
step w (enters ip l a) m = without_sent (process_user_join w ip l a m)
step w (meets ip port key answer) m = some ((process_master_join w ip port key answer m).0, [])

step-IsSafe : (w : World) (e : Event) (m : Master) → IsSound m → IsSafe (step w e m)
unfolding step
step-IsSafe w (gets ip port key r) m s = process-IsSafe w ip port key r m s
step-IsSafe w (replicates ws) m s = replicate_loop-IsSafe ws m.to_be_replicated m s
step-IsSafe w (loses sid addr) m s = lose_slave-IsSafe w sid addr m s
step-IsSafe w (enters ip l a) m s = process_user_join-IsSafe w ip l a m s
step-IsSafe w (meets ip port key answer) m s = process_master_join-IsSound w ip port key answer m s

-- A master that comes from another by events, each in a world of its own.
pub data Reach (m : Master) : Master → Type 0 where
  here : Reach m m
  next :
      {a b : Master} {sent : List Sent}
      → Reach m a
      → (w : World) (e : Event) → step w e a ≡ some (b, sent)
      → Reach m b

-- From a sound state every state that a master reaches by requests of any senders, rounds of the replication, lost slaves, and users and masters that join, in whatever order
-- and whatever slaves are chosen and answer, is sound: the metadata is ordered by name at every level, no path has two writers, and
-- the finger table of the masters is their keys in descending order, each once.
pub Reach-IsSound : {m m' : Master} → IsSound m → Reach m m' → IsSound m'
Reach-IsSound s here = s
Reach-IsSound s (next {a} {b} {sent} r w e h) =
    subst {A = Outcome} IsSafe h (step-IsSafe w e a (Reach-IsSound s r))
