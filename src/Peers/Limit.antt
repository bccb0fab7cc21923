-- ===== src/Peers/Limit.antt =====
-- gmp/prec.cpp, CPeerManagement::insert and the two sets of peer records, while the clock rises from
-- reading to reading.
use sector_sphere.Base.{
  slt32, ◌^◌, ◌-◌, ℕ, suc, ◌≤◌, ◌<◌, ◌≡◌, refl, Text, true, false, Option, none, some, List, [],
  ◌∷◌, if◌then◌else◌, ltb, arith, inl, inr, Option-cases, Bool-cases, length,
}
use sector_sphere.Base.Maps.{find, put, length-put_new, length-put_old, erase-put_new}
use sector_sphere.Base.Sets.{has}
use sector_sphere.Peers.{
  Peer, CPeerRecord, CPeerManagement, add_recent, update_rtt, flow_control, peer_eq_iff, peer_key,
  erase_ts, evict, refresh, enter, insert,
}
use sector_sphere.Peers.Recent.{Message, receive, run}
use sector_sphere.Peers.Table.{
  IsMatched, insert_ts_front, length-erase_ts, has-erase_ts, Before-erase_ts, Ranked-erase_ts,
  front, placed, later,
}

abbrev numbered : CPeerRecord → CPeerRecord
numbered pr = record pr { id = if slt32 0 pr.id then pr.id else 2 ^ 32 - 1 }

absent :
    (limit now : ℕ) (p : Peer) (st : CPeerManagement)
    → IsMatched limit now st
    → find p st.peer_rec ≡ none
    → has p st.by_ts ≡ false
absent limit now p st v h = rw (v.same p, h) refl

entered :
    (limit now : ℕ) (pr : CPeerRecord) (st : CPeerManagement)
    → IsMatched limit now st
    → find pr.peer st.peer_rec ≡ none
    → now < pr.time_stamp
    → let st' = enter limit pr st in
      (length st.by_ts < limit
        → (st'.peer_rec ≡ put pr.peer (numbered pr) st.peer_rec) × (st'.by_ts ≡ pr.peer ∷ st.by_ts))
      × (length st.by_ts ≡ limit → (st'.peer_rec ≡ st.peer_rec) × (st'.by_ts ≡ st.by_ts))
unfolding enter evict
entered limit now pr st v h j =
    rw
      (insert_ts_front (put pr.peer (numbered pr) st.peer_rec) pr.peer st.by_ts (
        front st.peer_rec pr.peer (numbered pr) now st.by_ts (absent limit now pr.peer st v h)
          v.before j))
      (ground (arith, erase-put_new pr.peer (numbered pr) st.peer_rec h))

enter-IsMatched :
    (limit now : ℕ) (pr : CPeerRecord) (st : CPeerManagement)
    → IsMatched limit now st
    → find pr.peer st.peer_rec ≡ none
    → now < pr.time_stamp
    → IsMatched limit pr.time_stamp (enter limit pr st)
enter-IsMatched limit now pr st v h j = elim (Bool-cases (ltb (length st.by_ts) limit)) [
  | inl e ↦
      let f = (entered limit now pr st v h j).0 (ground (arith, e)) in
      rw (f.0, f.1)
        (placed limit now st.peer_rec pr.peer (numbered pr) st.by_ts v.is_sorted
          (absent limit now pr.peer st v h) (λ q. ground (arith, v.same q)) v.ranked v.before j
          (ground (arith, length-put_new pr.peer (numbered pr) st.peer_rec h, v.same_size))
          (ground (arith, e)))
  | inr e ↦
      let f = (entered limit now pr st v h j).1 (ground (arith, e, v.within)) in
      rw (f.0, f.1) (later limit now pr.time_stamp st.peer_rec st.by_ts (omega (arith, j)) v)
]

refresh-IsMatched :
    (limit now t : ℕ) (pr old : CPeerRecord) (st : CPeerManagement)
    → IsMatched limit now st
    → find pr.peer st.peer_rec ≡ some old
    → now < t
    → IsMatched limit t (refresh pr old t st)
unfolding refresh
refresh-IsMatched limit now t pr old st v h j =
    let p = pr.peer in
    let s = erase_ts st.peer_rec p st.by_ts in
    let fresh = record old {
      id = if slt32 old.id pr.id then pr.id else old.id;
      flow_window = pr.flow_window;
      time_stamp = t;
    } in
    let there : has p st.by_ts ≡ true = rw (v.same p, h) refl in
    let gone : has p s ≡ false =
      ground (arith, has-erase_ts st.peer_rec p p st.by_ts v.ranked there, peer_eq_iff p p) in
    let b = Before-erase_ts st.peer_rec (suc now) p st.by_ts v.before in
    rw (insert_ts_front (put p fresh st.peer_rec) p s (front st.peer_rec p fresh now s gone b j)) (
      placed limit now st.peer_rec p fresh s v.is_sorted gone
        (λ q. ground (arith, v.same q, has-erase_ts st.peer_rec p q st.by_ts v.ranked there))
        (Ranked-erase_ts st.peer_rec p st.by_ts v.ranked) b j
        (ground (
          arith,
          length-erase_ts st.peer_rec p st.by_ts there,
          length-put_old p fresh old st.peer_rec v.is_sorted h,
          v.same_size,
        ))
        (ground (arith, length-erase_ts st.peer_rec p st.by_ts there, v.within)))

-- Each message comes after the readings of the one before.
abbrev pub Rising : ℕ → List Message → Type 0
Rising now [] = Unit
Rising now (m ∷ ms) = (now < m.t0) × ((m.t0 ≤ m.t2) × Rising m.t2 ms)

-- The last reading.
abbrev pub clock : ℕ → List Message → ℕ
clock now [] = now
clock now (m ∷ ms) = clock m.t2 ms

flow_unknown :
    (p : Peer) (t : ℕ) (st : CPeerManagement) → find p st.peer_rec ≡ none → flow_control p t st ≡ 0
unfolding flow_control
flow_unknown p t st h = rw (flow_control, h) refl

module _ (dhash : Text → ℕ → ℕ) where
  abbrev pub record_of : Message → CPeerRecord
  record_of m = record { peer = m.peer; id = m.id; time_stamp = m.t0; flow_window = m.fw }

  abbrev pub noted : Message → CPeerManagement → CPeerManagement
  noted m st =
      add_recent dhash (record_of m) m.t1 (record st { rtt = update_rtt m.peer.ip m.rtt st.rtt })

  pub inserted :
      (limit : ℕ) (m : Message) (st : CPeerManagement) (o : Option CPeerRecord)
      → find m.peer st.peer_rec ≡ o
      → receive dhash limit m st ≡ elim o [
        | none ↦ enter limit (record_of m) (noted m st)
        | some old ↦ refresh (record_of m) old m.t2 (noted m st)
      ]
  unfolding insert
  inserted limit m st o h = rw (insert, h) refl

  pub insert-IsMatched :
      (limit now : ℕ) (m : Message) (st : CPeerManagement)
      → IsMatched limit now st
      → now < m.t0
      → m.t0 ≤ m.t2
      → IsMatched limit m.t2 (receive dhash limit m st)
  unfolding add_recent
  insert-IsMatched limit now m st v h j = elim (Option-cases (find m.peer st.peer_rec)) [
    | inl e ↦
        let st' = enter limit (record_of m) (noted m st) in
        rw (inserted limit m st none e) (
          later limit m.t0 m.t2 st'.peer_rec st'.by_ts j
            (enter-IsMatched limit now (record_of m) (noted m st) v e h))
    | inr (old, e) ↦
        rw (inserted limit m st (some old) e) (
          refresh-IsMatched limit now m.t2 (record_of m) old (noted m st) v e (omega (arith, h, j)))
  ]

  -- From a valid table, messages whose clock readings rise leave a valid table: the records in the order
  -- of their keys, the same peers in both sets and as many, the latest first, no time after the last
  -- reading, and no more peers than the limit.
  pub run-IsMatched :
      (limit now : ℕ) (ms : List Message) (st : CPeerManagement)
      → IsMatched limit now st
      → Rising now ms
      → IsMatched limit (clock now ms) (run dhash limit ms st)
  unfolding run
  run-IsMatched limit now [] st v h = v
  run-IsMatched limit now (m ∷ ms) st v h =
      run-IsMatched limit m.t2 ms (receive dhash limit m st)
        (insert-IsMatched limit now m st v h.0 h.1.0) h.1.1

  -- In a valid table that has as many peers as the limit, a new peer at a later clock reading is not
  -- kept: both sets stay as they were, and flow control does not know the peer.
  pub insert_full :
      (limit now t : ℕ) (m : Message) (st : CPeerManagement)
      → IsMatched limit now st
      → find m.peer st.peer_rec ≡ none
      → now < m.t0
      → length st.by_ts ≡ limit
      → let st' = receive dhash limit m st in
        (st'.peer_rec ≡ st.peer_rec) × ((st'.by_ts ≡ st.by_ts) × (flow_control m.peer t st' ≡ 0))
  unfolding add_recent
  insert_full limit now t m st v e h l =
      let f = (entered limit now (record_of m) (noted m st) v e h).1 l in
      rw (inserted limit m st none e)
        (f.0, (f.1, flow_unknown m.peer t (enter limit (record_of m) (noted m st)) (rw f.0 e)))
