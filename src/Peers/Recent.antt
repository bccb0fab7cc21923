-- ===== src/Peers/Recent.antt =====
-- gmp/prec.cpp, hit and addRecentPR: a message that has come lately is known.
use sector_sphere.Base.{
  ℕ, ◌+◌, ◌*◌, ◌≤◌, ◌<◌, ◌≡◌, refl, Text, Map, nat_key, Bool, true, false, ◌&&◌, ◌||◌, Option, none,
  some, List, [], ◌∷◌, ◌++◌, ◌==◌, ltb, arith, inl, inr, Option-cases, All,
}
use sector_sphere.Base.Maps.{find, put}
use sector_sphere.Peers.{
  Peer, CPeerRecord, CPeerManagement, peer_eq, peer_eq_iff, peer_key, drop_old, refresh, enter,
  hash, add_recent, has_recent, hit, insert, update_rtt,
}
use sector_sphere.Peers.Records.{
  has_young, has_young-append, has_young-drop_old, has_recent-has_young, has_recent-append,
  has_recent-drop_old, recent-enter, recent-refresh, records, records_at, records-put,
}

-- The arguments of CPeerManagement::insert, and the clock readings of the call.
pub record Message : Type 0 where
  pub peer : Peer
  pub id : ℕ
  pub rtt : ℕ
  pub fw : ℕ
  pub t0 : ℕ
  pub t1 : ℕ
  pub t2 : ℕ

-- Whether a message is among others.
abbrev pub sent : Peer → ℕ → List Message → Bool
sent p id [] = false
sent p id (m ∷ ms) = peer_eq p m.peer && id == m.id || sent p id ms

module _ (dhash : Text → ℕ → ℕ) where
  abbrev pub receive : ℕ → Message → CPeerManagement → CPeerManagement
  receive limit m = insert dhash limit m.peer m.id m.rtt m.fw m.t0 m.t1 m.t2

  -- Messages one after the other.
  unfoldable pub run : ℕ → List Message → CPeerManagement → CPeerManagement
  run limit [] st = st
  run limit (m ∷ ms) st = run limit ms (receive limit m st)

  abbrev record_of : Message → CPeerRecord
  record_of m = record { peer = m.peer; id = m.id; time_stamp = m.t0; flow_window = m.fw }

  -- What the recent records become, and nothing else changes them.
  abbrev noted : Message → CPeerManagement → CPeerManagement
  noted m st =
      add_recent dhash (record_of m) m.t1 (record st { rtt = update_rtt m.peer.ip m.rtt st.rtt })

  recent-insert :
      (limit : ℕ) (m : Message) (st : CPeerManagement)
      → (receive limit m st).recent_rec ≡ (noted m st).recent_rec
  unfolding insert
  recent-insert limit m st = from (find m.peer st.peer_rec)
    where
      from :
          (o : Option CPeerRecord)
          → (elim o as (λ o. CPeerManagement) [
            | none ↦ enter limit (record_of m) (noted m st)
            | some old ↦ refresh (record_of m) old m.t2 (noted m st)
          ]).recent_rec
            ≡ (noted m st).recent_rec
      from none = recent-enter limit (record_of m) (noted m st)
      from (some old) = recent-refresh (record_of m) old m.t2 (noted m st)

  -- A message that is not ten seconds old at a time, in a table of recent records.
  unfoldable pub young : Peer → ℕ → ℕ → Map ℕ (List CPeerRecord) → Bool
  unfolding has_young records
  young p id t recent = has_young p id t (records (hash dhash p id) recent)

  same_hash : (p q : Peer) (i j : ℕ) → peer_eq p q ≡ true → i ≡ j → hash dhash p i ≡ hash dhash q j
  same_hash p q i j h k = rw (k, (peer_eq_iff p q).0 h) refl

  recent-add_recent :
      (ts : ℕ) (pr : CPeerRecord) (st : CPeerManagement)
      → (add_recent dhash pr ts st).recent_rec
        ≡ put
            (hash dhash pr.peer pr.id)
            (drop_old ts (records (hash dhash pr.peer pr.id) st.recent_rec) ++ pr ∷ [])
            st.recent_rec
  unfolding add_recent drop_old
  recent-add_recent ts pr st = elim (Option-cases (find (hash dhash pr.peer pr.id) st.recent_rec)) [
    | inl e ↦ rw (records_at (hash dhash pr.peer pr.id) st.recent_rec none e, e) refl
    | inr (l, e) ↦ rw (records_at (hash dhash pr.peer pr.id) st.recent_rec (some l) e, e) refl
  ]

  young-add_recent :
      (p : Peer) (id t ts : ℕ) (pr : CPeerRecord) (st : CPeerManagement)
      → ts ≤ t
      → young p id t (add_recent dhash pr ts st).recent_rec ≡ (
          peer_eq p pr.peer && (id == pr.id && ltb t (pr.time_stamp + 10 * 1000000))
          || young p id t st.recent_rec)
  unfolding young has_young
  young-add_recent p id t ts pr st h =
      let key = hash dhash pr.peer pr.id in
      let l = records key st.recent_rec in
      rw
        (
          recent-add_recent ts pr st,
          records-put key (hash dhash p id) (drop_old ts l ++ pr ∷ []) st.recent_rec,
        )
        (ground (
          arith,
          same_hash p pr.peer id pr.id,
          has_young-append p id t (drop_old ts l) (pr ∷ []),
          has_young-drop_old p id ts t l h,
        ))

  pub young-insert :
      (limit : ℕ) (p : Peer) (id t : ℕ) (m : Message) (st : CPeerManagement)
      → m.t1 ≤ t
      → young p id t (receive limit m st).recent_rec ≡ (
          peer_eq p m.peer && (id == m.id && ltb t (m.t0 + 10 * 1000000))
          || young p id t st.recent_rec)
  young-insert limit p id t m st h = rw (recent-insert limit m st) (
      young-add_recent p id t m.t1 (record_of m)
        (record st { rtt = update_rtt m.peer.ip m.rtt st.rtt }) h)

  -- The messages of a run do not make the record of a message older.
  young-run :
      (limit : ℕ) (p : Peer) (id t : ℕ) (ms : List Message) (st : CPeerManagement)
      → All (λ m. m.t1 ≤ t) ms
      → young p id t st.recent_rec ≡ true
      → young p id t (run limit ms st).recent_rec ≡ true
  unfolding run
  young-run limit p id t [] st h k = k
  young-run limit p id t (m ∷ ms) st h k =
      young-run limit p id t ms (receive limit m st) h.1
        (ground (arith, young-insert limit p id t m st h.0, k))

  hit-records :
      (p : Peer) (id : ℕ) (st : CPeerManagement)
      → hit dhash p id st ≡ has_recent p id (records (hash dhash p id) st.recent_rec)
  unfolding hit has_recent
  hit-records p id st = elim (Option-cases (find (hash dhash p id) st.recent_rec)) [
    | inl e ↦ rw (records_at (hash dhash p id) st.recent_rec none e, hit, e) refl
    | inr (l, e) ↦ rw (records_at (hash dhash p id) st.recent_rec (some l) e, hit, e) refl
  ]

  hit-young :
      (p : Peer) (id t : ℕ) (st : CPeerManagement)
      → young p id t st.recent_rec ≡ true
      → hit dhash p id st ≡ true
  unfolding young
  hit-young p id t st h =
      rw (hit-records p id st)
        (has_recent-has_young p id t (records (hash dhash p id) st.recent_rec) h)

  -- A message that was inserted is still known, by `hit`, after any further messages, whatever their
  -- hashes, round trip times and flow windows, as long as every clock reading for the recent records
  -- is at most t and t is less than ten seconds after the message's own time.
  pub hit-run :
      (limit t : ℕ) (m : Message) (ms : List Message) (st : CPeerManagement)
      → m.t1 ≤ t
      → All (λ m. m.t1 ≤ t) ms
      → t < m.t0 + 10 * 1000000
      → hit dhash m.peer m.id (run limit ms (receive limit m st)) ≡ true
  hit-run limit t m ms st h k j = hit-young m.peer m.id t (run limit ms (receive limit m st)) (
      young-run limit m.peer m.id t ms (receive limit m st) k
        (ground (arith, young-insert limit m.peer m.id t m st h, peer_eq_iff m.peer m.peer)))

  hit-insert :
      (limit : ℕ) (p : Peer) (id : ℕ) (m : Message) (st : CPeerManagement)
      → hit dhash p id (receive limit m st) ≡ true
      → (peer_eq p m.peer && id == m.id || hit dhash p id st) ≡ true
  unfolding has_recent
  hit-insert limit p id m st =
      let key = hash dhash m.peer m.id in
      let l = records key st.recent_rec in
      rw
        (
          hit-records p id (receive limit m st),
          hit-records p id st,
          recent-insert limit m st,
          recent-add_recent m.t1 (record_of m)
              (record st { rtt = update_rtt m.peer.ip m.rtt st.rtt }),
          records-put key (hash dhash p id) (drop_old m.t1 l ++ record_of m ∷ []) st.recent_rec,
        )
        (λ h. ground (
          arith,
          h,
          has_recent-append p id (drop_old m.t1 l) (record_of m ∷ []),
          has_recent-drop_old p id m.t1 l,
        ))

  -- A message that is known after a run was known before it or is one of the run.
  pub hit_sound :
      (limit : ℕ) (p : Peer) (id : ℕ) (ms : List Message) (st : CPeerManagement)
      → hit dhash p id (run limit ms st) ≡ true
      → (sent p id ms || hit dhash p id st) ≡ true
  unfolding run
  hit_sound limit p id [] st h = h
  hit_sound limit p id (m ∷ ms) st h =
      ground (arith, hit_sound limit p id ms (receive limit m st) h, hit-insert limit p id m st)
