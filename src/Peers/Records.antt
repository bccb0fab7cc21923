-- ===== src/Peers/Records.antt =====
-- gmp/prec.cpp: the lists of recent records, and which operations leave them alone.
use sector_sphere.Base.{
  ℕ, ◌+◌, ◌*◌, ◌≤◌, ◌≡◌, refl, Map, nat_key, Bool, true, false, ◌&&◌, ◌||◌, Option, none, some,
  List, [], ◌∷◌, ◌++◌, if◌then◌else◌, ◌==◌, ltb, arith, inl, inr, List-cases,
}
use sector_sphere.Base.Maps.{find, put, find-put}
use sector_sphere.Peers.{
  Peer, CPeerRecord, CPeerManagement, peer_eq, peer_key, drop_old, evict, refresh, enter,
  has_recent,
}

-- A record of the message that is not ten seconds old at a time.
unfoldable pub has_young : Peer → ℕ → ℕ → List CPeerRecord → Bool
has_young p id t [] = false
has_young p id t (r ∷ l) =
    peer_eq p r.peer && (id == r.id && ltb t (r.time_stamp + 10 * 1000000)) || has_young p id t l

pub has_young-append :
    (p : Peer) (id t : ℕ) (l k : List CPeerRecord)
    → has_young p id t (l ++ k) ≡ (has_young p id t l || has_young p id t k)
unfolding has_young
has_young-append p id t [] k = refl
has_young-append p id t (r ∷ l) k = ground (arith, has_young-append p id t l k)

pub has_young-drop_old :
    (p : Peer) (id ts t : ℕ) (l : List CPeerRecord)
    → ts ≤ t
    → has_young p id t (drop_old ts l) ≡ has_young p id t l
unfolding has_young drop_old
has_young-drop_old p id ts t [] h = refl
has_young-drop_old p id ts t (r ∷ l) h = ground (arith, has_young-drop_old p id ts t l h)

pub has_recent-has_young :
    (p : Peer) (id t : ℕ) (l : List CPeerRecord)
    → has_young p id t l ≡ true
    → has_recent p id l ≡ true
unfolding has_young has_recent
has_recent-has_young p id t [] h = h
has_recent-has_young p id t (r ∷ l) h = ground (arith, has_recent-has_young p id t l)

pub has_recent-append :
    (p : Peer) (id : ℕ) (l k : List CPeerRecord)
    → has_recent p id (l ++ k) ≡ (has_recent p id l || has_recent p id k)
unfolding has_recent
has_recent-append p id [] k = refl
has_recent-append p id (r ∷ l) k = ground (arith, has_recent-append p id l k)

pub has_recent-drop_old :
    (p : Peer) (id ts : ℕ) (l : List CPeerRecord)
    → has_recent p id (drop_old ts l) ≡ true
    → has_recent p id l ≡ true
unfolding has_recent drop_old
has_recent-drop_old p id ts [] h = h
has_recent-drop_old p id ts (r ∷ l) h = ground (arith, has_recent-drop_old p id ts l)

pub recent-evict : (st : CPeerManagement) → (evict st).recent_rec ≡ st.recent_rec
unfolding evict
recent-evict st = elim (List-cases st.by_ts) [ inl e ↦ rw e refl | inr (t, (rest, e)) ↦ rw e refl ]

pub recent-enter :
    (limit : ℕ) (pr : CPeerRecord) (st : CPeerManagement)
    → (enter limit pr st).recent_rec ≡ st.recent_rec
unfolding enter
recent-enter limit pr st = grind (arith, recent-evict)

pub recent-refresh :
    (pr old : CPeerRecord) (now : ℕ) (st : CPeerManagement)
    → (refresh pr old now st).recent_rec ≡ st.recent_rec
unfolding refresh
recent-refresh pr old now st = refl

-- The list of a key, where a missing one is empty.
unfoldable pub records : ℕ → Map ℕ (List CPeerRecord) → List CPeerRecord
records key m = elim (find key m) [ none ↦ [] | some l ↦ l ]

pub records_at :
    (key : ℕ) (m : Map ℕ (List CPeerRecord)) (o : Option (List CPeerRecord))
    → find key m ≡ o
    → records key m ≡ elim o [ none ↦ [] | some l ↦ l ]
unfolding records
records_at key m o h = rw (records, h) refl

pub records-put :
    (key j : ℕ) (l : List CPeerRecord) (m : Map ℕ (List CPeerRecord))
    → records j (put key l m) ≡ (if key == j then l else records j m)
unfolding records
records-put key j l m = ground (arith, find-put key j l m)
