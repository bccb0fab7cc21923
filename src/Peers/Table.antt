-- ===== src/Peers/Table.antt =====
-- gmp/prec.cpp, the two sets of peer records: what stands in the one stands in the other, and how many
-- there are, while the clock rises from reading to reading.
use sector_sphere.Base.{
  ℕ, suc, ◌≤◌, ◌<◌, ◌≡◌, refl, Map, true, false, not, ◌&&◌, ◌||◌, List, [], ◌∷◌, if◌then◌else◌,
  ◌==◌, arith, inl, inr, Bool-cases, length, All, is_some,
}
use sector_sphere.Base.Maps
use sector_sphere.Base.Maps.{
  find, put, erase, find-put, find-erase, length-put_new, length-put_old, erase-put_new,
}
use sector_sphere.Base.Sets.{has}
use sector_sphere.Peers.{
  Peer, CPeerRecord, CPeerManagement, peer_eq, peer_eq_iff, peer_key, time_of, insert_ts, erase_ts,
}

time_of-put :
    (p q : Peer) (r : CPeerRecord) (m : Map Peer CPeerRecord)
    → time_of (put p r m) q ≡ (if peer_eq p q then r.time_stamp else time_of m q)
unfolding time_of
time_of-put p q r m = ground (arith, find-put p q r m)

-- Times before another.
abbrev pub Before : Map Peer CPeerRecord → ℕ → List Peer → Type 0
Before m t = All (λ q. time_of m q < t)

-- The pointers in the order of CFPeerRecByTS.
abbrev pub Ranked : Map Peer CPeerRecord → List Peer → Type 0
Ranked m [] = Unit
Ranked m (p ∷ s) = Before m (time_of m p) s × Ranked m s

Before-has :
    (m : Map Peer CPeerRecord) (t : ℕ) (q : Peer) (s : List Peer)
    → Before m t s
    → has q s ≡ true
    → time_of m q < t
unfolding has
Before-has m t q [] h k = ground (arith, k)
Before-has m t q (p ∷ s) h k = elim (Bool-cases (peer_eq q p)) [
  | inl e ↦ rw ((peer_eq_iff q p).0 e) h.0
  | inr e ↦ Before-has m t q s h.1 (ground (arith, k, e))
]

Before-mono :
    (m : Map Peer CPeerRecord) (t u : ℕ) (s : List Peer) → t ≤ u → Before m t s → Before m u s
Before-mono m t u [] h k = tt
Before-mono m t u (p ∷ s) h k = (omega (arith, h, k.0), Before-mono m t u s h k.1)

-- A new record for a peer that is not among them.
Before-put :
    (m : Map Peer CPeerRecord) (t : ℕ) (p : Peer) (r : CPeerRecord) (s : List Peer)
    → has p s ≡ false
    → Before m t s
    → Before (put p r m) t s
unfolding has
Before-put m t p r [] h k = tt
Before-put m t p r (q ∷ s) h k =
    (ground (arith, k.0, h, time_of-put p q r m), Before-put m t p r s (ground (arith, h)) k.1)

has_parts :
    (p q : Peer) (s : List Peer) → has p (q ∷ s) ≡ false → (peer_eq p q ≡ false) × (has p s ≡ false)
unfolding has
has_parts p q s h = ground (arith, h)

Ranked-put :
    (m : Map Peer CPeerRecord) (p : Peer) (r : CPeerRecord) (s : List Peer)
    → has p s ≡ false
    → Ranked m s
    → Ranked (put p r m) s
unfolding has
Ranked-put m p r [] h k = tt
Ranked-put m p r (q ∷ s) h k =
    let n = has_parts p q s h in
    (
      rw (time_of-put p q r m, n.0) (Before-put m (time_of m q) p r s n.1 k.0),
      Ranked-put m p r s n.1 k.1,
    )

-- The latest peer comes to the front.
pub insert_ts_front :
    (m : Map Peer CPeerRecord) (p : Peer) (s : List Peer)
    → Before m (time_of m p) s
    → insert_ts m p s ≡ p ∷ s
unfolding insert_ts
insert_ts_front m p [] h = refl
insert_ts_front m p (q ∷ s) h = ground (arith, h.0)

pub length-erase_ts :
    (m : Map Peer CPeerRecord) (p : Peer) (s : List Peer)
    → has p s ≡ true
    → suc (length (erase_ts m p s)) ≡ length s
unfolding erase_ts has
length-erase_ts m p [] h = ground (arith, h)
length-erase_ts m p (q ∷ s) h = ground (arith, length-erase_ts m p s, peer_eq_iff p q)

pub has-erase_ts :
    (m : Map Peer CPeerRecord) (p q : Peer) (s : List Peer)
    → Ranked m s
    → has p s ≡ true
    → has q (erase_ts m p s) ≡ (not (peer_eq p q) && has q s)
unfolding erase_ts has
has-erase_ts m p q [] h k = ground (arith, k)
has-erase_ts m p q (a ∷ s) h k = elim (Bool-cases (has p s)) [
  | inl e ↦ ground (
    arith,
    has-erase_ts m p q s h.1 e,
    Before-has m (time_of m a) p s h.0 e,
    peer_eq_iff p q,
    peer_eq_iff q a,
    peer_eq_iff p a,
  )
  | inr e ↦ ground (arith, k, e, peer_eq_iff p q, peer_eq_iff q a, peer_eq_iff p a)
]

pub Before-erase_ts :
    (m : Map Peer CPeerRecord) (t : ℕ) (p : Peer) (s : List Peer)
    → Before m t s
    → Before m t (erase_ts m p s)
unfolding erase_ts
Before-erase_ts m t p [] h = h
Before-erase_ts m t p (q ∷ s) h = elim (Bool-cases (time_of m p == time_of m q)) [
  | inl e ↦ rw e h.1
  | inr e ↦ rw e (h.0, Before-erase_ts m t p s h.1)
]

pub Ranked-erase_ts :
    (m : Map Peer CPeerRecord) (p : Peer) (s : List Peer) → Ranked m s → Ranked m (erase_ts m p s)
unfolding erase_ts
Ranked-erase_ts m p [] h = h
Ranked-erase_ts m p (q ∷ s) h = elim (Bool-cases (time_of m p == time_of m q)) [
  | inl e ↦ rw e h.1
  | inr e ↦ rw e (Before-erase_ts m (time_of m q) p s h.0, Ranked-erase_ts m p s h.1)
]

-- The two sets at a clock reading: the records stand in the order of their keys, a peer is in the one
-- set as it is in the other, the latest peer stands first, no time is after the reading, the sets have
-- as many elements, and they are within the limit.
pub record IsMatchedAt (limit now : ℕ) (m : Map Peer CPeerRecord) (s : List Peer) : Type 0 where
  pub is_sorted : Maps.IsSorted m
  pub same : (p : Peer) → has p s ≡ is_some (find p m)
  pub ranked : Ranked m s
  pub before : Before m (suc now) s
  pub same_size : length s ≡ length m
  pub within : length s ≤ limit

-- What holds between calls.
abbrev pub IsMatched : ℕ → ℕ → CPeerManagement → Type 0
IsMatched limit now st = IsMatchedAt limit now st.peer_rec st.by_ts

-- The times of a new or a fresh record, and of the others.
pub front :
    (m : Map Peer CPeerRecord) (p : Peer) (r : CPeerRecord) (now : ℕ) (s : List Peer)
    → has p s ≡ false
    → Before m (suc now) s
    → now < r.time_stamp
    → Before (put p r m) (time_of (put p r m) p) s
front m p r now s h k j =
    Before-mono (put p r m) (suc now) (time_of (put p r m) p) s
      (ground (arith, time_of-put p p r m, peer_eq_iff p p, j)) (Before-put m (suc now) p r s h k)

placed_same :
    (m : Map Peer CPeerRecord) (p q : Peer) (r : CPeerRecord) (s : List Peer)
    → (peer_eq p q || has q s) ≡ (peer_eq p q || is_some (find q m))
    → has q (p ∷ s) ≡ is_some (find q (put p r m))
unfolding has
placed_same m p q r s e =
    rw (find-put p q r m) (ground (arith, e, peer_eq_iff p q, peer_eq_iff q p))

-- The two sets with a peer put in front.
pub placed :
    (limit now : ℕ) (m : Map Peer CPeerRecord) (p : Peer) (r : CPeerRecord) (s : List Peer)
    → Maps.IsSorted m
    → has p s ≡ false
    → ((q : Peer) → (peer_eq p q || has q s) ≡ (peer_eq p q || is_some (find q m)))
    → Ranked m s
    → Before m (suc now) s
    → now < r.time_stamp
    → suc (length s) ≡ length (put p r m)
    → suc (length s) ≤ limit
    → IsMatchedAt limit r.time_stamp (put p r m) (p ∷ s)
placed limit now m p r s o h e g b j l w = record {
  is_sorted = Maps.put-IsSorted p r m o;
  same = λ q. placed_same m p q r s (e q);
  ranked = (front m p r now s h b j, Ranked-put m p r s h g);
  before = (
    ground (arith, time_of-put p p r m, peer_eq_iff p p),
    Before-mono (put p r m) (suc now) (suc r.time_stamp) s (omega arith)
        (Before-put m (suc now) p r s h b),
  );
  same_size = l;
  within = w;
}

pub later :
    (limit now t : ℕ) (m : Map Peer CPeerRecord) (s : List Peer)
    → now ≤ t
    → IsMatchedAt limit now m s
    → IsMatchedAt limit t m s
later limit now t m s h v = record {
  is_sorted = v.is_sorted;
  same = v.same;
  ranked = v.ranked;
  before = Before-mono m (suc now) (suc t) s (omega arith) v.before;
  same_size = v.same_size;
  within = v.within;
}
