-- ===== src/Peers/Rtt.antt =====
-- gmp/prec.cpp, the round trip times: getRTT after messages.
use sector_sphere.Base.{
  ℕ, ◌^◌, ◌≤◌, ◌<◌, ◌≡◌, refl, Text, text_key, Map, true, false, Option, none, some, List, [], ◌∷◌,
  if◌then◌else◌, arith, slt32, pos, negsuc, ◌⊎◌, inl, inr, Option-cases, length, ltb, ◌-◌, sym,
  Bool-cases, List-cases, All,
}
use sector_sphere.Base.Maps.{find, put, erase, find-put, find-erase}
use sector_sphere.Base.Keys.{text_eq, text_eq_iff}
use sector_sphere.Peers.{
  peer_key, CPeerRecord, CPeerManagement, smooth, update_rtt, insert_ts, any_ip, evict, enter,
  refresh, get_rtt, add_recent,
}
use sector_sphere.Peers.Recent.{Message, receive, run}
use sector_sphere.Peers.Limit.{inserted, record_of, noted}

smooth_between :
    (lo hi old rtt : ℕ)
    → hi < 2 ^ 28
    → lo ≤ old
    → old ≤ hi
    → lo ≤ rtt
    → rtt ≤ hi
    → (lo ≤ smooth old rtt) × (smooth old rtt ≤ hi)
unfolding smooth
smooth_between lo hi old rtt h a b c d = ground arith

-- The round trip time of an address, where it has one, is in a range.
abbrev pub InRange : ℕ → ℕ → Text → Map Text ℕ → Type 0
InRange lo hi ip m = (t : ℕ) → find ip m ≡ some t → (lo ≤ t) × (t ≤ hi)

-- A measured time: of another address, none (which is not positive), or in the range.
abbrev pub Measured : ℕ → ℕ → Text → Message → Type 0
Measured lo hi ip m =
    text_eq m.peer.ip ip ≡ true → slt32 0 m.rtt ≡ true → (lo ≤ m.rtt) × (m.rtt ≤ hi)

next_rtt : ℕ → Option ℕ → ℕ
next_rtt rtt none = rtt
next_rtt rtt (some old) = smooth old rtt

find-update_rtt :
    (ip q : Text) (rtt : ℕ) (r : Map Text ℕ)
    → find q (update_rtt ip rtt r) ≡ (
        if slt32 0 rtt
        then if text_eq ip q then some (next_rtt rtt (find q r)) else find q r
        else find q r)
unfolding update_rtt next_rtt
find-update_rtt ip q rtt r = elim (Bool-cases (text_eq ip q)) [
  | inl e ↦
      rw (sym ((text_eq_iff ip q).0 e))
        (ground (arith, find-put ip ip (next_rtt rtt (find ip r)) r, text_eq_iff ip ip))
  | inr e ↦ ground (arith, e, find-put ip q (next_rtt rtt (find ip r)) r)
]

next_between :
    (lo hi rtt : ℕ) (o : Option ℕ)
    → hi < 2 ^ 28
    → lo ≤ rtt
    → rtt ≤ hi
    → ((t : ℕ) → o ≡ some t → (lo ≤ t) × (t ≤ hi))
    → (lo ≤ next_rtt rtt o) × (next_rtt rtt o ≤ hi)
unfolding next_rtt
next_between lo hi rtt none b c d k = (c, d)
next_between lo hi rtt (some old) b c d k =
    smooth_between lo hi old rtt b (k old refl).0 (k old refl).1 c d

update_rtt-InRange :
    (lo hi : ℕ) (ip : Text) (m : Message) (r : Map Text ℕ)
    → hi < 2 ^ 28
    → Measured lo hi ip m
    → InRange lo hi ip r
    → InRange lo hi ip (update_rtt m.peer.ip m.rtt r)
update_rtt-InRange lo hi ip m r b h k t e =
    from (Bool-cases (slt32 0 m.rtt)) (Bool-cases (text_eq m.peer.ip ip))
  where
    from :
        (slt32 0 m.rtt ≡ true) ⊎ (slt32 0 m.rtt ≡ false)
        → (text_eq m.peer.ip ip ≡ true) ⊎ (text_eq m.peer.ip ip ≡ false)
        → (lo ≤ t) × (t ≤ hi)
    from (inl p) (inl q) =
        let n = next_between lo hi m.rtt (find ip r) b (h q p).0 (h q p).1 k in
        ground (arith, n, e, find-update_rtt m.peer.ip ip m.rtt r, p, q)
    from (inl p) (inr q) = k t (ground (arith, e, find-update_rtt m.peer.ip ip m.rtt r, p, q))
    from (inr p) q = k t (ground (arith, e, find-update_rtt m.peer.ip ip m.rtt r, p))

erase-InRange :
    (lo hi : ℕ) (ip q : Text) (r : Map Text ℕ) → InRange lo hi ip r → InRange lo hi ip (erase q r)
erase-InRange lo hi ip q r k t e = k t (ground (arith, e, find-erase q ip r))

evict-InRange :
    (lo hi : ℕ) (ip : Text) (st : CPeerManagement)
    → InRange lo hi ip st.rtt
    → InRange lo hi ip (evict st).rtt
unfolding evict
evict-InRange lo hi ip st k = elim (List-cases st.by_ts) [
  | inl e ↦ rw e k
  | inr (p, (rest, e)) ↦ elim (Bool-cases (any_ip p.ip (erase p st.peer_rec))) [
    | inl f ↦ rw (e, f) k
    | inr f ↦ rw (e, f) (erase-InRange lo hi ip p.ip st.rtt k)
  ]
]

enter-InRange :
    (lo hi limit : ℕ) (ip : Text) (pr : CPeerRecord) (st : CPeerManagement)
    → InRange lo hi ip st.rtt
    → InRange lo hi ip (enter limit pr st).rtt
unfolding enter
enter-InRange lo hi limit ip pr st k =
    let m =
      put pr.peer (record pr { id = if slt32 0 pr.id then pr.id else 2 ^ 32 - 1 }) st.peer_rec in
    let st' = record st { peer_rec = m; by_ts = insert_ts m pr.peer st.by_ts } in
    elim (Bool-cases (ltb limit (length st'.by_ts))) [
      | inl e ↦ rw e (evict-InRange lo hi ip st' k)
      | inr e ↦ rw e k
    ]

refresh-InRange :
    (lo hi t : ℕ) (ip : Text) (pr old : CPeerRecord) (st : CPeerManagement)
    → InRange lo hi ip st.rtt
    → InRange lo hi ip (refresh pr old t st).rtt
unfolding refresh
refresh-InRange lo hi t ip pr old st k = k

module _ (dhash : Text → ℕ → ℕ) where
  insert-InRange :
      (lo hi limit : ℕ) (ip : Text) (m : Message) (st : CPeerManagement)
      → hi < 2 ^ 28
      → Measured lo hi ip m
      → InRange lo hi ip st.rtt
      → InRange lo hi ip (receive dhash limit m st).rtt
  unfolding add_recent
  insert-InRange lo hi limit ip m st b h k =
      let r = update_rtt-InRange lo hi ip m st.rtt b h k in
      elim (Option-cases (find m.peer st.peer_rec)) [
        | inl e ↦
            rw (inserted dhash limit m st none e)
              (enter-InRange lo hi limit ip (record_of dhash m) (noted dhash m st) r)
        | inr (old, e) ↦
            rw (inserted dhash limit m st (some old) e)
              (refresh-InRange lo hi m.t2 ip (record_of dhash m) old (noted dhash m st) r)
      ]

  run-InRange :
      (lo hi limit : ℕ) (ip : Text) (ms : List Message) (st : CPeerManagement)
      → hi < 2 ^ 28
      → All (Measured lo hi ip) ms
      → InRange lo hi ip st.rtt
      → InRange lo hi ip (run dhash limit ms st).rtt
  unfolding run
  run-InRange lo hi limit ip [] st b h k = k
  run-InRange lo hi limit ip (m ∷ ms) st b h k =
      run-InRange lo hi limit ip ms (receive dhash limit m st) b h.1
        (insert-InRange lo hi limit ip m st b h.0 k)

  -- Where every measured time of an address lies between two bounds, the higher below 2^28, and so
  -- does its time at the start, if it has one, then `get_rtt` after any messages answers -1 or a time
  -- between the same bounds.
  pub get_rtt-run :
      (lo hi limit : ℕ) (ip : Text) (ms : List Message) (st : CPeerManagement)
      → hi < 2 ^ 28
      → All (Measured lo hi ip) ms
      → InRange lo hi ip st.rtt
      → let rtt = get_rtt ip (run dhash limit ms st) in
        (rtt ≡ negsuc 0) ⊎ ((t : ℕ) × ((rtt ≡ pos t) × ((lo ≤ t) × (t ≤ hi))))
  unfolding get_rtt
  get_rtt-run lo hi limit ip ms st b h k =
      let k' = run-InRange lo hi limit ip ms st b h k in
      elim (Option-cases (find ip (run dhash limit ms st).rtt)) [
        | inl e ↦ inl (rw (get_rtt, e) refl)
        | inr (t, e) ↦ inr (t, (rw (get_rtt, e) refl, k' t e))
      ]
