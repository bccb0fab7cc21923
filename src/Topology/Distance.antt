-- ===== src/Topology/Distance.antt =====
-- Topology::match and Topology::distance: the distance grows with the levels that two addresses do not
-- share.
use sector_sphere.Base.{
  ℕ, zero, suc, ◌+◌, ◌-◌, ◌^◌, ◌≤◌, ◌<◌, ◌≡◌, ◌⊎◌, refl, ℤ, pos, negsuc, Text, true, false, some,
  List, [], ◌∷◌, length, ◌==◌, ltb, arith, All, Option-cases, Bool-cases, inl, inr,
}
use sector_sphere.Base.Keys.{text_eq, text_eq_iff}
use sector_sphere.Topology.{TopoMap, Topology, zeros, entry_of, lookup, match, distance}

-- No path is longer than the number of levels, which is a word with room for one more.
pub record IsValid (t : Topology) : Type 0 where
  pub paths : All (λ i. length i.path ≤ t.level) t.topo_map
  pub word : t.level < 2 ^ 32 - 1

match_comm : (p q : List ℕ) → match p q ≡ match q p
unfolding match
match_comm [] [] = refl
match_comm [] (y ∷ q) = refl
match_comm (x ∷ p) [] = refl
match_comm (x ∷ p) (y ∷ q) = ground (arith, match_comm p q)

pub match_bound : (p q : List ℕ) → match p q ≤ length p
unfolding match
match_bound [] q = omega arith
match_bound (x ∷ p) [] = omega arith
match_bound (x ∷ p) (y ∷ q) = ground (arith, match_bound p q)

-- What two paths share with a third they share with each other.
match_between : (n : ℕ) (p q r : List ℕ) → n ≤ match p q → n ≤ match q r → n ≤ match p r
unfolding match
match_between zero p q r h k = omega arith
match_between (suc n) [] q r h k = ground arith
match_between (suc n) (x ∷ p) [] r h k = ground arith
match_between (suc n) (x ∷ p) (y ∷ q) [] h k = ground arith
match_between (suc n) (x ∷ p) (y ∷ q) (z ∷ r) h k = ground (arith, match_between n p q r)

length-zeros : (n : ℕ) → length (zeros n) ≡ n
unfolding zeros
length-zeros zero = refl
length-zeros (suc n) = omega (arith, length-zeros n)

entry_of_bound :
    (digits level : ℕ) (m : List TopoMap) (i : TopoMap)
    → All (λ j. length j.path ≤ level) m
    → entry_of digits m ≡ some i
    → length i.path ≤ level
unfolding entry_of
entry_of_bound digits level [] i a h = cc
entry_of_bound digits level (j ∷ m) i a h = ground (arith, entry_of_bound digits level m i a.1)

lookup_bound :
    (inet_pton : Text → ℤ × ℕ) (ip : Text) (t : Topology)
    → IsValid t
    → length (lookup inet_pton ip [] t).0 ≤ t.level
unfolding lookup
lookup_bound inet_pton ip t v = from (inet_pton ip).0 refl
  where
    from : (c : ℤ) → (inet_pton ip).0 ≡ c → length (lookup inet_pton ip [] t).0 ≤ t.level
    from (negsuc n) e = rw (lookup, e) (omega arith)
    from (pos n) e = elim (Option-cases (entry_of (inet_pton ip).1 t.topo_map)) [
      | inl f ↦ rw (lookup, e, f) (omega (arith, length-zeros t.level))
      | inr (i, f) ↦
          rw (lookup, e, f) (entry_of_bound (inet_pton ip).1 t.level t.topo_map i v.paths f)
    ]

distance_view :
    (inet_pton : Text → ℤ × ℕ) (a b : Text) (t : Topology)
    → IsValid t
    → text_eq a b ≡ false
    → distance inet_pton a b t + match (lookup inet_pton a [] t).0 (lookup inet_pton b [] t).0
      ≡ t.level + 1
unfolding distance
distance_view inet_pton a b t v h =
    let p = (lookup inet_pton a [] t).0 in
    let q = (lookup inet_pton b [] t).0 in
    ground (arith, h, v.word, match_bound p q, lookup_bound inet_pton a t v)

distance_self :
    (inet_pton : Text → ℤ × ℕ) (a b : Text) (t : Topology)
    → text_eq a b ≡ true
    → distance inet_pton a b t ≡ 0
unfolding distance
distance_self inet_pton a b t h = ground (arith, h)

triangle :
    (inet_pton : Text → ℤ × ℕ) (a b c : Text) (t : Topology)
    → IsValid t
    → (distance inet_pton a c t ≤ distance inet_pton a b t)
      ⊎ (distance inet_pton a c t ≤ distance inet_pton b c t)
triangle inet_pton a b c t v =
    let p = (lookup inet_pton a [] t).0 in
    let q = (lookup inet_pton b [] t).0 in
    let r = (lookup inet_pton c [] t).0 in
    elim (Bool-cases (text_eq a b)) [
      | inl e ↦ inr (ground (arith, text_eq_iff a b, e))
      | inr e ↦ elim (Bool-cases (text_eq b c)) [
        | inl f ↦ inl (ground (arith, text_eq_iff b c, f))
        | inr f ↦ elim (Bool-cases (ltb (match q r) (match p q))) [
          | inl g ↦ inr (
              ground (
                arith,
                g,
                match_between (match q r) p q r,
                distance_view inet_pton b c t v f,
                distance_view inet_pton a c t v,
                distance_self inet_pton a c t,
              ))
          | inr g ↦ inl (
              ground (
                arith,
                g,
                match_between (match p q) p q r,
                distance_view inet_pton a b t v e,
                distance_view inet_pton a c t v,
                distance_self inet_pton a c t,
              ))
        ]
      ]
    ]

-- Topology::distance is a distance: it is the same both ways, it is 0 exactly for equal addresses and
-- at most one more than the number of levels, and the distance of two addresses is not greater
-- than both their distances to a third. No path is longer than the number of levels.
pub distance_laws :
    (inet_pton : Text → ℤ × ℕ) (a b c : Text) (t : Topology)
    → IsValid t
    → (distance inet_pton a b t ≡ distance inet_pton b a t)
      × ((distance inet_pton a b t == 0) ≡ text_eq a b)
      × (distance inet_pton a b t ≤ t.level + 1)
      × ((distance inet_pton a c t ≤ distance inet_pton a b t)
          ⊎ (distance inet_pton a c t ≤ distance inet_pton b c t))
distance_laws inet_pton a b c t v =
    let p = (lookup inet_pton a [] t).0 in
    let q = (lookup inet_pton b [] t).0 in
    let r = (lookup inet_pton c [] t).0 in
    (
      ground (
        arith,
        distance_view inet_pton a b t v,
        distance_view inet_pton b a t v,
        distance_self inet_pton a b t,
        distance_self inet_pton b a t,
        match_comm p q,
        text_eq_iff a b,
        text_eq_iff b a,
      ),
      ground (
        arith,
        distance_view inet_pton a b t v,
        distance_self inet_pton a b t,
        match_bound p q,
        lookup_bound inet_pton a t v,
      ),
      ground (arith, distance_view inet_pton a b t v, distance_self inet_pton a b t),
      triangle inet_pton a b c t v,
    )
