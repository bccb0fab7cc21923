-- ===== src/Slaves/IoNode/Nearest.antt =====
-- Which of the locations of a file SlaveManager::chooseIONode takes.
use sector_sphere.Topology.{distance}
use sector_sphere.Base.Maps.{find}
use sector_sphere.Base.{
  Set, false, ◌<◌, ℕ, ap, subst, sym, ◌+◌, ◌≤◌, ◌≡◌, ◌⊎◌, refl, ℤ, Text, Map, Bool, true, ◌&&◌,
  some, List, [], ◌∷◌, ◌++◌, length, length-append, if◌then◌else◌, ◌==◌, ltb, arith, inl, inr,
  Bool-cases, nat_key,
}
use sector_sphere.Base.Sets.{has}
use sector_sphere.Slaves.{SlaveNode, SlaveManager}
use sector_sphere.Slaves.IoNode.{
  pick_loop, all_but, nodes_of, distance_of, choose_located, choose_io_node, is_write, or_blank,
}

-- A round of the loop goes on with the node itself or the one before, whichever is nearer.
round :
    (coin : ℕ → Bool) (d : ℕ → ℕ) (i : ℕ) (l : List ℕ) (n : ℕ)
    → (k : ℕ) × ((pick_loop coin d (i ∷ l) (d n) n ≡ pick_loop coin d l (d k) k)
        × ((d k ≤ d i) × ((d k ≤ d n) × ((k ≡ n) ⊎ (k ≡ i)))))
unfolding pick_loop
round coin d i l n = elim (Bool-cases (ltb (d i) (d n))) [
  | inl e ↦ (i, (rw e refl, ground (arith, e)))
  | inr e ↦ elim (Bool-cases (d i == d n && coin i)) [
    | inl f ↦
        let g : d n ≡ d i = ground (arith, f) in
        (i, (rw (e, f) (ap (λ x. pick_loop coin d l x i) g), ground (arith, e, f)))
    | inr f ↦ (n, (rw (e, f) refl, ground (arith, e)))
  ]
]

-- A location, the first or another, that is nowhere farther than one of them.
abbrev pub IsLeast : (ℕ → ℕ) → ℕ → List ℕ → ℕ → Type 0
IsLeast d n l r =
    (d r ≤ d n) × (((j : ℕ) → has j l ≡ true → d r ≤ d j) × ((r ≡ n) ⊎ (has r l ≡ true)))

IsLeast-more :
    (d : ℕ → ℕ) (i n k r : ℕ) (l : List ℕ)
    → d k ≤ d i
    → d k ≤ d n
    → (k ≡ n) ⊎ (k ≡ i)
    → IsLeast d k l r
    → IsLeast d n (i ∷ l) r
unfolding has
IsLeast-more d i n k r l a b c g =
    (omega (arith, g.0, b), ((λ j h. ground (arith, h, g.0, a, g.1.0 j)), ground (arith, g.1.1, c)))

pick_loop-IsLeast :
    (coin : ℕ → Bool) (d : ℕ → ℕ) (l : List ℕ) (n : ℕ) → IsLeast d n l (pick_loop coin d l (d n) n)
unfolding pick_loop has
pick_loop-IsLeast coin d [] n = (ground arith, ((λ j h. ground (arith, h)), inl refl))
pick_loop-IsLeast coin d (i ∷ l) n =
    let (k, (e, (a, (b, c)))) = round coin d i l n in
    subst (IsLeast d n (i ∷ l)) (sym e)
      (IsLeast-more d i n k (pick_loop coin d l (d k) k) l a b c (pick_loop-IsLeast coin d l k))

-- The first round takes the first location.
pick_first :
    (coin : ℕ → Bool) (d : ℕ → ℕ) (n : ℕ) (l : List ℕ)
    → d n ≤ 1000000000
    → pick_loop coin d (n ∷ l) 1000000000 n ≡ pick_loop coin d l (d n) n
unfolding pick_loop
pick_first coin d n l h = elim (Bool-cases (ltb (d n) 1000000000)) [
  | inl e ↦ rw e refl
  | inr e ↦ let g : d n ≡ 1000000000 = ground (arith, e, h) in ground (arith, e, g)
]

length-nodes_of :
    (blank : SlaveNode) (slaves : Map ℕ SlaveNode) (l : List ℕ)
    → length (nodes_of blank slaves l) ≡ length l
unfolding nodes_of
length-nodes_of blank slaves [] = refl
length-nodes_of blank slaves (i ∷ l) = ground (arith, length-nodes_of blank slaves l)

-- The slaves that are answered for a location: this one to read from, all to write to, this one first.
abbrev pub ids_for : ℕ → ℕ → List ℕ → List ℕ
ids_for mode r loclist = r ∷ (if is_write mode then all_but r loclist else [])

-- How far the client is from the slave of an id.
abbrev pub way : (Text → ℤ × ℕ) → Text → SlaveNode → SlaveManager → ℕ → ℕ
way inet_pton client blank m i =
    distance inet_pton client (or_blank blank (find i m.slave_list)).ip m.topology

-- One of the locations: if any that is not bad is nearer than 10^9, this one is not bad, and no farther.
abbrev pub IsNearest : (ℕ → ℕ) → Set ℕ → List ℕ → ℕ → Type 0
IsNearest d bad loclist r =
    (has r loclist ≡ true)
    × ((j : ℕ)
        → has j loclist ≡ true
        → has j bad ≡ false
        → d j < 1000000000
        → (has r bad ≡ false) × (d r ≤ d j))

IsNearest-IsLeast :
    (inet_pton : Text → ℤ × ℕ) (client : Text) (blank : SlaveNode) (m : SlaveManager) (n : ℕ)
    (l : List ℕ) (r : ℕ)
    → IsLeast (distance_of inet_pton client blank m) n l r
    → IsNearest (way inet_pton client blank m) m.bad_slaves (n ∷ l) r
unfolding distance_of has
IsNearest-IsLeast inet_pton client blank m n l r (a, (b, c)) = (
  ground (arith, c),
  λ j h g f. elim (Bool-cases (j == n)) [
    | inl e ↦
        let same : n ≡ j = ground (arith, e) in
        let a' =
          subst
            (λ x. distance_of inet_pton client blank m r ≤ distance_of inet_pton client blank m x)
            same a in
        elim (Bool-cases (has r m.bad_slaves)) [
          | inl q ↦ absurd (ground (arith, a', g, f, q))
          | inr q ↦ (q, ground (arith, a', g, f, q))
        ]
    | inr e ↦
        let b' = b j (ground (arith, h, e)) in
        elim (Bool-cases (has r m.bad_slaves)) [
          | inl q ↦ absurd (ground (arith, b', g, f, q))
          | inr q ↦ (q, ground (arith, b', g, f, q))
        ]
  ],
)

distance_of_bound :
    (inet_pton : Text → ℤ × ℕ) (client : Text) (blank : SlaveNode) (m : SlaveManager) (n : ℕ)
    → way inet_pton client blank m n ≤ 1000000000
    → distance_of inet_pton client blank m n ≤ 1000000000
unfolding distance_of
distance_of_bound inet_pton client blank m n h = ground (arith, h)

-- For a file with locations, the first of them not farther than 10^9 from the client, chooseIONode puts behind the
-- slaves that are passed in: to read, one of the locations, and to write this one and then all the others in their order.
-- This one is not bad, and no location that is not bad is nearer to the client, if any of these is nearer than 10^9.
-- The code is 1, or to write the number of the slaves.
pub choose_io_node_cases :
    (inet_pton : Text → ℤ × ℕ) (coin : ℕ → Bool) (first : ℕ → ℕ) (picks : ℕ → ℕ → ℕ)
    (blank : SlaveNode) (n : ℕ) (l : List ℕ) (client : Text) (mode replica : ℕ)
    (sl : List SlaveNode) (m : SlaveManager)
    → way inet_pton client blank m n ≤ 1000000000
    → (r : ℕ) × (IsNearest (way inet_pton client blank m) m.bad_slaves (n ∷ l) r
        × ((m' : SlaveManager) × (choose_io_node inet_pton coin first picks blank
                (n ∷ l)
                client
                mode
                sl
                replica
                m
              ≡ some (
                m',
                (
                  sl ++ nodes_of blank m.slave_list (ids_for mode r (n ∷ l)),
                  if is_write mode then length sl + length (ids_for mode r (n ∷ l)) else 1,
                ),
              ))))
unfolding choose_io_node choose_located
choose_io_node_cases inet_pton coin first picks blank n l client mode replica sl m h =
    let d = distance_of inet_pton client blank m in
    let r = pick_loop coin d (n ∷ l) 1000000000 n in
    let near = distance_of_bound inet_pton client blank m n h in
    (
      r,
      (
        IsNearest-IsLeast inet_pton client blank m n l r (
            subst (IsLeast d n l) (sym (pick_first coin d n l near))
              (pick_loop-IsLeast coin d l n)),
        (
          (choose_located inet_pton coin blank client mode n l m).0,
          rw
              (
                length-append sl (nodes_of blank m.slave_list (ids_for mode r (n ∷ l))),
                length-nodes_of blank m.slave_list (ids_for mode r (n ∷ l)),
              )
              refl,
        ),
      ),
    )
