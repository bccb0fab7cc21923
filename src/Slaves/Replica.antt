-- ===== src/Slaves/Replica.antt =====
-- SlaveManager::chooseReplicaNode: a new replica goes to a slave that has none, as far from the others
-- as there is one.
use sector_sphere.Topology.{match}
use sector_sphere.Base.{
  ap, ◌∙◌, slt64, add64, ℕ, zero, suc, ◌+◌, ◌≤◌, ◌<◌, ◌≡◌, ◌⊎◌, refl, subst, pos, Map, Set, true,
  false, Option, none, some, List, [], ◌∷◌, length, get_elem?, get_elem?_below, is_empty,
  if◌then◌else◌, ◌==◌, ltb, arith, Bool-cases, inl, inr,
}
use sector_sphere.Base.Maps
use sector_sphere.Base.Sets
use sector_sphere.Base.Keys.{nat_key}
use sector_sphere.Topology.Distance.{match_bound}
use sector_sphere.Slaves.{
  SlaveNode, SlaveManager, shared, level_loop, level_of, is_level, avail, candidates,
  choose_replica_node, e_nodisk,
}

-- A slave that is a location is not considered.
level_loop_location :
    (slaves : Map ℕ SlaveNode) (i : ℕ) (path : List ℕ) (loclist : Set ℕ) (level : ℕ)
    → Sets.has i loclist ≡ true
    → level_loop slaves i path loclist level ≡ none
unfolding level_loop Sets.has
level_loop_location slaves i path [] level h = cc
level_loop_location slaves i path (j ∷ loclist) level h =
    let tmpl = shared path (Maps.find j slaves) in
    ground
      (arith, level_loop_location slaves i path loclist (if ltb level tmpl then tmpl else level))

is_level-some : (k : ℕ) (o : Option ℕ) → is_level k o ≡ true → o ≡ some k
is_level-some k none h = cc
is_level-some k (some l) h = ground arith

module _ (level : ℕ → SlaveNode → Option ℕ) where
  -- What stands in the set of a level.
  avail_sound :
      (k p : ℕ) (slaves : Map ℕ SlaveNode) (i : ℕ)
      → Maps.IsSorted slaves
      → get_elem? (avail level k slaves) p ≡ some i
      → (s : SlaveNode) × (Maps.find i slaves ≡ some s) × (level i s ≡ some k)
  unfolding avail Maps.find
  avail_sound k p [] i o h = cc
  avail_sound k zero ((j, s) ∷ slaves) i o h = elim (Bool-cases (is_level k (level j s))) [
    | inl e ↦ (
      s,
      ground (arith, h, e),
      subst (λ x. level x s ≡ some k) (ground (arith, h, e)) (is_level-some k (level j s) e),
    )
    | inr e ↦
        let a = avail_sound k zero slaves i o.1 (ground (arith, h, e)) in
        (a.0, ground (arith, a.1, Maps.find-Above j slaves o.0), a.2)
  ]
  avail_sound k (suc p) ((j, s) ∷ slaves) i o h = elim (Bool-cases (is_level k (level j s))) [
    | inl e ↦
        let a = avail_sound k p slaves i o.1 (ground (arith, h, e)) in
        (a.0, ground (arith, a.1, Maps.find-Above j slaves o.0), a.2)
    | inr e ↦
        let a = avail_sound k (suc p) slaves i o.1 (ground (arith, h, e)) in
        (a.0, ground (arith, a.1, Maps.find-Above j slaves o.0), a.2)
  ]

  avail_complete :
      (k : ℕ) (slaves : Map ℕ SlaveNode) (i : ℕ) (s : SlaveNode)
      → Maps.find i slaves ≡ some s
      → level i s ≡ some k
      → is_empty (avail level k slaves) ≡ false
  unfolding avail Maps.find
  avail_complete k [] i s h e = cc
  avail_complete k ((j, t) ∷ slaves) i s h e = ground (arith, avail_complete k slaves i s)

  -- The candidates are the slaves of the lowest level that has any.
  candidates_sound :
      (slaves : Map ℕ SlaveNode) (n k p i : ℕ)
      → Maps.IsSorted slaves
      → get_elem? (candidates level slaves n k) p ≡ some i
      → (s : SlaveNode) × (l : ℕ) × (Maps.find i slaves ≡ some s)
        × (level i s ≡ some l)
        × ((j m : ℕ) (t : SlaveNode)
            → Maps.find j slaves ≡ some t
            → level j t ≡ some m
            → k ≤ m
            → l ≤ m)
  unfolding candidates
  candidates_sound slaves zero k p i o h = cc
  candidates_sound slaves (suc n) k p i o h = elim (Bool-cases (is_empty (avail level k slaves))) [
    | inl e ↦
        let c = candidates_sound slaves n (suc k) p i o (ground (arith, h, e)) in
        (
          c.0,
          c.1,
          c.2,
          c.3,
          λ j m t f g b. elim (Bool-cases (m == k)) [
            | inl q ↦ ground (arith, avail_complete k slaves j t f, q, g, e)
            | inr q ↦ c.4 j m t f g (ground (arith, q, b))
          ],
        )
    | inr e ↦
        let a = avail_sound k p slaves i o (ground (arith, h, e)) in
        (a.0, k, a.1, a.2, λ j m t f g b. b)
  ]

  candidates_complete :
      (slaves : Map ℕ SlaveNode) (n k m i : ℕ) (s : SlaveNode)
      → Maps.find i slaves ≡ some s
      → level i s ≡ some m
      → k ≤ m
      → m < k + n
      → is_empty (candidates level slaves n k) ≡ false
  unfolding candidates
  candidates_complete slaves zero k m i s f g h b = ground arith
  candidates_complete slaves (suc n) k m i s f g h b =
      elim (Bool-cases (is_empty (avail level k slaves))) [
        | inr e ↦ ground (arith, e)
        | inl e ↦ elim (Bool-cases (m == k)) [
          | inl q ↦ ground (arith, avail_complete k slaves i s f, q, g, e)
          | inr q ↦ ground (arith, e, q, candidates_complete slaves n (suc k) m i s f g)
        ]
      ]

shared_bound : (path : List ℕ) (o : Option SlaveNode) → shared path o ≤ length path
shared_bound path none = omega arith
shared_bound path (some jp) = match_bound path jp.path

level_loop_bound :
    (slaves : Map ℕ SlaveNode) (i bound : ℕ) (path : List ℕ) (loclist : Set ℕ) (level k : ℕ)
    → length path ≤ bound
    → level ≤ bound
    → level_loop slaves i path loclist level ≡ some k
    → k ≤ bound
unfolding level_loop
level_loop_bound slaves i bound path [] level k p h e = ground arith
level_loop_bound slaves i bound path (j ∷ loclist) level k p h e =
    let tmpl = shared path (Maps.find j slaves) in
    ground (
      arith,
      shared_bound path (Maps.find j slaves),
      level_loop_bound slaves i bound path loclist (if ltb level tmpl then tmpl else level) k p,
    )

level_of_bound :
    (m : SlaveManager) (loclist : Set ℕ) (filesize i bound k : ℕ) (s : SlaveNode)
    → length s.path ≤ bound
    → level_of m loclist filesize i s ≡ some k
    → k ≤ bound
unfolding level_of
level_of_bound m loclist filesize i bound k s p e =
    ground (arith, level_loop_bound m.slave_list i bound s.path loclist 0 k p)

level_of_location :
    (m : SlaveManager) (loclist : Set ℕ) (filesize i k : ℕ) (s : SlaveNode)
    → level_of m loclist filesize i s ≡ some k
    → Sets.has i loclist ≡ false
unfolding level_of
level_of_location m loclist filesize i k s e =
    ground (arith, level_loop_location m.slave_list i s.path loclist 0)

-- The slaves in the order of their ids, none with a path of more levels than the topology.
pub record IsValid (m : SlaveManager) : Type 0 where
  pub is_sorted : Maps.IsSorted m.slave_list
  pub paths :
      (i : ℕ) (s : SlaveNode) → Maps.find i m.slave_list ≡ some s → length s.path ≤ m.topology.level

-- A slave that may take the file: not bad, with 10000000000 bytes beside its size, and not a location.
abbrev pub IsConsidered : SlaveManager → Set ℕ → ℕ → ℕ → SlaveNode → Type 0
IsConsidered m loclist filesize i s =
    (Sets.has i m.bad_slaves ≡ false)
    × (slt64 s.avail_disk_space (add64 10000000000 filesize) ≡ false)
    × (Sets.has i loclist ≡ false)

-- A slave's path has at most so many levels in common with that of any location.
abbrev pub SharesAtMost : SlaveManager → Set ℕ → ℕ → SlaveNode → Type 0
SharesAtMost m loclist bound s =
    (j : ℕ) (t : SlaveNode)
    → Sets.has j loclist ≡ true
    → Maps.find j m.slave_list ≡ some t
    → match s.path t.path ≤ bound

shared-SharesAtMost :
    (path : List ℕ) (bound : ℕ) (o : Option SlaveNode)
    → ((t : SlaveNode) → o ≡ some t → match path t.path ≤ bound)
    → shared path o ≤ bound
shared-SharesAtMost path bound none h = omega arith
shared-SharesAtMost path bound (some t) h = h t refl

-- The loop over the locations finds the least bound.
level_loop_least :
    (m : SlaveManager) (i : ℕ) (s : SlaveNode) (loclist : Set ℕ) (level : ℕ)
    → Sets.has i loclist ≡ false
    → (k : ℕ) × (level_loop m.slave_list i s.path loclist level ≡ some k)
      × (level ≤ k)
      × SharesAtMost m loclist k s
      × ((bound : ℕ) → level ≤ bound → SharesAtMost m loclist bound s → k ≤ bound)
unfolding level_loop Sets.has
level_loop_least m i s [] level h =
    (level, refl, omega arith, (λ j t e f. ground (arith, e)), λ bound a b. a)
level_loop_least m i s (j ∷ loclist) level h =
    let tmpl = shared s.path (Maps.find j m.slave_list) in
    let next = if ltb level tmpl then tmpl else level in
    let r = level_loop_least m i s loclist next (ground (arith, h)) in
    (
      r.0,
      ground (arith, h, r.1),
      ground (arith, r.2),
      (λ x t e f. elim (Bool-cases (x == j)) [
        | inl g ↦
            let at : Maps.find j m.slave_list ≡ some t =
              ap (λ y. Maps.find y m.slave_list) (ground (arith, g)) ∙ f in
            let q : shared s.path (Maps.find j m.slave_list) ≡ match s.path t.path = rw at refl in
            ground (arith, r.2, q)
        | inr g ↦ r.3 x t (ground (arith, e, g)) f
      ]),
      λ bound a b.
          r.4 bound
            (ground (
              arith,
              a,
              shared-SharesAtMost s.path bound (Maps.find j m.slave_list)
                  (λ t f. b j t (ground (arith)) f),
            ))
            (λ x t e f. b x t (ground (arith, e)) f),
    )

level_of-IsConsidered :
    (m : SlaveManager) (loclist : Set ℕ) (filesize i k : ℕ) (s : SlaveNode)
    → level_of m loclist filesize i s ≡ some k
    → IsConsidered m loclist filesize i s
unfolding level_of
level_of-IsConsidered m loclist filesize i k s h =
    (ground (arith, h), ground (arith, h), level_of_location m loclist filesize i k s h)

level_of_least :
    (m : SlaveManager) (loclist : Set ℕ) (filesize i : ℕ) (s : SlaveNode)
    → IsConsidered m loclist filesize i s
    → (k : ℕ) × (level_of m loclist filesize i s ≡ some k)
      × SharesAtMost m loclist k s
      × ((bound : ℕ) → SharesAtMost m loclist bound s → k ≤ bound)
unfolding level_of
level_of_least m loclist filesize i s (a, b, c) =
    let r = level_loop_least m i s loclist 0 c in
    (r.0, ground (arith, a, b, r.1), r.3, λ bound h. r.4 bound (omega arith) h)

pick_inside :
    (pick : ℕ → ℕ) (c : List ℕ)
    → ((n : ℕ) → pick (suc n) < suc n)
    → is_empty c ≡ false
    → pick (length c) < length c
pick_inside pick [] h e = cc
pick_inside pick (i ∷ c) h e = h (length c)

-- SlaveManager::chooseReplicaNode fails if each slave is bad, has less than
-- 10000000000 bytes beside the size of the file, or holds the file. Otherwise it gives a slave that
-- is none of these; and whatever number of levels bounds what another such slave shares with the
-- slaves that hold the file bounds what this one shares with them. The slaves stand in the order of their ids,
-- no path has more levels than the topology, and the random choice is less than the number of candidates.
pub choose_replica_node_cases :
    (pick : ℕ → ℕ) (loclist : Set ℕ) (sn : SlaveNode) (filesize : ℕ) (m : SlaveManager)
    → ((n : ℕ) → pick (suc n) < suc n)
    → IsValid m
    → ((choose_replica_node pick loclist sn filesize m ≡ some (sn, e_nodisk))
        × ((i : ℕ) (s : SlaveNode)
            → Maps.find i m.slave_list ≡ some s
            → ¬ (IsConsidered m loclist filesize i s)))
      ⊎ ((i : ℕ) × (s : SlaveNode) × (Maps.find i m.slave_list ≡ some s)
          × IsConsidered m loclist filesize i s
          × ((j bound : ℕ) (t : SlaveNode)
              → Maps.find j m.slave_list ≡ some t
              → IsConsidered m loclist filesize j t
              → SharesAtMost m loclist bound t
              → SharesAtMost m loclist bound s)
          × (choose_replica_node pick loclist sn filesize m ≡ some (s, pos 1)))
unfolding choose_replica_node
choose_replica_node_cases pick loclist sn filesize m h v =
    let level = level_of m loclist filesize in
    let top = m.topology.level in
    let c = candidates level m.slave_list (suc top) 0 in
    elim (Bool-cases (is_empty c)) [
      | inl e ↦ inl (
        rw (choose_replica_node, e) refl,
        λ i s f g.
            let r = level_of_least m loclist filesize i s g in
            ground (
              arith,
              e,
              level_of_bound m loclist filesize i top r.0 s (v.paths i s f) r.1,
              candidates_complete level m.slave_list (suc top) 0 r.0 i s f r.1,
            ),
      )
      | inr e ↦
          let at = get_elem?_below c (pick (length c)) (pick_inside pick c h e) in
          let r =
            candidates_sound level m.slave_list (suc top) 0 (pick (length c)) at.0 v.is_sorted
              at.1 in
          let fine = level_of-IsConsidered m loclist filesize at.0 r.1 r.0 r.3 in
          let own = level_of_least m loclist filesize at.0 r.0 fine in
          inr (
            at.0,
            r.0,
            r.2,
            fine,
            (λ j bound t f g b x y p q.
                let other = level_of_least m loclist filesize j t g in
                ground (
                  arith,
                  own.1,
                  r.3,
                  own.2 x y p q,
                  r.4 j other.0 t f other.1 (omega arith),
                  other.3 bound b,
                )),
            rw (choose_replica_node, e, at.1, r.2) refl,
          )
    ]
