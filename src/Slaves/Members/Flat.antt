-- ===== src/Slaves/Members/Flat.antt =====
-- The paths of the slaves in the list of SlaveManager, and the levels that the choice of a slave for a
-- replica compares.
use sector_sphere.Base.{
  ℕ, ◌≡◌, refl, ℤ, Text, Map, Set, Option, none, some, List, [], ◌∷◌, ◌⊎◌, inl, inr, arith,
  Option-cases, subst, Bool-cases, All, ◌==◌, nat_key,
}
use sector_sphere.Base.Maps.{find, put, erase, find-put, find-erase}
use sector_sphere.Topology.{lookup, match}
use sector_sphere.Topology.Cluster.{Share, add_slave, remove_slave}
use sector_sphere.Slaves.{SlaveNode, SlaveManager, level_loop, level_of, shared}
use sector_sphere.Slaves.Members.{insert, remove, joined, share_of}

-- A slave comes or goes, at a clock reading.
pub data Change : Type 0 where
  comes : ℕ → SlaveNode → Change
  goes : ℕ → ℕ → Change

-- The master makes the node of a slave without a path.
abbrev pub IsPlain : Change → Type 0
IsPlain (comes now sn) = sn.path ≡ []
IsPlain (goes now i) = Unit

abbrev pub NoPaths : SlaveManager → Type 0
NoPaths m = (i : ℕ) (s : SlaveNode) → find i m.slave_list ≡ some s → s.path ≡ []

module _ (inet_pton : Text → ℤ × ℕ) where
  unfoldable pub change : Change → SlaveManager → Option SlaveManager
  change (comes now sn) m = insert inet_pton now sn m
  change (goes now i) m = elim (remove inet_pton now i m) [ none ↦ none | some r ↦ some r.0 ]

  unfoldable pub run : List Change → SlaveManager → Option SlaveManager
  unfolding change
  run [] m = some m
  run (c ∷ cs) m = elim (change c m) [ none ↦ none | some m' ↦ run cs m' ]

  insert_list :
      (now : ℕ) (sn : SlaveNode) (m m' : SlaveManager)
      → insert inet_pton now sn m ≡ some m'
      → m'.slave_list ≡ put sn.node_id (joined now sn) m.slave_list
  unfolding insert
  insert_list now sn m m' h =
      elim (Option-cases
        (add_slave (share_of sn) (lookup inet_pton sn.ip sn.path m.topology).0 m.cluster)) [
          | inl e ↦ ground (arith, h, e)
          | inr (c, e) ↦ ground (arith, h, e)
        ]

  insert-NoPaths :
      (now : ℕ) (sn : SlaveNode) (m m' : SlaveManager)
      → sn.path ≡ []
      → NoPaths m
      → insert inet_pton now sn m ≡ some m'
      → NoPaths m'
  insert-NoPaths now sn m m' p n h i s k = elim (Bool-cases (sn.node_id == i)) [
    | inl e ↦ ground (
      arith,
      p,
      k,
      e,
      insert_list now sn m m' h,
      find-put sn.node_id i (joined now sn) m.slave_list,
    )
    | inr e ↦ n i s (
        ground (
          arith,
          k,
          e,
          insert_list now sn m m' h,
          find-put sn.node_id i (joined now sn) m.slave_list,
        ))
  ]

  remove_list :
      (now j : ℕ) (m : SlaveManager) (r : SlaveManager × ℤ)
      → remove inet_pton now j m ≡ some r
      → (r.0.slave_list ≡ m.slave_list) ⊎ (r.0.slave_list ≡ erase j m.slave_list)
  unfolding remove
  remove_list now j m r h = elim (Option-cases (find j m.slave_list)) [
    | inl e ↦ inl (ground (arith, h, e))
    | inr (sn, e) ↦
        let share : Share = record (share_of sn) { node = j } in
        elim (Option-cases
          (remove_slave share (lookup inet_pton sn.ip [] m.topology).0 m.cluster)) [
            | inl f ↦ ground (arith, h, e, f)
            | inr (c, f) ↦ inr (ground (arith, h, e, f))
          ]
  ]

  remove-NoPaths :
      (now j : ℕ) (m : SlaveManager) (r : SlaveManager × ℤ)
      → NoPaths m
      → remove inet_pton now j m ≡ some r
      → NoPaths r.0
  remove-NoPaths now j m r n h i s k =
      n i s (ground (arith, k, remove_list now j m r h, find-erase j i m.slave_list))

  change-NoPaths :
      (c : Change) (m m' : SlaveManager) → IsPlain c → NoPaths m → change c m ≡ some m' → NoPaths m'
  unfolding change
  change-NoPaths (comes now sn) m m' p n h = insert-NoPaths now sn m m' p n h
  change-NoPaths (goes now j) m m' p n h = elim (Option-cases (remove inet_pton now j m)) [
    | inl e ↦ ground (arith, h, e)
    | inr (r, e) ↦
        let f : r.0 ≡ m' = ground (arith, h, e) in subst NoPaths f (remove-NoPaths now j m r n e)
  ]

  run-NoPaths :
      (cs : List Change) (m m' : SlaveManager)
      → All IsPlain cs
      → NoPaths m
      → run cs m ≡ some m'
      → NoPaths m'
  unfolding run
  run-NoPaths [] m m' p n h = let f : m ≡ m' = ground (arith, h) in subst NoPaths f n
  run-NoPaths (c ∷ cs) m m' p n h = elim (Option-cases (change c m)) [
    | inl e ↦ ground (arith, h, e)
    | inr (l, e) ↦ run-NoPaths cs l m' p.1 (change-NoPaths c m l p.0 n e) (ground (arith, h, e))
  ]

shared_none : (o : Option SlaveNode) → shared [] o ≡ 0
unfolding match
shared_none none = refl
shared_none (some s) = refl

level_loop_flat :
    (slaves : Map ℕ SlaveNode) (i : ℕ) (loclist : Set ℕ)
    → (level_loop slaves i [] loclist 0 ≡ none) ⊎ (level_loop slaves i [] loclist 0 ≡ some 0)
unfolding level_loop
level_loop_flat slaves i [] = inr refl
level_loop_flat slaves i (j ∷ loclist) =
    ground (arith, shared_none (find j slaves), level_loop_flat slaves i loclist)

level_flat :
    (loclist : Set ℕ) (filesize i : ℕ) (s : SlaveNode) (m : SlaveManager)
    → s.path ≡ []
    → (level_of m loclist filesize i s ≡ none) ⊎ (level_of m loclist filesize i s ≡ some 0)
unfolding level_of
level_flat loclist filesize i s m h = rw h (ground (arith, level_loop_flat m.slave_list i loclist))

-- The master gives no path to the node of a slave, and insert stores the node before it looks up the
-- path. So from a manager without slaves, whatever slaves come and go, the choice of a slave for a
-- replica compares no levels: a slave in the list is either not considered at all or at level 0,
-- wherever the slaves and the replicas stand in the topology.
pub level_of-run :
    (inet_pton : Text → ℤ × ℕ) (cs : List Change) (m m' : SlaveManager) (loclist : Set ℕ)
    (filesize i : ℕ) (s : SlaveNode)
    → m.slave_list ≡ []
    → All IsPlain cs
    → run inet_pton cs m ≡ some m'
    → find i m'.slave_list ≡ some s
    → (level_of m' loclist filesize i s ≡ none) ⊎ (level_of m' loclist filesize i s ≡ some 0)
unfolding find
level_of-run inet_pton cs m m' loclist filesize i s e p h k =
    level_flat loclist filesize i s m'
      (run-NoPaths inet_pton cs m m' p (λ j t q. ground (arith, e, q)) h i s k)
