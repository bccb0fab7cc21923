-- ===== src/Index/Read/Locations.antt =====
-- Index::lookup for the addresses that hold a file, or any file below a directory.
use sector_sphere.Base.{
  is_some, ℕ, zero, suc, ◌+◌, ◌≤◌, ◌≡◌, refl, ℤ, pos, negsuc, Text, Set, Bool, false, not, ◌&&◌,
  ◌||◌, Option, none, some, List, arith, [], ◌∷◌, ◌++◌, length, if◌then◌else◌, is_empty,
  Option-cases, inl, inr,
}
use sector_sphere.Base.Sets
use sector_sphere.Meta.{parse_path}
use sector_sphere.Address.{Address, addr_key}
use sector_sphere.Index.Tree.{Directory, nil, entry, SNode, find}
use sector_sphere.Index.Walk.{locate}
use sector_sphere.Index.Edit.{e_invalid}
use sector_sphere.Index.Read.Files.{File, files, prefixed}
use sector_sphere.Index.Read.{push_all, scan_map, nodes_in, lookup_locations}

-- Whether an address holds one of the files.
unfoldable pub stored : Address → List File → Bool
stored a [] = false
stored a ((q, t) ∷ fs) = Sets.has a t.location || stored a fs

abbrev pub node_stored : Address → SNode → Bool
node_stored a s = if s.is_dir then stored a (files s.directory) else Sets.has a s.location

stack_stored : Address → List SNode → Bool
stack_stored a [] = false
stack_stored a (s ∷ stack) = node_stored a s || stack_stored a stack

stack_stored-cons :
    (a : Address) (s : SNode) (stack : List SNode)
    → stack_stored a (s ∷ stack) ≡ (node_stored a s || stack_stored a stack)
unfolding stack_stored
stack_stored-cons a s stack = refl

weight : List SNode → ℕ
weight [] = 0
weight (s ∷ stack) = suc (nodes_in s.directory) + weight stack

stored-append :
    (a : Address) (fs gs : List File) → stored a (fs ++ gs) ≡ (stored a fs || stored a gs)
unfolding stored
stored-append a [] gs = refl
stored-append a ((q, t) ∷ fs) gs = ground (arith, stored-append a fs gs)

stored-prefixed : (a : Address) (n : Text) (fs : List File) → stored a (prefixed n fs) ≡ stored a fs
unfolding stored prefixed
stored-prefixed a n [] = refl
stored-prefixed a n ((q, t) ∷ fs) = ground (arith, stored-prefixed a n fs)

weight-push_all :
    (d : Directory) (stack : List SNode) → weight (push_all d stack) ≡ nodes_in d + weight stack
unfolding push_all nodes_in weight
weight-push_all nil stack = omega arith
weight-push_all (entry n t d rest) stack =
    let s : SNode = record { attr = t; directory = d } in
    omega (arith, weight-push_all rest (s ∷ stack))

stack_stored-push_all :
    (a : Address) (d : Directory) (stack : List SNode)
    → stack_stored a (push_all d stack) ≡ (stored a (files d) || stack_stored a stack)
unfolding push_all stack_stored files stored
stack_stored-push_all a nil stack = refl
stack_stored-push_all a (entry n t d rest) stack =
    let s : SNode = record { attr = t; directory = d } in
    ground (
      arith,
      stack_stored-push_all a rest (s ∷ stack),
      stored-append a (prefixed n (files d)) (files rest),
      stored-prefixed a n (files d),
    )

scan_map_ends :
    (fuel : ℕ) (stack : List SNode) (addr : Set Address)
    → weight stack ≤ fuel
    → (r : Set Address) × (scan_map fuel stack addr ≡ some r)
      × ((a : Address) → Sets.has a r ≡ (Sets.has a addr || stack_stored a stack))
unfolding scan_map weight
scan_map_ends fuel [] addr h = (addr, refl, λ a. unfold stack_stored in ground arith)
scan_map_ends zero (s ∷ stack) addr h = ground arith
scan_map_ends (suc fuel) (s ∷ stack) addr h =
    let stack' = if s.is_dir then push_all s.directory stack else stack in
    let addr' = if s.is_dir then addr else Sets.add_all s.location addr in
    let ih = scan_map_ends fuel stack' addr' (ground (arith, weight-push_all s.directory stack)) in
    (
      ih.0,
      ih.1,
      λ a. ground (
        arith,
        ih.2 a,
        stack_stored-push_all a s.directory stack,
        Sets.has-add_all a s.location addr,
        stack_stored-cons a s stack,
      ),
    )

find-nodes_in :
    (n : Text) (d : Directory) (s : SNode) → find n d ≡ some s → nodes_in s.directory ≤ nodes_in d
unfolding find nodes_in
find-nodes_in n nil s h = cc
find-nodes_in n (entry m a d rest) s h = ground (arith, find-nodes_in n rest s)

locate-nodes_in :
    (p : List Text) (s c : SNode)
    → locate p s ≡ some c
    → nodes_in c.directory ≤ nodes_in s.directory
unfolding locate
locate-nodes_in [] s c h = ground arith
locate-nodes_in (n ∷ p) s c h = elim (Option-cases (find n s.directory)) [
  | inl e ↦ ground arith
  | inr (d, e) ↦ ground (arith, locate-nodes_in p d c, find-nodes_in n s.directory d e)
]

abbrev pub node_at_stored : Address → Option SNode → Bool
node_at_stored a none = false
node_at_stored a (some s) = node_stored a s

-- Index::lookup for addresses ends, whatever the order of its stack: fuel for one round on every node
-- of the index is enough. The root is invalid and a missing path is -1, with nothing added;
-- otherwise exactly the addresses that hold the file, or a file below the directory, are added,
-- and the number of addresses is returned.
pub lookup_locations_cases :
    (fuel : ℕ) (path : Text) (addr : Set Address) (root : SNode)
    → suc (nodes_in root.directory) ≤ fuel
    → let dir = parse_path path in
      (r : Set Address × ℤ) × (lookup_locations fuel path addr root ≡ some r)
      × (r.1 ≡ (
          if is_empty dir
          then e_invalid
          else if is_some (locate dir root)
          then pos (length r.0)
          else negsuc 0))
      × ((a : Address)
          → Sets.has a r.0
            ≡ (Sets.has a addr || not (is_empty dir) && node_at_stored a (locate dir root)))
unfolding lookup_locations
lookup_locations_cases fuel path addr root h = from (parse_path path) refl
  where
    from :
        (dir : List Text)
        → parse_path path ≡ dir
        → (r : Set Address × ℤ) × (lookup_locations fuel path addr root ≡ some r)
          × (r.1 ≡ (
              if is_empty dir
              then e_invalid
              else if is_some (locate dir root)
              then pos (length r.0)
              else negsuc 0))
          × ((a : Address)
              → Sets.has a r.0
                ≡ (Sets.has a addr || not (is_empty dir) && node_at_stored a (locate dir root)))
    from [] e = ((addr, e_invalid), rw (lookup_locations, e) refl, refl, λ a. ground arith)
    from (n ∷ p) e = elim (Option-cases (locate (n ∷ p) root)) [
      | inl k ↦
          ((addr, negsuc 0), rw (lookup_locations, e, k) refl, rw k refl, λ a. rw k (ground arith))
      | inr (s, k) ↦
          let m =
            scan_map_ends fuel (s ∷ []) addr
              (unfold weight in ground (arith, locate-nodes_in (n ∷ p) root s k)) in
          (
            (m.0, pos (length m.0)),
            rw (lookup_locations, e, k, m.1) refl,
            rw k refl,
            λ a. rw k (unfold stack_stored in ground (arith, m.2 a, stack_stored-cons a s [])),
          )
    ]
