-- ===== src/Routing/Choice.antt =====
-- Which master common/routing.cpp chooses: lookup, match and getRouterID against one another.
use sector_sphere.Base.{
  ℕ, suc, zero, ◌+◌, ◌%◌, ◌<◌, ◌≤◌, ◌≡◌, ◌↔◌, refl, ap, pos, negsuc, Text, true, false, some, List,
  [], ◌∷◌, length, get_elem?, get_elem?_below, is_empty, arith, Option-cases, inl, inr,
}
use sector_sphere.Base.Maps
use sector_sphere.Base.Keys.{nat_key}
use sector_sphere.Address.{Address}
use sector_sphere.Routing.{
  Routing, finger, lookup, position, get_router_id, match_id, match_path, get_entity_id,
}
use sector_sphere.Routing.Table.{IsValid, IsDescending, mem, mem-Below}

get_elem?-mem : (table : List ℕ) (i k : ℕ) → get_elem? table i ≡ some k → mem k table ≡ true
unfolding mem
get_elem?-mem [] i k h = ground arith
get_elem?-mem (j ∷ table) zero k h = ground arith
get_elem?-mem (j ∷ table) (suc i) k h = ground (arith, get_elem?-mem table i k h)

mod_below : (k n : ℕ) → 0 < n → k % n < n
mod_below k n h = omega arith

nonempty : (table : List ℕ) → is_empty table ≡ false → 0 < length table
nonempty [] h = ground arith
nonempty (i ∷ table) h = omega arith

finger_inside :
    (cid : ℕ) (r : Routing)
    → is_empty r.finger_table ≡ false
    → get_elem? r.finger_table (cid % length r.finger_table) ≡ some (finger cid r)
unfolding finger
finger_inside cid r h =
    let e =
      get_elem?_below r.finger_table (cid % length r.finger_table)
        (mod_below cid (length r.finger_table) (nonempty r.finger_table h)) in
    ground (arith, e.1)

position-get_elem? :
    (table : List ℕ) (i k n : ℕ)
    → IsDescending table
    → get_elem? table i ≡ some k
    → position k table n ≡ pos (n + i)
unfolding position
position-get_elem? [] i k n d h = ground arith
position-get_elem? (j ∷ table) zero k n d h = ground arith
position-get_elem? (j ∷ table) (suc i) k n d h = ground (
  arith,
  position-get_elem? table i k (suc n) d.1 h,
  mem-Below k j table d.0 (get_elem?-mem table i k h),
)

position_from : (k : ℕ) (table : List ℕ) (n m : ℕ) → position k table n ≡ pos m → n ≤ m
unfolding position
position_from k [] n m h = ground arith
position_from k (j ∷ table) n m h = ground (arith, position_from k table (suc n) m)

suc_shift : (n i : ℕ) → n + suc i ≡ suc n + i
suc_shift n i = omega arith

get_elem?-position :
    (table : List ℕ) (i k n : ℕ) → position k table n ≡ pos (n + i) → get_elem? table i ≡ some k
unfolding position
get_elem?-position [] i k n h = ground arith
get_elem?-position (j ∷ table) zero k n h = ground (arith, position_from k table (suc n) n)
get_elem?-position (j ∷ table) (suc i) k n h =
    ground (arith, get_elem?-position table i k (suc n), suc_shift n i)

-- Routing::match with the id of a client holds for the one master that Routing::getRouterID puts at
-- the position of the id modulo the number of masters, and for none if there are no masters.
pub match_id_iff :
    (cid key : ℕ) (r : Routing)
    → IsValid r
    → (match_id cid key r ≡ true) ↔ (get_router_id key r ≡ pos (cid % length r.finger_table))
unfolding match_id get_router_id
match_id_iff cid key r v = from r.finger_table refl
  where
    from :
        (table : List ℕ)
        → r.finger_table ≡ table
        → (match_id cid key r ≡ true) ↔ (get_router_id key r ≡ pos (cid % length r.finger_table))
    from [] e = rw (match_id, get_router_id, e) (unfold position in ground arith)
    from (i ∷ table) e =
        let p = cid % length r.finger_table in
        let at = finger_inside cid r (ap is_empty e) in
        ground (
          arith,
          ap is_empty e,
          at,
          position-get_elem? r.finger_table p key 0 v.is_descending,
          get_elem?-position r.finger_table p key 0,
        )

-- What lookup gives: nothing if there are no masters, and else the address of the master that
-- match accepts, with the table unchanged.
abbrev pub IsChosen : Address → ℕ → Address → Routing → List ℕ → Type 0
IsChosen blank key node r [] = lookup blank key node r ≡ (r, node, negsuc 0)
IsChosen blank key node r (i ∷ table) =
    (k : ℕ) × (a : Address) × (match_id key k r ≡ true)
    × (Maps.find k r.address_list ≡ some a)
    × (lookup blank key node r ≡ (r, a, pos 1))

-- Routing::lookup with a key fails if there are no masters. Otherwise it leaves the table alone and
-- gives the address under the very key that Routing::match accepts.
pub lookup_cases :
    (blank : Address) (key : ℕ) (node : Address) (r : Routing)
    → IsValid r
    → IsChosen blank key node r r.finger_table
unfolding lookup match_id
lookup_cases blank key node r v = from r.finger_table refl
  where
    from : (table : List ℕ) → r.finger_table ≡ table → IsChosen blank key node r table
    from [] e = rw (lookup, e) refl
    from (i ∷ table) e =
        let k = finger key r in
        let m =
          get_elem?-mem r.finger_table (key % length r.finger_table) k
            (finger_inside key r (ap is_empty e)) in
        elim (Option-cases (Maps.find k r.address_list)) [
          | inl f ↦ ground (arith, v.same_keys k, m, f)
          | inr (a, f) ↦ (k, a, ground (arith, ap is_empty e), f, ground (arith, ap is_empty e, f))
        ]

-- If there are masters, Routing::match with a path holds for the one master whose position
-- Routing::getEntityID gives for the path.
pub match_path_iff :
    (hash : Text → ℕ) (path : Text) (key : ℕ) (r : Routing)
    → IsValid r
    → is_empty r.finger_table ≡ false
    → (match_path hash path key r ≡ true) ↔ (get_router_id key r ≡ get_entity_id hash path r)
unfolding match_path get_entity_id match_id
match_path_iff hash path key r v h = ground (arith, h, match_id_iff (hash path) key r v)
