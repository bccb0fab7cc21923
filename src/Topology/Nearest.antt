-- ===== src/Topology/Nearest.antt =====
-- Topology::distance to a set of addresses: the least of the distances.
use sector_sphere.Base.{
  ℕ, ◌≤◌, ◌≡◌, ◌⊎◌, refl, ℤ, Text, Set, true, [], ◌∷◌, if◌then◌else◌, ltb, arith, All, Bool-cases,
  inl, inr,
}
use sector_sphere.Base.Sets
use sector_sphere.Address.{Address, addr_key}
use sector_sphere.Topology.{Topology, distance, nearest, distance_to}

-- A bound of all the distances that is one of them, or the start.
abbrev pub IsLeast : (Text → ℤ × ℕ) → Text → Set Address → ℕ → Topology → ℕ → Type 0
IsLeast inet_pton ip loclist start t r =
    (r ≤ start)
    × All (λ i. r ≤ distance inet_pton ip i.ip t) loclist
    × ((r ≡ start)
        ⊎ ((i : Address) × (Sets.has i loclist ≡ true) × (r ≡ distance inet_pton ip i.ip t)))

nearest-IsLeast :
    (inet_pton : Text → ℤ × ℕ) (ip : Text) (loclist : Set Address) (start : ℕ) (t : Topology)
    → IsLeast inet_pton ip loclist start t (nearest inet_pton ip loclist start t)
unfolding nearest Sets.has
nearest-IsLeast inet_pton ip [] start t = (omega arith, tt, inl refl)
nearest-IsLeast inet_pton ip (x ∷ l) start t =
    let d = distance inet_pton ip x.ip t in
    let m = nearest-IsLeast inet_pton ip l (if ltb d start then d else start) t in
    (
      ground (arith, m.0),
      (ground (arith, m.0), m.1),
      elim m.2 [
        | inr w ↦ inr (w.0, ground (arith, w.1), w.2)
        | inl q ↦ elim (Bool-cases (ltb d start)) [
          | inl e ↦ inr (x, ground (arith, addr_key.eq_iff x x), ground (arith, q, e))
          | inr e ↦ inl (ground (arith, q, e))
        ]
      ],
    )

-- Topology::distance to a set of addresses is 0 for an address of the set, and else the least of the
-- distances to the addresses of the set, or 1000000000 if that is less.
pub distance_to_cases :
    (inet_pton : Text → ℤ × ℕ) (addr : Address) (loclist : Set Address) (t : Topology)
    → (distance_to inet_pton addr loclist t ≡ 0) × (Sets.has addr loclist ≡ true)
      ⊎ IsLeast inet_pton addr.ip loclist 1000000000 t (distance_to inet_pton addr loclist t)
unfolding distance_to
distance_to_cases inet_pton addr loclist t = elim (Bool-cases (Sets.has addr loclist)) [
  | inl e ↦ inl (rw (distance_to, e) refl, e)
  | inr e ↦ inr (rw (distance_to, e) (nearest-IsLeast inet_pton addr.ip loclist 1000000000 t))
]
