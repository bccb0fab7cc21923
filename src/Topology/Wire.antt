-- ===== src/Topology/Wire.antt =====
-- Topology::serialize and Topology::deserialize.
use sector_sphere.Base.{
  ℕ, ◌≤◌, ◌≡◌, refl, subst, pos, List, [], ◌∷◌, ◌++◌, some, length, false, arith, All,
}
use sector_sphere.Topology.{
  TopoMap, Topology, data_size, less_size, get_topo_data_size, put_maps, serialize, get_path,
  get_maps, deserialize,
}

-- Every path has all the levels.
abbrev pub IsFull : ℕ → List TopoMap → Type 0
IsFull level = All (λ i. length i.path ≡ level)

get_path_append : (path p : List ℕ) → get_path (length path) (path ++ p) ≡ some (path, p)
unfolding get_path
get_path_append [] p = refl
get_path_append (j ∷ path) p = rw (get_path_append path p) refl

get_maps-put_maps :
    (m : List TopoMap) (level : ℕ)
    → IsFull level m
    → get_maps (length m) level (put_maps m) ≡ some m
unfolding get_maps put_maps
get_maps-put_maps [] level f = refl
get_maps-put_maps (i ∷ m) level f =
    rw (get_at level i.path (put_maps m) f.0, get_maps-put_maps m level f.1) refl
  where
    get_at :
        (level : ℕ) (path p : List ℕ)
        → length path ≡ level
        → get_path level (path ++ p) ≡ some (path, p)
    get_at level path p h =
        subst (λ n. get_path n (path ++ p) ≡ some (path, p)) h (get_path_append path p)

-- Topology::deserialize reads, over any topology, the one that Topology::serialize writes, if the
-- buffer is large enough and every path has all the levels: a shorter path would shift the words behind it.
pub deserialize-serialize_topology :
    (size : ℕ) (t old : Topology)
    → IsFull t.level t.topo_map
    → less_size size (get_topo_data_size t) ≡ false
    → 8 ≤ get_topo_data_size t
    → (w : List ℕ × ℕ) × (serialize size t ≡ some w) × (deserialize w.0 w.1 old ≡ some (t, pos 0))
unfolding serialize deserialize get_topo_data_size
deserialize-serialize_topology size t old f h k =
    let d = data_size (length t.topo_map) t.level in
    (
      (length t.topo_map ∷ t.level ∷ put_maps t.topo_map, d),
      ground (arith, h),
      rw (get_maps-put_maps t.topo_map t.level f) (ground (arith, k)),
    )
