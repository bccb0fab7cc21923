-- ===== src/Topology/Cluster.antt =====
-- common/topology.h, struct Cluster: what the master counts for each part of the topology, with the
-- loops of master/slavemgmt.cpp that walk down the path of a slave.
use sector_sphere.Base.{
  ℕ, ◌+◌, ◌-◌, ◌^◌, ◌%◌, ◌<◌, ◌≡◌, refl, Set, true, false, Option, none, some, List, [], ◌∷◌,
  is_empty, if◌then◌else◌, ◌==◌, add64, sub64, arith, inl, inr, Bool-cases, ap,
}
use sector_sphere.Base.Sets.{add, del, has, del-add_absent}
use sector_sphere.Base.Keys.{nat_key}
use sector_sphere.Base.Words.{sub64-add64}

-- A cluster without its m_mSubCluster. Byte counts are 64-bit words, the number of nodes a 32-bit one.
pub record Cluster : Type 0 where
  pub cluster_id : ℕ
  pub path : List ℕ
  pub total_nodes : ℕ
  pub avail_disk_space : ℕ
  pub total_file_size : ℕ
  pub total_input_data : ℕ
  pub total_output_data : ℕ
  pub nodes : Set ℕ

-- m_mSubCluster: a key, the cluster under it and its sub-clusters, and the entries behind it.
pub data Clusters : Type 0 where
  nil : Clusters
  entry : ℕ → Cluster → Clusters → Clusters → Clusters

-- What a slave adds to a cluster, and takes off it again.
pub record Share : Type 0 where
  pub node : ℕ
  pub disk : ℕ
  pub files : ℕ

abbrev pub counted : Share → Cluster → Cluster
counted s c = record c {
  total_nodes = (c.total_nodes + 1) % 2 ^ 32;
  avail_disk_space = add64 c.avail_disk_space s.disk;
  total_file_size = add64 c.total_file_size s.files;
}

abbrev pub discounted : Share → Cluster → Cluster
discounted s c = record c {
  total_nodes = (c.total_nodes + 2 ^ 32 - 1) % 2 ^ 32;
  avail_disk_space = sub64 c.avail_disk_space s.disk;
  total_file_size = sub64 c.total_file_size s.files;
}

-- The clusters on a path, by `step`, and the last one by `last` too. `none` stands for the use of an
-- iterator that is end() or was never set.
unfoldable pub walk :
    (Cluster → Cluster) → (Cluster → Cluster) → List ℕ → Clusters → Option Clusters
walk step last [] c = none
walk step last (l ∷ path) nil = none
walk step last (l ∷ path) (entry k a sub rest) =
    let rest' = walk step last (l ∷ path) rest in
    let sub' = walk step last path sub in
    if l == k
    then if is_empty path
      then some (entry k (last (step a)) sub rest)
      else elim sub' [ none ↦ none | some sub' ↦ some (entry k (step a) sub' rest) ]
    else elim rest' [ none ↦ none | some rest' ↦ some (entry k a sub rest') ]

abbrev pub with_node : ℕ → Cluster → Cluster
with_node i c = record c { nodes = add i c.nodes }

abbrev pub without_node : ℕ → Cluster → Cluster
without_node i c = record c { nodes = del i c.nodes }

unfoldable pub add_slave : Share → List ℕ → Clusters → Option Clusters
unfolding walk
add_slave s = walk (counted s) (with_node s.node)

unfoldable pub remove_slave : Share → List ℕ → Clusters → Option Clusters
unfolding walk
remove_slave s = walk (discounted s) (without_node s.node)

-- What a path leads to.
unfoldable pub cluster_at : List ℕ → Clusters → Option Cluster
cluster_at [] c = none
cluster_at (l ∷ path) nil = none
cluster_at (l ∷ path) (entry k a sub rest) =
    let rest' = cluster_at (l ∷ path) rest in
    let sub' = cluster_at path sub in
    if l == k then if is_empty path then some a else sub' else rest'

-- The counts are words.
abbrev pub IsWords : Cluster → Type 0
IsWords a =
    (a.total_nodes < 2 ^ 32) × ((a.avail_disk_space < 2 ^ 64) × (a.total_file_size < 2 ^ 64))

abbrev pub AllWords : Clusters → Type 0
AllWords nil = Unit
AllWords (entry k a sub rest) = IsWords a × (AllWords sub × AllWords rest)

discounted-counted : (s : Share) (a : Cluster) → IsWords a → discounted s (counted s a) ≡ a
discounted-counted s a h =
    rw (sub64-add64 a.avail_disk_space s.disk h.1.0, sub64-add64 a.total_file_size s.files h.1.1)
      (ground (arith, h.0))

restored :
    (s : Share) (a : Cluster)
    → IsWords a
    → has s.node a.nodes ≡ false
    → without_node s.node (discounted s (with_node s.node (counted s a))) ≡ a
restored s a w n =
    rw
      (
        sub64-add64 a.avail_disk_space s.disk w.1.0,
        sub64-add64 a.total_file_size s.files w.1.1,
        del-add_absent s.node a.nodes n,
      )
      (ground (arith, w.0))

-- The clusters with a slave, and those without it again.
abbrev Undone : Share → List ℕ → Clusters → Type 0
Undone s path c =
    (c' : Clusters) × ((add_slave s path c ≡ some c') × (remove_slave s path c' ≡ some c))

Undone-here :
    (s : Share) (l k : ℕ) (a : Cluster) (sub rest : Clusters)
    → (l == k) ≡ true
    → IsWords a
    → has s.node a.nodes ≡ false
    → Undone s (l ∷ []) (entry k a sub rest)
unfolding add_slave remove_slave
Undone-here s l k a sub rest e w n = (
  entry k (with_node s.node (counted s a)) sub rest,
  (rw e refl, rw e (ap (λ b. some (entry k b sub rest)) (restored s a w n))),
)

Undone-below :
    (s : Share) (l m k : ℕ) (path : List ℕ) (a : Cluster) (sub rest : Clusters)
    → (l == k) ≡ true
    → IsWords a
    → Undone s (m ∷ path) sub
    → Undone s (l ∷ m ∷ path) (entry k a sub rest)
unfolding add_slave remove_slave
Undone-below s l m k path a sub rest e w (sub', (f, g)) = (
  entry k (counted s a) sub' rest,
  (rw (e, f) refl, rw (e, g) (ap (λ b. some (entry k b sub rest)) (discounted-counted s a w))),
)

Undone-behind :
    (s : Share) (l k : ℕ) (path : List ℕ) (a : Cluster) (sub rest : Clusters)
    → (l == k) ≡ false
    → Undone s (l ∷ path) rest
    → Undone s (l ∷ path) (entry k a sub rest)
unfolding add_slave remove_slave
Undone-behind s l k path a sub rest e (rest', (f, g)) =
    (entry k a sub rest', (rw (e, f) refl, rw (e, g) refl))

-- On a path that leads to a cluster, a slave can be added, and taking it off gives the clusters back,
-- if it was not among the nodes of its own cluster.
pub remove_slave-add_slave :
    (s : Share) (path : List ℕ) (c : Clusters) (b : Cluster)
    → AllWords c
    → cluster_at path c ≡ some b
    → has s.node b.nodes ≡ false
    → (c' : Clusters) × ((add_slave s path c ≡ some c') × (remove_slave s path c' ≡ some c))
unfolding cluster_at
remove_slave-add_slave s [] c b w h n = ground (arith, h)
remove_slave-add_slave s (l ∷ path) nil b w h n = ground (arith, h)
remove_slave-add_slave s (l ∷ []) (entry k a sub rest) b w h n = elim (Bool-cases (l == k)) [
  | inl e ↦ Undone-here s l k a sub rest e w.0 (ground (arith, h, e, n))
  | inr e ↦
      Undone-behind s l k [] a sub rest e
        (remove_slave-add_slave s (l ∷ []) rest b w.1.1 (ground (arith, h, e)) n)
]
remove_slave-add_slave s (l ∷ m ∷ path) (entry k a sub rest) b w h n = elim (Bool-cases (l == k)) [
  | inl e ↦
      Undone-below s l m k path a sub rest e w.0
        (remove_slave-add_slave s (m ∷ path) sub b w.1.0 (ground (arith, h, e)) n)
  | inr e ↦
      Undone-behind s l k (m ∷ path) a sub rest e
        (remove_slave-add_slave s (l ∷ m ∷ path) rest b w.1.1 (ground (arith, h, e)) n)
]
