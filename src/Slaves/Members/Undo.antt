-- ===== src/Slaves/Members/Undo.antt =====
-- SlaveManager::remove after SlaveManager::insert.
use sector_sphere.Base.{
  ℕ, ◌≡◌, refl, ℤ, pos, Text, Map, Set, false, Option, none, some, [], is_empty, if◌then◌else◌,
  arith, inl, inr, Option-cases, subst, sym, text_key, nat_key,
}
use sector_sphere.Base.Maps
use sector_sphere.Base.Maps.{find, put, erase, find-put, put_twice, put_same, erase-put_new}
use sector_sphere.Base.Sets.{has, add, del, del-add_absent, del_absent}
use sector_sphere.Base.Keys.{text_eq_iff}
use sector_sphere.Meta.{revise_path}
use sector_sphere.Address.{addr_key}
use sector_sphere.Topology.{lookup}
use sector_sphere.Topology.Cluster.{
  Clusters, Cluster, cluster_at, AllWords, add_slave, remove_slave, remove_slave-add_slave,
}
use sector_sphere.Slaves.{SlaveNode, SlaveManager}
use sector_sphere.Slaves.Members.{add_path, remove_path, joined, insert, remove, addr_of, share_of}

-- The storage paths of an address do not have a path yet, and are not an empty set.
abbrev pub IsFree : Text → Option (Set Text) → Type 0
IsFree path none = Unit
IsFree path (some s) = (has path s ≡ false) × (is_empty s ≡ false)

add_path_first :
    (ip path : Text) (m : Map Text (Set Text))
    → find ip m ≡ none
    → add_path ip path m ≡ put ip (add (revise_path path) []) m
unfolding add_path
add_path_first ip path m h = rw (add_path, h) refl

add_path_more :
    (ip path : Text) (s : Set Text) (m : Map Text (Set Text))
    → find ip m ≡ some s
    → add_path ip path m ≡ put ip (add path s) m
unfolding add_path
add_path_more ip path s m h = rw (add_path, h) refl

remove_path_at :
    (ip path : Text) (s : Set Text) (m : Map Text (Set Text))
    → find ip m ≡ some s
    → remove_path ip path m ≡ (if is_empty (del path s) then erase ip m else put ip (del path s) m)
unfolding remove_path
remove_path_at ip path s m h = rw (remove_path, h) refl

put_found : (ip : Text) (s : Set Text) (m : Map Text (Set Text)) → find ip (put ip s m) ≡ some s
put_found ip s m = rw (find-put ip ip s m) (ground (arith, text_eq_iff ip ip))

has_none : (path : Text) → has path [] ≡ false
unfolding has
has_none path = refl

remove_path-add_path :
    (ip path : Text) (m : Map Text (Set Text))
    → Maps.IsSorted m
    → revise_path path ≡ path
    → IsFree path (find ip m)
    → remove_path ip path (add_path ip path m) ≡ m
remove_path-add_path ip path m o r f = elim (Option-cases (find ip m)) [
  | inl e ↦
      rw
        (
          add_path_first ip path m e,
          r,
          remove_path_at ip path (add path []) (put ip (add path []) m)
              (put_found ip (add path []) m),
          del-add_absent path [] (has_none path),
          erase-put_new ip (add path []) m e,
        )
        refl
  | inr (s, e) ↦
      let g : IsFree path (some s) = subst (IsFree path) e f in
      rw
        (
          add_path_more ip path s m e,
          remove_path_at ip path (add path s) (put ip (add path s) m) (put_found ip (add path s) m),
          del-add_absent path s g.0,
          g.1,
          put_twice ip s (add path s) m,
          put_same ip s m o e,
        )
        refl
]

-- A slave that is new to the master, as the master makes its node: without a path.
pub record IsNew (inet_pton : Text → ℤ × ℕ) (sn : SlaveNode) (m : SlaveManager) : Type 0 where
  pub no_slave : find sn.node_id m.slave_list ≡ none
  pub no_address : find (addr_of sn) m.addr_list ≡ none
  pub not_bad : has sn.node_id m.bad_slaves ≡ false
  pub no_path : sn.path ≡ []
  pub home : Cluster
  pub at_home : cluster_at (lookup inet_pton sn.ip [] m.topology).0 m.cluster ≡ some home
  pub not_home : has sn.node_id home.nodes ≡ false
  pub words : AllWords m.cluster
  pub is_sorted : Maps.IsSorted m.ip_fs_info
  pub revised : revise_path sn.storage_path ≡ sn.storage_path
  pub free : IsFree sn.storage_path (find sn.ip m.ip_fs_info)

abbrev with_slave : ℕ → SlaveNode → SlaveManager → Clusters → SlaveManager
with_slave now sn m c = record m {
  addr_list = put (addr_of sn) sn.node_id m.addr_list;
  slave_list = put sn.node_id (joined now sn) m.slave_list;
  cluster = c;
  ip_fs_info = add_path sn.ip sn.storage_path m.ip_fs_info;
  last_update_time = now;
}

inserted :
    (inet_pton : Text → ℤ × ℕ) (now : ℕ) (sn : SlaveNode) (m : SlaveManager) (c : Clusters)
    → add_slave (share_of sn) (lookup inet_pton sn.ip sn.path m.topology).0 m.cluster ≡ some c
    → insert inet_pton now sn m ≡ some (with_slave now sn m c)
unfolding insert
inserted inet_pton now sn m c h = rw (insert, h) refl

found :
    (now : ℕ) (sn : SlaveNode) (m : SlaveManager) (c : Clusters)
    → find sn.node_id (with_slave now sn m c).slave_list ≡ some (joined now sn)
found now sn m c = rw (find-put sn.node_id sn.node_id (joined now sn) m.slave_list) (ground arith)

removed :
    (inet_pton : Text → ℤ × ℕ) (later now : ℕ) (sn : SlaveNode) (m : SlaveManager) (c : Clusters)
    → IsNew inet_pton sn m
    → remove_slave (share_of sn) (lookup inet_pton sn.ip [] m.topology).0 c ≡ some m.cluster
    → remove inet_pton later sn.node_id (with_slave now sn m c)
      ≡ some (record m { last_update_time = later }, pos 1)
unfolding remove
removed inet_pton later now sn m c v h =
    rw
      (
        remove,
        found now sn m c,
        h,
        erase-put_new (addr_of sn) sn.node_id m.addr_list v.no_address,
        erase-put_new sn.node_id (joined now sn) m.slave_list v.no_slave,
        del_absent sn.node_id m.bad_slaves v.not_bad,
        remove_path-add_path sn.ip sn.storage_path m.ip_fs_info v.is_sorted v.revised v.free,
      )
      refl

-- A slave that is new to the master (its id, its address and its storage path, which is revised, are not
-- known, it is not among the bad ones, and the topology leads to a cluster that does not list it) can
-- be inserted, and removing it gives the manager back, with the counts of all its clusters, but for the
-- time of the last update.
pub remove-insert :
    (inet_pton : Text → ℤ × ℕ) (now later : ℕ) (sn : SlaveNode) (m : SlaveManager)
    → IsNew inet_pton sn m
    → (m' : SlaveManager) × ((insert inet_pton now sn m ≡ some m')
        × (remove inet_pton later sn.node_id m'
            ≡ some (record m { last_update_time = later }, pos 1)))
remove-insert inet_pton now later sn m v =
    let (c, (h, k)) =
      remove_slave-add_slave (share_of sn) (lookup inet_pton sn.ip [] m.topology).0 m.cluster v.home
        v.words v.at_home v.not_home in
    (
      with_slave now sn m c,
      (
        inserted inet_pton now sn m c (
            subst
              (λ p.
                add_slave (share_of sn) (lookup inet_pton sn.ip p m.topology).0 m.cluster ≡ some c)
              (sym v.no_path) h),
        removed inet_pton later now sn m c v k,
      ),
    )
