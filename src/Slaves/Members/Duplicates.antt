-- ===== src/Slaves/Members/Duplicates.antt =====
-- SlaveManager::checkDuplicateSlave: two slaves on one node with overlapping storage paths.
use sector_sphere.Base.{
  ℕ, ◌≡◌, refl, ℤ, Text, Map, Set, true, some, [], ◌∷◌, ◌++◌, ◌⊎◌, inl, inr, ◌||◌, arith,
  Option-cases, subst, sym, text_key,
}
use sector_sphere.Base.Maps.{find, find-put}
use sector_sphere.Base.Sets.{has, add, has-add}
use sector_sphere.Base.Keys.{text_eq_iff}
use sector_sphere.Meta.{revise_path}
use sector_sphere.Index.Read.{text_contains, text_starts}
use sector_sphere.Topology.{lookup}
use sector_sphere.Topology.Cluster.{add_slave}
use sector_sphere.Slaves.{SlaveNode, SlaveManager}
use sector_sphere.Slaves.Members.{add_path, insert, share_of, conflicts, check_duplicate_slave}

text_starts-append : (s t : Text) → text_starts s (s ++ t) ≡ true
unfolding text_starts
text_starts-append [] t = refl
text_starts-append (c ∷ s) t = ground (arith, text_starts-append s t)

text_contains-append : (s t : Text) → text_contains s (s ++ t) ≡ true
unfolding text_contains
text_contains-append [] [] = text_starts-append [] []
text_contains-append [] (c ∷ t) = ground (arith, text_starts-append [] (c ∷ t))
text_contains-append (c ∷ s) t = ground (arith, text_starts-append (c ∷ s) t)

-- One path is the other, or lies below it.
abbrev pub Overlap : Text → Text → Type 0
Overlap p q = ((t : Text) × (q ≡ p ++ t)) ⊎ ((t : Text) × (p ≡ q ++ t))

contains-Overlap : (p q : Text) → Overlap p q → (text_contains p q || text_contains q p) ≡ true
contains-Overlap p q (inl (t, e)) = rw e (ground (arith, text_contains-append p t))
contains-Overlap p q (inr (t, e)) = rw e (ground (arith, text_contains-append q t))

conflicts-has : (p q : Text) (s : Set Text) → has q s ≡ true → Overlap p q → conflicts p s ≡ true
unfolding has conflicts
conflicts-has p q [] h o = ground (arith, h)
conflicts-has p q (j ∷ s) h o =
    ground (arith, h, text_eq_iff q j, conflicts-has p q s, contains-Overlap p q o)

-- A path is among those of an address.
abbrev pub IsStored : Text → Text → Map Text (Set Text) → Type 0
IsStored ip path m = (s : Set Text) × ((find ip m ≡ some s) × (has path s ≡ true))

has_added : (path : Text) (s : Set Text) → has path (add path s) ≡ true
has_added path s = ground (arith, has-add path path s, text_eq_iff path path)

IsStored-add_path :
    (ip path : Text) (m : Map Text (Set Text))
    → revise_path path ≡ path
    → IsStored ip path (add_path ip path m)
unfolding add_path
IsStored-add_path ip path m r = elim (Option-cases (find ip m)) [
  | inl e ↦ (
    add path [],
    (
      rw (add_path, e, r, find-put ip ip (add path []) m) (ground (arith, text_eq_iff ip ip)),
      has_added path [],
    ),
  )
  | inr (s, e) ↦ (
    add path s,
    (
      rw (add_path, e, find-put ip ip (add path s) m) (ground (arith, text_eq_iff ip ip)),
      has_added path s,
    ),
  )
]

stored-insert :
    (inet_pton : Text → ℤ × ℕ) (now : ℕ) (sn : SlaveNode) (m m' : SlaveManager)
    → insert inet_pton now sn m ≡ some m'
    → m'.ip_fs_info ≡ add_path sn.ip sn.storage_path m.ip_fs_info
unfolding insert
stored-insert inet_pton now sn m m' h =
    elim (Option-cases
      (add_slave (share_of sn) (lookup inet_pton sn.ip sn.path m.topology).0 m.cluster)) [
        | inl e ↦ ground (arith, h, e)
        | inr (c, e) ↦ ground (arith, h, e)
      ]

check_stored :
    (ip path q : Text) (m : SlaveManager)
    → IsStored ip path m.ip_fs_info
    → Overlap (revise_path q) path
    → check_duplicate_slave ip q m ≡ true
unfolding check_duplicate_slave
check_stored ip path q m (s, (h, k)) o =
    rw (check_duplicate_slave, h) (conflicts-has (revise_path q) path s k o)

-- After a slave with a revised storage path has been inserted, a slave of the same address is rejected
-- if its path, once revised, is that path, or one of the two continues the other.
pub check_duplicate_slave-insert :
    (inet_pton : Text → ℤ × ℕ) (now : ℕ) (sn : SlaveNode) (q : Text) (m m' : SlaveManager)
    → revise_path sn.storage_path ≡ sn.storage_path
    → insert inet_pton now sn m ≡ some m'
    → Overlap (revise_path q) sn.storage_path
    → check_duplicate_slave sn.ip q m' ≡ true
check_duplicate_slave-insert inet_pton now sn q m m' r h o =
    check_stored sn.ip sn.storage_path q m'
      (subst (IsStored sn.ip sn.storage_path) (sym (stored-insert inet_pton now sn m m' h))
        (IsStored-add_path sn.ip sn.storage_path m.ip_fs_info r))
      o
