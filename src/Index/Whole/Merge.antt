-- ===== src/Index/Whole/Merge.antt =====
-- Index::merge: the metadata of a slave that joins, put into the index of the master.
use sector_sphere.Base.{
  ◌⊎◌, ℕ, ◌≡◌, refl, Text, Set, Bool, true, false, ◌&&◌, Option, none, some, List, [], ◌∷◌, arith,
  length, if◌then◌else◌, ltb, Option-cases, Bool-cases, inl, inr, sym, ◌∙◌, subst,
}
use sector_sphere.Base.Sets
use sector_sphere.Base.Keys.{text_eq, text_eq_iff}
use sector_sphere.Index.Tree.{Attr, Directory, nil, entry, SNode, find, find-put}
use sector_sphere.Index.Tree.Order.{IsOrdered, find-Above, find-IsOrdered}
use sector_sphere.Index.Walk.{attr_at}
use sector_sphere.Address.{Address, addr_key}
use sector_sphere.Index.Whole.Replicas.{
  attr_at_found, attr_at_absent, attr_at-file, IsFormed, find-IsFormed,
}
use sector_sphere.Index.Whole.{merge, merge_in, merge_entry, same_file}

-- Two files that are one: same size and time, and replicas still wanted.
abbrev joins : ℕ → SNode → SNode → Bool
joins replica s t = same_file s.attr t.attr && ltb (length t.location) replica

abbrev with_locations : Set Address → SNode → SNode
with_locations loc t = record t { attr = record t.attr { location = Sets.add_all loc t.location } }

-- The node of the index after the merge with a node of the branch.
abbrev merged_node : ℕ → SNode → SNode → SNode
merged_node replica s t =
    let m = merge_in replica s.directory t.directory in
    if s.is_dir && t.is_dir
    then record t { directory = m.0 }
    else if joins replica s t
    then with_locations s.location t
    else t

abbrev merged : ℕ → SNode → Option SNode → Option SNode
merged replica s none = some s
merged replica s (some t) = some (merged_node replica s t)

-- What stays in the branch.
abbrev left : ℕ → SNode → Option SNode → Option SNode
left replica s none = none
left replica s (some t) =
    let m = merge_in replica s.directory t.directory in
    if s.is_dir && t.is_dir
    then some (record s { directory = m.1 })
    else if joins replica s t
    then none
    else some s

find-merge_entry :
    (replica : ℕ) (n m : Text) (s : SNode) (cur : Directory)
    → find m (merge_entry replica n s.attr s.directory (merge_in replica s.directory) cur).0
      ≡ (if text_eq n m then merged replica s (find n cur) else find m cur)
unfolding merge_entry
find-merge_entry replica n m s cur = elim (Option-cases (find n cur)) [
  | inl e ↦ rw (merge_entry, e) (ground (arith, find-put n m s cur))
  | inr (t, e) ↦
      let sub = merge_in replica s.directory t.directory in
      rw (merge_entry, e)
        (ground (
          arith,
          e,
          find-put n m (record t { directory = sub.0 }) cur,
          find-put n m (with_locations s.location t) cur,
          text_eq_iff n m,
        ))
]

left_entry :
    (replica : ℕ) (n : Text) (s : SNode) (cur : Directory)
    → elim (merge_entry replica n s.attr s.directory (merge_in replica s.directory) cur).1 [
      | none ↦ none
      | some d ↦ some (record s { directory = d })
    ]
      ≡ left replica s (find n cur)
unfolding merge_entry
left_entry replica n s cur = elim (Option-cases (find n cur)) [
  | inl e ↦ rw (merge_entry, e) refl
  | inr (t, e) ↦ rw (merge_entry, e) (ground arith)
]

abbrev merged_under : ℕ → Option SNode → Option SNode → Option SNode
merged_under replica none x = x
merged_under replica (some s) x = merged replica s x

abbrev left_under : ℕ → Option SNode → Option SNode → Option SNode
left_under replica none x = none
left_under replica (some s) x = left replica s x

find-merge_in :
    (replica : ℕ) (b cur : Directory) (m : Text)
    → IsOrdered b
    → find m (merge_in replica b cur).0 ≡ merged_under replica (find m b) (find m cur)
unfolding merge_in find
find-merge_in replica nil cur m o = refl
find-merge_in replica (entry n a d rest) cur m o =
    let s : SNode = record { attr = a; directory = d } in
    let cur' = (merge_entry replica n a d (merge_in replica d) cur).0 in
    ground (
      arith,
      find-merge_in replica rest cur' m o.2,
      find-merge_entry replica n m s cur,
      find-Above n rest o.0,
      text_eq_iff n m,
      text_eq_iff m n,
    )

left-merge_in :
    (replica : ℕ) (b cur : Directory) (m : Text)
    → IsOrdered b
    → find m (merge_in replica b cur).1 ≡ left_under replica (find m b) (find m cur)
unfolding merge_in find
left-merge_in replica nil cur m o = refl
left-merge_in replica (entry n a d rest) cur m o =
    let s : SNode = record { attr = a; directory = d } in
    let cur' = (merge_entry replica n a d (merge_in replica d) cur).0 in
    ground (
      arith,
      left-merge_in replica rest cur' m o.2,
      left_entry replica n s cur,
      find-merge_entry replica n m s cur,
      find-Above n rest o.0,
      text_eq_iff n m,
      text_eq_iff m n,
    )

-- The attributes with, at least, the replicas of others.
abbrev pub Holds : Attr → Attr → Type 0
Holds a b =
    (b.is_dir ≡ a.is_dir)
    × (b.size ≡ a.size)
    × (b.time_stamp ≡ a.time_stamp)
    × ((x : Address) → Sets.has x a.location ≡ true → Sets.has x b.location ≡ true)

Holds-refl : (a : Attr) → Holds a a
Holds-refl a = (refl, refl, refl, λ x h. h)

with_locations-Holds : (loc : Set Address) (t : SNode) → Holds t.attr (with_locations loc t).attr
with_locations-Holds loc t =
    (refl, refl, refl, λ x h. ground (arith, Sets.has-add_all x loc t.location))

joins-Holds :
    (replica : ℕ) (s t : SNode)
    → joins replica s t ≡ true
    → Holds s.attr (with_locations s.location t).attr
joins-Holds replica s t h = (
  ground arith,
  ground arith,
  ground arith,
  λ x k. ground (arith, Sets.has-add_all x s.location t.location),
)

-- A path shows the attributes, with at least their replicas.
abbrev pub Shows : Attr → Option Attr → Type 0
Shows a x = (b : Attr) × (x ≡ some b) × Holds a b

Shows-found :
    (n : Text) (q : List Text) (s c : SNode) (a : Attr)
    → find n s.directory ≡ some c
    → Shows a (attr_at q c)
    → Shows a (attr_at (n ∷ q) s)
Shows-found n q s c a e h = subst (Shows a) (sym (attr_at_found n q s c e)) h

some_inj : {a b : Attr} → some a ≡ some b → a ≡ b
some_inj h = cc

with_locations-Shows :
    (loc : Set Address) (q : List Text) (t : SNode) (a : Attr)
    → attr_at q t ≡ some a
    → Shows a (attr_at q (with_locations loc t))
unfolding attr_at
with_locations-Shows loc [] t a h = (
  (with_locations loc t).attr,
  refl,
  subst (λ b. Holds b (with_locations loc t).attr) (some_inj h) (with_locations-Holds loc t),
)
with_locations-Shows loc (n ∷ q) t a h = (a, h, Holds-refl a)

merged_node-Shows :
    (replica : ℕ) (q : List Text) (s t : SNode) (a : Attr)
    → attr_at q t ≡ some a
    → Shows a (attr_at q (record t { directory = (merge_in replica s.directory t.directory).0 }))
    → Shows a (attr_at q (merged_node replica s t))
merged_node-Shows replica q s t a h k = elim (Bool-cases (s.is_dir && t.is_dir)) [
  | inl y ↦ rw y k
  | inr y ↦ elim (Bool-cases (joins replica s t)) [
    | inl z ↦ rw (y, z) (with_locations-Shows s.location q t a h)
    | inr z ↦ rw (y, z) (a, h, Holds-refl a)
  ]
]

keep_index :
    (replica : ℕ) (q : List Text) (t s : SNode) (a : Attr)
    → IsOrdered s.directory
    → attr_at q t ≡ some a
    → Shows a (attr_at q (record t { directory = (merge_in replica s.directory t.directory).0 }))
keep_index replica [] t s a o h = unfold attr_at in (a, h, Holds-refl a)
keep_index replica (n ∷ q) t s a o h =
    let root : SNode = record t { directory = (merge_in replica s.directory t.directory).0 } in
    let m = find-merge_in replica s.directory t.directory n o in
    elim (Option-cases (find n t.directory)) [
      | inl e ↦ ground (arith, attr_at_absent n q t e)
      | inr (c, e) ↦
          let k : attr_at q c ≡ some a = sym (attr_at_found n q t c e) ∙ h in
          elim (Option-cases (find n s.directory)) [
            | inl f ↦ Shows-found n q root c a (m ∙ rw (e, f) refl) (a, k, Holds-refl a)
            | inr (u, f) ↦ Shows-found n q root (merged_node replica u c) a (m ∙ rw (e, f) refl) (
                merged_node-Shows replica q u c a k
                  (keep_index replica q c u a (find-IsOrdered n s.directory u o f) k))
          ]
    ]

find-closed :
    (n : Text) (d : Directory) (s : SNode)
    → IsFormed d
    → find n d ≡ some s
    → s.is_dir ≡ false
    → s.directory ≡ nil
unfolding find
find-closed n nil s o h k = cc
find-closed n (entry m a d rest) s o h k = ground (arith, find-closed n rest s o.2)

joins-Shows :
    (replica : ℕ) (q : List Text) (s t : SNode) (b : Attr)
    → (s.is_dir ≡ false → s.directory ≡ nil)
    → joins replica s t ≡ true
    → attr_at q s ≡ some b
    → Shows b (attr_at q (with_locations s.location t))
joins-Shows replica [] s t b f j h =
    unfold attr_at in
    (
      (with_locations s.location t).attr,
      refl,
      subst (λ b. Holds b (with_locations s.location t).attr) (some_inj (unfold attr_at in h))
          (joins-Holds replica s t j),
    )
joins-Shows replica (n ∷ q) s t b f j h =
    ground (arith, attr_at-file n q s.attr s.directory (f (ground arith)))

-- The branch as it is left.
abbrev rest_of : ℕ → SNode → SNode → SNode
rest_of replica s t = record s { directory = (merge_in replica s.directory t.directory).1 }

abbrev union_of : ℕ → SNode → SNode → SNode
union_of replica s t = record t { directory = (merge_in replica s.directory t.directory).0 }

abbrev pub IsKept : Attr → Option Attr → Option Attr → Type 0
IsKept b x y = (x ≡ some b) ⊎ Shows b y

keep_branch :
    (replica : ℕ) (q : List Text) (s t : SNode) (b : Attr)
    → IsOrdered s.directory
    → IsFormed s.directory
    → attr_at q s ≡ some b
    → IsKept b (attr_at q (rest_of replica s t)) (attr_at q (union_of replica s t))
keep_branch replica [] s t b o g h = unfold attr_at in inl h
keep_branch replica (n ∷ q) s t b o g h =
    let l = left-merge_in replica s.directory t.directory n o in
    let m = find-merge_in replica s.directory t.directory n o in
    elim (Option-cases (find n s.directory)) [
      | inl e ↦ ground (arith, attr_at_absent n q s e)
      | inr (u, e) ↦
          let k : attr_at q u ≡ some b = sym (attr_at_found n q s u e) ∙ h in
          elim (Option-cases (find n t.directory)) [
            | inl f ↦ inr (
                Shows-found n q (union_of replica s t) u b (m ∙ rw (e, f) refl)
                  (b, k, Holds-refl b))
            | inr (c, f) ↦
                let sub =
                  keep_branch replica q u c b (find-IsOrdered n s.directory u o e)
                    (find-IsFormed n s.directory u g e) k in
                let left_is : find n (rest_of replica s t).directory ≡ left replica u (some c) =
                  l ∙ rw (e, f) refl in
                let merged_is : find n (union_of replica s t).directory
                    ≡ some (merged_node replica u c) =
                  m ∙ rw (e, f) refl in
                elim (Bool-cases (u.is_dir && c.is_dir)) [
                  | inl y ↦ elim sub [
                    | inl v ↦ inl (
                        attr_at_found n q (rest_of replica s t) (rest_of replica u c)
                          (left_is ∙ rw y refl)
                        ∙ v)
                    | inr v ↦ inr (
                        Shows-found n q (union_of replica s t) (union_of replica u c) b
                          (merged_is ∙ rw y refl) v)
                  ]
                  | inr y ↦ elim (Bool-cases (joins replica u c)) [
                    | inl z ↦ inr (
                        Shows-found n q (union_of replica s t) (with_locations u.location c) b
                          (merged_is ∙ rw (y, z) refl)
                          (joins-Shows replica q u c b (find-closed n s.directory u g e) z k))
                    | inr z ↦
                        inl
                          (attr_at_found n q (rest_of replica s t) u (left_is ∙ rw (y, z) refl) ∙ k)
                  ]
                ]
          ]
    ]

-- Index::merge loses no path and no replica of the index: what stood at a path still stands there,
-- the same file or directory, with at least its replicas. In the branch each name stands once.
pub merge_keeps_index :
    (replica : ℕ) (root branch : SNode) (q : List Text) (a : Attr)
    → IsOrdered branch.directory
    → attr_at q root ≡ some a
    → Shows a (attr_at q (merge replica root branch).0)
unfolding merge
merge_keeps_index replica root branch q a o h = keep_index replica q root branch a o h

-- Index::merge loses nothing of the branch: what stood at a path of it either stays there, or is
-- in the index at that path, of the same kind, size and time, with at least the replicas of the
-- branch. In the branch each name stands once, and files hold nothing.
pub merge_keeps_branch :
    (replica : ℕ) (root branch : SNode) (q : List Text) (b : Attr)
    → IsOrdered branch.directory
    → IsFormed branch.directory
    → attr_at q branch ≡ some b
    → IsKept b (attr_at q (merge replica root branch).1) (attr_at q (merge replica root branch).0)
unfolding merge
merge_keeps_branch replica root branch q b o f h = keep_branch replica q branch root b o f h
