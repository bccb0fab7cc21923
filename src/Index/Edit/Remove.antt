-- ===== src/Index/Edit/Remove.antt =====
-- Index::remove: what goes, and what stays.
use sector_sphere.Base.{
  ◌≡◌, ◌≢◌, refl, pos, negsuc, Text, Bool, true, false, not, ◌&&◌, Option, none, some, List, [],
  ◌∷◌, arith, if◌then◌else◌, Option-cases, inl, inr,
}
use sector_sphere.Base.Keys.{text_eq, text_eq_iff}
use sector_sphere.Meta.{parse_path}
use sector_sphere.Index.Tree.{Attr, SNode, find, erase, find-erase}
use sector_sphere.Index.Walk.{attr_at, attr_at-put, is_prefix}
use sector_sphere.Index.Edit.{remove, remove_in, with_child, cut}

attr_at-erase :
    (n m : Text) (q : List Text) (s : SNode)
    → attr_at (m ∷ q) (record s { directory = erase n s.directory })
      ≡ (if text_eq n m then none else attr_at (m ∷ q) s)
unfolding attr_at
attr_at-erase n m q s = ground (arith, find-erase n m s.directory)

-- Taking a node out of its directory hides it and what is below it, and nothing else.
pub attr_at-cut :
    (n : Text) (p q : List Text) (s : SNode)
    → attr_at q (cut (n ∷ p) s) ≡ (if is_prefix (n ∷ p) q then none else attr_at q s)
unfolding cut is_prefix
attr_at-cut n [] [] s = unfold attr_at in refl
attr_at-cut n [] (m ∷ q) s = ground (arith, attr_at-erase n m q s)
attr_at-cut n (o ∷ p) [] s = unfold attr_at in ground arith
attr_at-cut n (o ∷ p) (m ∷ q) s = elim (Option-cases (find n s.directory)) [
  | inl e ↦ rw (e, cut) (unfold attr_at in ground (arith, text_eq_iff n m))
  | inr (c, e) ↦
      rw (e, cut)
        (simp (attr_at-put, attr_at-cut o p q c)
          (unfold attr_at in ground (arith, text_eq_iff n m)))
]

-- What `remove` allows: a file, or any node where it works recursively.
abbrev pub removable : Bool → Option Attr → Bool
removable recursive none = false
removable recursive (some a) = not (a.is_dir && not recursive)

lift_cut :
    (b : Bool) (n : Text) (s c : SNode)
    → elim (if b then some c else none) [ none ↦ none | some c' ↦ some (with_child n s c') ]
      ≡ (if b then some (with_child n s c) else none)
lift_cut true n s c = refl
lift_cut false n s c = refl

pub remove_in-cut :
    (recursive : Bool) (n : Text) (p : List Text) (s : SNode)
    → remove_in recursive (n ∷ p) s
      ≡ (if removable recursive (attr_at (n ∷ p) s) then some (cut (n ∷ p) s) else none)
unfolding remove_in cut attr_at
remove_in-cut recursive n [] s = ground arith
remove_in-cut recursive n (m ∷ p) s = elim (Option-cases (find n s.directory)) [
  | inl e ↦ rw (e, remove_in, attr_at)
  | inr (c, e) ↦
      rw (e, remove_in, cut, attr_at)
        (rw (remove_in-cut recursive m p c)
          (lift_cut (removable recursive (attr_at (m ∷ p) c)) n s _))
]

-- `remove` succeeds exactly if the path holds a file, or a directory and it works recursively. Then
-- the path and all below it are gone; otherwise, and elsewhere, every path shows what it did.
pub remove_cases :
    (path : Text) (recursive : Bool) (root : SNode) (q : List Text)
    → parse_path path ≢ []
    → let dir = parse_path path in
      let done = removable recursive (attr_at dir root) in
      ((remove path recursive root).1 ≡ (if done then pos 0 else negsuc 0))
      × (attr_at q (remove path recursive root).0
          ≡ (if done && is_prefix dir q then none else attr_at q root))
remove_cases path recursive root q h = from (parse_path path) refl h
  where
    from :
        (dir : List Text)
        → parse_path path ≡ dir
        → dir ≢ []
        → let done = removable recursive (attr_at dir root) in
          ((remove path recursive root).1 ≡ (if done then pos 0 else negsuc 0))
          × (attr_at q (remove path recursive root).0
              ≡ (if done && is_prefix dir q then none else attr_at q root))
    from [] e k = absurd (k refl)
    from (n ∷ p) e k =
        unfold remove in ground (arith, remove_in-cut recursive n p root, attr_at-cut n p q root)
