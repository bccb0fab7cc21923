-- ===== src/Index/Edit/Graft.antt =====
-- `(*nd)[name] = node`, the second half of Index::move, and how paths that overlap compare.
use sector_sphere.Base.{
  is_some, ◌≡◌, refl, Text, true, false, some, List, [], ◌∷◌, ◌++◌, arith, if◌then◌else◌,
  Option-cases, inl, inr, ◌⊎◌,
}
use sector_sphere.Base.Keys.{text_eq_iff}
use sector_sphere.Index.Tree.{SNode, find}
use sector_sphere.Index.Walk.{attr_at, attr_at-put, locate, modify, is_prefix}
use sector_sphere.Index.Edit.{graft, with_child}

-- The names of a path behind a prefix of it.
unfoldable pub behind : List Text → List Text → List Text
behind [] q = q
behind (n ∷ p) [] = []
behind (n ∷ p) (m ∷ q) = behind p q

pub attr_at-graft :
    (new : List Text) (name : Text) (c s : SNode) (q : List Text)
    → is_some (attr_at new s) ≡ true
    → attr_at q (graft new name c s) ≡ (
        if is_prefix (new ++ name ∷ []) q
        then attr_at (behind (new ++ name ∷ []) q) c
        else attr_at q s)
unfolding graft modify is_prefix behind
attr_at-graft [] name c s [] h = unfold attr_at in refl
attr_at-graft [] name c s (m ∷ q) h = ground (arith, attr_at-put name m q c s)
attr_at-graft (n ∷ new) name c s q h = elim (Option-cases (find n s.directory)) [
  | inl e ↦ unfold attr_at in ground arith
  | inr (d, e) ↦ rw (e, graft, modify) (below q d e (λ r k. attr_at-graft new name c d r k))
]
  where
    below :
        (q : List Text) (d : SNode)
        → find n s.directory ≡ some d
        → ((r : List Text)
            → is_some (attr_at new d) ≡ true
            → attr_at r (graft new name c d) ≡ (
                if is_prefix (new ++ name ∷ []) r
                then attr_at (behind (new ++ name ∷ []) r) c
                else attr_at r d))
        → attr_at q (with_child n s (graft new name c d)) ≡ (
            if is_prefix (n ∷ new ++ name ∷ []) q
            then attr_at (behind (n ∷ new ++ name ∷ []) q) c
            else attr_at q s)
    below [] d e ih = unfold attr_at in refl
    below (m ∷ q) d e ih =
        simp (attr_at-put, ih q (unfold attr_at in ground arith))
          (unfold attr_at in ground (arith, text_eq_iff n m))

pub attr_at-append :
    (p r : List Text) (s c : SNode) → locate p s ≡ some c → attr_at (p ++ r) s ≡ attr_at r c
unfolding locate attr_at
attr_at-append [] r s c h = ground arith
attr_at-append (n ∷ p) r s c h = elim (Option-cases (find n s.directory)) [
  | inl e ↦ ground arith
  | inr (d, e) ↦ ground (arith, attr_at-append p r d c)
]

pub behind-append : (p r : List Text) → behind p (p ++ r) ≡ r
unfolding behind
behind-append [] r = refl
behind-append (n ∷ p) r = behind-append p r

pub is_prefix-append : (p r : List Text) → is_prefix p (p ++ r) ≡ true
unfolding is_prefix
is_prefix-append [] r = refl
is_prefix-append (n ∷ p) r = ground (arith, is_prefix-append p r, text_eq_iff n n)

pub is_prefix_of_append : (p q r : List Text) → is_prefix (p ++ r) q ≡ true → is_prefix p q ≡ true
unfolding is_prefix
is_prefix_of_append [] q r h = refl
is_prefix_of_append (n ∷ p) [] r h = cc
is_prefix_of_append (n ∷ p) (m ∷ q) r h = ground (arith, is_prefix_of_append p q r)

-- Of two prefixes of a path one is a prefix of the other.
pub is_prefix_total :
    (p q r : List Text)
    → is_prefix p (q ++ r) ≡ true
    → (is_prefix p q ≡ true) ⊎ (is_prefix q p ≡ true)
unfolding is_prefix
is_prefix_total [] q r h = inl refl
is_prefix_total (n ∷ p) [] r h = inr refl
is_prefix_total (n ∷ p) (m ∷ q) r h =
    ground (arith, is_prefix_total p q r, text_eq_iff n m, text_eq_iff m n)

is_prefix-snoc :
    (p q : List Text) (n : Text)
    → is_prefix p (q ++ n ∷ []) ≡ true
    → (is_prefix p q ≡ true) ⊎ (is_prefix (q ++ n ∷ []) p ≡ true)
unfolding is_prefix
is_prefix-snoc [] q n h = inl refl
is_prefix-snoc (m ∷ []) [] n h = inr (ground (arith, text_eq_iff m n, text_eq_iff n m))
is_prefix-snoc (m ∷ l ∷ p) [] n h = ground arith
is_prefix-snoc (m ∷ p) (l ∷ q) n h =
    ground (arith, is_prefix-snoc p q n, text_eq_iff m l, text_eq_iff l m)

-- Two places of which neither holds the other have no path in common.
pub places_apart :
    (p q : List Text) (n : Text) (r : List Text)
    → is_prefix p q ≡ false
    → is_prefix (q ++ n ∷ []) p ≡ false
    → is_prefix p ((q ++ n ∷ []) ++ r) ≡ false
places_apart p q n r h k = ground (arith, is_prefix_total p (q ++ n ∷ []) r, is_prefix-snoc p q n)

pub is_prefix_trans :
    (p q r : List Text) → is_prefix p q ≡ true → is_prefix q r ≡ true → is_prefix p r ≡ true
unfolding is_prefix
is_prefix_trans [] q r h k = refl
is_prefix_trans (n ∷ p) [] r h k = cc
is_prefix_trans (n ∷ p) (m ∷ q) [] h k = cc
is_prefix_trans (n ∷ p) (m ∷ q) (l ∷ r) h k =
    ground (arith, is_prefix_trans p q r, text_eq_iff n m, text_eq_iff m l, text_eq_iff n l)

pub is_prefix_either :
    (p q r : List Text)
    → is_prefix p r ≡ true
    → is_prefix q r ≡ true
    → (is_prefix p q ≡ true) ⊎ (is_prefix q p ≡ true)
unfolding is_prefix
is_prefix_either [] q r h k = inl refl
is_prefix_either (n ∷ p) [] r h k = inr refl
is_prefix_either (n ∷ p) (m ∷ q) [] h k = cc
is_prefix_either (n ∷ p) (m ∷ q) (l ∷ r) h k = ground (
  arith,
  is_prefix_either p q r,
  text_eq_iff n m,
  text_eq_iff m n,
  text_eq_iff m l,
  text_eq_iff n l,
)
