-- ===== src/Base/Sets.antt =====
-- std::set: the elements in their order.
use mathlib.Core.Path.{◌≡◌, refl}
use mathlib.Core.Bool.{Bool, false, ◌&&◌, ◌||◌, not}
use mathlib.Core.List.{List, [], ◌∷◌}
use native.Mathlib.Omega.{arith}
use sector_sphere.Base.Tests.{if◌then◌else◌}
use sector_sphere.Base.Keys.{Key}

abbrev pub Set {ℓ} : Type ℓ → Type ℓ
Set A = List A

module _ {ℓ} {A : Type ℓ} ⦃k : Key A⦄ where
  unfoldable pub has : A → Set A → Bool
  has a [] = false
  has a (b ∷ s) = k.eq a b || has a s

  unfoldable pub add : A → Set A → Set A
  add a [] = a ∷ []
  add a (b ∷ s) = if k.eq a b then b ∷ s else if k.lt a b then a ∷ b ∷ s else b ∷ add a s

  unfoldable pub del : A → Set A → Set A
  del a [] = []
  del a (b ∷ s) = let rest = del a s in if k.eq a b then rest else b ∷ rest

  pub has-add : (a b : A) (s : Set A) → has b (add a s) ≡ (k.eq a b || has b s)
  unfolding has add
  has-add a b [] = ground (arith, k.eq_iff a b, k.eq_iff b a)
  has-add a b (c ∷ s) =
      ground (arith, has-add a b s, k.eq_iff a b, k.eq_iff b a, k.eq_iff a c, k.eq_iff b c)

  -- Each element of the first inserted into the second.
  unfoldable pub add_all : Set A → Set A → Set A
  add_all [] s = s
  add_all (x ∷ xs) s = add_all xs (add x s)

  pub has-add_all : (a : A) (xs s : Set A) → has a (add_all xs s) ≡ (has a xs || has a s)
  unfolding has add_all
  has-add_all a [] s = refl
  has-add_all a (x ∷ xs) s =
      ground (arith, has-add_all a xs (add x s), has-add x a s, k.eq_iff x a, k.eq_iff a x)

  pub has-del : (a b : A) (s : Set A) → has b (del a s) ≡ (not (k.eq a b) && has b s)
  unfolding has del
  has-del a b [] = ground arith
  has-del a b (c ∷ s) = ground (arith, has-del a b s, k.eq_iff a b, k.eq_iff a c, k.eq_iff b c)

  pub del_absent : (a : A) (s : Set A) → has a s ≡ false → del a s ≡ s
  unfolding has del
  del_absent a [] h = refl
  del_absent a (b ∷ s) h = ground (arith, del_absent a s)

  -- Erasing what was not there gives the set back.
  pub del-add_absent : (a : A) (s : Set A) → has a s ≡ false → del a (add a s) ≡ s
  unfolding has add del
  del-add_absent a [] h = ground (arith, k.eq_iff a a)
  del-add_absent a (b ∷ s) h = ground (arith, k.eq_iff a a, del-add_absent a s, del_absent a s)
