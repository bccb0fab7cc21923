-- ===== src/Base/Maps.antt =====
-- std::map: the entries in the order of their keys. The laws of `find` hold without that order;
-- what a loop over the entries counts needs it (`IsSorted`).
use Prim.Native.Nat.{suc}
use mathlib.Core.Logic.{inl, inr}
use mathlib.Core.Path.{◌≡◌, refl}
use mathlib.Core.Bool.{false, true}
use mathlib.Core.List.{List, [], ◌∷◌}
use mathlib.Core.Option.{Option, none, some}
use native.Mathlib.Omega.{arith}
use sector_sphere.Base.Tests.{if◌then◌else◌, Bool-cases}
use sector_sphere.Base.Lists.{length}
use sector_sphere.Base.Keys.{Key}

abbrev pub Map {ℓ κ} : Type ℓ → Type κ → Type (ℓ ⊔ κ)
Map K V = List (K × V)

module _ {ℓ κ} {K : Type ℓ} {V : Type κ} ⦃k : Key K⦄ where
  unfoldable pub find : K → Map K V → Option V
  find a [] = none
  find a ((b, v) ∷ m) = if k.eq a b then some v else find a m

  -- m[a] = v
  unfoldable pub put : K → V → Map K V → Map K V
  put a v [] = (a, v) ∷ []
  put a v ((b, w) ∷ m) =
      if k.eq a b then (a, v) ∷ m else if k.lt a b then (a, v) ∷ (b, w) ∷ m else (b, w) ∷ put a v m

  unfoldable pub erase : K → Map K V → Map K V
  erase a [] = []
  erase a ((b, w) ∷ m) = let rest = erase a m in if k.eq a b then rest else (b, w) ∷ rest

  pub find-put :
      (a b : K) (v : V) (m : Map K V) → find b (put a v m) ≡ (if k.eq a b then some v else find b m)
  unfolding find put
  find-put a b v [] = ground (arith, k.eq_iff a b, k.eq_iff b a)
  find-put a b v ((c, w) ∷ m) =
      ground (arith, find-put a b v m, k.eq_iff a b, k.eq_iff b a, k.eq_iff a c, k.eq_iff b c)

  pub find-erase :
      (a b : K) (m : Map K V) → find b (erase a m) ≡ (if k.eq a b then none else find b m)
  unfolding find erase
  find-erase a b [] = ground arith
  find-erase a b ((c, w) ∷ m) =
      ground (arith, find-erase a b m, k.eq_iff a b, k.eq_iff a c, k.eq_iff b c)

  abbrev pub Above : K → Map K V → Type ℓ
  Above a [] = Unit
  Above a ((b, w) ∷ m) = (k.lt a b ≡ true) × Above a m

  -- The keys rise, so each stands once.
  abbrev pub IsSorted : Map K V → Type ℓ
  IsSorted [] = Unit
  IsSorted ((a, v) ∷ m) = Above a m × IsSorted m

  Above-trans : (a b : K) (m : Map K V) → k.lt a b ≡ true → Above b m → Above a m
  Above-trans a b [] h s = tt
  Above-trans a b ((c, w) ∷ m) h s = (k.lt_trans a b c h s.0, Above-trans a b m h s.1)

  Above-put : (a b : K) (v : V) (m : Map K V) → k.lt a b ≡ true → Above a m → Above a (put b v m)
  unfolding put
  Above-put a b v [] h s = (h, tt)
  Above-put a b v ((c, w) ∷ m) h s = ground (arith, Above-put a b v m h s.1)

  Above-erase : (a b : K) (m : Map K V) → Above a m → Above a (erase b m)
  unfolding erase
  Above-erase a b [] s = tt
  Above-erase a b ((c, w) ∷ m) s = ground (arith, Above-erase a b m s.1)

  pub put-IsSorted : (a : K) (v : V) (m : Map K V) → IsSorted m → IsSorted (put a v m)
  unfolding put
  put-IsSorted a v [] s = (tt, tt)
  put-IsSorted a v ((b, w) ∷ m) s = ground (
    arith,
    put-IsSorted a v m s.1,
    Above-put b a v m,
    Above-trans a b m,
    k.lt_total a b,
    k.eq_iff a b,
  )

  pub erase-IsSorted : (a : K) (m : Map K V) → IsSorted m → IsSorted (erase a m)
  unfolding erase
  erase-IsSorted a [] s = tt
  erase-IsSorted a ((b, w) ∷ m) s = ground (arith, erase-IsSorted a m s.1, Above-erase b a m s.0)

  pub find-Above : (a : K) (m : Map K V) → Above a m → find a m ≡ none
  unfolding find
  find-Above a [] s = refl
  find-Above a ((b, w) ∷ m) s = ground (arith, find-Above a m s.1, k.eq_iff a b, k.lt_irrefl a)

  erase-Above : (a : K) (m : Map K V) → Above a m → erase a m ≡ m
  unfolding erase
  erase-Above a [] s = refl
  erase-Above a ((b, w) ∷ m) s = ground (arith, erase-Above a m s.1, k.eq_iff a b, k.lt_irrefl a)

  erase_absent : (a : K) (m : Map K V) → find a m ≡ none → erase a m ≡ m
  unfolding find erase
  erase_absent a [] h = refl
  erase_absent a ((b, w) ∷ m) h = ground (arith, erase_absent a m)

  not_after : (a b : K) (m : Map K V) (w : V) → Above b m → find a m ≡ some w → k.lt a b ≡ false
  not_after a b m w s h = elim (Bool-cases (k.lt a b)) [
    | inl l ↦ ground (arith, h, find-Above a m (Above-trans a b m l s))
    | inr e ↦ e
  ]

  -- A second value for a key, and the value that the key has.
  pub put_twice : (a : K) (v w : V) (m : Map K V) → put a v (put a w m) ≡ put a v m
  unfolding put
  put_twice a v w [] = ground (arith, k.eq_iff a a)
  put_twice a v w ((b, x) ∷ m) = ground (arith, k.eq_iff a a, k.eq_iff a b, put_twice a v w m)

  pub put_same : (a : K) (v : V) (m : Map K V) → IsSorted m → find a m ≡ some v → put a v m ≡ m
  unfolding find put
  put_same a v [] s h = cc
  put_same a v ((b, x) ∷ m) s h =
      ground (arith, h, k.eq_iff a b, put_same a v m s.1, not_after a b m v s.0)

  -- A new key and away again.
  pub erase-put_new : (a : K) (v : V) (m : Map K V) → find a m ≡ none → erase a (put a v m) ≡ m
  unfolding find put erase
  erase-put_new a v [] h = ground (arith, k.eq_iff a a)
  erase-put_new a v ((b, w) ∷ m) h =
      ground (arith, k.eq_iff a a, erase-put_new a v m, erase_absent a m)

  pub length-put_old :
      (a : K) (v w : V) (m : Map K V)
      → IsSorted m
      → find a m ≡ some w
      → length (put a v m) ≡ length m
  unfolding find put
  length-put_old a v w [] s h = cc
  length-put_old a v w ((b, x) ∷ m) s h =
      ground (arith, length-put_old a v w m s.1, k.eq_iff a b, not_after a b m w s.0)

  -- m.size() after a new key, after an old key, and after an erased one.
  pub length-put_new :
      (a : K) (v : V) (m : Map K V) → find a m ≡ none → length (put a v m) ≡ suc (length m)
  unfolding find put
  length-put_new a v [] h = refl
  length-put_new a v ((b, w) ∷ m) h = ground (arith, length-put_new a v m)

  pub length-erase :
      (a : K) (v : V) (m : Map K V)
      → IsSorted m
      → find a m ≡ some v
      → suc (length (erase a m)) ≡ length m
  unfolding find erase
  length-erase a v [] s h = cc
  length-erase a v ((b, w) ∷ m) s h =
      ground (arith, length-erase a v m s.1, erase-Above b m s.0, k.eq_iff a b)
