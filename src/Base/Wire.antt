-- ===== src/Base/Wire.antt =====
-- Values in a buffer of bytes: 32-bit words, the low byte first, and texts that end with a zero.
-- A reader takes the bytes from its pointer on, and returns the value and the bytes that follow.
use Prim.Native.Nat.{ℕ, zero, suc, ◌+◌, ◌*◌, ◌/◌, ◌%◌, ◌^◌, ◌<◌}
use mathlib.Core.Path.{◌≡◌, refl, ap}
use mathlib.Core.Logic.{◌≢◌}
use mathlib.Core.List.{List, [], ◌∷◌, ◌++◌}
use mathlib.Core.Option.{Option, none, some}
use native.Mathlib.Omega.{arith}
use sector_sphere.Base.Tests.{◌==◌, if◌then◌else◌}
use sector_sphere.Base.Lists.{length, All}

infixl 5 ◌>>=◌
abbrev pub ◌>>=◌ {ℓ κ} : {A : Type ℓ} {B : Type κ} → Option A → (A → Option B) → Option B
none >>= f = none
some a >>= f = f a

abbrev pub Reader {ℓ} : Type ℓ → Type ℓ
Reader A = List ℕ → Option (A × List ℕ)

-- *(int32_t*)p = n
unfoldable pub put32 : ℕ → List ℕ
put32 n = n % 256 ∷ n / 256 % 256 ∷ n / 65536 % 256 ∷ n / 16777216 % 256 ∷ []

-- *(int32_t*)p
unfoldable pub get32 : Reader ℕ
get32 (a ∷ b ∷ c ∷ d ∷ p) = some (a + 256 * b + 65536 * c + 16777216 * d, p)
get32 _ = none

pub get32-put32 : (n : ℕ) (p : List ℕ) → n < 2 ^ 32 → get32 (put32 n ++ p) ≡ some (n, p)
unfolding get32 put32
get32-put32 n p h = ground arith

-- *(int64_t*)p
unfoldable pub get64 : Reader ℕ
unfolding get32
get64 p = do (low, p) ← get32 p; (high, p) ← get32 p; some (low + 2 ^ 32 * high, p)

-- strcpy, with its zero.
unfoldable pub put_text : List ℕ → List ℕ
put_text s = s ++ 0 ∷ []

-- A `char*` read up to its zero.
unfoldable pub get_text : Reader (List ℕ)
get_text [] = none
get_text (c ∷ p) =
    let rest = get_text p in
    if c == 0 then some ([], p) else elim rest [ none ↦ none | some r ↦ some (c ∷ r.0, r.1) ]

abbrev pub NoZero : List ℕ → Type 0
NoZero = All (λ c. c ≢ 0)

pub get_text-put_text : (s p : List ℕ) → NoZero s → get_text (put_text s ++ p) ≡ some (s, p)
unfolding get_text put_text
get_text-put_text [] p h = refl
get_text-put_text (c ∷ s) p h = ground (arith, get_text-put_text s p h.1)

-- memcpy of a number of bytes.
unfoldable pub get_bytes : ℕ → Reader (List ℕ)
get_bytes zero p = some ([], p)
get_bytes (suc n) [] = none
get_bytes (suc n) (c ∷ p) = do (s, rest) ← get_bytes n p; some (c ∷ s, rest)

pub get_bytes_append : (n : ℕ) (s p : List ℕ) → length s ≡ n → get_bytes n (s ++ p) ≡ some (s, p)
unfolding get_bytes
get_bytes_append zero [] p h = refl
get_bytes_append zero (c ∷ s) p h = ground arith
get_bytes_append (suc n) [] p h = ground arith
get_bytes_append (suc n) (c ∷ s) p h =
    ap (λ r. r >>= λ (s, rest). some (c ∷ s, rest)) (get_bytes_append n s p (omega arith))
