-- ===== src/Base/Words.antt =====
-- 64-bit and 32-bit words by their bit patterns, with two's complement for the signed order.
use Prim.Native.Nat.{ℕ, ◌+◌, ◌-◌, ◌%◌, ◌^◌, ◌<◌}
use mathlib.Core.Path.{◌≡◌}
use mathlib.Core.Bool.{Bool}
use native.Mathlib.Omega.{arith}
use sector_sphere.Base.Tests.{ltb}

-- int64_t a + b and a - b.
unfoldable pub add64 : ℕ → ℕ → ℕ
add64 a b = (a + b) % 2 ^ 64

unfoldable pub sub64 : ℕ → ℕ → ℕ
sub64 a b = (a + 2 ^ 64 - b % 2 ^ 64) % 2 ^ 64

-- The signed order: shifting the sign bit makes it the order of the patterns.
unfoldable pub slt64 : ℕ → ℕ → Bool
slt64 a b = ltb ((a + 2 ^ 63) % 2 ^ 64) ((b + 2 ^ 63) % 2 ^ 64)

pub add64_assoc : (a b c : ℕ) → add64 (add64 a b) c ≡ add64 a (add64 b c)
unfolding add64
add64_assoc a b c = omega arith

pub add64_comm : (a b : ℕ) → add64 a b ≡ add64 b a
unfolding add64
add64_comm a b = omega arith

-- A sum is a word already.
pub add64_word : (a b : ℕ) → add64 0 (add64 a b) ≡ add64 a b
unfolding add64
add64_word a b = omega arith

pub sub64-add64 : (a b : ℕ) → a < 2 ^ 64 → sub64 (add64 a b) b ≡ a
unfolding add64 sub64
sub64-add64 a b h = omega arith

-- Below 2^63 the words are the numbers that they stand for.
pub add64_small : (a b : ℕ) → a + b < 2 ^ 63 → add64 a b ≡ a + b
unfolding add64
add64_small a b h = omega arith

pub slt64_small : (a b : ℕ) → a < 2 ^ 63 → b < 2 ^ 63 → slt64 a b ≡ ltb a b
unfolding slt64
slt64_small a b h k = ground arith

-- The same for 32 bits.
unfoldable pub slt32 : ℕ → ℕ → Bool
slt32 a b = ltb ((a + 2 ^ 31) % 2 ^ 32) ((b + 2 ^ 31) % 2 ^ 32)
