-- ===== src/Base/Decimal.antt =====
-- Numbers in decimal: printf's %d and %lld, and atoi and atoll. Up to 20 digits, which are enough for
-- a 64-bit word.
use Prim.Native.Nat.{◌≤◌, ℕ, zero, suc, ◌+◌, ◌-◌, ◌*◌, ◌/◌, ◌%◌, ◌^◌, ◌<◌}
use mathlib.Core.Path.{◌≡◌, refl, ap, ◌∙◌}
use mathlib.Core.Logic.{◌≢◌, inl, inr}
use mathlib.Core.Bool.{Bool, true, ◌&&◌, ◌||◌}
use mathlib.Core.List.{[], ◌∷◌, ◌++◌}
use native.Mathlib.Omega.{arith}
use native.Mathlib.Nat.{pow-succ'}
use sector_sphere.Base.Tests.{ltb, leb, ◌==◌, if◌then◌else◌, Bool-cases}
use sector_sphere.Base.Lists.{length, length-append, All}
use sector_sphere.Base.Int.{ℤ, pos, negsuc}
use sector_sphere.Base.Keys.{Text}

unfoldable pub digits : ℕ → ℕ → Text
digits zero n = []
digits (suc f) n =
    let before = digits f (n / 10) in
    let last = b'0' + n % 10 in if ltb n 10 then last ∷ [] else before ++ last ∷ []

abbrev pub is_digit : ℕ → Bool
is_digit c = leb b'0' c && leb c b'9'

-- The number that the digits at the front of a text continue.
unfoldable pub read_digits : ℕ → Text → ℕ
read_digits n [] = n
read_digits n (c ∷ t) =
    let more = read_digits (n * 10 + (c - b'0')) t in if is_digit c then more else n

abbrev pub is_space : ℕ → Bool
is_space c = c == b' ' || leb 9 c && leb c 13

abbrev pub negated : ℕ → ℤ
negated zero = pos 0
negated (suc n) = negsuc n

-- What follows the white space.
unfoldable pub read_sign : Text → ℤ
read_sign [] = pos 0
read_sign (c ∷ t) =
    if c == b'-'
    then negated (read_digits 0 t)
    else if c == b'+'
    then pos (read_digits 0 t)
    else pos (read_digits 0 (c ∷ t))

-- atoi and atoll, where the number is in range.
unfoldable pub atoi : Text → ℤ
unfolding read_sign read_digits
atoi [] = pos 0
atoi (c ∷ t) = let rest = atoi t in if is_space c then rest else read_sign (c ∷ t)

-- %d of a number that is not negative.
unfoldable pub print : ℕ → Text
unfolding digits
print n = digits 20 n

-- %lld of a 64-bit word.
unfoldable pub print64 : ℕ → Text
unfolding print
print64 w = if ltb w (2 ^ 63) then print w else b'-' ∷ print (2 ^ 64 - w)

-- %d of a 32-bit word.
unfoldable pub print32 : ℕ → Text
unfolding print
print32 w = if ltb w (2 ^ 31) then print w else b'-' ∷ print (2 ^ 32 - w)

-- An integer as a word of 32 or 64 bits.
abbrev pub word32 : ℤ → ℕ
word32 (pos n) = n % 2 ^ 32
word32 (negsuc n) = (2 ^ 32 - 1 - n % 2 ^ 32) % 2 ^ 32

abbrev pub word64 : ℤ → ℕ
word64 (pos n) = n % 2 ^ 64
word64 (negsuc n) = (2 ^ 64 - 1 - n % 2 ^ 64) % 2 ^ 64

abbrev pub NoComma : Text → Type 0
NoComma = All (λ c. c ≢ b',')

abbrev pub IsDigits : Text → Type 0
IsDigits = All (λ c. is_digit c ≡ true)

read_digits-append :
    (n : ℕ) (s t : Text) → IsDigits s → read_digits n (s ++ t) ≡ read_digits (read_digits n s) t
unfolding read_digits
read_digits-append n [] t h = refl
read_digits-append n (c ∷ s) t h =
    ground (arith, h.0, read_digits-append (n * 10 + (c - b'0')) s t h.1)

IsDigits-snoc : (s : Text) (c : ℕ) → IsDigits s → is_digit c ≡ true → IsDigits (s ++ c ∷ [])
IsDigits-snoc [] c h k = (k, tt)
IsDigits-snoc (d ∷ s) c h k = (h.0, IsDigits-snoc s c h.1 k)

last_digit : (n : ℕ) → is_digit (b'0' + n % 10) ≡ true
last_digit n = ground arith

digits-IsDigits : (f n : ℕ) → IsDigits (digits f n)
unfolding digits
digits-IsDigits zero n = tt
digits-IsDigits (suc f) n = elim (Bool-cases (ltb n 10)) [
  | inl e ↦ rw e (last_digit n, tt)
  | inr e ↦ rw e (
      IsDigits-snoc (digits f (n / 10)) (b'0' + n % 10) (digits-IsDigits f (n / 10)) (last_digit n))
]

ten_times : (f : ℕ) → 10 ^ suc f ≡ 10 * 10 ^ f
ten_times f = pow-succ' 10 f

read_digits-digits : (f n : ℕ) → n < 10 ^ f → read_digits 0 (digits f n) ≡ n
unfolding read_digits digits
read_digits-digits zero n h = omega arith
read_digits-digits (suc f) n h = elim (Bool-cases (ltb n 10)) [
  | inl e ↦ rw e (ground arith)
  | inr e ↦
      rw
        (
          e,
          read_digits-append 0 (digits f (n / 10)) ((b'0' + n % 10) ∷ [])
              (digits-IsDigits f (n / 10)),
        )
        (ground (arith, read_digits-digits f (n / 10), ten_times f, last_digit n))
]

-- A text of digits has neither white space nor a sign in front.
atoi_digits : (s : Text) → IsDigits s → atoi s ≡ pos (read_digits 0 s)
unfolding atoi read_sign read_digits
atoi_digits [] h = refl
atoi_digits (c ∷ s) h = ground (arith, h.0)

pub atoi-print : (n : ℕ) → n < 10 ^ 20 → atoi (print n) ≡ pos n
unfolding print
atoi-print n h =
    atoi_digits (digits 20 n) (digits-IsDigits 20 n) ∙ ap pos (read_digits-digits 20 n h)

pub print-IsDigits : (n : ℕ) → IsDigits (print n)
unfolding print
print-IsDigits n = digits-IsDigits 20 n

atoi_minus : (n : ℕ) → n < 10 ^ 20 → atoi (b'-' ∷ print n) ≡ negated n
unfolding atoi read_sign print
atoi_minus n h = ap negated (read_digits-digits 20 n h)

word64-negated : (n : ℕ) → 0 < n → n < 2 ^ 64 → word64 (negated n) ≡ 2 ^ 64 - n
word64-negated zero h k = ground arith
word64-negated (suc n) h k = ground arith

word32-negated : (n : ℕ) → 0 < n → n < 2 ^ 32 → word32 (negated n) ≡ 2 ^ 32 - n
word32-negated zero h k = ground arith
word32-negated (suc n) h k = ground arith

pub atoi-print64 : (w : ℕ) → w < 2 ^ 64 → word64 (atoi (print64 w)) ≡ w
unfolding print64
atoi-print64 w h = elim (Bool-cases (ltb w (2 ^ 63))) [
  | inl e ↦ rw (e, atoi-print w (ground arith)) (ground arith)
  | inr e ↦
      rw
        (
          e,
          atoi_minus (2 ^ 64 - w) (ground arith),
          word64-negated (2 ^ 64 - w) (ground arith) (ground arith),
        )
        (ground arith)
]

pub atoi-print32 : (w : ℕ) → w < 2 ^ 32 → word32 (atoi (print32 w)) ≡ w
unfolding print32
atoi-print32 w h = elim (Bool-cases (ltb w (2 ^ 31))) [
  | inl e ↦ rw (e, atoi-print w (ground arith)) (ground arith)
  | inr e ↦
      rw
        (
          e,
          atoi_minus (2 ^ 32 - w) (ground arith),
          word32-negated (2 ^ 32 - w) (ground arith) (ground arith),
        )
        (ground arith)
]

NoComma-digits : (s : Text) → IsDigits s → NoComma s
NoComma-digits [] h = tt
NoComma-digits (c ∷ s) h = (ground (arith, h.0), NoComma-digits s h.1)

pub NoComma-print : (n : ℕ) → NoComma (print n)
NoComma-print n = NoComma-digits (print n) (print-IsDigits n)

pub NoComma-print32 : (w : ℕ) → NoComma (print32 w)
unfolding print32
NoComma-print32 w = elim (Bool-cases (ltb w (2 ^ 31))) [
  | inl e ↦ rw e (NoComma-print w)
  | inr e ↦ rw e (ground arith, NoComma-print (2 ^ 32 - w))
]

pub NoComma-print64 : (w : ℕ) → NoComma (print64 w)
unfolding print64
NoComma-print64 w = elim (Bool-cases (ltb w (2 ^ 63))) [
  | inl e ↦ rw e (NoComma-print w)
  | inr e ↦ rw e (ground arith, NoComma-print (2 ^ 64 - w))
]

length-digits : (f k n : ℕ) → n < 10 ^ suc k → length (digits f n) ≤ suc k
unfolding digits
length-digits zero k n h = ground arith
length-digits (suc f) zero n h = ground arith
length-digits (suc f) (suc k) n h = ground (
  arith,
  ten_times (suc k),
  length-digits f k (n / 10),
  length-append (digits f (n / 10)) ((b'0' + n % 10) ∷ []),
)

digits_some : (f n : ℕ) → 1 ≤ length (digits (suc f) n)
unfolding digits
digits_some f n = ground (arith, length-append (digits f (n / 10)) ((b'0' + n % 10) ∷ []))

pub length-print : (k n : ℕ) → n < 10 ^ suc k → (1 ≤ length (print n)) × (length (print n) ≤ suc k)
unfolding print
length-print k n h = (digits_some 19 n, length-digits 20 k n h)

pub length-print32 : (w : ℕ) → w < 2 ^ 32 → (1 ≤ length (print32 w)) × (length (print32 w) ≤ 11)
unfolding print32
length-print32 w h = elim (Bool-cases (ltb w (2 ^ 31))) [
  | inl e ↦ rw e (ground (arith, length-print 9 w))
  | inr e ↦ rw e (ground (arith, length-print 9 (2 ^ 32 - w)))
]

pub length-print64 : (w : ℕ) → w < 2 ^ 64 → (1 ≤ length (print64 w)) × (length (print64 w) ≤ 20)
unfolding print64
length-print64 w h = elim (Bool-cases (ltb w (2 ^ 63))) [
  | inl e ↦ rw e (ground (arith, length-print 18 w))
  | inr e ↦ rw e (ground (arith, length-print 18 (2 ^ 64 - w)))
]
