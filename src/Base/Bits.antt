-- ===== src/Base/Bits.antt =====
-- `&`, `|` and `^` at variables. The native operations stand for a recursion on binary digits; its
-- steps are proved here once, for any operation on two digits, and give the laws that the code needs.
pub mod Xor
use Prim.Native.Nat.{
  ℕ, zero, suc, ◌+◌, ◌-◌, ◌*◌, ◌/◌, ◌%◌, ◌^◌, ◌≤◌, ◌<◌, min, max, bit_and, bit_or, digits,
  bit_and-bitwise, bit_or-bitwise,
}
use mathlib.Core.Path.{◌≡◌, refl, ap, ◌∙◌}
use mathlib.Core.Bool.{Bool, true, ◌&&◌}
use native.Mathlib.Nat.{pow-suc, one-le-pow, div-add-mod}
use native.Mathlib.Omega.{arith}
use client_sdk_python.Base.Tests.{◌==◌, ==_iff}

module _ (z : ℕ → ℕ) (f : ℕ → ℕ → ℕ) where
  -- More count than the first number has digits changes nothing.
  digits_count : (n m a b : ℕ) → a ≤ n → a ≤ m → digits z f n a b ≡ digits z f m a b
  digits_count zero zero a b p q = refl
  digits_count zero (suc m) zero b p q = refl
  digits_count zero (suc m) (suc a) b p q = absurd (omega arith)
  digits_count (suc n) zero zero b p q = refl
  digits_count (suc n) zero (suc a) b p q = absurd (omega arith)
  digits_count (suc n) (suc m) zero b p q = refl
  digits_count (suc n) (suc m) (suc a) b p q =
      omega (arith, digits_count n m (suc a / 2) (b / 2) (omega arith) (omega arith))

zero-bit_or : (b : ℕ) → bit_or 0 b ≡ b
zero-bit_or b = bit_or-bitwise 0 b

pub bit_or_step : (a b : ℕ) → bit_or a b ≡ bit_or (a / 2) (b / 2) * 2 + max (a % 2) (b % 2)
bit_or_step zero b = omega (arith, zero-bit_or b, zero-bit_or (b / 2))
bit_or_step (suc a) b = omega (
  arith,
  bit_or-bitwise (suc a) b,
  bit_or-bitwise (suc a / 2) (b / 2),
  digits_count (λ n. n) max a (suc a / 2) (suc a / 2) (b / 2) (omega arith) (omega arith),
)

bit_and-zero_left : (y : ℕ) → bit_and 0 y ≡ 0
bit_and-zero_left y = bit_and-bitwise 0 y

bit_and_step : (x y : ℕ) → bit_and x y ≡ min (x % 2) (y % 2) + 2 * bit_and (x / 2) (y / 2)
bit_and_step (suc n) y =
    let half = suc n / 2 in
    let same = digits_count (λ k. zero) min n half half (y / 2) (omega arith) (omega arith) in
    omega (arith, same, bit_and-bitwise half (y / 2), bit_and-bitwise (suc n) y)
bit_and_step zero y = omega (arith, bit_and-zero_left (y / 2), bit_and-zero_left y)

bit_or-zero_below : (n a : ℕ) → a ≤ n → bit_or a 0 ≡ a
bit_or-zero_below n zero h = refl
bit_or-zero_below zero (suc a) h = absurd (omega arith)
bit_or-zero_below (suc n) (suc a) h =
    omega (arith, bit_or_step (suc a) 0, bit_or-zero_below n (suc a / 2) (omega arith))

-- `a | (d << s)` is a sum where `a` lies below the shifted digit.
pub bit_or_above : (s a d : ℕ) → a < 2 ^ s → bit_or a (d * 2 ^ s) ≡ a + d * 2 ^ s
bit_or_above zero zero d h = omega (arith, zero-bit_or (d * 2 ^ 0))
bit_or_above zero (suc a) d h = absurd (omega arith)
bit_or_above (suc s) a d h = ground (
  arith,
  bit_or_step a (d * 2 ^ suc s),
  ap (λ (t : ℕ). d * t) (pow-suc 2 s),
  pow-suc 2 s,
  bit_or_above s (a / 2) d (omega arith),
)

-- `(d << s) | a` is a sum where `a` lies below the shifted number.
pub bit_or_below : (s d a : ℕ) → a < 2 ^ s → bit_or (d * 2 ^ s) a ≡ d * 2 ^ s + a
bit_or_below zero d a h =
    let none : a ≡ 0 = omega arith in
    rw none (bit_or-zero_below (d * 2 ^ 0) (d * 2 ^ 0) (omega arith) ∙ omega arith)
bit_or_below (suc s) d a h = ground (
  arith,
  bit_or_step (d * 2 ^ suc s) a,
  ap (λ (t : ℕ). d * t) (pow-suc 2 s),
  pow-suc 2 s,
  bit_or_below s d (a / 2) (omega arith),
)

bit_and-zero_below : (n a : ℕ) → a ≤ n → bit_and a 0 ≡ 0
bit_and-zero_below n zero h = refl
bit_and-zero_below zero (suc a) h = absurd (omega arith)
bit_and-zero_below (suc n) (suc a) h =
    omega (arith, bit_and_step (suc a) 0, bit_and-zero_below n (suc a / 2) (omega arith))

bit_and_low : (k q r : ℕ) → r < 2 ^ k → bit_and (r + q * 2 ^ k) (2 ^ k - 1) ≡ r
bit_and_low zero q r h =
    omega (arith, bit_and-zero_below (r + q * 2 ^ 0) (r + q * 2 ^ 0) (omega arith))
bit_and_low (suc k) q r h = ground (
  arith,
  bit_and_step (r + q * 2 ^ suc k) (2 ^ suc k - 1),
  ap (λ (t : ℕ). q * t) (pow-suc 2 k),
  pow-suc 2 k,
  bit_and_low k q (r / 2) (omega arith),
)

-- `a & ((1 << k) - 1)` is the remainder.
pub bit_and_mask : (k a : ℕ) → bit_and a (2 ^ k - 1) ≡ a % 2 ^ k
bit_and_mask k a =
    ground (arith, one-le-pow k 2, bit_and_low k (a / 2 ^ k) (a % 2 ^ k), div-add-mod a (2 ^ k))

-- A property of all numbers below a limit, by evaluation.
unfoldable pub all_below : ℕ → (ℕ → Bool) → Bool
all_below zero test = true
all_below (suc limit) test = all_below limit test && test limit

pub all_below_sound :
    (test : ℕ → Bool) (limit n : ℕ) → n < limit → all_below limit test ≡ true → test n ≡ true
unfolding all_below
all_below_sound test zero n small e = absurd (omega arith)
all_below_sound test (suc limit) n small e = ground (arith, all_below_sound test limit n)

pub eq_below :
    (n : ℕ) (f g : ℕ → ℕ) → all_below n (λ x. f x == g x) ≡ true → (x : ℕ) → x < n → f x ≡ g x
eq_below n f g h x lt = (==_iff (f x) (g x)).0 (all_below_sound (λ x. f x == g x) n x lt h)

-- `(v & 0x7F) | 0x80`
pub bit_or_top : (x : ℕ) → x < 128 → bit_or x 0x80 ≡ x + 128
unfolding all_below
bit_or_top = eq_below 128 (λ x. bit_or x 0x80) (λ x. x + 128) refl

pub bit_and_seven_bits : (v : ℕ) → bit_and v 0x7F ≡ v % 128
bit_and_seven_bits v = bit_and_mask 7 v
