-- ===== src/Base/Bits/Xor.antt =====
-- `^` at variables, by halves and parities: exclusive or is a commutative group, and shifts and masks
-- go through it.
use Prim.Native.Nat.{
  ℕ, zero, suc, ◌+◌, ◌*◌, ◌/◌, ◌%◌, ◌^◌, ◌≤◌, ◌<◌, differ, bit_xor, bit_xor-bitwise,
}
use mathlib.Core.Path.{◌≡◌, ap, sym, ◌∙◌}
use native.Mathlib.Nat.{
  pow-suc, pow-succ', one-le-pow, div-div-eq-div-mul, div-one, mul-one, div-eq_of_lt,
  lt-mul-div-succ, mod-lt, mul-add-mod_self_right, mod-eq_of_lt, div-add-mod',
}
use native.Mathlib.Omega.{arith}
use client_sdk_python.Base.Bits.{digits_count}

differ_parity : (p q : ℕ) → p < 2 → q < 2 → differ p q ≡ (p + q) % 2
differ_parity zero q hp hq = omega arith
differ_parity (suc zero) zero hp hq = omega arith
differ_parity (suc zero) (suc zero) hp hq = omega arith
differ_parity (suc zero) (suc (suc q)) hp hq = absurd (omega arith)
differ_parity (suc (suc p)) q hp hq = absurd (omega arith)

pub zero-bit_xor : (b : ℕ) → bit_xor 0 b ≡ b
zero-bit_xor b = bit_xor-bitwise 0 b

bit_xor_digits : (a b : ℕ) → bit_xor a b ≡ bit_xor (a / 2) (b / 2) * 2 + differ (a % 2) (b % 2)
bit_xor_digits zero b = omega (arith, zero-bit_xor b, zero-bit_xor (b / 2))
bit_xor_digits (suc n) b =
    let half = suc n / 2 in
    let same = digits_count (λ k. k) differ n half half (b / 2) (omega arith) (omega arith) in
    omega (arith, same, bit_xor-bitwise (suc n) b, bit_xor-bitwise half (b / 2))

pub bit_xor_half : (a b : ℕ) → bit_xor a b / 2 ≡ bit_xor (a / 2) (b / 2)
bit_xor_half a b =
    omega (arith, bit_xor_digits a b, differ_parity (a % 2) (b % 2) (omega arith) (omega arith))

pub bit_xor_parity : (a b : ℕ) → bit_xor a b % 2 ≡ (a + b) % 2
bit_xor_parity a b =
    omega (arith, bit_xor_digits a b, differ_parity (a % 2) (b % 2) (omega arith) (omega arith))

-- Equal halves and equal parities.
by_halves : (a b : ℕ) → a / 2 ≡ b / 2 → a % 2 ≡ b % 2 → a ≡ b
by_halves a b h p = omega arith

zero_of : (a : ℕ) → a ≤ 0 → a ≡ 0
zero_of a h = omega arith

bit_xor-zero_below : (n a : ℕ) → a ≤ n → bit_xor a 0 ≡ a
bit_xor-zero_below zero a h = rw (zero_of a h)
bit_xor-zero_below (suc n) a h =
    let half : bit_xor (a / 2) 0 ≡ a / 2 = bit_xor-zero_below n (a / 2) (omega arith) in
    omega (arith, bit_xor_half a 0, bit_xor_parity a 0, half)

pub bit_xor-zero : (a : ℕ) → bit_xor a 0 ≡ a
bit_xor-zero a = bit_xor-zero_below a a (omega arith)

bit_xor_self_below : (n a : ℕ) → a ≤ n → bit_xor a a ≡ 0
bit_xor_self_below zero a h = rw (zero_of a h)
bit_xor_self_below (suc n) a h =
    omega (arith, bit_xor_half a a, bit_xor_parity a a, bit_xor_self_below n (a / 2) (omega arith))

pub bit_xor_self : (a : ℕ) → bit_xor a a ≡ 0
bit_xor_self a = bit_xor_self_below a a (omega arith)

bit_xor_comm_below : (n a b : ℕ) → a ≤ n → bit_xor a b ≡ bit_xor b a
bit_xor_comm_below zero a b h = rw (zero_of a h) (zero-bit_xor b ∙ sym (bit_xor-zero b))
bit_xor_comm_below (suc n) a b h = omega (
  arith,
  bit_xor_half a b,
  bit_xor_half b a,
  bit_xor_parity a b,
  bit_xor_parity b a,
  bit_xor_comm_below n (a / 2) (b / 2) (omega arith),
)

pub bit_xor_comm : (a b : ℕ) → bit_xor a b ≡ bit_xor b a
bit_xor_comm a b = bit_xor_comm_below a a b (omega arith)

bit_xor_assoc_below : (n a b c : ℕ) → a ≤ n → bit_xor (bit_xor a b) c ≡ bit_xor a (bit_xor b c)
bit_xor_assoc_below zero a b c h =
    rw (zero_of a h) (ap (λ t. bit_xor t c) (zero-bit_xor b) ∙ sym (zero-bit_xor (bit_xor b c)))
bit_xor_assoc_below (suc n) a b c h =
    let left = bit_xor_half (bit_xor a b) c ∙ ap (λ t. bit_xor t (c / 2)) (bit_xor_half a b) in
    let right = bit_xor_half a (bit_xor b c) ∙ ap (bit_xor (a / 2)) (bit_xor_half b c) in
    let halves = bit_xor_assoc_below n (a / 2) (b / 2) (c / 2) (omega arith) in
    by_halves (bit_xor (bit_xor a b) c) (bit_xor a (bit_xor b c)) (left ∙ halves ∙ sym right) (
      omega (
        arith,
        bit_xor_parity (bit_xor a b) c,
        bit_xor_parity a b,
        bit_xor_parity a (bit_xor b c),
        bit_xor_parity b c,
      ))

pub bit_xor_assoc : (a b c : ℕ) → bit_xor (bit_xor a b) c ≡ bit_xor a (bit_xor b c)
bit_xor_assoc a b c = bit_xor_assoc_below a a b c (omega arith)

-- Two pairs, regrouped.
pub bit_xor_swap :
    (a b c d : ℕ) → bit_xor (bit_xor a b) (bit_xor c d) ≡ bit_xor (bit_xor a c) (bit_xor b d)
bit_xor_swap a b c d =
    bit_xor_assoc a b (bit_xor c d)
    ∙ ap (bit_xor a)
        (sym (bit_xor_assoc b c d) ∙ ap (λ t. bit_xor t d) (bit_xor_comm b c) ∙ bit_xor_assoc c b d)
    ∙ sym (bit_xor_assoc a c (bit_xor b d))

div_pow_suc : (k a : ℕ) → a / 2 ^ suc k ≡ a / 2 / 2 ^ k
div_pow_suc k a = ap (λ (t : ℕ). a / t) (pow-succ' 2 k) ∙ sym (div-div-eq-div-mul a 2 (2 ^ k))

mul_pow_suc : (k a : ℕ) → a * 2 ^ suc k ≡ a * 2 ^ k * 2
mul_pow_suc k a = omega (arith, ap (λ (t : ℕ). a * t) (pow-suc 2 k))

-- `>>` goes through.
pub bit_xor_shr : (k a b : ℕ) → bit_xor a b / 2 ^ k ≡ bit_xor (a / 2 ^ k) (b / 2 ^ k)
bit_xor_shr zero a b = rw (div-one a, div-one b, div-one (bit_xor a b))
bit_xor_shr (suc k) a b =
    rw (div_pow_suc k a, div_pow_suc k b, div_pow_suc k (bit_xor a b), bit_xor_half a b)
      (bit_xor_shr k (a / 2) (b / 2))

bit_xor_double : (a b : ℕ) → bit_xor (a * 2) (b * 2) ≡ bit_xor a b * 2
bit_xor_double a b =
    let halved : (n : ℕ) → n * 2 / 2 ≡ n = λ n. omega arith in
    let half : bit_xor (a * 2) (b * 2) / 2 ≡ bit_xor a b =
      bit_xor_half (a * 2) (b * 2) ∙ rw (halved a, halved b) in
    omega (arith, half, bit_xor_parity (a * 2) (b * 2))

-- `<<` goes through.
pub bit_xor_shl : (k a b : ℕ) → bit_xor (a * 2 ^ k) (b * 2 ^ k) ≡ bit_xor a b * 2 ^ k
bit_xor_shl zero a b = rw (mul-one a, mul-one b, mul-one (bit_xor a b))
bit_xor_shl (suc k) a b =
    rw (mul_pow_suc k a, mul_pow_suc k b, mul_pow_suc k (bit_xor a b))
      (bit_xor_double (a * 2 ^ k) (b * 2 ^ k) ∙ ap (λ t. t * 2) (bit_xor_shl k a b))

pub bit_xor-lt : (k a b : ℕ) → a < 2 ^ k → b < 2 ^ k → bit_xor a b < 2 ^ k
bit_xor-lt k a b ha hb =
    let none : bit_xor a b / 2 ^ k ≡ 0 =
      bit_xor_shr k a b ∙ rw (div-eq_of_lt ha, div-eq_of_lt hb) in
    let bound = lt-mul-div-succ (bit_xor a b) (one-le-pow k 2 (omega arith)) in
    omega (arith, rw none at bound)

-- Where the low bits of one number are free, `^` adds.
pub bit_xor_above : (k d a : ℕ) → a < 2 ^ k → bit_xor (d * 2 ^ k) a ≡ d * 2 ^ k + a
bit_xor_above zero d a h = rw (zero_of a (omega arith)) (bit_xor-zero (d * 2 ^ 0) ∙ omega arith)
bit_xor_above (suc k) d a h =
    let e = mul_pow_suc k d in
    let small : a / 2 < 2 ^ k = omega (arith, pow-suc 2 k) in
    let halved : d * 2 ^ suc k / 2 ≡ d * 2 ^ k = omega (arith, e) in
    let half : bit_xor (d * 2 ^ suc k) a / 2 ≡ d * 2 ^ k + a / 2 =
      bit_xor_half (d * 2 ^ suc k) a ∙ rw halved (bit_xor_above k d (a / 2) small) in
    omega (arith, e, half, bit_xor_parity (d * 2 ^ suc k) a)

-- A number from its high and its low bits.
split_at : (k n : ℕ) → n ≡ bit_xor (n / 2 ^ k * 2 ^ k) (n % 2 ^ k)
split_at k n =
    let low = mod-lt n (one-le-pow k 2 (omega arith)) in
    sym (bit_xor_above k (n / 2 ^ k) (n % 2 ^ k) low ∙ div-add-mod' n (2 ^ k))

-- `& ((1 << k) - 1)` goes through.
pub bit_xor_mod : (k a b : ℕ) → bit_xor a b % 2 ^ k ≡ bit_xor (a % 2 ^ k) (b % 2 ^ k)
bit_xor_mod k a b =
    let positive = one-le-pow k 2 (omega arith) in
    let high = bit_xor (a / 2 ^ k) (b / 2 ^ k) in
    let low = bit_xor (a % 2 ^ k) (b % 2 ^ k) in
    let low-lt = bit_xor-lt k (a % 2 ^ k) (b % 2 ^ k) (mod-lt a positive) (mod-lt b positive) in
    let whole : bit_xor a b ≡ high * 2 ^ k + low =
      ap (λ t. bit_xor t b) (split_at k a)
      ∙ ap (bit_xor (bit_xor (a / 2 ^ k * 2 ^ k) (a % 2 ^ k))) (split_at k b)
      ∙ bit_xor_swap (a / 2 ^ k * 2 ^ k) (a % 2 ^ k) (b / 2 ^ k * 2 ^ k) (b % 2 ^ k)
      ∙ ap (λ t. bit_xor t low) (bit_xor_shl k (a / 2 ^ k) (b / 2 ^ k))
      ∙ bit_xor_above k high low low-lt in
    ap (λ (t : ℕ). t % 2 ^ k) whole ∙ mul-add-mod_self_right high (2 ^ k) low ∙ mod-eq_of_lt low-lt
