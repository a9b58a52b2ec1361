-- ===== src/Bcs/Words.antt =====
-- `int.to_bytes` and `int.from_bytes` in little-endian order, as serde_binary calls them.
use client_sdk_python.Base.{
  ℕ, zero, suc, ◌+◌, ◌-◌, ◌*◌, ◌/◌, ◌%◌, ◌^◌, ◌≤◌, ◌<◌, ◌≡◌, refl, ap, List, [], ◌∷◌, arith, ltb,
  leb, if◌then◌else◌, length, All, IsByte, Outcome, ok, err,
}
use client_sdk_python.Base.Int.{ℤ, pos, negsuc}
use client_sdk_python.Bcs.Error.{Error, overflow_error}
use native.Mathlib.Nat.{pow-suc}

-- The `n` low bytes of `v`, lowest first.
unfoldable pub le_bytes : ℕ → ℕ → List ℕ
le_bytes zero v = []
le_bytes (suc n) v = (v % 256) ∷ le_bytes n (v / 256)

-- `int.from_bytes(bs, "little", signed=False)`
unfoldable pub from_le : List ℕ → ℕ
from_le [] = 0
from_le (b ∷ bs) = b + 256 * from_le bs

-- `v.to_bytes(n, "little", signed=False)`
unfoldable pub to_bytes : ℕ → ℤ → Outcome Error (List ℕ)
to_bytes n (pos v) = if ltb v (256 ^ n) then ok (le_bytes n v) else err overflow_error
to_bytes n (negsuc v) = err overflow_error

-- `v.to_bytes(n, "little", signed=True)`: two's complement in `n` bytes.
unfoldable pub to_bytes_signed : ℕ → ℤ → Outcome Error (List ℕ)
to_bytes_signed n (pos v) = if ltb (2 * v) (256 ^ n) then ok (le_bytes n v) else err overflow_error
to_bytes_signed n (negsuc v) =
    if leb (2 * (v + 1)) (256 ^ n) then ok (le_bytes n (256 ^ n - (v + 1))) else err overflow_error

-- `int.from_bytes(bs, "little", signed=True)`
unfoldable pub from_le_signed : List ℕ → ℤ
from_le_signed bs =
    if ltb (2 * from_le bs) (256 ^ length bs)
    then pos (from_le bs)
    else negsuc (256 ^ length bs - from_le bs - 1)

-- The integers that `n` signed bytes hold.
abbrev pub FitsSigned : ℕ → ℤ → Type 0
FitsSigned n (pos v) = 2 * v < 256 ^ n
FitsSigned n (negsuc v) = 2 * (v + 1) ≤ 256 ^ n

pub length-le_bytes : (n v : ℕ) → length (le_bytes n v) ≡ n
unfolding le_bytes
length-le_bytes zero v = refl
length-le_bytes (suc n) v = ap suc (length-le_bytes n (v / 256))

pub le_bytes-IsByte : (n v : ℕ) → All IsByte (le_bytes n v)
unfolding le_bytes
le_bytes-IsByte zero v = tt
le_bytes-IsByte (suc n) v = (omega arith, le_bytes-IsByte n (v / 256))

pub from_le-le_bytes : (n v : ℕ) → v < 256 ^ n → from_le (le_bytes n v) ≡ v
unfolding from_le le_bytes
from_le-le_bytes zero v h = omega arith
from_le-le_bytes (suc n) v h =
    omega (arith, from_le-le_bytes n (v / 256) (omega (arith, pow-suc 256 n)))

pub from_le-lt : (bs : List ℕ) → All IsByte bs → from_le bs < 256 ^ length bs
unfolding from_le
from_le-lt [] h = omega arith
from_le-lt (b ∷ bs) h = omega (arith, from_le-lt bs h.1, pow-suc 256 (length bs))

low_byte : (b n : ℕ) → IsByte b → (b + 256 * n) % 256 ≡ b
low_byte b n h = omega arith

high_bytes : (b n : ℕ) → IsByte b → (b + 256 * n) / 256 ≡ n
high_bytes b n h = omega arith

pub le_bytes-from_le : (bs : List ℕ) → All IsByte bs → le_bytes (length bs) (from_le bs) ≡ bs
unfolding from_le le_bytes
le_bytes-from_le [] h = refl
le_bytes-from_le (b ∷ bs) h =
    cc (low_byte b (from_le bs) h.0, high_bytes b (from_le bs) h.0, le_bytes-from_le bs h.1)

-- The unsigned number whose bytes stand for a signed one.
abbrev pub residue : ℕ → ℤ → ℕ
residue n (pos v) = v
residue n (negsuc v) = 256 ^ n - (v + 1)

pub to_bytes-le_bytes : (n v : ℕ) → v < 256 ^ n → to_bytes n (pos v) ≡ ok (le_bytes n v)
unfolding to_bytes
to_bytes-le_bytes n v h = ground arith

pub to_bytes_signed-le_bytes :
    (n : ℕ) (z : ℤ) → FitsSigned n z → to_bytes_signed n z ≡ ok (le_bytes n (residue n z))
unfolding to_bytes_signed
to_bytes_signed-le_bytes n (pos v) h = ground arith
to_bytes_signed-le_bytes n (negsuc v) h = ground arith

pub from_le_signed-le_bytes :
    (n : ℕ) (z : ℤ) → FitsSigned n z → from_le_signed (le_bytes n (residue n z)) ≡ z
unfolding from_le_signed
from_le_signed-le_bytes n (pos v) h =
    rw (length-le_bytes, from_le-le_bytes n v (omega arith)) (ground arith)
from_le_signed-le_bytes n (negsuc v) h =
    rw (length-le_bytes, from_le-le_bytes n (256 ^ n - (v + 1)) (omega arith)) (ground arith)

pub from_le_signed-FitsSigned :
    (bs : List ℕ) → All IsByte bs → FitsSigned (length bs) (from_le_signed bs)
unfolding from_le_signed
from_le_signed-FitsSigned bs b = ground (arith, from_le-lt bs b)

pub le_bytes-from_le_signed :
    (bs : List ℕ)
    → All IsByte bs
    → le_bytes (length bs) (residue (length bs) (from_le_signed bs)) ≡ bs
unfolding from_le_signed
le_bytes-from_le_signed bs b = ground (arith, from_le-lt bs b, le_bytes-from_le bs b, cancel)
  where
    cancel : 256 ^ length bs - (256 ^ length bs - from_le bs - 1 + 1) ≡ from_le bs
    cancel = omega (arith, from_le-lt bs b)
