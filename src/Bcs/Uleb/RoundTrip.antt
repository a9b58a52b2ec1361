-- ===== src/Bcs/Uleb/RoundTrip.antt =====
-- Reading a ULEB128 number back, and that each number has one encoding only.
use client_sdk_python.Base.{
  ℕ, zero, suc, ◌+◌, ◌*◌, ◌/◌, ◌%◌, ◌^◌, ◌≤◌, ◌<◌, ◌≡◌, refl, ap, ◌∙◌, List, [], ◌∷◌, ◌++◌, arith,
  ltb, ◌==◌, if◌then◌else◌, ◌&&◌, Outcome, ok, err, IsByte, All, inl, inr, ◌⊎◌,
}
use client_sdk_python.Base.Bits.{bit_and_seven_bits, bit_or_above}
use client_sdk_python.Bcs.Error.{
  Error, deserialization_error, uleb_overflow, uleb_zero_digit, DeserializationFault,
}
use client_sdk_python.Bcs.Parser.{pure, raise, read, read_one, >>=-eq-ok}
use client_sdk_python.Bcs.Words.{from_le}
use client_sdk_python.Bcs.Uleb.Encode.{
  max_length, max_u32, serialize_u32_as_uleb128, serialize_len, serialize_variant_index,
  uleb128_last, uleb128_more,
}
use client_sdk_python.Bcs.Uleb.Decode.{
  uleb128_rounds, deserialize_uleb128_as_u32, deserialize_len, deserialize_variant_index,
}
use native.Mathlib.Nat.{div-add-mod, pow-suc}
use native.Mathlib.Numerals.{towards_suc}
use native.Mathlib.Decide.{dec_lt}

-- One round in plain arithmetic.
abbrev round_result : ℕ → ℕ → ℕ → ℕ → List ℕ → Outcome Error (ℕ × List ℕ)
round_result rounds shift value b rest =
    let value' = value + b % 128 * 2 ^ shift in
    let more = uleb128_rounds rounds (shift + 7) value' rest in
    if ltb max_u32 value'
    then err (deserialization_error uleb_overflow)
    else if b % 128 == b
    then (if ltb 0 shift && (b % 128 == 0)
        then err (deserialization_error uleb_zero_digit)
        else ok (value', rest))
    else more

uleb128_round :
    (rounds shift value b : ℕ) (rest : List ℕ)
    → value < 2 ^ shift
    → uleb128_rounds (suc rounds) shift value (b ∷ rest) ≡ round_result rounds shift value b rest
unfolding uleb128_rounds from_le
uleb128_round rounds shift value b rest h =
    ground (
      arith,
      read_one b rest,
      bit_and_seven_bits (b + 256 * 0),
      bit_or_above shift value (b % 128) h,
    )

shift_seven : (shift : ℕ) → 2 ^ (shift + 7) ≡ 128 * 2 ^ shift
shift_seven shift = simp towards_suc (omega arith)

digit_fits : (value digit s : ℕ) → value < 2 ^ s → digit < 128 → value + digit * 2 ^ s < 2 ^ (s + 7)
digit_fits value digit s h d = rw shift_seven (grind arith)

-- What is left of `w` after its lowest group, and that group, both shifted.
split_group : (w shift : ℕ) → w / 128 * 2 ^ (shift + 7) + w % 128 * 2 ^ shift ≡ w * 2 ^ shift
split_group w shift =
    let rest = ap (λ (power : ℕ). w / 128 * power) (shift_seven shift) in
    let whole = ap (λ (n : ℕ). n * 2 ^ shift) (div-add-mod w 128) in omega (arith, rest, whole)

round_more :
    (rounds shift value g : ℕ) (rest : List ℕ)
    → g < 128
    → value < 2 ^ shift
    → value + g * 2 ^ shift ≤ max_u32
    → uleb128_rounds (suc rounds) shift value ((g + 128) ∷ rest)
      ≡ uleb128_rounds rounds (shift + 7) (value + g * 2 ^ shift) rest
round_more rounds shift value g rest hg hv fits =
    rw (uleb128_round rounds shift value (g + 128) rest hv, low) (ground arith)
  where
    low : (g + 128) % 128 ≡ g
    low = omega arith

-- `w` is what is still to be read; it counts from bit `shift` on.
rounds-uleb128 :
    (rounds w shift value : ℕ) (rest : List ℕ)
    → w < 128 ^ suc rounds
    → value < 2 ^ shift
    → value + w * 2 ^ shift ≤ max_u32
    → (shift ≡ 0) ⊎ (0 < w)
    → uleb128_rounds (suc rounds) shift value (serialize_u32_as_uleb128 w ++ rest)
      ≡ ok (value + w * 2 ^ shift, rest)
rounds-uleb128 zero w shift value rest hw hv fits top =
    rw (uleb128_last w (omega arith), uleb128_round zero shift value w rest hv) (ground arith)
rounds-uleb128 (suc rounds) w shift value rest hw hv fits top = elim (dec_lt w 128) [
  | yes last ↦
      rw (uleb128_last w last, uleb128_round (suc rounds) shift value w rest hv) (ground arith)
  | no more ↦ rw (uleb128_more w (omega arith)) (
      round_more (suc rounds) shift value (w % 128) (serialize_u32_as_uleb128 (w / 128) ++ rest)
        (omega arith) hv (omega (arith, split_group w shift))
      ∙ rounds-uleb128 rounds (w / 128) (shift + 7) (value + w % 128 * 2 ^ shift) rest
          (omega (arith, pow-suc 128 (suc rounds)))
          (digit_fits value (w % 128) shift hv (omega arith)) (omega (arith, split_group w shift))
          (inr (omega arith))
      ∙ ap (λ t. ok (t, rest)) (omega (arith, split_group w shift)))
]

round_cases :
    (rounds shift value b : ℕ) (bs : List ℕ) {v : ℕ} {rest : List ℕ}
    → b < 256
    → round_result rounds shift value b bs ≡ ok (v, rest)
    → ((b < 128)
        × (v ≡ value + b * 2 ^ shift)
        × (bs ≡ rest)
        × (v ≤ max_u32)
        × ((shift ≡ 0) ⊎ (0 < b)))
      ⊎ ((128 ≤ b)
          × (uleb128_rounds rounds (shift + 7) (value + b % 128 * 2 ^ shift) bs ≡ ok (v, rest)))
round_cases rounds shift value b bs hb e = ground arith

regroup :
    (value b w s : ℕ) {v : ℕ}
    → v ≡ value + b % 128 * 2 ^ s + w * 2 ^ (s + 7)
    → v ≡ value + (b % 128 + 128 * w) * 2 ^ s
regroup value b w s e = omega (arith, e, ap (λ (t : ℕ). w * t) (shift_seven s))

longer_digits :
    (b w : ℕ) (bs rest : List ℕ)
    → 128 ≤ b
    → b < 256
    → bs ≡ serialize_u32_as_uleb128 w ++ rest
    → b ∷ bs
      ≡ ((b % 128 + 128 * w) % 128 + 128) ∷ serialize_u32_as_uleb128 ((b % 128 + 128 * w) / 128)
        ++ rest
longer_digits b w bs rest big hb e = cc (e, low, high)
  where
    low : (b % 128 + 128 * w) % 128 + 128 ≡ b
    low = omega arith

    high : (b % 128 + 128 * w) / 128 ≡ w
    high = omega arith

rounds_canonical :
    (rounds shift value : ℕ) (inp : List ℕ) {v : ℕ} {rest : List ℕ}
    → All IsByte inp
    → value < 2 ^ shift
    → uleb128_rounds rounds shift value inp ≡ ok (v, rest)
    → (w : ℕ) × (v ≡ value + w * 2 ^ shift)
      × (inp ≡ serialize_u32_as_uleb128 w ++ rest)
      × (v ≤ max_u32)
      × ((shift ≡ 0) ⊎ (0 < w))
rounds_canonical zero shift value inp hb hv e = unfold uleb128_rounds in cc
rounds_canonical (suc rounds) shift value [] hb hv e = unfold uleb128_rounds read in ground arith
rounds_canonical (suc rounds) shift value (b ∷ bs) {v} {rest} hb hv e =
    elim (round_cases rounds shift value b bs hb.0
      (rw (uleb128_round rounds shift value b bs hv) at e)) [
        | inl (small, ev, er, le, top) ↦ (b, ev, rw (uleb128_last b small, er), le, top)
        | inr (big, e') ↦ longer big (
            rounds_canonical rounds (shift + 7) (value + b % 128 * 2 ^ shift) bs hb.1
              (digit_fits value (b % 128) shift hv (omega arith)) e')
      ]
  where
    longer :
        128 ≤ b
        → (w : ℕ) × (v ≡ value + b % 128 * 2 ^ shift + w * 2 ^ (shift + 7))
          × (bs ≡ serialize_u32_as_uleb128 w ++ rest)
          × (v ≤ max_u32)
          × ((shift + 7 ≡ 0) ⊎ (0 < w))
        → (w : ℕ) × (v ≡ value + w * 2 ^ shift)
          × ((b ∷ bs) ≡ serialize_u32_as_uleb128 w ++ rest)
          × (v ≤ max_u32)
          × ((shift ≡ 0) ⊎ (0 < w))
    longer big (w, ev, er, le, top) = (
      b % 128 + 128 * w,
      regroup value b w shift ev,
      rw (uleb128_more (b % 128 + 128 * w) (omega arith)) (longer_digits b w bs rest big hb.0 er),
      le,
      inr (omega arith),
    )

pub serialize_len-eq-ok :
    (n : ℕ) → n ≤ max_length → serialize_len n ≡ ok (serialize_u32_as_uleb128 n)
unfolding serialize_len
serialize_len-eq-ok n h = ground arith

-- A length of at most `max_length` is read back from its encoding, whatever follows.
pub deserialize_len-serialize :
    (n : ℕ) (rest : List ℕ)
    → n ≤ max_length
    → deserialize_len (serialize_u32_as_uleb128 n ++ rest) ≡ ok (n, rest)
unfolding deserialize_len deserialize_uleb128_as_u32
deserialize_len-serialize n rest h =
    ground (arith, rounds-uleb128 4 n 0 0 rest (omega arith) (omega arith) (omega arith) (inl refl))

-- A number that was read from bytes fits 32 bits, and the input began with its one encoding.
pub uleb128_canonical :
    (inp : List ℕ) {n : ℕ} {rest : List ℕ}
    → All IsByte inp
    → deserialize_uleb128_as_u32 inp ≡ ok (n, rest)
    → (n ≤ max_u32) × (inp ≡ serialize_u32_as_uleb128 n ++ rest)
unfolding deserialize_uleb128_as_u32
uleb128_canonical inp {n} {rest} b e =
    let (w, ev, front, le, top) = rounds_canonical 5 0 0 inp b (omega arith) e in
    let same : n ≡ w = omega (arith, ev) in (le, cc (front, same))

-- A length that was read is in range, and the input began with its one encoding.
pub deserialize_len_canonical :
    (inp : List ℕ) {n : ℕ} {rest : List ℕ}
    → All IsByte inp
    → deserialize_len inp ≡ ok (n, rest)
    → (n ≤ max_length) × (inp ≡ serialize_u32_as_uleb128 n ++ rest)
unfolding deserialize_len
deserialize_len_canonical inp {n} {rest} b e =
    let (k, left, read_k, kept) =
      >>=-eq-ok deserialize_uleb128_as_u32
        (λ value.
          if ltb max_length value then raise DeserializationFault.length_too_big else pure value)
        inp e in
    let (le, front) = uleb128_canonical inp b read_k in ground arith

pub serialize_variant_index-eq-ok :
    (n : ℕ) → n ≤ max_u32 → serialize_variant_index n ≡ ok (serialize_u32_as_uleb128 n)
unfolding serialize_variant_index
serialize_variant_index-eq-ok n h = ground arith

pub deserialize_variant_index-serialize :
    (n : ℕ) (rest : List ℕ)
    → n ≤ max_u32
    → deserialize_variant_index (serialize_u32_as_uleb128 n ++ rest) ≡ ok (n, rest)
unfolding deserialize_variant_index deserialize_uleb128_as_u32
deserialize_variant_index-serialize n rest h =
    ground (arith, rounds-uleb128 4 n 0 0 rest (omega arith) (omega arith) (omega arith) (inl refl))

pub deserialize_variant_index_canonical :
    (inp : List ℕ) {n : ℕ} {rest : List ℕ}
    → All IsByte inp
    → deserialize_variant_index inp ≡ ok (n, rest)
    → (n ≤ max_u32) × (inp ≡ serialize_u32_as_uleb128 n ++ rest)
unfolding deserialize_variant_index
deserialize_variant_index_canonical inp b e = uleb128_canonical inp b e

uleb128_bounded : (k n : ℕ) → n < k → All IsByte (serialize_u32_as_uleb128 n)
uleb128_bounded zero n h = absurd (omega arith)
uleb128_bounded (suc k) n h = elim (dec_lt n 128) [
  | yes last ↦ rw (uleb128_last n last) (omega arith, tt)
  | no more ↦
      rw (uleb128_more n (omega arith)) (omega arith, uleb128_bounded k (n / 128) (omega arith))
]

pub uleb128-IsByte : (n : ℕ) → All IsByte (serialize_u32_as_uleb128 n)
uleb128-IsByte n = uleb128_bounded (suc n) n (omega arith)
