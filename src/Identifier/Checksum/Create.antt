-- ===== src/Identifier/Checksum/Create.antt =====
-- The checksum that is created verifies.
use client_sdk_python.Base.{
  ℕ, ◌+◌, ◌*◌, ◌/◌, ◌%◌, ◌^◌, ◌<◌, ◌≡◌, refl, sym, ap, ◌∙◌, true, List, [], ◌∷◌, ◌++◌, All, map,
  ==_iff, length, arith, bit_and, bit_xor, append_assoc, All-append, replicate,
}
use client_sdk_python.Base.Bits.{bit_and_mask}
use client_sdk_python.Base.Bits.Xor.{
  bit_xor-zero, zero-bit_xor, bit_xor_self, bit_xor_assoc, bit_xor_above, bit_xor-lt,
}
use client_sdk_python.Identifier.Checksum.{
  polymod_step, polymod_from, bech32_polymod, bech32_hrp_expand, bech32_verify_checksum,
  bech32_create_checksum, six_digits, six_zeros,
}
use client_sdk_python.Identifier.Checksum.Linear.{
  polymod_step_lem, IsChecksum, polymod_from-IsChecksum, polymod_from-append, polymod_from_linear,
  zip_xor,
}

-- A value of the alphabet.
abbrev pub IsDigit : ℕ → Type 0
IsDigit v = v < 32

-- A character whose expansion has digits only; every ASCII character is one.
abbrev pub IsHrpChar : ℕ → Type 0
IsHrpChar x = x < 1024

pub digits-IsChecksum : (vs : List ℕ) → All IsDigit vs → All IsChecksum vs
digits-IsChecksum [] h = tt
digits-IsChecksum (v ∷ vs) h = (omega arith, digits-IsChecksum vs h.1)

high_digits : (hrp : List ℕ) → All IsHrpChar hrp → All IsDigit (map (λ x. x / 2 ^ 5) hrp)
high_digits [] h = tt
high_digits (x ∷ hrp) h = (omega arith, high_digits hrp h.1)

low-IsDigit : (x : ℕ) → IsDigit (bit_and x 31)
low-IsDigit x = omega (arith, bit_and_mask 5 x)

low_digits : (hrp : List ℕ) → All IsDigit (map (λ x. bit_and x 31) hrp)
low_digits [] = tt
low_digits (x ∷ hrp) = (low-IsDigit x, low_digits hrp)

pub hrp_expand-digits : (hrp : List ℕ) → All IsHrpChar hrp → All IsDigit (bech32_hrp_expand hrp)
unfolding bech32_hrp_expand
hrp_expand-digits hrp h = All-append IsDigit _ _ (high_digits hrp h) (omega arith, low_digits hrp)

-- A round that has nothing to feed back.
pub small_step : (c v : ℕ) → c < 2 ^ 25 → v < 32 → polymod_step c v ≡ c * 2 ^ 5 + v
small_step c v hc hv =
    let low : c % 2 ^ 25 ≡ c = omega arith in
    let top : c / 2 ^ 25 ≡ 0 = omega arith in
    polymod_step_lem c v
    ∙ rw (low, top) (bit_xor-zero (bit_xor (c * 2 ^ 5) v) ∙ bit_xor_above 5 c v hv)

horner :
    (a b c d e f : ℕ)
    → IsDigit a
    → IsDigit b
    → IsDigit c
    → IsDigit d
    → IsDigit e
    → IsDigit f
    → polymod_from 0 (a ∷ b ∷ c ∷ d ∷ e ∷ f ∷ [])
      ≡ ((((a * 32 + b) * 32 + c) * 32 + d) * 32 + e) * 32 + f
unfolding polymod_from
horner a b c d e f ha hb hc hd he hf =
    let s1 : polymod_step 0 a ≡ a = small_step 0 a (omega arith) ha ∙ omega arith in
    let s2 = small_step a b (omega arith) hb in
    let s3 = small_step (a * 32 + b) c (omega arith) hc in
    let s4 = small_step ((a * 32 + b) * 32 + c) d (omega arith) hd in
    let s5 = small_step (((a * 32 + b) * 32 + c) * 32 + d) e (omega arith) he in
    let s6 = small_step ((((a * 32 + b) * 32 + c) * 32 + d) * 32 + e) f (omega arith) hf in
    rw (s1, s2, s3, s4, s5) s6

six_digits-digits : (q : ℕ) → All IsDigit (six_digits q)
six_digits-digits q = (
  low-IsDigit (q / 2 ^ 25),
  (
    low-IsDigit (q / 2 ^ 20),
    (
      low-IsDigit (q / 2 ^ 15),
      (low-IsDigit (q / 2 ^ 10), (low-IsDigit (q / 2 ^ 5), (low-IsDigit (q / 2 ^ 0), tt))),
    ),
  ),
)

pub create_checksum-IsDigit :
    (hrp values : List ℕ) → All IsDigit (bech32_create_checksum hrp values)
unfolding bech32_create_checksum
create_checksum-IsDigit hrp values = six_digits-digits _

pub length-create_checksum : (hrp values : List ℕ) → length (bech32_create_checksum hrp values) ≡ 6
unfolding bech32_create_checksum
length-create_checksum hrp values = refl

-- Six digits after zero are the number that they write.
six_digits_value : (p : ℕ) → IsChecksum p → polymod_from 0 (six_digits p) ≡ p
six_digits_value p h =
    horner (bit_and (p / 2 ^ 25) 31) (bit_and (p / 2 ^ 20) 31) (bit_and (p / 2 ^ 15) 31)
      (bit_and (p / 2 ^ 10) 31) (bit_and (p / 2 ^ 5) 31) (bit_and (p / 2 ^ 0) 31)
      (low-IsDigit (p / 2 ^ 25)) (low-IsDigit (p / 2 ^ 20)) (low-IsDigit (p / 2 ^ 15))
      (low-IsDigit (p / 2 ^ 10)) (low-IsDigit (p / 2 ^ 5)) (low-IsDigit (p / 2 ^ 0))
    ∙ omega (
      arith,
      bit_and_mask 5 (p / 2 ^ 25),
      bit_and_mask 5 (p / 2 ^ 20),
      bit_and_mask 5 (p / 2 ^ 15),
      bit_and_mask 5 (p / 2 ^ 10),
      bit_and_mask 5 (p / 2 ^ 5),
      bit_and_mask 5 (p / 2 ^ 0),
    )

pub zip_xor_zeros : (ds : List ℕ) → zip_xor (replicate (length ds) 0) ds ≡ ds
zip_xor_zeros [] = refl
zip_xor_zeros (d ∷ ds) = rw (zero-bit_xor d, zip_xor_zeros ds)

-- Six values that are the digits of the rest make the checksum 1.
create_core :
    (c : ℕ) → IsChecksum c → polymod_from c (six_digits (bit_xor (polymod_from c six_zeros) 1)) ≡ 1
create_core c h =
    let p = polymod_from c six_zeros in
    let small = polymod_from-IsChecksum c six_zeros h (omega arith) in
    let q = bit_xor p 1 in
    let short = bit_xor-lt 30 p 1 small (omega arith) in
    let digits = digits-IsChecksum (six_digits q) (six_digits-digits q) in
    ap (λ t. polymod_from t (six_digits q)) (sym (bit_xor-zero c))
    ∙ ap (polymod_from (bit_xor c 0)) (sym (zip_xor_zeros (six_digits q)))
    ∙ polymod_from_linear c 0 six_zeros (six_digits q) refl h (omega arith) (omega arith) digits
    ∙ ap (bit_xor p) (six_digits_value q short)
    ∙ sym (bit_xor_assoc p p 1)
    ∙ ap (λ t. bit_xor t 1) (bit_xor_self p)

pub prefix-IsChecksum :
    (hrp values : List ℕ)
    → All IsHrpChar hrp
    → All IsDigit values
    → IsChecksum (polymod_from 1 (bech32_hrp_expand hrp ++ values))
prefix-IsChecksum hrp values hh hv =
    let front = bech32_hrp_expand hrp ++ values in
    polymod_from-IsChecksum 1 front (omega arith) (
      digits-IsChecksum front
        (All-append IsDigit (bech32_hrp_expand hrp) values (hrp_expand-digits hrp hh) hv))

-- The checksum that is created for values of five bits under a prefix of characters below 1024
-- verifies.
pub verify-create_checksum :
    (hrp values : List ℕ)
    → All IsHrpChar hrp
    → All IsDigit values
    → bech32_verify_checksum hrp (values ++ bech32_create_checksum hrp values) ≡ true
unfolding bech32_verify_checksum bech32_create_checksum bech32_polymod
verify-create_checksum hrp values hh hv =
    let front = bech32_hrp_expand hrp ++ values in
    let c = polymod_from 1 front in
    let short = prefix-IsChecksum hrp values hh hv in
    let zeros = polymod_from-append 1 front six_zeros in
    (==_iff _ 1).1 (
      ap (polymod_from 1)
        (sym (append_assoc (bech32_hrp_expand hrp) values (bech32_create_checksum hrp values)))
      ∙ polymod_from-append 1 front (bech32_create_checksum hrp values)
      ∙ ap (λ t. polymod_from c (six_digits (bit_xor t 1))) zeros
      ∙ create_core c short)
