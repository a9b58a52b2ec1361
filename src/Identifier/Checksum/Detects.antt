-- ===== src/Identifier/Checksum/Detects.antt =====
-- No single wrong value verifies.
use client_sdk_python.Base.{
  ℕ, zero, suc, ◌*◌, ◌/◌, ◌%◌, ◌^◌, ◌<◌, ◌≡◌, ◌≢◌, refl, sym, ap, ◌∙◌, true, false, List, [], ◌∷◌,
  ◌++◌, All, ◌==◌, ==_iff, ltb, length, arith, bit_xor, append_assoc, Bool-cases, inl, inr, ◌||◌,
  replicate,
}
use client_sdk_python.Base.Bits.{all_below, all_below_sound}
use client_sdk_python.Base.Bits.Xor.{
  bit_xor-zero, zero-bit_xor, bit_xor_self, bit_xor_assoc, bit_xor-lt,
}
use client_sdk_python.Identifier.Checksum.{
  polymod_step, polymod_from, bech32_polymod, bech32_hrp_expand, bech32_verify_checksum,
}
use client_sdk_python.Identifier.Checksum.Linear.{
  feedback, polymod_step_lem, IsChecksum, polymod_step-IsChecksum, polymod_from-append,
  polymod_from_linear, zip_xor,
}
use client_sdk_python.Identifier.Checksum.Create.{
  IsDigit, IsHrpChar, digits-IsChecksum, small_step, prefix-IsChecksum,
}

eq_of_xor : (a b : ℕ) → bit_xor a b ≡ 0 → a ≡ b
eq_of_xor a b e =
    sym (bit_xor-zero a)
    ∙ ap (bit_xor a) (sym (bit_xor_self b))
    ∙ sym (bit_xor_assoc a b b)
    ∙ ap (λ t. bit_xor t b) e
    ∙ zero-bit_xor b

kernel_table : all_below 32 (λ t. (t == 0) || ltb 0 (feedback t % 32)) ≡ true
unfolding all_below
kernel_table = refl

-- A round on the value zero takes no checksum but zero to zero.
step_kernel : (d : ℕ) → IsChecksum d → polymod_step d 0 ≡ 0 → d ≡ 0
step_kernel d h e =
    let top : ℕ = d / 2 ^ 25 in
    let shifted : ℕ = d % 2 ^ 25 * 2 ^ 5 in
    let top_small : top < 32 = omega arith in
    let same : shifted ≡ feedback top = eq_of_xor shifted (feedback top) (
      sym (ap (λ t. bit_xor t (feedback top)) (bit_xor-zero shifted))
      ∙ sym (polymod_step_lem d 0)
      ∙ e) in
    let row =
      all_below_sound (λ t. (t == 0) || ltb 0 (feedback t % 32)) 32 top top_small kernel_table in
    let low : feedback top % 32 ≡ 0 = omega (arith, same) in
    let none : top ≡ 0 = ground (arith, row, low) in
    let flat : feedback top ≡ 0 = ap feedback none in omega (arith, same, flat, none)

zeros_kernel : (n d : ℕ) → IsChecksum d → polymod_from d (replicate n 0) ≡ 0 → d ≡ 0
unfolding polymod_from
zeros_kernel zero d h e = e
zeros_kernel (suc n) d h e =
    step_kernel d h
      (zeros_kernel n (polymod_step d 0) (polymod_step-IsChecksum d 0 h (omega arith)) e)

zip_xor_same : (vs : List ℕ) → zip_xor vs vs ≡ replicate (length vs) 0
zip_xor_same [] = refl
zip_xor_same (v ∷ vs) = rw (bit_xor_self v, zip_xor_same vs)

-- Two values before the same rest that give one checksum are one value.
same_checksum :
    (c v w : ℕ) (after : List ℕ)
    → IsChecksum c
    → v < 32
    → w < 32
    → All IsDigit after
    → polymod_from c (v ∷ after) ≡ polymod_from c (w ∷ after)
    → v ≡ w
unfolding polymod_from
same_checksum c v w after hc hv hw ha e =
    let digits = digits-IsChecksum after ha in
    let both : polymod_from (bit_xor c c) (zip_xor (v ∷ after) (w ∷ after)) ≡ 0 =
      polymod_from_linear c c (v ∷ after) (w ∷ after) refl hc hc (omega arith, digits)
        (omega arith, digits)
      ∙ ap (bit_xor (polymod_from c (v ∷ after))) (sym e)
      ∙ bit_xor_self (polymod_from c (v ∷ after)) in
    let difference = bit_xor v w in
    let short : difference < 32 = bit_xor-lt 5 v w hv hw in
    let alone : polymod_step 0 difference ≡ difference =
      small_step 0 difference (omega arith) short ∙ omega arith in
    let rest : polymod_from difference (replicate (length after) 0) ≡ 0 =
      ap (λ t. polymod_from t (replicate (length after) 0)) (sym alone)
      ∙ ap (polymod_from (polymod_step 0 difference)) (sym (zip_xor_same after))
      ∙ ap (λ t. polymod_from (polymod_step t difference) (zip_xor after after))
          (sym (bit_xor_self c))
      ∙ both in
    eq_of_xor v w (zeros_kernel (length after) difference (omega arith) rest)

-- The whole checksum, by what comes before a value.
split_checksum :
    (hrp before tail : List ℕ)
    → polymod_from 1 (bech32_hrp_expand hrp ++ (before ++ tail))
      ≡ polymod_from (polymod_from 1 (bech32_hrp_expand hrp ++ before)) tail
split_checksum hrp before tail =
    ap (polymod_from 1) (sym (append_assoc (bech32_hrp_expand hrp) before tail))
    ∙ polymod_from-append 1 (bech32_hrp_expand hrp ++ before) tail

-- Values of five bits that verify under a prefix of characters below 1024 do not verify with one
-- value changed to another of five bits.
pub verify_checksum_single :
    (hrp before : List ℕ) (v w : ℕ) (after : List ℕ)
    → All IsHrpChar hrp
    → All IsDigit before
    → All IsDigit after
    → v < 32
    → w < 32
    → v ≢ w
    → bech32_verify_checksum hrp (before ++ (v ∷ after)) ≡ true
    → bech32_verify_checksum hrp (before ++ (w ∷ after)) ≡ false
unfolding bech32_verify_checksum bech32_polymod
verify_checksum_single hrp before v w after hh hb ha hv hw apart good =
    elim (Bool-cases (polymod_from 1 (bech32_hrp_expand hrp ++ (before ++ (w ∷ after))) == 1)) [
      | inr other ↦ other
      | inl same ↦
          let left =
            (==_iff (polymod_from 1 (bech32_hrp_expand hrp ++ (before ++ (v ∷ after)))) 1).0 good in
          let right =
            (==_iff (polymod_from 1 (bech32_hrp_expand hrp ++ (before ++ (w ∷ after)))) 1).0 same in
          let c = polymod_from 1 (bech32_hrp_expand hrp ++ before) in
          absurd (
            apart (
              same_checksum c v w after (prefix-IsChecksum hrp before hh hb) hv hw ha (
                sym (split_checksum hrp before (v ∷ after))
                ∙ left
                ∙ sym right
                ∙ split_checksum hrp before (w ∷ after))))
    ]
