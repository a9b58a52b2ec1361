-- ===== src/Identifier/Checksum/Linear.antt =====
-- The checksum is linear: its rounds commute with exclusive or, and six values below 32 that follow
-- zero are its digits.
use client_sdk_python.Base.{
  ℕ, suc, ◌*◌, ◌/◌, ◌%◌, ◌^◌, ◌<◌, ◌≡◌, refl, sym, ap, ◌∙◌, true, List, [], ◌∷◌, ◌++◌, All,
  if◌then◌else◌, ◌==◌, ==_iff, ltb, ltb→lt, length, arith, bit_and, bit_xor,
}
use client_sdk_python.Base.Bits.{all_below, all_below_sound, bit_and_mask}
use client_sdk_python.Base.Bits.Xor.{
  bit_xor-zero, zero-bit_xor, bit_xor_assoc, bit_xor_swap, bit_xor_shr, bit_xor_shl, bit_xor_mod,
  bit_xor-lt,
}
use client_sdk_python.Identifier.Checksum.{generator, add_generators, polymod_step, polymod_from}

-- What the high bits contribute.
abbrev pub feedback : ℕ → ℕ
feedback top = add_generators top 0 generator 0

add_generators_out :
    (top i : ℕ) (gs : List ℕ) (chk : ℕ)
    → add_generators top i gs chk ≡ bit_xor chk (add_generators top i gs 0)
add_generators_out top i [] chk = sym (bit_xor-zero chk)
add_generators_out top i (g ∷ gs) chk =
    let term = if bit_and (top / 2 ^ i) 1 == 0 then 0 else g in
    let rest = add_generators top (suc i) gs in
    add_generators_out top (suc i) gs (bit_xor chk term)
    ∙ bit_xor_assoc chk term (rest 0)
    ∙ ap (bit_xor chk) (sym (ap rest (zero-bit_xor term) ∙ add_generators_out top (suc i) gs term))

-- A round, by its low bits, the value and the feedback.
pub polymod_step_lem :
    (chk value : ℕ)
    → polymod_step chk value
      ≡ bit_xor (bit_xor (chk % 2 ^ 25 * 2 ^ 5) value) (feedback (chk / 2 ^ 25))
unfolding polymod_step
polymod_step_lem chk value =
    add_generators_out (chk / 2 ^ 25) 0 generator _
    ∙ ap (λ t. bit_xor (bit_xor (t * 2 ^ 5) value) (feedback (chk / 2 ^ 25))) (bit_and_mask 25 chk)

feedback_table :
    all_below 32
      (λ a. all_below 32 (λ b. feedback (bit_xor a b) == bit_xor (feedback a) (feedback b)))
    ≡ true
unfolding all_below
feedback_table = refl

bound_table : all_below 32 (λ t. ltb (feedback t) (2 ^ 30)) ≡ true
unfolding all_below
bound_table = refl

feedback_linear :
    (a b : ℕ) → a < 32 → b < 32 → feedback (bit_xor a b) ≡ bit_xor (feedback a) (feedback b)
feedback_linear a b ha hb =
    let row =
      all_below_sound
        (λ a. all_below 32 (λ b. feedback (bit_xor a b) == bit_xor (feedback a) (feedback b))) 32 a
        ha feedback_table in
    (==_iff (feedback (bit_xor a b)) (bit_xor (feedback a) (feedback b))).0 (
      all_below_sound (λ b. feedback (bit_xor a b) == bit_xor (feedback a) (feedback b)) 32 b hb
        row)

-- A checksum has 30 bits.
abbrev pub IsChecksum : ℕ → Type 0
IsChecksum chk = chk < 2 ^ 30

high-lt : (a : ℕ) → IsChecksum a → a / 2 ^ 25 < 32
high-lt a h = omega arith

-- The bits that a round shifts.
shifted_linear :
    (a b : ℕ) → bit_xor a b % 2 ^ 25 * 2 ^ 5 ≡ bit_xor (a % 2 ^ 25 * 2 ^ 5) (b % 2 ^ 25 * 2 ^ 5)
shifted_linear a b =
    ap (λ (t : ℕ). t * 2 ^ 5) (bit_xor_mod 25 a b) ∙ sym (bit_xor_shl 5 (a % 2 ^ 25) (b % 2 ^ 25))

-- A round is linear.
pub polymod_step_linear :
    (a b v w : ℕ)
    → IsChecksum a
    → IsChecksum b
    → polymod_step (bit_xor a b) (bit_xor v w) ≡ bit_xor (polymod_step a v) (polymod_step b w)
polymod_step_linear a b v w ha hb =
    let sa = a % 2 ^ 25 * 2 ^ 5 in
    let sb = b % 2 ^ 25 * 2 ^ 5 in
    let fa = feedback (a / 2 ^ 25) in
    let fb = feedback (b / 2 ^ 25) in
    let fed : feedback (bit_xor a b / 2 ^ 25) ≡ bit_xor fa fb =
      ap feedback (bit_xor_shr 25 a b)
      ∙ feedback_linear (a / 2 ^ 25) (b / 2 ^ 25) (high-lt a ha) (high-lt b hb) in
    polymod_step_lem (bit_xor a b) (bit_xor v w)
    ∙ ap (λ t. bit_xor (bit_xor t (bit_xor v w)) (feedback (bit_xor a b / 2 ^ 25)))
        (shifted_linear a b)
    ∙ ap (bit_xor (bit_xor (bit_xor sa sb) (bit_xor v w))) fed
    ∙ ap (λ t. bit_xor t (bit_xor fa fb)) (bit_xor_swap sa sb v w)
    ∙ bit_xor_swap (bit_xor sa v) (bit_xor sb w) fa fb
    ∙ sym (
        ap (λ t. bit_xor t (polymod_step b w)) (polymod_step_lem a v)
        ∙ ap (bit_xor (bit_xor (bit_xor sa v) fa)) (polymod_step_lem b w))

feedback_bound : (top : ℕ) → top < 32 → feedback top < 2 ^ 30
feedback_bound top h =
    ltb→lt (feedback top) (2 ^ 30)
      (all_below_sound (λ t. ltb (feedback t) (2 ^ 30)) 32 top h bound_table)

-- Values are below 32, or at least as short as a checksum.
pub polymod_step-IsChecksum :
    (chk value : ℕ) → IsChecksum chk → IsChecksum value → IsChecksum (polymod_step chk value)
polymod_step-IsChecksum chk value h small =
    let shifted : chk % 2 ^ 25 * 2 ^ 5 < 2 ^ 30 = omega arith in
    let fed = feedback_bound (chk / 2 ^ 25) (high-lt chk h) in
    rw (polymod_step_lem chk value) (bit_xor-lt 30 _ _ (bit_xor-lt 30 _ value shifted small) fed)

pub polymod_from-IsChecksum :
    (chk : ℕ) (values : List ℕ)
    → IsChecksum chk
    → All IsChecksum values
    → IsChecksum (polymod_from chk values)
unfolding polymod_from
polymod_from-IsChecksum chk [] h vs = h
polymod_from-IsChecksum chk (v ∷ values) h vs =
    polymod_from-IsChecksum (polymod_step chk v) values (polymod_step-IsChecksum chk v h vs.0) vs.1

pub polymod_from-append :
    (chk : ℕ) (xs ys : List ℕ) → polymod_from chk (xs ++ ys) ≡ polymod_from (polymod_from chk xs) ys
unfolding polymod_from
polymod_from-append chk [] ys = refl
polymod_from-append chk (x ∷ xs) ys = polymod_from-append (polymod_step chk x) xs ys

-- The values of two lists of one length, by exclusive or.
abbrev pub zip_xor : List ℕ → List ℕ → List ℕ
zip_xor [] ws = []
zip_xor (v ∷ vs) [] = []
zip_xor (v ∷ vs) (w ∷ ws) = bit_xor v w ∷ zip_xor vs ws

pub polymod_from_linear :
    (a b : ℕ) (vs ws : List ℕ)
    → length vs ≡ length ws
    → IsChecksum a
    → IsChecksum b
    → All IsChecksum vs
    → All IsChecksum ws
    → polymod_from (bit_xor a b) (zip_xor vs ws) ≡ bit_xor (polymod_from a vs) (polymod_from b ws)
unfolding polymod_from
polymod_from_linear a b [] [] e ha hb hv hw = refl
polymod_from_linear a b [] (w ∷ ws) e ha hb hv hw = absurd (omega arith)
polymod_from_linear a b (v ∷ vs) [] e ha hb hv hw = absurd (omega arith)
polymod_from_linear a b (v ∷ vs) (w ∷ ws) e ha hb hv hw =
    ap (λ t. polymod_from t (zip_xor vs ws)) (polymod_step_linear a b v w ha hb)
    ∙ polymod_from_linear (polymod_step a v) (polymod_step b w) vs ws (omega (arith, e))
        (polymod_step-IsChecksum a v ha hv.0) (polymod_step-IsChecksum b w hb hw.0) hv.1 hw.1
