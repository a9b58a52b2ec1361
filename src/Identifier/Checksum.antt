-- ===== src/Identifier/Checksum.antt =====
-- The Bech32 checksum: `_bech32_polymod`, `_bech32_hrp_expand`, `_bech32_verify_checksum` and
-- `_bech32_create_checksum` of src/diem/identifier/bech32.py. A text is the list of its code points.
pub mod Linear
pub mod Create
pub mod Detects
use client_sdk_python.Base.{
  ℕ, zero, suc, ◌+◌, ◌-◌, ◌*◌, ◌/◌, ◌^◌, Bool, List, [], ◌∷◌, ◌++◌, map, if◌then◌else◌, ◌==◌,
  bit_and, bit_xor,
}

abbrev pub generator : List ℕ
generator = 0x3B6A57B2 ∷ 0x26508E6D ∷ 0x1EA119FA ∷ 0x3D4233DD ∷ 0x2A1462B3 ∷ []

-- `for i in range(5): chk ^= generator[i] if ((top >> i) & 1) else 0`, from the generator `i` on.
abbrev pub add_generators : ℕ → ℕ → List ℕ → ℕ → ℕ
add_generators top i [] chk = chk
add_generators top i (g ∷ gs) chk =
    add_generators top (suc i) gs (bit_xor chk (if bit_and (top / 2 ^ i) 1 == 0 then 0 else g))

-- One round of the loop over the values.
unfoldable pub polymod_step : ℕ → ℕ → ℕ
polymod_step chk value =
    add_generators (chk / 2 ^ 25) 0 generator (bit_xor (bit_and chk 0x1FFFFFF * 2 ^ 5) value)

unfoldable pub polymod_from : ℕ → List ℕ → ℕ
polymod_from chk [] = chk
polymod_from chk (value ∷ values) = polymod_from (polymod_step chk value) values

unfoldable pub bech32_polymod : List ℕ → ℕ
unfolding polymod_from polymod_step
bech32_polymod values = polymod_from 1 values

unfoldable pub bech32_hrp_expand : List ℕ → List ℕ
bech32_hrp_expand hrp = map (λ x. x / 2 ^ 5) hrp ++ (0 ∷ map (λ x. bit_and x 31) hrp)

unfoldable pub bech32_verify_checksum : List ℕ → List ℕ → Bool
unfolding bech32_polymod bech32_hrp_expand
bech32_verify_checksum hrp values = bech32_polymod (bech32_hrp_expand hrp ++ values) == 1

-- `[(polymod >> 5 * (5 - i)) & 31 for i in range(6)]`
abbrev pub six_digits : ℕ → List ℕ
six_digits p =
    bit_and (p / 2 ^ 25) 31
    ∷ bit_and (p / 2 ^ 20) 31
    ∷ bit_and (p / 2 ^ 15) 31
    ∷ bit_and (p / 2 ^ 10) 31
    ∷ bit_and (p / 2 ^ 5) 31
    ∷ bit_and (p / 2 ^ 0) 31
    ∷ []

abbrev pub six_zeros : List ℕ
six_zeros = 0 ∷ 0 ∷ 0 ∷ 0 ∷ 0 ∷ 0 ∷ []

unfoldable pub bech32_create_checksum : List ℕ → List ℕ → List ℕ
unfolding bech32_polymod bech32_hrp_expand
bech32_create_checksum hrp values =
    six_digits (bit_xor (bech32_polymod ((bech32_hrp_expand hrp ++ values) ++ six_zeros)) 1)
