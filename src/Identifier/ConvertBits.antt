-- ===== src/Identifier/ConvertBits.antt =====
-- `_convertbits` of src/diem/identifier/bech32.py: a sequence of bits cut into groups of another size.
pub mod RoundTrip
pub mod Steps
use client_sdk_python.Base.{
  ℕ, zero, suc, ◌+◌, ◌-◌, ◌*◌, ◌/◌, ◌^◌, Bool, true, false, ◌||◌, not, Option, none, some, List, [],
  ◌∷◌, ◌++◌, if◌then◌else◌, ◌==◌, leb, bit_and, bit_or,
}

-- `while bits >= to_bits`: the groups that are complete and the bits that are left. `bits` rounds are
-- enough, since each round takes `to_bits` of them, which is not 0.
unfoldable pub drain : ℕ → ℕ → ℕ → ℕ → List ℕ × ℕ
drain zero to_bits acc bits = ([], bits)
drain (suc rounds) to_bits acc bits =
    let rest = drain rounds to_bits acc (bits - to_bits) in
    let group = bit_and (acc / 2 ^ (bits - to_bits)) (2 ^ to_bits - 1) in
    if leb to_bits bits then (group ∷ rest.0, rest.1) else ([], bits)

-- `((acc << from_bits) | value) & max_acc`
abbrev pub push : ℕ → ℕ → ℕ → ℕ → ℕ
push from_bits to_bits acc value =
    bit_and (bit_or (acc * 2 ^ from_bits) value) (2 ^ (from_bits + to_bits - 1) - 1)

-- `(acc << (to_bits - bits)) & maxv`
abbrev pub padded : ℕ → ℕ → ℕ → ℕ
padded to_bits acc bits = bit_and (acc * 2 ^ (to_bits - bits)) (2 ^ to_bits - 1)

-- What stands after the loop over the values.
unfoldable pub finish : ℕ → ℕ → Bool → ℕ → ℕ → Option (List ℕ)
finish from_bits to_bits true acc bits =
    some (if bits == 0 then [] else padded to_bits acc bits ∷ [])
finish from_bits to_bits false acc bits =
    if leb from_bits bits || not (padded to_bits acc bits == 0) then none else some []

-- The groups before the rest of the result.
abbrev pub before : List ℕ → Option (List ℕ) → Option (List ℕ)
before groups none = none
before groups (some rest) = some (groups ++ rest)

-- The loop over the values, with its variables `acc` and `bits`.
unfoldable pub convert_from : ℕ → ℕ → Bool → ℕ → ℕ → List ℕ → Option (List ℕ)
unfolding drain finish
convert_from from_bits to_bits pad acc bits [] = finish from_bits to_bits pad acc bits
convert_from from_bits to_bits pad acc bits (value ∷ values) =
    let acc' = push from_bits to_bits acc value in
    let (groups, left) = drain (bits + from_bits) to_bits acc' (bits + from_bits) in
    let rest = convert_from from_bits to_bits pad acc' left values in
    if value / 2 ^ from_bits == 0 then before groups rest else none

unfoldable pub convertbits : List ℕ → ℕ → ℕ → Bool → Option (List ℕ)
unfolding convert_from
convertbits values from_bits to_bits pad = convert_from from_bits to_bits pad 0 0 values
