-- ===== src/Bcs/Uleb/Encode.antt =====
-- `BcsSerializer.serialize_u32_as_uleb128`, `serialize_len` and `serialize_variant_index`.
use client_sdk_python.Base.{
  ℕ, ◌+◌, ◌/◌, ◌%◌, ◌≤◌, ◌<◌, ◌≡◌, refl, ◌∙◌, List, [], ◌∷◌, arith, ltb, bit_and, bit_or, Outcome,
  ok, ◌>>◌, raise_if,
}
use client_sdk_python.Base.Order.{lt_wf}
use client_sdk_python.Base.Bits.{bit_or_top, bit_and_seven_bits}
use client_sdk_python.Bcs.Error.{Error, serialization_error, SerializationFault}
use mathlib.Core.Logic.{dite, dif_pos}
use mathlib.Core.WellFounded.{Acc, Acc-prop}
use native.Mathlib.Bridge.{le_prop}
use native.Mathlib.Decide.{dec_le}

abbrev pub max_length : ℕ
max_length = 2147483647

abbrev pub max_u32 : ℕ
max_u32 = 4294967295

pub shift_shrinks : (v : ℕ) → 128 ≤ v → v / 128 < v
shift_shrinks v h = omega arith

-- The `while value >= 0x80` loop; `value >>= 7` is `v / 128`.
uleb128_loop : (v : ℕ) → Acc ◌<◌ v → List ℕ
uleb128_loop v (Acc.intro _ smaller) =
    dite (dec_le 128 v)
      (λ more.
        bit_or (bit_and v 0x7F) 0x80 ∷ uleb128_loop (v / 128) (smaller _ (shift_shrinks v more)))
      (λ _. v ∷ [])

unfoldable pub serialize_u32_as_uleb128 : ℕ → List ℕ
unfolding uleb128_loop lt_wf dec_le
serialize_u32_as_uleb128 v = uleb128_loop v (lt_wf.apply v)

unfoldable pub serialize_len : ℕ → Outcome Error (List ℕ)
serialize_len v =
    raise_if (ltb max_length v) (serialization_error SerializationFault.length_too_big)
    >> ok (serialize_u32_as_uleb128 v)

unfoldable pub serialize_variant_index : ℕ → Outcome Error (List ℕ)
serialize_variant_index v =
    raise_if (ltb max_u32 v) (serialization_error SerializationFault.variant_index_too_big)
    >> ok (serialize_u32_as_uleb128 v)

uleb128_loop_last : (v : ℕ) (w : Acc ◌<◌ v) → v < 128 → uleb128_loop v w ≡ v ∷ []
unfolding uleb128_loop
uleb128_loop_last v (Acc.intro _ smaller) h = ground arith

-- The loop does not look at the proof that it ends.
uleb128_loop_more :
    (v : ℕ) (w : Acc ◌<◌ v) (w' : Acc ◌<◌ (v / 128))
    → 128 ≤ v
    → uleb128_loop v w ≡ bit_or (bit_and v 0x7F) 0x80 ∷ uleb128_loop (v / 128) w'
unfolding uleb128_loop
uleb128_loop_more v (Acc.intro _ smaller) w' h =
    rw (dif_pos _ le_prop h, Acc-prop (smaller (v / 128) (shift_shrinks v h)) w')

pub uleb128_last : (v : ℕ) → v < 128 → serialize_u32_as_uleb128 v ≡ v ∷ []
unfolding serialize_u32_as_uleb128
uleb128_last v h = uleb128_loop_last v (lt_wf.apply v) h

pub uleb128_more :
    (v : ℕ)
    → 128 ≤ v
    → serialize_u32_as_uleb128 v ≡ (v % 128 + 128) ∷ serialize_u32_as_uleb128 (v / 128)
unfolding serialize_u32_as_uleb128
uleb128_more v h =
    uleb128_loop_more v (lt_wf.apply v) (lt_wf.apply (v / 128)) h
    ∙ rw (bit_and_seven_bits v, bit_or_top (v % 128) (omega arith))

test_300 : serialize_u32_as_uleb128 300 ≡ 0xac ∷ 0x02 ∷ []
unfolding serialize_u32_as_uleb128
test_300 = refl
