-- ===== src/Bcs/Uleb/Decode.antt =====
-- `BcsDeserializer.deserialize_uleb128_as_u32`, `deserialize_len` and `deserialize_variant_index`.
use client_sdk_python.Base.{
  ℕ, zero, suc, ◌+◌, ◌*◌, ◌^◌, ◌≡◌, refl, ◌&&◌, [], ◌∷◌, ltb, ◌==◌, if◌then◌else◌, bit_and, bit_or,
  ok,
}
use client_sdk_python.Bcs.Error.{DeserializationFault, uleb_overflow, uleb_zero_digit}
use client_sdk_python.Bcs.Parser.{Parser, ◌>>=◌, pure, raise, read}
use client_sdk_python.Bcs.Words.{from_le}
use client_sdk_python.Bcs.Uleb.Encode.{max_length, max_u32}

-- `for shift in range(0, 32, 7)`, on the rounds left; `digit << shift` is `digit * 2 ^ shift`.
unfoldable pub uleb128_rounds : ℕ → ℕ → ℕ → Parser ℕ
uleb128_rounds zero shift value = raise uleb_overflow
uleb128_rounds (suc rounds) shift value = do
  bs ← read 1
  let byte = from_le bs
  let digit = bit_and byte 0x7F
  let value' = bit_or value (digit * 2 ^ shift)
  let more = uleb128_rounds rounds (shift + 7) value'
  if ltb max_u32 value'
      then raise uleb_overflow
      else if digit == byte
      then (if ltb 0 shift && (digit == 0) then raise uleb_zero_digit else pure value')
      else more

unfoldable pub deserialize_uleb128_as_u32 : Parser ℕ
unfolding uleb128_rounds
deserialize_uleb128_as_u32 = uleb128_rounds 5 0 0

unfoldable pub deserialize_len : Parser ℕ
deserialize_len = do
  value ← deserialize_uleb128_as_u32
  if ltb max_length value then raise DeserializationFault.length_too_big else pure value

unfoldable pub deserialize_variant_index : Parser ℕ
deserialize_variant_index = deserialize_uleb128_as_u32

test_300 : deserialize_uleb128_as_u32 (0xac ∷ 0x02 ∷ 7 ∷ []) ≡ ok (300, 7 ∷ [])
unfolding deserialize_uleb128_as_u32 read from_le
test_300 = refl
