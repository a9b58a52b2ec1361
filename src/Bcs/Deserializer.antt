-- ===== src/Bcs/Deserializer.antt =====
-- `BinaryDeserializer` and `BcsDeserializer`.
use client_sdk_python.Base.{
  ℕ, zero, suc, ◌-◌, ◌/◌, ◌%◌, ◌^◌, String, none, some, true, false, List, [], ◌∷◌, if◌then◌else◌,
  ◌==◌, get_elem?, Outcome, ok, err,
}
use client_sdk_python.Base.Int.{ℤ, pos, negsuc}
use client_sdk_python.Bcs.Error.{
  Error, deserialization_error, not_implemented, DeserializationFault, unexpected_bool,
  invalid_unicode, wrong_option_tag, unexpected_variant_index, not_fully_read,
}
use client_sdk_python.Bcs.Parser.{Parser, ◌>>=◌, pure, raise, read}
use client_sdk_python.Bcs.Words.{from_le, from_le_signed}
use client_sdk_python.Bcs.Uleb.Decode.{deserialize_len, deserialize_variant_index}
use client_sdk_python.Bcs.Serializer.{max_container_depth}
use client_sdk_python.Bcs.Types.{
  Primitive, Format, Formats, Container, Registry, Value, Values, Utf8, prim, sequence, tuple,
  optional, named, struct, enum, opaque, null, boolean, int, wide, text, bytestring, items,
  tuple_of, object, variant, nil, cons,
}

-- The words that `uint128` and `int128` keep: `num >> 64` and `num & 0xFFFFFFFFFFFFFFFF`.
unfoldable pub words_of_int : ℤ → Value
words_of_int (pos n) = wide (pos (n / 2 ^ 64)) (n % 2 ^ 64)
words_of_int (negsuc n) = wide (negsuc (n / 2 ^ 64)) (2 ^ 64 - 1 - n % 2 ^ 64)

unfoldable pub deserialize_bytes : Parser (List ℕ)
deserialize_bytes = do n ← deserialize_len; read n

unfoldable pub deserialize_str : Utf8 → Parser Value
deserialize_str utf8 = do
  content ← deserialize_bytes
  elim (utf8.decode content) [ none ↦ raise invalid_unicode | some s ↦ pure (text s) ]

unfoldable pub deserialize_bool : Parser Value
deserialize_bool = do
  bs ← read 1
  let b = from_le bs
  if b == 0
      then pure (boolean false)
      else if b == 1
      then pure (boolean true)
      else raise unexpected_bool

unfoldable pub deserialize_unsigned : ℕ → Parser Value
deserialize_unsigned size = do bs ← read size; pure (int (pos (from_le bs)))

unfoldable pub deserialize_signed : ℕ → Parser Value
deserialize_signed size = do bs ← read size; pure (int (from_le_signed bs))

unfoldable pub deserialize_u128 : Parser Value
deserialize_u128 = do bs ← read 16; pure (words_of_int (pos (from_le bs)))

unfoldable pub deserialize_i128 : Parser Value
deserialize_i128 = do bs ← read 16; pure (words_of_int (from_le_signed bs))

-- The methods that `primitive_type_deserializer` holds.
unfoldable pub deserialize_primitive : Utf8 → Primitive → Parser Value
deserialize_primitive utf8 Primitive.bool = deserialize_bool
deserialize_primitive utf8 Primitive.uint8 = deserialize_unsigned 1
deserialize_primitive utf8 Primitive.uint16 = deserialize_unsigned 2
deserialize_primitive utf8 Primitive.uint32 = deserialize_unsigned 4
deserialize_primitive utf8 Primitive.uint64 = deserialize_unsigned 8
deserialize_primitive utf8 Primitive.uint128 = deserialize_u128
deserialize_primitive utf8 Primitive.int8 = deserialize_signed 1
deserialize_primitive utf8 Primitive.int16 = deserialize_signed 2
deserialize_primitive utf8 Primitive.int32 = deserialize_signed 4
deserialize_primitive utf8 Primitive.int64 = deserialize_signed 8
deserialize_primitive utf8 Primitive.int128 = deserialize_i128
deserialize_primitive utf8 Primitive.float32 = λ inp. err not_implemented
deserialize_primitive utf8 Primitive.float64 = λ inp. err not_implemented
deserialize_primitive utf8 Primitive.unit = pure null
deserialize_primitive utf8 Primitive.char = λ inp. err not_implemented
deserialize_primitive utf8 Primitive.str = deserialize_str utf8
deserialize_primitive utf8 Primitive.bytes = deserialize_bytes >>= λ bs. pure (bytestring bs)

-- `for i in range(0, length): result.append(self.deserialize_any(item_type))`
unfoldable pub deserialize_each : Parser Value → ℕ → Parser Values
deserialize_each item zero = pure nil
deserialize_each item (suc n) = do v ← item; vs ← deserialize_each item n; pure (cons v vs)

-- `call` is `deserialize_any` at a class.
module _ (utf8 : Utf8) (call : String → Parser Value) where
  unfoldable mutual
    pub deserialize_format : Format → Parser Value
    deserialize_format (prim p) = deserialize_primitive utf8 p
    deserialize_format (sequence f) = do
      n ← deserialize_len
      vs ← deserialize_each (deserialize_format f) n
      pure (items vs)
    deserialize_format (tuple fs) = do vs ← deserialize_fields fs; pure (tuple_of vs)
    deserialize_format (optional f) = do
      bs ← read 1
      let tag = from_le bs
      if tag == 0
          then pure null
          else if tag == 1
          then deserialize_format f
          else raise wrong_option_tag
    deserialize_format (named c) = call c

    -- The loops over the types of a tuple, and of the fields of a dataclass.
    pub deserialize_fields : Formats → Parser Values
    deserialize_fields nil = pure nil
    deserialize_fields (cons f fs) = do
      v ← deserialize_format f
      vs ← deserialize_fields fs
      pure (cons v vs)

-- `call` reads the fields of an instance, one level deeper.
unfoldable pub deserialize_container : (Formats → Parser Values) → String → Container → Parser Value
deserialize_container call c (struct fs) = do vs ← call fs; pure (object c vs)
deserialize_container call c (enum variants) = do
  index ← deserialize_variant_index
  elim (get_elem? variants index) [
    | none ↦ raise unexpected_variant_index
    | some fs ↦ call fs >>= λ vs. pure (variant c index vs)
  ]
deserialize_container call c opaque = raise DeserializationFault.unexpected_type

-- The number is `container_depth_budget`, as for `serialize_class`.
unfoldable pub deserialize_class : Utf8 → Registry → ℕ → String → Parser Value
deserialize_class utf8 registry zero c =
    deserialize_container (λ fs. raise DeserializationFault.depth_exceeded) c (registry c)
deserialize_class utf8 registry (suc budget) c =
    deserialize_container (deserialize_fields utf8 (deserialize_class utf8 registry budget)) c
      (registry c)

unfoldable pub deserialize_any : Utf8 → Registry → ℕ → Format → Parser Value
deserialize_any utf8 registry budget =
    deserialize_format utf8 (deserialize_class utf8 registry budget)

-- `bcs.deserialize`: the value and the bytes that were not read.
unfoldable pub deserialize : Utf8 → Registry → Format → Parser Value
deserialize utf8 registry obj_type = deserialize_any utf8 registry max_container_depth obj_type

-- `if buffer: raise`: nothing may be left.
abbrev pub fully_read : Outcome Error (Value × List ℕ) → Outcome Error Value
fully_read (ok (v, [])) = ok v
fully_read (ok (v, b ∷ bs)) = err (deserialization_error not_fully_read)
fully_read (err e) = err e

-- The `bcs_deserialize` of a class of diem_types.
unfoldable pub bcs_deserialize : Utf8 → Registry → String → List ℕ → Outcome Error Value
bcs_deserialize utf8 registry c input = fully_read (deserialize utf8 registry (named c) input)
