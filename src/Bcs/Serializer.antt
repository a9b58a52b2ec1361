-- ===== src/Bcs/Serializer.antt =====
-- `BinarySerializer` and `BcsSerializer`. A method returns the bytes that it appends to the output;
-- an exception ends the whole call, so what was written before it is not seen.
use client_sdk_python.Base.{
  ℕ, zero, suc, ◌+◌, ◌-◌, ◌*◌, ◌^◌, String, str_eq, none, some, true, false, List, [], ◌∷◌, ◌++◌,
  if◌then◌else◌, length, get_elem?, Outcome, ok, err, ◌>>=◌,
}
use client_sdk_python.Base.Int.{ℤ, pos, negsuc}
use client_sdk_python.Bcs.Error.{
  Error, serialization_error, index_error, type_error, unicode_encode_error, not_implemented,
  unexpected_type, wrong_value, SerializationFault,
}
use client_sdk_python.Bcs.Words.{to_bytes, to_bytes_signed}
use client_sdk_python.Bcs.Uleb.Encode.{serialize_len, serialize_variant_index}
use client_sdk_python.Bcs.Types.{
  Primitive, Format, Formats, Container, Registry, Value, Values, Utf8, count, is_null, prim,
  sequence, tuple, optional, named, struct, enum, opaque, boolean, int, wide, text, bytestring,
  items, tuple_of, object, variant, nil, cons,
}

-- The integer of two 64-bit words: `(int(self.high) << 64) | int(self.low)`, with `low` a `uint64`.
unfoldable pub int_of_words : ℤ → ℕ → ℤ
int_of_words (pos high) low = pos (high * 2 ^ 64 + low)
int_of_words (negsuc high) low = negsuc ((high + 1) * 2 ^ 64 - low - 1)

-- `int(value)`; for a text or bytes, which `int` may parse, the model has an error.
unfoldable pub to_int : Value → Outcome Error ℤ
to_int (boolean true) = ok (pos 1)
to_int (boolean false) = ok (pos 0)
to_int (int n) = ok n
to_int (wide high low) = ok (int_of_words high low)
to_int _ = err type_error

unfoldable pub serialize_bytes : Value → Outcome Error (List ℕ)
serialize_bytes (bytestring bs) = do header ← serialize_len (length bs); ok (header ++ bs)
serialize_bytes _ = err type_error

unfoldable pub serialize_str : Utf8 → Value → Outcome Error (List ℕ)
unfolding serialize_bytes
serialize_str utf8 (text s) = elim (utf8.encode s) [
  | none ↦ err unicode_encode_error
  | some bs ↦ serialize_bytes (bytestring bs)
]
serialize_str utf8 _ = err type_error

-- `int(value).to_bytes(size, "little", signed=False)`, and with `signed=True`.
unfoldable pub serialize_unsigned : ℕ → Value → Outcome Error (List ℕ)
unfolding to_int
serialize_unsigned size v = do n ← to_int v; to_bytes size n

unfoldable pub serialize_signed : ℕ → Value → Outcome Error (List ℕ)
unfolding to_int
serialize_signed size v = do n ← to_int v; to_bytes_signed size n

-- The methods that `primitive_type_serializer` holds.
unfoldable pub serialize_primitive : Utf8 → Primitive → Value → Outcome Error (List ℕ)
serialize_primitive utf8 Primitive.bool v = serialize_unsigned 1 v
serialize_primitive utf8 Primitive.uint8 v = serialize_unsigned 1 v
serialize_primitive utf8 Primitive.uint16 v = serialize_unsigned 2 v
serialize_primitive utf8 Primitive.uint32 v = serialize_unsigned 4 v
serialize_primitive utf8 Primitive.uint64 v = serialize_unsigned 8 v
serialize_primitive utf8 Primitive.uint128 v = serialize_unsigned 16 v
serialize_primitive utf8 Primitive.int8 v = serialize_signed 1 v
serialize_primitive utf8 Primitive.int16 v = serialize_signed 2 v
serialize_primitive utf8 Primitive.int32 v = serialize_signed 4 v
serialize_primitive utf8 Primitive.int64 v = serialize_signed 8 v
serialize_primitive utf8 Primitive.int128 v = serialize_signed 16 v
serialize_primitive utf8 Primitive.float32 v = err not_implemented
serialize_primitive utf8 Primitive.float64 v = err not_implemented
serialize_primitive utf8 Primitive.unit v = ok []
serialize_primitive utf8 Primitive.char v = err not_implemented
serialize_primitive utf8 Primitive.str v = serialize_str utf8 v
serialize_primitive utf8 Primitive.bytes v = serialize_bytes v

-- The bytes of a Python `bytes` value, as indexing gives them.
abbrev pub byte_items : List ℕ → Values
byte_items [] = nil
byte_items (b ∷ bs) = cons (int (pos b)) (byte_items bs)

-- A Python list, tuple or `bytes`, as `len` and indexing see it.
unfoldable pub to_items : Value → Outcome Error Values
to_items (items vs) = ok vs
to_items (tuple_of vs) = ok vs
to_items (bytestring bs) = ok (byte_items bs)
to_items _ = err type_error

-- `for item in obj: self.serialize_any(item, item_type)`
unfoldable pub serialize_each : (Value → Outcome Error (List ℕ)) → Values → Outcome Error (List ℕ)
serialize_each write nil = ok []
serialize_each write (cons v vs) = do
  front ← write v
  back ← serialize_each write vs
  ok (front ++ back)

-- `call` is `serialize_any` at a class.
module _ (utf8 : Utf8) (call : String → Value → Outcome Error (List ℕ)) where
  unfoldable mutual
    unfolding to_items

    pub serialize_format : Format → Value → Outcome Error (List ℕ)
    serialize_format (prim p) v = serialize_primitive utf8 p v
    serialize_format (sequence f) v = do
      vs ← to_items v
      header ← serialize_len (count vs)
      body ← serialize_each (serialize_format f) vs
      ok (header ++ body)
    serialize_format (tuple fs) v = do vs ← to_items v; serialize_tuple fs vs
    serialize_format (optional f) v =
        let present = serialize_format f v >>= λ body. ok (1 ∷ body) in
        if is_null v then ok (0 ∷ []) else present
    serialize_format (named c) v = call c v

    -- `for i in range(len(obj)): self.serialize_any(obj[i], types[i])`
    pub serialize_tuple : Formats → Values → Outcome Error (List ℕ)
    serialize_tuple nil nil = ok []
    serialize_tuple nil (cons v vs) = err index_error
    serialize_tuple (cons f fs) nil = ok []
    serialize_tuple (cons f fs) (cons v vs) = do
      front ← serialize_format f v
      back ← serialize_tuple fs vs
      ok (front ++ back)

    -- `for field in fields`: an instance has a value for each field of its class.
    pub serialize_fields : Formats → Values → Outcome Error (List ℕ)
    serialize_fields nil vs = ok []
    serialize_fields (cons f fs) nil = err type_error
    serialize_fields (cons f fs) (cons v vs) = do
      front ← serialize_format f v
      back ← serialize_fields fs vs
      ok (front ++ back)

-- `call` writes the fields of an instance, one level deeper.
module _ (call : Formats → Values → Outcome Error (List ℕ)) where
  -- A dataclass: `isinstance(obj, obj_type)`, then the fields.
  unfoldable pub serialize_struct : String → Formats → Value → Outcome Error (List ℕ)
  serialize_struct c fs (object c' vs) =
      if str_eq c' c then call fs vs else err (serialization_error wrong_value)
  serialize_struct c fs _ = err (serialization_error wrong_value)

  -- An enum class: the index of the value's class, the class that `VARIANTS` has there, then as above.
  unfoldable pub serialize_enum : String → List Formats → Value → Outcome Error (List ℕ)
  serialize_enum c variants (variant c' index vs) = do
    header ← serialize_variant_index index
    fs ← elim (get_elem? variants index) [ none ↦ err index_error | some fs ↦ ok fs ]
    body ← if str_eq c' c then call fs vs else err (serialization_error wrong_value)
    ok (header ++ body)
  serialize_enum c variants _ = err (serialization_error wrong_value)

  unfoldable pub serialize_container : String → Container → Value → Outcome Error (List ℕ)
  unfolding serialize_struct serialize_enum
  serialize_container c (struct fs) v = serialize_struct c fs v
  serialize_container c (enum variants) v = serialize_enum c variants v
  serialize_container c opaque v = err (serialization_error unexpected_type)

-- `serialize_any` at a class. The number is `container_depth_budget`: `increase_container_depth` takes
-- one for the fields and raises at 0, and `decrease_container_depth` gives it back.
unfoldable pub serialize_class : Utf8 → Registry → ℕ → String → Value → Outcome Error (List ℕ)
serialize_class utf8 registry zero c v =
    serialize_container (λ fs vs. err (serialization_error SerializationFault.depth_exceeded)) c
      (registry c) v
serialize_class utf8 registry (suc budget) c v =
    serialize_container (serialize_fields utf8 (serialize_class utf8 registry budget)) c
      (registry c) v

unfoldable pub serialize_any : Utf8 → Registry → ℕ → Format → Value → Outcome Error (List ℕ)
serialize_any utf8 registry budget = serialize_format utf8 (serialize_class utf8 registry budget)

abbrev pub max_container_depth : ℕ
max_container_depth = 500

-- `bcs.serialize`
unfoldable pub serialize : Utf8 → Registry → Value → Format → Outcome Error (List ℕ)
serialize utf8 registry obj obj_type = serialize_any utf8 registry max_container_depth obj_type obj
