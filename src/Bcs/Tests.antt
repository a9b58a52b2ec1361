-- ===== src/Bcs/Tests.antt =====
-- Runs of the serializers on concrete data, with a registry of two classes.
use client_sdk_python.Base.{ℕ, ◌≡◌, refl, String, All, IsByte, List, [], ◌∷◌, ◌++◌, ok, inl, arith}
use client_sdk_python.Bcs.Ascii.{ascii, ascii-laws}
use client_sdk_python.Base.Int.{negsuc}
use client_sdk_python.Bcs.Types.{
  Primitive, Container, Registry, Value, class_of, formats, prim, sequence, optional, named, struct,
  enum, null, int, text, items, object, variant, nil, cons,
}
use client_sdk_python.Bcs.Uleb.Encode.{
  serialize_u32_as_uleb128, serialize_len, serialize_variant_index,
}
use client_sdk_python.Bcs.Uleb.Decode.{
  deserialize_uleb128_as_u32, deserialize_len, deserialize_variant_index, uleb128_rounds,
}
use client_sdk_python.Bcs.Parser.{read}
use client_sdk_python.Bcs.Words.{le_bytes, from_le, from_le_signed, to_bytes_signed}
use client_sdk_python.Bcs.Serializer.{
  serialize_any, serialize_class, serialize_container, serialize_format, serialize_each,
  serialize_primitive, serialize_signed, serialize_str, serialize_bytes,
}
use client_sdk_python.Bcs.Deserializer.{
  deserialize_any, deserialize_class, deserialize_container, deserialize_format, deserialize_each,
  deserialize_primitive, deserialize_signed, deserialize_str, deserialize_bytes,
}
use client_sdk_python.Bcs.Fits.{Fits, FitsClass, IsPlainRegistry}
use client_sdk_python.Bcs.RoundTrip.Formats.{deserialize-serialize_any}
use client_sdk_python.Bcs.Canonical.Formats.{deserialize_any_canonical}
use client_sdk_python.DiemTypes.Classes.{class_of-IsPlain}

abbrev test_classes : List (String × Container)
test_classes =
    ("Point", struct (formats (prim Primitive.int8 ∷ optional (prim Primitive.uint16) ∷ [])))
    ∷ (
      "Shape",
      enum (formats [] ∷ formats (prim Primitive.str ∷ sequence (named "Point") ∷ []) ∷ []),
    )
    ∷ []

abbrev test_registry : Registry
test_registry = class_of test_classes

abbrev point : Value
point = object "Point" (cons (int (negsuc 1)) (cons null nil))

abbrev shape : Value
shape = variant "Shape" 1 (cons (text (72 ∷ 105 ∷ [])) (cons (items (cons point nil)) nil))

point-Fits : Fits ascii test_registry 2 (named "Point") point
unfolding FitsClass
point-Fits =
    (cons (int (negsuc 1)) (cons null nil), refl, ((negsuc 1, refl, omega arith), (inl refl, tt)))

shape-Fits : Fits ascii test_registry 3 (named "Shape") shape
unfolding FitsClass
shape-Fits = (
  1,
  formats (prim Primitive.str ∷ sequence (named "Point") ∷ []),
  cons (text (72 ∷ 105 ∷ [])) (cons (items (cons point nil)) nil),
  refl,
  refl,
  omega arith,
  (
    (72 ∷ 105 ∷ [], 72 ∷ 105 ∷ [], refl, refl, omega arith),
    ((cons point nil, refl, omega arith, (point-Fits, tt)), tt),
  ),
)

abbrev shape_bytes : List ℕ
shape_bytes = 1 ∷ 2 ∷ 72 ∷ 105 ∷ 1 ∷ 254 ∷ 0 ∷ []

-- The bytes of the value.
shape_written : serialize_any ascii test_registry 3 (named "Shape") shape ≡ ok shape_bytes
unfolding serialize_any serialize_class serialize_container serialize_format serialize_each
    serialize_primitive serialize_signed serialize_str serialize_bytes serialize_len
    serialize_variant_index serialize_u32_as_uleb128 to_bytes_signed le_bytes
shape_written = refl

shape_read : deserialize_any ascii test_registry 3 (named "Shape") shape_bytes ≡ ok (shape, [])
unfolding deserialize_any deserialize_class deserialize_container deserialize_format
    deserialize_each deserialize_primitive deserialize_signed deserialize_str deserialize_bytes
    deserialize_len deserialize_variant_index deserialize_uleb128_as_u32 uleb128_rounds
    from_le_signed from_le read
shape_read = refl

test_registry-IsPlain : IsPlainRegistry test_registry
test_registry-IsPlain = class_of-IsPlain test_classes (ground arith)

shape_bytes-IsByte : All IsByte shape_bytes
shape_bytes-IsByte = ground arith

deserialize-serialize_any_example :
    (bs : List ℕ) × (serialize_any ascii test_registry 3 (named "Shape") shape ≡ ok bs)
    × All IsByte bs
    × ((rest : List ℕ)
        → deserialize_any ascii test_registry 3 (named "Shape") (bs ++ rest) ≡ ok (shape, rest))
deserialize-serialize_any_example =
    deserialize-serialize_any ascii test_registry 3 (named "Shape") ascii-laws shape shape-Fits

deserialize_any_canonical_example :
    Fits ascii test_registry 3 (named "Shape") shape
    × (bs : List ℕ) × (serialize_any ascii test_registry 3 (named "Shape") shape ≡ ok bs)
    × (shape_bytes ≡ bs ++ [])
deserialize_any_canonical_example =
    deserialize_any_canonical ascii test_registry 3 (named "Shape") ascii-laws test_registry-IsPlain
      tt shape_bytes shape [] shape_bytes-IsByte shape_read
