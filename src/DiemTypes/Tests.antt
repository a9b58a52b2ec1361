-- ===== src/DiemTypes/Tests.antt =====
-- The codec of diem_types on the metadata of a payment between subaddresses.
use client_sdk_python.Base.{ℕ, ◌≡◌, refl, List, [], ◌∷◌, All, IsByte, ok, inl, inr, arith}
use client_sdk_python.Bcs.Ascii.{ascii, ascii-laws}
use client_sdk_python.Bcs.Types.{
  Value, formats, named, null, bytestring, object, variant, nil, cons,
}
use client_sdk_python.Bcs.Fits.{FitsClass}
use client_sdk_python.Bcs.Parser.{read}
use client_sdk_python.Bcs.Words.{from_le}
use client_sdk_python.Bcs.Uleb.Decode.{
  deserialize_uleb128_as_u32, deserialize_len, deserialize_variant_index, uleb128_rounds,
}
use client_sdk_python.Bcs.Deserializer.{
  bcs_deserialize, deserialize, deserialize_any, deserialize_class, deserialize_container,
  deserialize_format, deserialize_primitive, deserialize_bytes,
}
use client_sdk_python.DiemTypes.Classes.{diem_types}
use client_sdk_python.DiemTypes.Codec.{
  bcs_serialize, deserialize_exactly, IsInstance, bcs_deserialize_canonical,
}

-- `Metadata__GeneralMetadata(GeneralMetadata__GeneralMetadataVersion0(GeneralMetadataV0(...)))` with a
-- recipient's subaddress only.
abbrev subaddress : List ℕ
subaddress = 1 ∷ 2 ∷ 3 ∷ 4 ∷ 5 ∷ 6 ∷ 7 ∷ 8 ∷ []

abbrev general_v0 : Value
general_v0 = object "GeneralMetadataV0" (cons (bytestring subaddress) (cons null (cons null nil)))

abbrev example_metadata : Value
example_metadata =
    variant "Metadata" 1 (cons (variant "GeneralMetadata" 0 (cons general_v0 nil)) nil)

abbrev example_bytes : List ℕ
example_bytes = 1 ∷ 0 ∷ 1 ∷ 8 ∷ 1 ∷ 2 ∷ 3 ∷ 4 ∷ 5 ∷ 6 ∷ 7 ∷ 8 ∷ 0 ∷ 0 ∷ []

example-IsInstance : IsInstance ascii "Metadata" example_metadata
unfolding FitsClass diem_types
example-IsInstance = (
  1,
  formats (named "GeneralMetadata" ∷ []),
  cons (variant "GeneralMetadata" 0 (cons general_v0 nil)) nil,
  refl,
  refl,
  omega arith,
  (
    (
      0,
      formats (named "GeneralMetadataV0" ∷ []),
      cons general_v0 nil,
      refl,
      refl,
      omega arith,
      (
        (
          cons (bytestring subaddress) (cons null (cons null nil)),
          refl,
          (inr (refl, (subaddress, refl, ground arith, omega arith)), (inl refl, (inl refl, tt))),
        ),
        tt,
      ),
    ),
    tt,
  ),
)

example_read : deserialize_exactly ascii "Metadata" example_bytes ≡ ok example_metadata
unfolding deserialize_exactly bcs_deserialize deserialize deserialize_any deserialize_class
    deserialize_container deserialize_format deserialize_primitive deserialize_bytes deserialize_len
    deserialize_variant_index deserialize_uleb128_as_u32 uleb128_rounds from_le read diem_types
example_read = refl

example_bytes-IsByte : All IsByte example_bytes
example_bytes-IsByte = ground arith

bcs_deserialize_canonical_example :
    IsInstance ascii "Metadata" example_metadata
    × (bcs_serialize ascii "Metadata" example_metadata ≡ ok example_bytes)
bcs_deserialize_canonical_example =
    bcs_deserialize_canonical ascii "Metadata" example_bytes example_metadata ascii-laws
      example_bytes-IsByte example_read
