-- ===== src/TxnMetadata/RoundTrip.antt =====
-- What `decode_structure` finds in the metadata that the constructors write.
use client_sdk_python.Base.{
  subst, ℕ, ◌<◌, ◌^◌, ◌≡◌, refl, Option, List, [], ◌∷◌, All, IsByte, length, arith,
}
use client_sdk_python.Bcs.Types.{
  Utf8, Utf8Laws, formats, named, bytestring, tuple_of, object, variant, nil, cons,
}
use client_sdk_python.Bcs.Fits.{FitsClass}
use client_sdk_python.Bcs.Serializer.{
  byte_items, serialize, serialize_any, serialize_class, serialize_container, serialize_format,
}
use client_sdk_python.DiemTypes.Classes.{diem_types}
use client_sdk_python.DiemTypes.Codec.{bcs_serialize}
use client_sdk_python.TxnMetadata.{
  or_null, uint, metadata_of, metadata_structure, general_v0, if_truthy, general_metadata,
  payment_of, payment_metadata,
}
use client_sdk_python.TxnMetadata.Fields.{
  Carries, instance-Carries, IsShort, Given, optional_bytes, optional_uint, byte_items-Fit,
  bytes_attribute, event_attribute, or_null-bytestring, or_null-if_truthy,
}

-- The fields of the metadata fit, as the constructor makes them.
general_v0-Carries :
    (utf8 : Utf8) (from_subaddress to_subaddress : Option (List ℕ)) (referenced_event : Option ℕ)
    → Utf8Laws utf8
    → Given IsShort from_subaddress
    → Given IsShort to_subaddress
    → Given (λ n. n < 256 ^ 8) referenced_event
    → Carries utf8
        (general_metadata utf8 from_subaddress to_subaddress referenced_event)
        (general_v0 to_subaddress from_subaddress (if_truthy referenced_event))
unfolding general_metadata metadata_structure FitsClass diem_types
general_v0-Carries utf8 from_subaddress to_subaddress referenced_event laws hf ht he =
    let v = general_v0 to_subaddress from_subaddress (if_truthy referenced_event) in
    instance-Carries utf8 (metadata_of 1 "GeneralMetadata" v) v laws
      (
        1,
        formats (named "GeneralMetadata" ∷ []),
        cons (variant "GeneralMetadata" 0 (cons v nil)) nil,
        refl,
        refl,
        omega arith,
        (
          (
            0,
            formats (named "GeneralMetadataV0" ∷ []),
            cons v nil,
            refl,
            refl,
            omega arith,
            (
              (
                cons (or_null bytestring to_subaddress) (
                    cons (or_null bytestring from_subaddress)
                      (cons (or_null uint (if_truthy referenced_event)) nil)),
                refl,
                (
                  optional_bytes utf8 (FitsClass utf8 diem_types 497) to_subaddress ht,
                  (
                    optional_bytes utf8 (FitsClass utf8 diem_types 497) from_subaddress hf,
                    (optional_uint utf8 (FitsClass utf8 diem_types 497) referenced_event he, tt),
                  ),
                ),
              ),
              tt,
            ),
          ),
          tt,
        ),
      )
      refl

-- The metadata of a transfer carries, in this order, the subaddress to which and the subaddress from which
-- it goes, where they fit a field, and the referenced event, where it fits 64 bits; event 0 counts as none.
-- The UTF-8 codec keeps its laws, here and below.
pub decode_structure-general_metadata :
    (utf8 : Utf8) (from_subaddress to_subaddress : Option (List ℕ)) (referenced_event : Option ℕ)
    → Utf8Laws utf8
    → Given IsShort from_subaddress
    → Given IsShort to_subaddress
    → Given (λ n. n < 256 ^ 8) referenced_event
    → Carries utf8 (general_metadata utf8 from_subaddress to_subaddress referenced_event) (
        object "GeneralMetadataV0" (
          cons
            (bytes_attribute to_subaddress)
            (cons (bytes_attribute from_subaddress) (cons (event_attribute referenced_event) nil))))
decode_structure-general_metadata utf8 from_subaddress to_subaddress referenced_event laws hf ht
      he =
    subst
      (λ v. Carries utf8 (general_metadata utf8 from_subaddress to_subaddress referenced_event) v)
      (rw (
        or_null-bytestring to_subaddress,
        or_null-bytestring from_subaddress,
        or_null-if_truthy referenced_event,
      ))
      (general_v0-Carries utf8 from_subaddress to_subaddress referenced_event laws hf ht he)

-- Payment metadata carries the reference id: its 16 bytes become the items of a tuple.
pub decode_structure-payment_metadata :
    (utf8 : Utf8) (reference_id : List ℕ)
    → Utf8Laws utf8
    → All IsByte reference_id
    → length reference_id ≡ 16
    → Carries utf8
        (payment_metadata utf8 reference_id)
        (object "PaymentMetadataV0" (cons (tuple_of (byte_items reference_id)) nil))
unfolding payment_metadata metadata_structure FitsClass diem_types bcs_serialize serialize
    serialize_any serialize_class serialize_container serialize_format
decode_structure-payment_metadata utf8 id laws b sixteen =
    let v = object "PaymentMetadataV0" (cons (tuple_of (byte_items id)) nil) in
    instance-Carries utf8 (payment_of (tuple_of (byte_items id))) v laws
      (
        6,
        formats (named "PaymentMetadata" ∷ []),
        cons (variant "PaymentMetadata" 0 (cons v nil)) nil,
        refl,
        refl,
        omega arith,
        (
          (
            0,
            formats (named "PaymentMetadataV0" ∷ []),
            cons v nil,
            refl,
            refl,
            omega arith,
            (
              (
                cons (tuple_of (byte_items id)) nil,
                refl,
                (
                  (
                    byte_items id,
                    refl,
                    byte_items-Fit 16 utf8 (FitsClass utf8 diem_types 497) id sixteen b,
                  ),
                  tt,
                ),
              ),
              tt,
            ),
          ),
          tt,
        ),
      )
      refl
