-- ===== src/DiemTypes/Metadata.antt =====
-- The dataclasses and enums of src/diem/diem_types/__init__.py: the transaction metadata classes.
-- A dataclass is the types of its fields in order, an enum class the fields of its `VARIANTS`.
use client_sdk_python.Base.{[], ◌∷◌}
use client_sdk_python.Bcs.Types.{
  Container, Primitive, prim, sequence, tuple, optional, named, struct, enum, nil, formats, array,
}

abbrev pub coin_trade_metadata : Container
coin_trade_metadata = enum ((formats (named "CoinTradeMetadataV0" ∷ [])) ∷ [])

abbrev pub coin_trade_metadata_v0 : Container
coin_trade_metadata_v0 = struct (formats (sequence (prim Primitive.str) ∷ []))

abbrev pub general_metadata : Container
general_metadata = enum ((formats (named "GeneralMetadataV0" ∷ [])) ∷ [])

abbrev pub general_metadata_v0 : Container
general_metadata_v0 = struct (
    formats (
      optional (prim Primitive.bytes)
      ∷ optional (prim Primitive.bytes)
      ∷ optional (prim Primitive.uint64)
      ∷ []))

abbrev pub metadata : Container
metadata = enum (
    nil
    ∷ (formats (named "GeneralMetadata" ∷ []))
    ∷ (formats (named "TravelRuleMetadata" ∷ []))
    ∷ (formats (named "UnstructuredBytesMetadata" ∷ []))
    ∷ (formats (named "RefundMetadata" ∷ []))
    ∷ (formats (named "CoinTradeMetadata" ∷ []))
    ∷ (formats (named "PaymentMetadata" ∷ []))
    ∷ [])

abbrev pub payment_metadata : Container
payment_metadata = enum ((formats (named "PaymentMetadataV0" ∷ [])) ∷ [])

abbrev pub payment_metadata_v0 : Container
payment_metadata_v0 = struct (formats (tuple (array 16 (prim Primitive.uint8)) ∷ []))

abbrev pub refund_metadata : Container
refund_metadata = enum ((formats (named "RefundMetadataV0" ∷ [])) ∷ [])

abbrev pub refund_metadata_v0 : Container
refund_metadata_v0 = struct (formats (prim Primitive.uint64 ∷ named "RefundReason" ∷ []))

abbrev pub refund_reason : Container
refund_reason = enum (nil ∷ nil ∷ nil ∷ nil ∷ nil ∷ [])

abbrev pub travel_rule_metadata : Container
travel_rule_metadata = enum ((formats (named "TravelRuleMetadataV0" ∷ [])) ∷ [])

abbrev pub travel_rule_metadata_v0 : Container
travel_rule_metadata_v0 = struct (formats (optional (prim Primitive.str) ∷ []))

abbrev pub unstructured_bytes_metadata : Container
unstructured_bytes_metadata = struct (formats (optional (prim Primitive.bytes) ∷ []))
