-- ===== src/TxnMetadata.antt =====
-- Transaction metadata: src/diem/txnmetadata.py, with `decode_structure` of the Metadata class of
-- src/diem/diem_types/__init__.py.
pub mod RoundTrip
pub mod Message
mod Tests
pub mod Fields
use client_sdk_python.Base.{
  ℕ, zero, String, Option, none, some, List, [], ◌∷◌, ◌++◌, Outcome, ok, err, ◌>>=◌, ◌==◌, ◌||◌,
  if◌then◌else◌,
}
use client_sdk_python.Base.Int.{pos}
use client_sdk_python.Bcs.Error.{Error, deserialization_error}
use client_sdk_python.Bcs.Types.{
  Container, Primitive, Registry, Value, Values, Utf8, class_of, formats, prim, named, struct, null,
  int, text, bytestring, items, tuple_of, object, variant, nil, cons,
}
use client_sdk_python.Bcs.Serializer.{serialize, byte_items}
use client_sdk_python.DiemTypes.Classes.{classes}
use client_sdk_python.DiemTypes.Codec.{bcs_serialize, deserialize_exactly}

-- An optional argument as a value.
abbrev pub or_null : {A : Type 0} → (A → Value) → Option A → Value
or_null f none = null
or_null f (some a) = f a

abbrev pub uint : ℕ → Value
uint n = int (pos n)

-- A `Metadata` variant with one versioned value in it: `Metadata__X(X__Version0(value))`.
abbrev pub metadata_of : ℕ → String → Value → Value
metadata_of index name value = variant "Metadata" index (cons (variant name 0 (cons value nil)) nil)

abbrev pub general_v0 : Option (List ℕ) → Option (List ℕ) → Option ℕ → Value
general_v0 to_subaddress from_subaddress referenced_event = object "GeneralMetadataV0" (
    cons (or_null bytestring to_subaddress)
      (cons (or_null bytestring from_subaddress) (cons (or_null uint referenced_event) nil)))

-- `serde_types.uint64(referenced_event) if referenced_event else None`: 0 counts as absent.
abbrev pub if_truthy : Option ℕ → Option ℕ
if_truthy (some zero) = none
if_truthy n = n

unfoldable pub general_metadata :
    Utf8 → Option (List ℕ) → Option (List ℕ) → Option ℕ → Outcome Error (List ℕ)
general_metadata utf8 from_subaddress to_subaddress referenced_event =
    bcs_serialize utf8 "Metadata" (
      metadata_of 1 "GeneralMetadata"
        (general_v0 to_subaddress from_subaddress (if_truthy referenced_event)))

abbrev pub travel_rule_v0 : List ℕ → Value
travel_rule_v0 off_chain_reference_id =
    object "TravelRuleMetadataV0" (cons (text off_chain_reference_id) nil)

abbrev pub travel_rule_of : List ℕ → Value
travel_rule_of off_chain_reference_id =
    metadata_of 2 "TravelRuleMetadata" (travel_rule_v0 off_chain_reference_id)

-- The class `Attest`, beside those of diem_types.
abbrev pub attest : Container
attest = struct (formats (named "Metadata" ∷ named "AccountAddress" ∷ prim Primitive.uint64 ∷ []))

unfoldable pub attest_types : Registry
attest_types = class_of (("Attest", attest) ∷ classes)

abbrev pub attest_of : Value → Value → ℕ → Value
attest_of metadata sender_address amount =
    object "Attest" (cons metadata (cons sender_address (cons (uint amount) nil)))

-- "@@$$DIEM_ATTEST$$@@"
abbrev pub attest_suffix : List ℕ
attest_suffix =
    64 ∷ 64 ∷ 36 ∷ 36 ∷ 68 ∷ 73 ∷ 69 ∷ 77 ∷ 95 ∷ 65 ∷ 84 ∷ 84 ∷ 69 ∷ 83 ∷ 84 ∷ 36 ∷ 36 ∷ 64 ∷ 64
    ∷ []

-- The metadata and the message that the receiver signs.
unfoldable pub travel_rule : Utf8 → List ℕ → Value → ℕ → Outcome Error (List ℕ × List ℕ)
travel_rule utf8 off_chain_reference_id sender_address amount =
    let metadata = travel_rule_of off_chain_reference_id in
    serialize utf8 attest_types (attest_of metadata sender_address amount) (named "Attest")
    >>= λ attested. bcs_serialize utf8 "Metadata" metadata >>= λ written.
        ok (written, attested ++ attest_suffix)

abbrev pub refund_v0 : ℕ → ℕ → Value
refund_v0 original_transaction_version reason =
    object "RefundMetadataV0"
      (cons (uint original_transaction_version) (cons (variant "RefundReason" reason nil) nil))

-- The reason is given by its index.
unfoldable pub refund_metadata : Utf8 → ℕ → ℕ → Outcome Error (List ℕ)
refund_metadata utf8 original_transaction_version reason =
    bcs_serialize utf8 "Metadata"
      (metadata_of 4 "RefundMetadata" (refund_v0 original_transaction_version reason))

abbrev pub strs : List (List ℕ) → Values
strs [] = nil
strs (s ∷ ss) = cons (text s) (strs ss)

abbrev pub coin_trade_v0 : List (List ℕ) → Value
coin_trade_v0 trade_ids = object "CoinTradeMetadataV0" (cons (items (strs trade_ids)) nil)

unfoldable pub coin_trade_metadata : Utf8 → List (List ℕ) → Outcome Error (List ℕ)
coin_trade_metadata utf8 trade_ids =
    bcs_serialize utf8 "Metadata" (metadata_of 5 "CoinTradeMetadata" (coin_trade_v0 trade_ids))

abbrev pub payment_of : Value → Value
payment_of reference_id =
    metadata_of 6 "PaymentMetadata" (object "PaymentMetadataV0" (cons reference_id nil))

-- `uuid.UUID(reference_id).bytes` are taken as the argument: the field, a tuple of 16 bytes, gets them as
-- they are.
unfoldable pub payment_metadata : Utf8 → List ℕ → Outcome Error (List ℕ)
payment_metadata utf8 reference_id =
    bcs_serialize utf8 "Metadata" (payment_of (bytestring reference_id))

-- `Metadata.decode_structure`: `self.value.value` of a structured type.
abbrev pub inner_value : Value → Option Value
inner_value (variant c i (cons v nil)) = some v
inner_value _ = none

unfoldable pub metadata_structure : Value → Option Value
metadata_structure (variant c index (cons v nil)) =
    if index == 1 || index == 2 || index == 4 || index == 5 || index == 6
    then inner_value v
    else none
metadata_structure _ = none

-- `decode_structure` of the bytes: nothing for no bytes, for what does not deserialize, and for metadata
-- without a structure.
abbrev pub structure_of : Outcome Error Value → Outcome Error (Option Value)
structure_of (ok metadata) = ok (metadata_structure metadata)
structure_of (err (deserialization_error fault)) = ok none
structure_of (err e) = err e

unfoldable pub decode_structure : Utf8 → List ℕ → Outcome Error (Option Value)
unfolding metadata_structure
decode_structure utf8 [] = ok none
decode_structure utf8 (b ∷ bs) = structure_of (deserialize_exactly utf8 "Metadata" (b ∷ bs))
