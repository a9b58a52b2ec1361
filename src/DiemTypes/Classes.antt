-- ===== src/DiemTypes/Classes.antt =====
-- The registry of the classes of src/diem/diem_types/__init__.py: what a forward reference such as
-- "AccountAddress" means to `get_type_hints`.
use client_sdk_python.Base.{String, str_eq, Bool-cases, inl, inr, All, List, [], ◌∷◌}
use client_sdk_python.Bcs.Types.{Container, Registry, class_of}
use client_sdk_python.Bcs.Fits.{IsPlainRegistry, IsPlainContainer}
use native.Mathlib.Omega.{arith}
use client_sdk_python.DiemTypes.Metadata.{
  coin_trade_metadata, coin_trade_metadata_v0, general_metadata, general_metadata_v0, metadata,
  payment_metadata, payment_metadata_v0, refund_metadata, refund_metadata_v0, refund_reason,
  travel_rule_metadata, travel_rule_metadata_v0, unstructured_bytes_metadata,
}
use client_sdk_python.DiemTypes.Transactions.{
  account_authenticator, block_metadata, chain_id, ed25519_public_key, ed25519_signature,
  multi_ed25519_public_key, multi_ed25519_signature, code_module, module_id, raw_transaction,
  script, script_function, signed_transaction, transaction, transaction_argument,
  transaction_authenticator, transaction_payload,
}
use client_sdk_python.DiemTypes.State.{
  access_path, account_address, change_set, contract_event, contract_event_v0, event_key,
  hash_value, identifier, struct_tag, type_tag, write_op, write_set, write_set_mut,
  write_set_payload,
}

abbrev pub classes : List (String × Container)
classes =
    ("AccessPath", access_path)
    ∷ ("AccountAddress", account_address)
    ∷ ("AccountAuthenticator", account_authenticator)
    ∷ ("BlockMetadata", block_metadata)
    ∷ ("ChainId", chain_id)
    ∷ ("ChangeSet", change_set)
    ∷ ("CoinTradeMetadata", coin_trade_metadata)
    ∷ ("CoinTradeMetadataV0", coin_trade_metadata_v0)
    ∷ ("ContractEvent", contract_event)
    ∷ ("ContractEventV0", contract_event_v0)
    ∷ ("Ed25519PublicKey", ed25519_public_key)
    ∷ ("Ed25519Signature", ed25519_signature)
    ∷ ("EventKey", event_key)
    ∷ ("GeneralMetadata", general_metadata)
    ∷ ("GeneralMetadataV0", general_metadata_v0)
    ∷ ("HashValue", hash_value)
    ∷ ("Identifier", identifier)
    ∷ ("Metadata", metadata)
    ∷ ("Module", code_module)
    ∷ ("ModuleId", module_id)
    ∷ ("MultiEd25519PublicKey", multi_ed25519_public_key)
    ∷ ("MultiEd25519Signature", multi_ed25519_signature)
    ∷ ("PaymentMetadata", payment_metadata)
    ∷ ("PaymentMetadataV0", payment_metadata_v0)
    ∷ ("RawTransaction", raw_transaction)
    ∷ ("RefundMetadata", refund_metadata)
    ∷ ("RefundMetadataV0", refund_metadata_v0)
    ∷ ("RefundReason", refund_reason)
    ∷ ("Script", script)
    ∷ ("ScriptFunction", script_function)
    ∷ ("SignedTransaction", signed_transaction)
    ∷ ("StructTag", struct_tag)
    ∷ ("Transaction", transaction)
    ∷ ("TransactionArgument", transaction_argument)
    ∷ ("TransactionAuthenticator", transaction_authenticator)
    ∷ ("TransactionPayload", transaction_payload)
    ∷ ("TravelRuleMetadata", travel_rule_metadata)
    ∷ ("TravelRuleMetadataV0", travel_rule_metadata_v0)
    ∷ ("TypeTag", type_tag)
    ∷ ("UnstructuredBytesMetadata", unstructured_bytes_metadata)
    ∷ ("WriteOp", write_op)
    ∷ ("WriteSet", write_set)
    ∷ ("WriteSetMut", write_set_mut)
    ∷ ("WriteSetPayload", write_set_payload)
    ∷ []

-- What `get_type_hints` makes of the name of a class.
unfoldable pub diem_types : Registry
diem_types = class_of classes

classes-ArePlain : All (λ (e : String × Container). IsPlainContainer e.1) classes
classes-ArePlain = ground arith

pub class_of-IsPlain :
    (entries : List (String × Container))
    → All (λ (e : String × Container). IsPlainContainer e.1) entries
    → IsPlainRegistry (class_of entries)
class_of-IsPlain [] h c = tt
class_of-IsPlain ((d, k) ∷ entries) h c = elim (Bool-cases (str_eq d c)) [
  | inl same ↦ rw same h.0
  | inr other ↦ rw other (class_of-IsPlain entries h.1 c)
]

-- No optional type of diem_types has `None` among the values of its inner type.
pub diem_types-IsPlain : IsPlainRegistry diem_types
unfolding diem_types
diem_types-IsPlain = class_of-IsPlain classes classes-ArePlain
