-- ===== src/DiemTypes/Transactions.antt =====
-- The dataclasses and enums of src/diem/diem_types/__init__.py: transactions, their payloads and authenticators.
-- A dataclass is the types of its fields in order, an enum class the fields of its `VARIANTS`.
use client_sdk_python.Base.{[], ◌∷◌}
use client_sdk_python.Bcs.Types.{Container, Primitive, prim, sequence, named, struct, enum, formats}

abbrev pub account_authenticator : Container
account_authenticator = enum (
    (formats (named "Ed25519PublicKey" ∷ named "Ed25519Signature" ∷ []))
    ∷ (formats (named "MultiEd25519PublicKey" ∷ named "MultiEd25519Signature" ∷ []))
    ∷ [])

abbrev pub block_metadata : Container
block_metadata = struct (
    formats (
      named "HashValue"
      ∷ prim Primitive.uint64
      ∷ prim Primitive.uint64
      ∷ sequence (named "AccountAddress")
      ∷ named "AccountAddress"
      ∷ []))

abbrev pub chain_id : Container
chain_id = struct (formats (prim Primitive.uint8 ∷ []))

abbrev pub ed25519_public_key : Container
ed25519_public_key = struct (formats (prim Primitive.bytes ∷ []))

abbrev pub ed25519_signature : Container
ed25519_signature = struct (formats (prim Primitive.bytes ∷ []))

abbrev pub multi_ed25519_public_key : Container
multi_ed25519_public_key = struct (formats (prim Primitive.bytes ∷ []))

abbrev pub multi_ed25519_signature : Container
multi_ed25519_signature = struct (formats (prim Primitive.bytes ∷ []))

abbrev pub code_module : Container
code_module = struct (formats (prim Primitive.bytes ∷ []))

abbrev pub module_id : Container
module_id = struct (formats (named "AccountAddress" ∷ named "Identifier" ∷ []))

abbrev pub raw_transaction : Container
raw_transaction = struct (
    formats (
      named "AccountAddress"
      ∷ prim Primitive.uint64
      ∷ named "TransactionPayload"
      ∷ prim Primitive.uint64
      ∷ prim Primitive.uint64
      ∷ prim Primitive.str
      ∷ prim Primitive.uint64
      ∷ named "ChainId"
      ∷ []))

abbrev pub script : Container
script = struct (
    formats (
      prim Primitive.bytes
      ∷ sequence (named "TypeTag")
      ∷ sequence (named "TransactionArgument")
      ∷ []))

abbrev pub script_function : Container
script_function = struct (
    formats (
      named "ModuleId"
      ∷ named "Identifier"
      ∷ sequence (named "TypeTag")
      ∷ sequence (prim Primitive.bytes)
      ∷ []))

abbrev pub signed_transaction : Container
signed_transaction =
    struct (formats (named "RawTransaction" ∷ named "TransactionAuthenticator" ∷ []))

abbrev pub transaction : Container
transaction = enum (
    (formats (named "SignedTransaction" ∷ []))
    ∷ (formats (named "WriteSetPayload" ∷ []))
    ∷ (formats (named "BlockMetadata" ∷ []))
    ∷ [])

abbrev pub transaction_argument : Container
transaction_argument = enum (
    (formats (prim Primitive.uint8 ∷ []))
    ∷ (formats (prim Primitive.uint64 ∷ []))
    ∷ (formats (prim Primitive.uint128 ∷ []))
    ∷ (formats (named "AccountAddress" ∷ []))
    ∷ (formats (prim Primitive.bytes ∷ []))
    ∷ (formats (prim Primitive.bool ∷ []))
    ∷ [])

abbrev pub transaction_authenticator : Container
transaction_authenticator = enum (
    (formats (named "Ed25519PublicKey" ∷ named "Ed25519Signature" ∷ []))
    ∷ (formats (named "MultiEd25519PublicKey" ∷ named "MultiEd25519Signature" ∷ []))
    ∷ (formats (
        named "AccountAuthenticator"
        ∷ sequence (named "AccountAddress")
        ∷ sequence (named "AccountAuthenticator")
        ∷ []))
    ∷ [])

abbrev pub transaction_payload : Container
transaction_payload = enum (
    (formats (named "WriteSetPayload" ∷ []))
    ∷ (formats (named "Script" ∷ []))
    ∷ (formats (named "Module" ∷ []))
    ∷ (formats (named "ScriptFunction" ∷ []))
    ∷ [])
