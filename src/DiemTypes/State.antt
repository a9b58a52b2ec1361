-- ===== src/DiemTypes/State.antt =====
-- The dataclasses and enums of src/diem/diem_types/__init__.py: addresses, type tags, events and write sets.
-- A dataclass is the types of its fields in order, an enum class the fields of its `VARIANTS`.
use client_sdk_python.Base.{[], ◌∷◌}
use client_sdk_python.Bcs.Types.{
  Container, Primitive, prim, sequence, tuple, named, struct, enum, nil, formats, array,
}

abbrev pub access_path : Container
access_path = struct (formats (named "AccountAddress" ∷ prim Primitive.bytes ∷ []))

abbrev pub account_address : Container
account_address = struct (formats (tuple (array 16 (prim Primitive.uint8)) ∷ []))

abbrev pub change_set : Container
change_set = struct (formats (named "WriteSet" ∷ sequence (named "ContractEvent") ∷ []))

abbrev pub contract_event : Container
contract_event = enum ((formats (named "ContractEventV0" ∷ [])) ∷ [])

abbrev pub contract_event_v0 : Container
contract_event_v0 = struct (
    formats
      (named "EventKey" ∷ prim Primitive.uint64 ∷ named "TypeTag" ∷ prim Primitive.bytes ∷ []))

abbrev pub event_key : Container
event_key = struct (formats (prim Primitive.bytes ∷ []))

abbrev pub hash_value : Container
hash_value = struct (formats (prim Primitive.bytes ∷ []))

abbrev pub identifier : Container
identifier = struct (formats (prim Primitive.str ∷ []))

abbrev pub struct_tag : Container
struct_tag = struct (
    formats (
      named "AccountAddress"
      ∷ named "Identifier"
      ∷ named "Identifier"
      ∷ sequence (named "TypeTag")
      ∷ []))

abbrev pub type_tag : Container
type_tag = enum (
    nil
    ∷ nil
    ∷ nil
    ∷ nil
    ∷ nil
    ∷ nil
    ∷ (formats (named "TypeTag" ∷ []))
    ∷ (formats (named "StructTag" ∷ []))
    ∷ [])

abbrev pub write_op : Container
write_op = enum (nil ∷ (formats (prim Primitive.bytes ∷ [])) ∷ [])

abbrev pub write_set : Container
write_set = struct (formats (named "WriteSetMut" ∷ []))

abbrev pub write_set_mut : Container
write_set_mut =
    struct (formats (sequence (tuple (formats (named "AccessPath" ∷ named "WriteOp" ∷ []))) ∷ []))

abbrev pub write_set_payload : Container
write_set_payload = enum (
    (formats (named "ChangeSet" ∷ []))
    ∷ (formats (named "AccountAddress" ∷ named "Script" ∷ []))
    ∷ [])
