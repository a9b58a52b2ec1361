-- ===== src/Offchain/Json/Load.antt =====
-- `from_dict` of src/diem/offchain/types/__init__.py, by the description of a dataclass.
use Prim.Native.Nat.{Ordering}
use Prim.Native.String.{compare}
use client_sdk_python.Base.{
  String, str_eq, Bool, true, false, ◌||◌, not, Option, none, some, List, [], ◌∷◌, ◌<>◌,
  if◌then◌else◌, Outcome, ok, err, ◌>>=◌, ◌>>◌, raise_if,
}
use client_sdk_python.Base.Int.{pos}
use client_sdk_python.Offchain.Objects.{int_eq}
use client_sdk_python.Offchain.Json.{
  Any, Anys, Members, null, bool, int, float, str, list, dict, instance_of, no_items, item,
  no_members, member, get, keys, is_null,
}
use client_sdk_python.Offchain.Json.Schema.{
  FieldType, Fields, str_type, int_type, dict_type, list_type, dataclass, done, field_of,
  ValidValues, is_valid, payment_command_object_type, fund_pull_pre_approval_command_object_type,
  command_request_object_type, command_response_object_type,
}

-- The strings of class `ErrorCode`.
pub data ErrorCode : Type 0 where
  no_kyc_needed invalid_transition invalid_command_producer invalid_object missing_field : ErrorCode
  invalid_field_value unknown_field invalid_json invalid_jws invalid_jws_signature : ErrorCode
  unknown_command_type unknown_address invalid_overwrite : ErrorCode
  invalid_initial_or_prior_not_found conflict missing_http_header invalid_http_header : ErrorCode
  invalid_recipient_signature unsupported_currency duplicate_reference_id invalid_receiver :
      ErrorCode

-- `FieldError` without its message, and the `TypeError` of a dict that is asked for a key that is a
-- list or a dict.
pub data LoadError : Type 0 where
  field_error : ErrorCode → Option String → LoadError
  unhashable : LoadError

-- `field if field else None`
abbrev pub field_error_at : ErrorCode → String → LoadError
field_error_at code field = field_error code (if str_eq field "" then none else some field)

abbrev pub join_field_path : String → String → String
join_field_path path field = if str_eq path "" then field else (path <> ".") <> field

-- The code of an object of the wrong type: at the root the object is invalid, else the field is.
abbrev pub wrong_type : String → LoadError
wrong_type path =
    field_error_at (if str_eq path "" then invalid_object else invalid_field_value) path

abbrev pub expect : Bool → String → Any → Outcome LoadError Any
expect true path v = ok v
expect false path v = err (wrong_type path)

-- `isinstance` with `str`, `int` and `dict`; a `bool` is an `int`.
abbrev pub is_str : Any → Bool
is_str (str s) = true
is_str _ = false

abbrev pub is_int : Any → Bool
is_int (int i) = true
is_int (bool b) = true
is_int _ = false

abbrev pub is_dict : Any → Bool
is_dict (dict ms) = true
is_dict _ = false

abbrev pub as_list : Outcome LoadError Anys → Outcome LoadError Any
as_list (ok vs) = ok (list vs)
as_list (err e) = err e

-- `[from_dict(item, item_type, field_path) for item in obj]`
unfoldable pub each_item : (Any → Outcome LoadError Any) → Anys → Outcome LoadError Anys
each_item load no_items = ok no_items
each_item load (item v vs) = do w ← load v; ws ← each_item load vs; ok (item w ws)

-- `if field.name in unknown_fields: unknown_fields.remove(field.name)`
unfoldable pub remove : String → List String → List String
remove name [] = []
remove name (k ∷ ks) = let rest = remove name ks in if str_eq name k then ks else k ∷ rest

unfoldable pub unknown_fields : Fields → List String → List String
unfolding remove
unknown_fields done ks = ks
unknown_fields (field_of name valid is_optional type fields) ks =
    unknown_fields fields (remove name ks)

-- The first of the names after `sort()`.
unfoldable pub least : String → List String → String
least k [] = k
least k (l ∷ ls) = let rest = least l ls in elim (compare rest k) [ Ordering.lt ↦ rest | _ ↦ k ]

abbrev pub raise_if_unknown : String → List String → Outcome LoadError (Unit {0})
raise_if_unknown path [] = ok tt
raise_if_unknown path (k ∷ ks) =
    err (field_error_at unknown_field (join_field_path path (least k ks)))

-- `_field_value_from_dict` for the value of the field and the way to load a value of its type.
unfoldable pub field_value_from_dict :
    ValidValues → Bool → String → (Any → Outcome LoadError Any) → Any → Outcome LoadError Any
unfolding is_valid
field_value_from_dict valid is_optional full_name load v =
    let value =
      raise_if (not (is_valid valid v)) (field_error_at invalid_field_value full_name) >> load v in
    let missing = if is_optional then ok null else err (field_error_at missing_field full_name) in
    if is_null v then missing else value

-- `from_dict` and `_from_dict` for a class that is no union, and the loop over its fields.
unfoldable mutual
  unfolding each_item unknown_fields field_value_from_dict keys get least

  pub from_dict : FieldType → String → Any → Outcome LoadError Any
  from_dict str_type path v = expect (is_str v) path v
  from_dict int_type path v = expect (is_int v) path v
  from_dict dict_type path v = expect (is_dict v) path v
  from_dict (list_type type) path (list vs) = as_list (each_item (from_dict type path) vs)
  from_dict (list_type type) path v = err (wrong_type path)
  from_dict (dataclass name fields) path (dict ms) = do
    values ← fields_from_dict fields path ms
    raise_if_unknown path (unknown_fields fields (keys ms))
    ok (instance_of name values)
  from_dict (dataclass name fields) path (instance_of c ms) =
      expect (str_eq c name) path (instance_of c ms)
  from_dict (dataclass name fields) path v = err (wrong_type path)

  pub fields_from_dict : Fields → String → Members → Outcome LoadError Members
  fields_from_dict done path ms = ok no_members
  fields_from_dict (field_of name valid is_optional type fields) path ms =
      let full_name = join_field_path path name in
      let load = from_dict type full_name in
      let rest = fields_from_dict fields path ms in
      field_value_from_dict valid is_optional full_name load (get name ms) >>= λ value.
      rest >>= λ values. ok (member name value values)

-- `_OBJECT_TYPES`
abbrev pub object_type : String → Option FieldType
object_type name =
    if str_eq name "CommandResponseObject"
    then some command_response_object_type
    else if str_eq name "CommandRequestObject"
    then some command_request_object_type
    else if str_eq name "PaymentCommand"
    then some payment_command_object_type
    else if str_eq name "FundPullPreApprovalCommand"
    then some fund_pull_pre_approval_command_object_type
    else none

abbrev pub type_or_raise : String → Option FieldType → Outcome LoadError FieldType
type_or_raise full_name none = err (field_error_at invalid_field_value full_name)
type_or_raise full_name (some type) = ok type

-- No name of a type is a number; zero counts as missing.
abbrev pub field_unless_zero : String → Bool → Outcome LoadError FieldType
field_unless_zero full_name is_zero =
    err (field_error_at (if is_zero then missing_field else invalid_field_value) full_name)

-- `_find_object_type`: `obj_type` is missing where it is false as a Boolean.
abbrev pub find_by_value : String → Any → Outcome LoadError FieldType
find_by_value full_name null = err (field_error_at missing_field full_name)
find_by_value full_name (bool false) = err (field_error_at missing_field full_name)
find_by_value full_name (list no_items) = err (field_error_at missing_field full_name)
find_by_value full_name (dict no_members) = err (field_error_at missing_field full_name)
find_by_value full_name (list (item v vs)) = err unhashable
find_by_value full_name (dict (member n v ms)) = err unhashable
find_by_value full_name (str s) =
    if str_eq s ""
    then err (field_error_at missing_field full_name)
    else type_or_raise full_name (object_type s)
find_by_value full_name (int i) = field_unless_zero full_name (int_eq i (pos 0))
find_by_value full_name (float text) =
    field_unless_zero full_name (str_eq text "0.0" || str_eq text "-0.0")
find_by_value full_name v = err (field_error_at invalid_field_value full_name)

unfoldable pub find_object_type : Members → String → Outcome LoadError FieldType
unfolding get
find_object_type ms path = find_by_value (join_field_path path "_ObjectType") (get "_ObjectType" ms)

-- `from_dict` where the class is not given, or is a union.
unfoldable pub from_dict_by_object_type : String → Any → Outcome LoadError Any
unfolding find_object_type from_dict
from_dict_by_object_type path (dict ms) = do
  type ← find_object_type ms path
  from_dict type path (dict ms)
from_dict_by_object_type path v = err (wrong_type path)
