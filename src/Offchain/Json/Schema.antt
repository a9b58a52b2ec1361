-- ===== src/Offchain/Json/Schema.antt =====
-- The dataclasses of src/diem/offchain/types as their field descriptions: names, types, `valid-values`
-- and which fields are optional. The codes of errors are those of command_types.py.
use client_sdk_python.Base.{
  ℕ, zero, suc, String, str_eq, Bool, true, false, ◌&&◌, ◌||◌, Option, none, some, List, [], ◌∷◌,
  if◌then◌else◌, ◌==◌,
}
use client_sdk_python.Base.Int.{ℤ, pos}
use client_sdk_python.Offchain.Objects.{int_eq}
use client_sdk_python.Identifier.Text.{Text}
use client_sdk_python.Utils.Hex.{nibble}
use client_sdk_python.Offchain.Json.{Any, bool, int, str}
use Prim.Native.Char.{code}
use Prim.Native.String.{[] as no_chars, ◌∷◌ as ◌then◌}

-- The code points of a `str`.
unfoldable pub points : String → Text
points no_chars = []
points (c then s) = code c ∷ points s

-- `[0-9A-F]{n}`, in both cases: what is left after it.
unfoldable pub hex_run : ℕ → Text → Option Text
hex_run zero t = some t
hex_run (suc n) [] = none
hex_run (suc n) (c ∷ t) = let rest = hex_run n t in elim (nibble c) [ none ↦ none | some _ ↦ rest ]

-- `$` also matches before a line feed at the end.
abbrev pub at_end : Text → Bool
at_end [] = true
at_end (c ∷ []) = c == 10
at_end _ = false

abbrev pub after_dash : (Text → Bool) → Text → Bool
after_dash more [] = false
after_dash more (c ∷ t) = (c == 45) && more t

abbrev pub after_run : (Text → Bool) → Option Text → Bool
after_run more none = false
after_run more (some t) = more t

unfoldable pub match_groups : List ℕ → Text → Bool
unfolding hex_run
match_groups [] t = at_end t
match_groups (n ∷ []) t = after_run at_end (hex_run n t)
match_groups (n ∷ m ∷ ns) t = after_run (after_dash (match_groups (m ∷ ns))) (hex_run n t)

-- `UUID_REGEX.match`
unfoldable pub uuid_match : String → Bool
unfolding points match_groups
uuid_match s = match_groups (8 ∷ 4 ∷ 4 ∷ 4 ∷ 12 ∷ []) (points s)

-- An item of a list of valid values.
pub data Literal : Type 0 where
  text : String → Literal
  number : ℤ → Literal

-- The metadata "valid-values" of a field.
pub data ValidValues : Type 0 where
  any_value : ValidValues
  one_of : List Literal → ValidValues
  pattern_of : (String → Bool) → ValidValues

-- `==` with a literal; `True` and `False` are the integers 1 and 0.
unfoldable pub literal_eq : Any → Literal → Bool
unfolding int_eq
literal_eq (str s) (text t) = str_eq s t
literal_eq (int i) (number j) = int_eq i j
literal_eq (bool b) (number j) = if b then int_eq (pos 1) j else int_eq (pos 0) j
literal_eq v l = false

-- `val in valid_values`
unfoldable pub is_one_of : Any → List Literal → Bool
unfolding literal_eq
is_one_of v [] = false
is_one_of v (l ∷ ls) = literal_eq v l || is_one_of v ls

-- A pattern is tried on a `str` only.
unfoldable pub is_valid : ValidValues → Any → Bool
unfolding is_one_of
is_valid any_value v = true
is_valid (one_of ls) v = is_one_of v ls
is_valid (pattern_of m) (str s) = m s
is_valid (pattern_of m) v = true

-- A field has its name, its valid values, whether its type is `typing.Optional`, and the type.
mutual
  pub data FieldType : Type 0 where
    str_type int_type dict_type : FieldType
    list_type : FieldType → FieldType
    dataclass : String → Fields → FieldType

  pub data Fields : Type 0 where
    done : Fields
    field_of : String → ValidValues → Bool → FieldType → Fields → Fields

abbrev pub required_field : String → FieldType → Fields → Fields
required_field name type = field_of name any_value false type

abbrev pub optional_field : String → FieldType → Fields → Fields
optional_field name type = field_of name any_value true type

abbrev pub texts : List String → List Literal
texts [] = []
texts (s ∷ ss) = text s ∷ texts ss

abbrev pub choice : String → List String → Fields → Fields
choice name values = field_of name (one_of (texts values)) false str_type

abbrev pub status_object_type : FieldType
status_object_type = dataclass "StatusObject" (
    choice "status"
      ("none" ∷ "needs_kyc_data" ∷ "ready_for_settlement" ∷ "abort" ∷ "soft_match" ∷ [])
      (optional_field "abort_code" str_type (optional_field "abort_message" str_type done)))

abbrev pub national_id_object_type : FieldType
national_id_object_type = dataclass "NationalIdObject" (
    required_field "id_value" str_type
      (optional_field "country" str_type (optional_field "type" str_type done)))

abbrev pub address_object_type : FieldType
address_object_type = dataclass "AddressObject" (
    optional_field "city" str_type (
      optional_field "country" str_type (
        optional_field "line1" str_type (
          optional_field "line2" str_type
            (optional_field "postal_code" str_type (optional_field "state" str_type done))))))

abbrev pub kyc_data_object_type : FieldType
kyc_data_object_type = dataclass "KycDataObject" (
    choice "type" ("individual" ∷ "entity" ∷ []) (
      field_of "payload_version" (one_of (number (pos 1) ∷ [])) false int_type (
        optional_field "given_name" str_type (
          optional_field "surname" str_type (
            optional_field "address" address_object_type (
              optional_field "dob" str_type (
                optional_field "place_of_birth" address_object_type (
                  optional_field "national_id" national_id_object_type
                    (optional_field "legal_entity_name" str_type done)))))))))

abbrev pub payment_action_object_type : FieldType
payment_action_object_type = dataclass "PaymentActionObject" (
    required_field "amount" int_type (
      required_field "currency" str_type
        (choice "action" ("charge" ∷ []) (required_field "timestamp" int_type done))))

abbrev pub payment_actor_object_type : FieldType
payment_actor_object_type = dataclass "PaymentActorObject" (
    required_field "address" str_type (
      required_field "status" status_object_type (
        optional_field "kyc_data" kyc_data_object_type (
          optional_field "metadata" (list_type str_type)
            (optional_field "additional_kyc_data" str_type done)))))

abbrev pub payment_object_type : FieldType
payment_object_type = dataclass "PaymentObject" (
    field_of "reference_id" (pattern_of uuid_match) false str_type (
      required_field "sender" payment_actor_object_type (
        required_field "receiver" payment_actor_object_type (
          required_field "action" payment_action_object_type (
            field_of "original_payment_reference_id" (pattern_of uuid_match) true str_type (
              optional_field "recipient_signature" str_type
                (optional_field "description" str_type done)))))))

abbrev pub payment_command_object_type : FieldType
payment_command_object_type = dataclass "PaymentCommandObject" (
    choice "_ObjectType" ("PaymentCommand" ∷ [])
      (required_field "payment" payment_object_type done))

abbrev pub fund_pull_pre_approval_command_object_type : FieldType
fund_pull_pre_approval_command_object_type =
    dataclass "FundPullPreApprovalCommandObject"
      (choice "_ObjectType" ("FundPullPreApprovalCommand" ∷ []) done)

abbrev pub command_request_object_type : FieldType
command_request_object_type = dataclass "CommandRequestObject" (
    field_of "cid" (pattern_of uuid_match) false str_type (
      required_field "command_type" str_type (
        required_field "command" dict_type
          (choice "_ObjectType" ("CommandRequestObject" ∷ []) done))))

abbrev pub off_chain_error_object_type : FieldType
off_chain_error_object_type = dataclass "OffChainErrorObject" (
    choice "type" ("command_error" ∷ "protocol_error" ∷ []) (
      required_field "code" str_type
        (optional_field "field" str_type (optional_field "message" str_type done))))

abbrev pub reference_id_command_result_object_type : FieldType
reference_id_command_result_object_type = dataclass "ReferenceIDCommandResultObject" (
    required_field "receiver_address" str_type
      (choice "_ObjectType" ("ReferenceIDCommandResponse" ∷ []) done))

abbrev pub command_response_object_type : FieldType
command_response_object_type = dataclass "CommandResponseObject" (
    choice "status" ("success" ∷ "failure" ∷ []) (
      choice "_ObjectType" ("CommandResponseObject" ∷ []) (
        optional_field "error" off_chain_error_object_type
          (optional_field "cid" str_type (optional_field "result" dict_type done)))))

abbrev pub reference_id_command_object_type : FieldType
reference_id_command_object_type = dataclass "ReferenceIDCommandObject" (
    required_field "sender" str_type (
      required_field "sender_address" str_type (
        required_field "receiver" str_type (
          required_field "reference_id" str_type
            (choice "_ObjectType" ("ReferenceIDCommand" ∷ []) done)))))
