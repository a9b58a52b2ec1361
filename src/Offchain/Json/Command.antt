-- ===== src/Offchain/Json/Command.antt =====
-- The objects of src/diem/offchain/types/command_types.py, what src/diem/offchain/types/__init__.py,
-- error.py and reference_id_command.py make of them, and each of them as a value.
use client_sdk_python.Base.{String, Option, none, some}
use client_sdk_python.Base.Int.{pos}
use client_sdk_python.Offchain.PaymentTypes.{
  PaymentObject, KycDataObject, AddressObject, NationalIdObject, payment_obj,
}
use client_sdk_python.Offchain.PaymentCommand.{PaymentCommand}
use client_sdk_python.Offchain.NewCommand.{text_or}
use client_sdk_python.Offchain.Json.{
  Any, Members, null, str, dict, instance_of, no_members, member, embed, asdict_members,
  delete_none_members,
}

pub data CommandType : Type 0 where
  payment_command fund_pull_pre_approval_command ping_command reference_id_command : CommandType

abbrev pub command_type_text : CommandType → String
command_type_text payment_command = "PaymentCommand"
command_type_text fund_pull_pre_approval_command = "FundPullPreApprovalCommand"
command_type_text ping_command = "PingCommand"
command_type_text reference_id_command = "ReferenceIDCommand"

pub data CommandResponseStatus : Type 0 where
  success failure : CommandResponseStatus

abbrev pub response_status_text : CommandResponseStatus → String
response_status_text success = "success"
response_status_text failure = "failure"

pub data OffChainErrorType : Type 0 where
  command_error_type protocol_error_type : OffChainErrorType

abbrev pub error_type_text : OffChainErrorType → String
error_type_text command_error_type = "command_error"
error_type_text protocol_error_type = "protocol_error"

-- `_ObjectType` is the default of the class.
pub record CommandRequestObject : Type 0 where
  pub cid : String
  pub command_type : String
  pub command : Members

pub record OffChainErrorObject : Type 0 where
  pub type : OffChainErrorType
  pub code : String
  pub field : Option String
  pub message : Option String

pub record CommandResponseObject : Type 0 where
  pub status : CommandResponseStatus
  pub error : Option OffChainErrorObject
  pub cid : Option String
  pub result : Option Members

pub record ReferenceIdCommandObject : Type 0 where
  pub sender : String
  pub sender_address : String
  pub receiver : String
  pub reference_id : String

pub record ReferenceIdCommandResultObject : Type 0 where
  pub receiver_address : String

abbrev pub none_or {ℓ} : {A : Type ℓ} → (A → Any) → Option A → Any
none_or f none = null
none_or f (some a) = f a

abbrev pub command_request_any : CommandRequestObject → Any
command_request_any r = instance_of "CommandRequestObject" (
    member "cid" (str r.cid) (
      member "command_type" (str r.command_type) (
        member "command" (dict r.command)
          (member "_ObjectType" (str "CommandRequestObject") no_members))))

abbrev pub off_chain_error_any : OffChainErrorObject → Any
off_chain_error_any e = instance_of "OffChainErrorObject" (
    member "type" (str (error_type_text e.type)) (
      member "code" (str e.code) (
        member "field" (none_or str e.field)
          (member "message" (none_or str e.message) no_members))))

abbrev pub command_response_any : CommandResponseObject → Any
command_response_any r = instance_of "CommandResponseObject" (
    member "status" (str (response_status_text r.status)) (
      member "_ObjectType" (str "CommandResponseObject") (
        member "error" (none_or off_chain_error_any r.error)
          (member "cid" (none_or str r.cid) (member "result" (none_or dict r.result) no_members)))))

abbrev pub reference_id_command_members : ReferenceIdCommandObject → Members
reference_id_command_members c = member "sender" (str c.sender) (
    member "sender_address" (str c.sender_address) (
      member "receiver" (str c.receiver) (
        member "reference_id" (str c.reference_id)
          (member "_ObjectType" (str (command_type_text reference_id_command)) no_members))))

abbrev pub reference_id_command_any : ReferenceIdCommandObject → Any
reference_id_command_any c = instance_of "ReferenceIDCommandObject" (reference_id_command_members c)

abbrev pub reference_id_command_result_any : ReferenceIdCommandResultObject → Any
reference_id_command_result_any r = instance_of "ReferenceIDCommandResultObject" (
    member "receiver_address" (str r.receiver_address)
      (member "_ObjectType" (str "ReferenceIDCommandResponse") no_members))

-- `PaymentCommandObject(_ObjectType=CommandType.PaymentCommand, payment=payment)`
abbrev pub payment_command_members : PaymentObject → Members
payment_command_members payment =
    member "_ObjectType" (str (command_type_text payment_command))
      (member "payment" (embed (payment_obj payment)) no_members)

abbrev pub payment_command_any : PaymentObject → Any
payment_command_any payment = instance_of "PaymentCommandObject" (payment_command_members payment)

-- `new_id` is what `uuid.uuid4()` gives.
unfoldable pub new_payment_request : String → PaymentObject → Option String → CommandRequestObject
new_payment_request new_id payment cid = record {
  cid = text_or cid new_id;
  command_type = command_type_text payment_command;
  command = delete_none_members (asdict_members (payment_command_members payment));
}

-- `PaymentCommand.new_request`
unfoldable pub new_request : String → PaymentCommand → CommandRequestObject
unfolding new_payment_request
new_request new_id command = new_payment_request new_id command.payment (some command.cid)

-- The command of `Client.ref_id_exchange_request`, and its request.
unfoldable pub reference_id_request :
    String → ReferenceIdCommandObject → Option String → CommandRequestObject
reference_id_request new_id c cid = record {
  cid = text_or cid new_id;
  command_type = command_type_text reference_id_command;
  command = delete_none_members (asdict_members (reference_id_command_members c));
}

-- The request of `Client.ping`.
unfoldable pub ping_request : String → Option String → CommandRequestObject
ping_request new_id cid = record {
  cid = text_or cid new_id;
  command_type = command_type_text ping_command;
  command = member "_ObjectType" (str (command_type_text ping_command)) no_members;
}

abbrev pub response_status : Option OffChainErrorObject → CommandResponseStatus
response_status none = success
response_status (some e) = failure

unfoldable pub reply_request :
    Option String → Option OffChainErrorObject → Option Members → CommandResponseObject
reply_request cid err result = record {
  status = response_status err;
  error = err;
  cid = cid;
  result = result;
}

-- The keyword arguments that `individual_kyc_data` and `entity_kyc_data` pass on.
pub record KycFields : Type 0 where
  pub given_name : Option String
  pub surname : Option String
  pub address : Option AddressObject
  pub dob : Option String
  pub place_of_birth : Option AddressObject
  pub national_id : Option NationalIdObject
  pub legal_entity_name : Option String

abbrev kyc_data_of : String → KycFields → KycDataObject
kyc_data_of type k = record {
  type = type;
  payload_version = pos 1;
  given_name = k.given_name;
  surname = k.surname;
  address = k.address;
  dob = k.dob;
  place_of_birth = k.place_of_birth;
  national_id = k.national_id;
  legal_entity_name = k.legal_entity_name;
}

abbrev pub individual_kyc_data : KycFields → KycDataObject
individual_kyc_data k = kyc_data_of "individual" k

abbrev pub entity_kyc_data : KycFields → KycDataObject
entity_kyc_data k = kyc_data_of "entity" k

-- The object of the `Error` that `command_error` and `protocol_error` return.
abbrev pub command_error : String → String → Option String → OffChainErrorObject
command_error code message field = record {
  type = command_error_type;
  code = code;
  field = field;
  message = some message;
}

abbrev pub protocol_error : String → String → Option String → OffChainErrorObject
protocol_error code message field = record {
  type = protocol_error_type;
  code = code;
  field = field;
  message = some message;
}

-- The wrapper of src/diem/offchain/reference_id_command.py; `init` takes a new id for `cid`.
pub record ReferenceIdCommand : Type 0 where
  pub reference_id_command_object : ReferenceIdCommandObject
  pub cid : String

abbrev pub init_reference_id_command :
    String → String → String → String → String → ReferenceIdCommand
init_reference_id_command new_id sender sender_address receiver reference_id = record {
  reference_id_command_object = record {
    sender = sender;
    sender_address = sender_address;
    receiver = receiver;
    reference_id = reference_id;
  };
  cid = new_id;
}
