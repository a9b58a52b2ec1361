-- ===== src/Offchain/Json/Read.antt =====
-- The attributes of a loaded instance as the code of src/diem/offchain/client.py uses them: the records
-- of PaymentTypes and Command. `True` and `False` are the integers 1 and 0.
pub mod Laws
use client_sdk_python.Base.{
  ◌≡◌, refl, ap, String, str_eq, Option, none, some, List, [], ◌∷◌, if◌then◌else◌, Outcome, ok, err,
  ◌>>=◌,
}
use client_sdk_python.Base.Int.{ℤ, pos}
use client_sdk_python.Offchain.PaymentTypes.{
  Status, status_text, unset, needs_kyc_data, ready_for_settlement, abort, soft_match, StatusObject,
  NationalIdObject, AddressObject, KycDataObject, PaymentActionObject, PaymentActorObject,
  PaymentObject, or_null, strs, status_obj, national_id_obj, address_obj, kyc_data_obj, action_obj,
  actor_obj, payment_obj,
}
use client_sdk_python.Offchain.Objects.{Obj}
use client_sdk_python.Offchain.Json.{
  Any, Anys, Members, null, bool, int, str, list, dict, instance_of, no_items, item, no_members,
  member, embed, embed_items,
}
use client_sdk_python.Offchain.Json.Command.{
  CommandRequestObject, command_request_any, payment_command_any, CommandResponseStatus, success,
  failure, OffChainErrorType, command_error_type, protocol_error_type, OffChainErrorObject,
  CommandResponseObject, none_or, error_type_text, response_status_text, off_chain_error_any,
  command_response_any,
}

-- The attribute is not there, or has another type.
pub data ReadError : Type 0 where
  attribute_error : ReadError

abbrev pub Read : Type 0 → Type 0
Read A = Outcome ReadError A

abbrev pub read_text : Any → Read String
read_text (str s) = ok s
read_text _ = err attribute_error

abbrev pub read_int : Any → Read ℤ
read_int (int i) = ok i
read_int (bool b) = ok (if b then pos 1 else pos 0)
read_int _ = err attribute_error

abbrev pub some_of : {A : Type 0} → Read A → Read (Option A)
some_of (ok a) = ok (some a)
some_of (err e) = err e

abbrev pub read_optional : {A : Type 0} → (Any → Read A) → Any → Read (Option A)
read_optional read null = ok none
read_optional read v = some_of (read v)

unfoldable pub read_texts : Anys → Read (List String)
read_texts no_items = ok []
read_texts (item v vs) = do s ← read_text v; ss ← read_texts vs; ok (s ∷ ss)

abbrev pub read_text_list : Any → Read (List String)
unfolding read_texts
read_text_list (list vs) = read_texts vs
read_text_list _ = err attribute_error

abbrev pub status_named : String → Read Status
status_named s =
    if str_eq s "none"
    then ok unset
    else if str_eq s "needs_kyc_data"
    then ok needs_kyc_data
    else if str_eq s "ready_for_settlement"
    then ok ready_for_settlement
    else if str_eq s "abort"
    then ok abort
    else if str_eq s "soft_match"
    then ok soft_match
    else err attribute_error

unfoldable pub read_status : Any → Read StatusObject
read_status (instance_of c (member n1 s (member n2 a (member n3 m no_members)))) = do
  name ← read_text s
  status ← status_named name
  abort_code ← read_optional read_text a
  abort_message ← read_optional read_text m
  ok (record { status = status; abort_code = abort_code; abort_message = abort_message })
read_status _ = err attribute_error

unfoldable pub read_national_id : Any → Read NationalIdObject
read_national_id (instance_of c (member n1 i (member n2 k (member n3 t no_members)))) = do
  id_value ← read_text i
  country ← read_optional read_text k
  type ← read_optional read_text t
  ok (record { id_value = id_value; country = country; type = type })
read_national_id _ = err attribute_error

unfoldable pub read_address : Any → Read AddressObject
read_address
      (instance_of c (
        member n1 a
          (member n2 b (member n3 d (member n4 e (member n5 f (member n6 g no_members))))))) =
    do
      city ← read_optional read_text a
      country ← read_optional read_text b
      line1 ← read_optional read_text d
      line2 ← read_optional read_text e
      postal_code ← read_optional read_text f
      state ← read_optional read_text g
      ok (record {
        city = city;
        country = country;
        line1 = line1;
        line2 = line2;
        postal_code = postal_code;
        state = state;
      })
read_address _ = err attribute_error

unfoldable pub read_kyc_data : Any → Read KycDataObject
unfolding read_address read_national_id
read_kyc_data
      (instance_of c (
        member n1 a (
          member n2 b (
            member n3 d (
              member n4 e (
                member n5 f
                  (member n6 g (member n7 h (member n8 i (member n9 j no_members)))))))))) =
    do
      type ← read_text a
      payload_version ← read_int b
      given_name ← read_optional read_text d
      surname ← read_optional read_text e
      address ← read_optional read_address f
      dob ← read_optional read_text g
      place_of_birth ← read_optional read_address h
      national_id ← read_optional read_national_id i
      legal_entity_name ← read_optional read_text j
      ok (record {
        type = type;
        payload_version = payload_version;
        given_name = given_name;
        surname = surname;
        address = address;
        dob = dob;
        place_of_birth = place_of_birth;
        national_id = national_id;
        legal_entity_name = legal_entity_name;
      })
read_kyc_data _ = err attribute_error

unfoldable pub read_action : Any → Read PaymentActionObject
read_action (instance_of c (member n1 a (member n2 b (member n3 d (member n4 e no_members))))) = do
  amount ← read_int a
  currency ← read_text b
  action ← read_text d
  timestamp ← read_int e
  ok (record { amount = amount; currency = currency; action = action; timestamp = timestamp })
read_action _ = err attribute_error

unfoldable pub read_actor : Any → Read PaymentActorObject
unfolding read_status read_kyc_data read_texts
read_actor
      (instance_of c
        (member n1 a (member n2 b (member n3 d (member n4 e (member n5 f no_members)))))) =
    do
      address ← read_text a
      status ← read_status b
      kyc_data ← read_optional read_kyc_data d
      metadata ← read_optional read_text_list e
      additional_kyc_data ← read_optional read_text f
      ok (record {
        address = address;
        status = status;
        kyc_data = kyc_data;
        metadata = metadata;
        additional_kyc_data = additional_kyc_data;
      })
read_actor _ = err attribute_error

unfoldable pub read_payment : Any → Read PaymentObject
unfolding read_actor read_action
read_payment
      (instance_of c (
        member n1 a (
          member n2 b
            (member n3 d (member n4 e (member n5 f (member n6 g (member n7 h no_members)))))))) =
    do
      reference_id ← read_text a
      sender ← read_actor b
      receiver ← read_actor d
      action ← read_action e
      original_payment_reference_id ← read_optional read_text f
      recipient_signature ← read_optional read_text g
      description ← read_optional read_text h
      ok (record {
        reference_id = reference_id;
        sender = sender;
        receiver = receiver;
        action = action;
        original_payment_reference_id = original_payment_reference_id;
        recipient_signature = recipient_signature;
        description = description;
      })
read_payment _ = err attribute_error

-- `.payment` of a `PaymentCommandObject`.
unfoldable pub read_payment_command : Any → Read PaymentObject
unfolding read_payment
read_payment_command (instance_of c (member n1 t (member n2 p no_members))) = read_payment p
read_payment_command _ = err attribute_error

unfoldable pub read_request : Any → Read CommandRequestObject
read_request
      (instance_of c
        (member n1 (str i) (member n2 (str t) (member n3 (dict ms) (member n4 o no_members))))) =
    ok (record { cid = i; command_type = t; command = ms })
read_request _ = err attribute_error

abbrev pub response_status_named : String → Read CommandResponseStatus
response_status_named s =
    if str_eq s "success"
    then ok success
    else if str_eq s "failure"
    then ok failure
    else err attribute_error

abbrev pub error_type_named : String → Read OffChainErrorType
error_type_named s =
    if str_eq s "command_error"
    then ok command_error_type
    else if str_eq s "protocol_error"
    then ok protocol_error_type
    else err attribute_error

abbrev pub read_dict : Any → Read Members
read_dict (dict ms) = ok ms
read_dict _ = err attribute_error

unfoldable pub read_error : Any → Read OffChainErrorObject
read_error (instance_of c (member n1 t (member n2 k (member n3 f (member n4 m no_members))))) = do
  name ← read_text t
  type ← error_type_named name
  code ← read_text k
  field ← read_optional read_text f
  message ← read_optional read_text m
  ok (record { type = type; code = code; field = field; message = message })
read_error _ = err attribute_error

unfoldable pub read_response : Any → Read CommandResponseObject
unfolding read_error
read_response
      (instance_of c
        (member n1 s (member n2 o (member n3 e (member n4 i (member n5 r no_members)))))) =
    do
      name ← read_text s
      status ← response_status_named name
      error ← read_optional read_error e
      cid ← read_optional read_text i
      result ← read_optional read_dict r
      ok (record { status = status; error = error; cid = cid; result = result })
read_response _ = err attribute_error
