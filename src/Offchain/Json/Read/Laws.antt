-- ===== src/Offchain/Json/Read/Laws.antt =====
-- A typed object that is written as a value is read back.
use client_sdk_python.Base.{◌≡◌, refl, ap, String, Option, none, some, List, [], ◌∷◌, ok}
use client_sdk_python.Offchain.PaymentTypes.{
  Status, status_text, unset, needs_kyc_data, ready_for_settlement, abort, soft_match, StatusObject,
  NationalIdObject, AddressObject, KycDataObject, PaymentActorObject, PaymentObject, or_null, strs,
  status_obj, national_id_obj, address_obj, kyc_data_obj, actor_obj, payment_obj,
}
use client_sdk_python.Offchain.Objects.{Obj}
use client_sdk_python.Offchain.Json.{Any, Members, dict, embed, embed_items}
use client_sdk_python.Offchain.Json.Command.{
  CommandRequestObject, command_request_any, payment_command_any, CommandResponseStatus, success,
  failure, OffChainErrorType, command_error_type, protocol_error_type, OffChainErrorObject,
  CommandResponseObject, none_or, error_type_text, response_status_text, off_chain_error_any,
  command_response_any,
}
use client_sdk_python.Offchain.Json.Read.{
  Read, read_payment, read_payment_command, read_request, read_response, read_text, some_of,
  read_optional, read_texts, read_text_list, status_named, read_status, read_national_id,
  read_address, read_kyc_data, read_action, read_actor, response_status_named, error_type_named,
  read_dict, read_error,
}

-- What is embedded is read back.
read_optional-embed :
    {A : Type 0} (read : Any → Read A) (write : A → Obj) (o : Option A)
    → ((a : A) → read_optional read (embed (write a)) ≡ ok (some a))
    → read_optional read (embed (or_null write o)) ≡ ok o
unfolding embed
read_optional-embed read write none each = refl
read_optional-embed read write (some a) each = each a

read_optional_text :
    (o : Option String) → read_optional read_text (embed (or_null Obj.str o)) ≡ ok o
unfolding embed
read_optional_text o = read_optional-embed read_text Obj.str o (λ s. refl)

read_texts-strs : (ss : List String) → read_texts (embed_items (strs ss)) ≡ ok ss
unfolding read_texts embed
read_texts-strs [] = refl
read_texts-strs (s ∷ ss) = rw (read_texts-strs ss)

status_named-text : (s : Status) → status_named (status_text s) ≡ ok s
status_named-text unset = refl
status_named-text needs_kyc_data = refl
status_named-text ready_for_settlement = refl
status_named-text abort = refl
status_named-text soft_match = refl

read_status-embed : (s : StatusObject) → read_status (embed (status_obj s)) ≡ ok s
unfolding read_status embed
read_status-embed s = rw (
  status_named-text s.status,
  read_optional_text s.abort_code,
  read_optional_text s.abort_message,
)

read_national_id-embed :
    (n : NationalIdObject) → read_national_id (embed (national_id_obj n)) ≡ ok n
unfolding read_national_id embed
read_national_id-embed n = rw (read_optional_text n.country, read_optional_text n.type)

read_address-embed : (a : AddressObject) → read_address (embed (address_obj a)) ≡ ok a
unfolding read_address embed
read_address-embed a = rw (
  read_optional_text a.city,
  read_optional_text a.country,
  read_optional_text a.line1,
  read_optional_text a.line2,
  read_optional_text a.postal_code,
  read_optional_text a.state,
)

optional_address :
    (o : Option AddressObject) → read_optional read_address (embed (or_null address_obj o)) ≡ ok o
unfolding embed
optional_address o =
    read_optional-embed read_address address_obj o (λ a. ap some_of (read_address-embed a))

optional_national_id :
    (o : Option NationalIdObject)
    → read_optional read_national_id (embed (or_null national_id_obj o)) ≡ ok o
unfolding embed
optional_national_id o =
    read_optional-embed read_national_id national_id_obj o
      (λ n. ap some_of (read_national_id-embed n))

read_kyc_data-embed : (k : KycDataObject) → read_kyc_data (embed (kyc_data_obj k)) ≡ ok k
unfolding read_kyc_data embed
read_kyc_data-embed k = rw (
  read_optional_text k.given_name,
  read_optional_text k.surname,
  optional_address k.address,
  read_optional_text k.dob,
  optional_address k.place_of_birth,
  optional_national_id k.national_id,
  read_optional_text k.legal_entity_name,
)

read_actor-embed : (a : PaymentActorObject) → read_actor (embed (actor_obj a)) ≡ ok a
unfolding read_actor embed
read_actor-embed a =
    let kyc =
      read_optional-embed read_kyc_data kyc_data_obj a.kyc_data
        (λ k. ap some_of (read_kyc_data-embed k)) in
    let metadata =
      read_optional-embed read_text_list (λ ss. Obj.list (strs ss)) a.metadata
        (λ ss. ap some_of (read_texts-strs ss)) in
    rw (read_status-embed a.status, kyc, metadata, read_optional_text a.additional_kyc_data)

pub read_payment-embed : (p : PaymentObject) → read_payment (embed (payment_obj p)) ≡ ok p
unfolding read_payment read_action embed
read_payment-embed p = rw (
  read_actor-embed p.sender,
  read_actor-embed p.receiver,
  read_optional_text p.original_payment_reference_id,
  read_optional_text p.recipient_signature,
  read_optional_text p.description,
)

pub read_payment_command-any :
    (p : PaymentObject) → read_payment_command (payment_command_any p) ≡ ok p
unfolding read_payment_command
read_payment_command-any p = read_payment-embed p

pub read_request-any : (r : CommandRequestObject) → read_request (command_request_any r) ≡ ok r
unfolding read_request
read_request-any r = refl

optional_plain_text : (o : Option String) → read_optional read_text (none_or Any.str o) ≡ ok o
optional_plain_text none = refl
optional_plain_text (some s) = refl

optional_dict : (o : Option Members) → read_optional read_dict (none_or dict o) ≡ ok o
optional_dict none = refl
optional_dict (some ms) = refl

error_type_named-text : (t : OffChainErrorType) → error_type_named (error_type_text t) ≡ ok t
error_type_named-text command_error_type = refl
error_type_named-text protocol_error_type = refl

response_status_named-text :
    (s : CommandResponseStatus) → response_status_named (response_status_text s) ≡ ok s
response_status_named-text success = refl
response_status_named-text failure = refl

optional_error :
    (o : Option OffChainErrorObject)
    → read_optional read_error (none_or off_chain_error_any o) ≡ ok o
unfolding read_error
optional_error none = refl
optional_error (some e) =
    rw (error_type_named-text e.type, optional_plain_text e.field, optional_plain_text e.message)

pub read_response-any : (r : CommandResponseObject) → read_response (command_response_any r) ≡ ok r
unfolding read_response
read_response-any r = rw (
  response_status_named-text r.status,
  optional_error r.error,
  optional_plain_text r.cid,
  optional_dict r.result,
)
