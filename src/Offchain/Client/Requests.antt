-- ===== src/Offchain/Client/Requests.antt =====
-- Requests in and out: the rest of src/diem/offchain/client.py around the processing of a payment.
pub mod EndToEnd
pub mod Response
mod Tests
use client_sdk_python.Base.{
  ℕ, ◌<◌, String, str_eq, Bool, true, false, ◌&&◌, ◌||◌, not, Option, none, some, List, [], ◌∷◌,
  ◌++◌, ◌==◌, leb, if◌then◌else◌, Outcome, ok, err, ◌>>=◌, ◌>>◌, raise_if,
}
use client_sdk_python.Identifier.Text.{Text}
use client_sdk_python.Identifier.Account.{decode_account}
use client_sdk_python.JsonRpc.Accounts.{AccountError, get_base_url_and_compliance_key}
use client_sdk_python.Utils.{address}
use client_sdk_python.Jws.{JsonCodec, JwsError, invalid_signature}
use client_sdk_python.Offchain.PaymentTypes.{PaymentObject}
use client_sdk_python.Offchain.PaymentCommand.{PaymentCommand, counterparty_address}
use client_sdk_python.Offchain.Wallet.{
  Wallet, InboundError, by_account, by_identifier, recursion_error,
}
use client_sdk_python.Offchain.Client.{
  get_inbound_request_sender_public_key, process_inbound_payment, unless_key_error,
}
use client_sdk_python.Offchain.Json.{Any, Members, dict}
use client_sdk_python.Offchain.Json.Schema.{
  FieldType, points, command_request_object_type, command_response_object_type,
  payment_command_object_type,
}
use client_sdk_python.Offchain.Json.Load.{ErrorCode, LoadError, field_error, unhashable, from_dict}
use client_sdk_python.Offchain.Json.Read.{
  ReadError, read_payment_command, read_request, read_response,
}
use client_sdk_python.Offchain.Json.Command.{
  CommandRequestObject, CommandResponseObject, CommandResponseStatus, success, failure,
  ReferenceIdCommandObject, command_request_any, new_request, reference_id_request, ping_request,
}
use client_sdk_python.Offchain.Wire.{
  WireError, by_jws, by_load, by_asdict, json_decode_error, raising, serialize, deserialize,
}

-- An `Error` whose object has the type `protocol_error` or `command_error`, by its code and field;
-- the exceptions of the processing of a payment; `CommandResponseError`; the error of an HTTP status;
-- and the exceptions that nothing turns into one of these.
pub data RequestError : Type 0 where
  protocol_error command_error : ErrorCode → Option String → RequestError
  by_inbound : InboundError → RequestError
  command_response_error : CommandResponseObject → RequestError
  http_error : ℕ → RequestError
  by_wire : WireError → RequestError
  by_read : ReadError → RequestError
  type_error : RequestError

-- The `except` clauses of `_deserialize_jws`; `JSONDecodeError` and `FieldError` are `ValueError`s.
abbrev pub jws_error : WireError → RequestError
jws_error json_decode_error = protocol_error ErrorCode.invalid_json none
jws_error (by_load (field_error code field)) = protocol_error code field
jws_error (by_load unhashable) = type_error
jws_error (by_jws invalid_signature) = protocol_error ErrorCode.invalid_jws_signature none
jws_error (by_jws e) = protocol_error ErrorCode.invalid_jws none
jws_error (by_asdict e) = type_error

abbrev pub command_load_error : LoadError → RequestError
command_load_error (field_error code field) = command_error code field
command_load_error unhashable = type_error

-- `deserialize_command`
unfoldable pub deserialize_command : Members → FieldType → Outcome RequestError Any
deserialize_command command klass =
    raising command_load_error (from_dict klass "command" (dict command))

-- What the counterparty's service answers to a request: the status and the body.
pub record Reply : Type 0 where
  pub status : ℕ
  pub body : List ℕ

-- A `post` of a url, the two headers of http_header.py and a body.
pub record HttpRequest : Type 0 where
  pub url : Text
  pub x_request_id : String
  pub x_request_sender_address : Text
  pub content : List ℕ

-- `base_url.rstrip('/')`
abbrev pub unless_slash : ℕ → Text → Text
unless_slash c [] = if c == 47 then [] else c ∷ []
unless_slash c (d ∷ ds) = c ∷ d ∷ ds

unfoldable pub rstrip_slash : Text → Text
rstrip_slash [] = []
rstrip_slash (c ∷ cs) = unless_slash c (rstrip_slash cs)

-- `if response.status not in [200, 400]: response.raise_for_status()`, which raises from 400 on.
abbrev pub raises_for_status : ℕ → Bool
raises_for_status status = not (status == 200 || status == 400) && leb 400 status

abbrev pub unless_failure : CommandResponseObject → Outcome RequestError CommandResponseObject
unless_failure resp = elim (resp.status) [
  | success ↦ ok resp
  | failure ↦ err (command_response_error resp)
]

abbrev pub url_or_raise :
    Option (Outcome AccountError (Text × List ℕ)) → Outcome RequestError (Text × List ℕ)
url_or_raise none = err (by_inbound recursion_error)
url_or_raise (some o) = raising (λ e. by_inbound (by_account e)) o

-- What is posted; `request_id` is what `uuid.uuid4()` gives.
abbrev pub post_of : Text → String → Text → List ℕ → HttpRequest
post_of base_url request_id request_sender_address request_bytes = record {
  url = rstrip_slash base_url ++ points "/v2/command";
  x_request_id = request_id;
  x_request_sender_address = request_sender_address;
  content = request_bytes;
}

unfoldable pub url_and_key : Wallet → Text → Outcome RequestError (Text × List ℕ)
url_and_key wallet account_id = do
  decoded ←
      raising (λ e. by_inbound (by_identifier e)) (decode_account wallet.case account_id wallet.hrp)
  url_or_raise (
      get_base_url_and_compliance_key wallet.lookup wallet.is_key wallet.recursion_limit
        (address decoded.0))

module _ (json : JsonCodec) (wallet : Wallet) where
  unfoldable pub deserialize_jws : List ℕ → FieldType → List ℕ → Outcome RequestError Any
  deserialize_jws content_bytes klass public_key =
      raising jws_error
        (deserialize json wallet.utf8 content_bytes klass (wallet.verify public_key))

  unfoldable pub deserialize_inbound_request :
      String → List ℕ → Outcome RequestError CommandRequestObject
  unfolding deserialize_jws
  deserialize_inbound_request request_sender_address request_bytes = do
    raise_if (str_eq request_sender_address "") (protocol_error ErrorCode.missing_http_header none)
    public_key ←
        raising by_inbound (get_inbound_request_sender_public_key wallet request_sender_address)
    request ← deserialize_jws request_bytes command_request_object_type public_key
    raising by_read (read_request request)

  unfoldable pub process_inbound_payment_command_request :
      String → CommandRequestObject → Outcome RequestError PaymentCommand
  unfolding deserialize_command
  process_inbound_payment_command_request request_sender_address request = do
    raise_if (not (str_eq request.command_type "PaymentCommand"))
        (protocol_error ErrorCode.unknown_command_type (some "command_type"))
    command ← deserialize_command request.command payment_command_object_type
    payment ← raising by_read (read_payment_command command)
    raising by_inbound (process_inbound_payment wallet request_sender_address request.cid payment)

  unfoldable pub process_inbound_request : String → List ℕ → Outcome RequestError PaymentCommand
  unfolding deserialize_inbound_request process_inbound_payment_command_request
  process_inbound_request request_sender_address request_bytes = do
    request ← deserialize_inbound_request request_sender_address request_bytes
    process_inbound_payment_command_request request_sender_address request

  module _ (post : HttpRequest → Reply) (request_id : String) where
    unfoldable pub send_request : Text → Text → List ℕ → Outcome RequestError CommandResponseObject
    unfolding url_and_key deserialize_jws rstrip_slash points
    send_request request_sender_address counterparty_account_id request_bytes = do
      found ← url_and_key wallet counterparty_account_id
      let response = post (post_of found.0 request_id request_sender_address request_bytes) in
          raise_if (raises_for_status response.status) (http_error response.status)
          >> deserialize_jws response.body command_response_object_type found.1
          >>= λ v. raising by_read (read_response v) >>= λ cmd_resp. unless_failure cmd_resp

    -- The request is signed and sent.
    abbrev pub send_signed :
        Text
        → Text
        → CommandRequestObject
        → (List ℕ → List ℕ)
        → Outcome RequestError CommandResponseObject
    send_signed request_sender_address counterparty_account_id request sign = do
      jws_msg ← raising by_wire (serialize json wallet.utf8 (command_request_any request) sign)
      send_request request_sender_address counterparty_account_id jws_msg

    -- `new_id` stands for the `uuid.uuid4()` of a request without `cid`.
    unfoldable pub send_command :
        String → PaymentCommand → (List ℕ → List ℕ) → Outcome RequestError CommandResponseObject
    unfolding send_request
    send_command new_id command sign =
        send_signed (wallet.points command.my_actor_address)
          (wallet.points (counterparty_address command)) (new_request new_id command) sign

    unfoldable pub ping :
        String
        → Text
        → (List ℕ → List ℕ)
        → Option String
        → Outcome RequestError CommandResponseObject
    unfolding send_request
    ping new_id counterparty_account_identifier sign cid =
        send_signed wallet.my_compliance_key_account_id counterparty_account_identifier
          (ping_request new_id cid) sign

    unfoldable pub ref_id_exchange_request :
        String
        → ReferenceIdCommandObject
        → Text
        → (List ℕ → List ℕ)
        → Option String
        → Outcome RequestError CommandResponseObject
    unfolding send_request
    ref_id_exchange_request new_id command counterparty_account_identifier sign cid =
        send_signed wallet.my_compliance_key_account_id counterparty_account_identifier
          (reference_id_request new_id command cid) sign
