-- ===== src/Offchain/Client/Requests/Tests.antt =====
-- A request and a reply at concrete data.
use client_sdk_python.Base.{ℕ, ◌≡◌, refl, true, none, some, List, [], ◌∷◌, ok, err}
use client_sdk_python.Bcs.Ascii.{ascii, ascii-laws}
use client_sdk_python.Identifier.Text.{Text}
use client_sdk_python.Identifier.Account.{decode_account}
use client_sdk_python.Identifier.Bech32.{bech32_address_decode, decode_lower, decode_data}
use client_sdk_python.Identifier.Checksum.{bech32_verify_checksum}
use client_sdk_python.Identifier.ConvertBits.{convertbits}
use client_sdk_python.JsonRpc.Accounts.{must_get_account, get_base_url_and_compliance_key}
use client_sdk_python.Utils.{
  account_address, account_address_bytes, account_address_hex, from_bytes,
}
use client_sdk_python.Utils.Hex.{fromhex, bytes_hex}
use client_sdk_python.Jws.{encode}
use client_sdk_python.Jws.Base64.{encode_b64url, rstrip_pad, urlsafe_b64encode}
use client_sdk_python.Jws.Sample.{codec_for, header_text, sign, verify, sign-IsByte, verify-sign}
use client_sdk_python.Offchain.Json.{Any, to_dict}
use client_sdk_python.Offchain.Json.Schema.{uuid_match, is_one_of, literal_eq, points}
use client_sdk_python.Offchain.Json.Plain.{plain}
use client_sdk_python.Offchain.Json.Sample.{sample_command, sample_payment, uuid}
use client_sdk_python.Offchain.Json.Payment.{IsPayment}
use client_sdk_python.Offchain.Json.Command.{
  OffChainErrorObject, protocol_error, command_request_any, command_response_any, new_request,
  reply_request,
}
use client_sdk_python.Offchain.Wire.{raising, serialize}
use client_sdk_python.Offchain.Wire.RoundTrip.{Carries}
use client_sdk_python.Offchain.Client.{
  get_inbound_request_sender_public_key, process_inbound_payment,
}
use client_sdk_python.Offchain.Client.Sample.{keyed_wallet, alice_text, bob_text}
use client_sdk_python.Offchain.Client.Requests.{
  by_inbound, command_response_error, process_inbound_request, send_request, url_and_key,
}
use client_sdk_python.Offchain.Client.Requests.EndToEnd.{process_inbound_request-serialize}
use client_sdk_python.Offchain.Client.Requests.Response.{send_request-reply}

carries : (v : Any) → Carries (codec_for v) ascii v sign verify
carries v = record {
  laws = ascii-laws;
  header_bytes = header_text;
  bytes = 123 ∷ 125 ∷ [];
  header_encoded = refl;
  header_read = refl;
  encoded = refl;
  read = refl;
  signed = sign-IsByte;
  verified = verify-sign;
}

abbrev request : Any
request = command_request_any (new_request "" sample_command)

uuid_matches : uuid_match uuid ≡ true
unfolding uuid_match
uuid_matches = refl

sample-IsPayment : IsPayment sample_payment
unfolding uuid_match is_one_of literal_eq
sample-IsPayment = (refl, (refl, refl), tt, refl, tt)

key_found : get_inbound_request_sender_public_key keyed_wallet "alice" ≡ ok (10 ∷ [])
unfolding get_inbound_request_sender_public_key decode_account bech32_address_decode decode_lower
    decode_data bech32_verify_checksum convertbits account_address account_address_bytes
    account_address_hex from_bytes must_get_account get_base_url_and_compliance_key fromhex
    bytes_hex
key_found = refl

process_inbound_request-serialize_example :
    (msg : List ℕ) × (serialize (codec_for (plain request)) ascii request sign ≡ ok msg)
    × (process_inbound_request (codec_for (plain request)) keyed_wallet "alice" msg
        ≡ raising by_inbound (process_inbound_payment keyed_wallet "alice" uuid sample_payment))
process_inbound_request-serialize_example =
    process_inbound_request-serialize (codec_for (plain request)) keyed_wallet "alice" ""
      sample_command (10 ∷ []) sign uuid_matches sample-IsPayment refl key_found
      (carries (plain request))

url_found : url_and_key keyed_wallet bob_text ≡ ok (104 ∷ 47 ∷ [], 10 ∷ [])
unfolding url_and_key decode_account bech32_address_decode decode_lower decode_data
    bech32_verify_checksum convertbits account_address account_address_bytes account_address_hex
    from_bytes must_get_account get_base_url_and_compliance_key fromhex bytes_hex
url_found = refl

abbrev refusal : OffChainErrorObject
refusal = protocol_error "invalid_json" "no json" none

abbrev reply : Any
reply = command_response_any (reply_request (some uuid) (some refusal) none)

-- The text of `reply` in base64 is `e30`.
abbrev reply_message : Text
unfolding points
reply_message = points "eyJhbGciOiJFZERTQSJ9.e30.GA"

reply_sent : serialize (codec_for (plain reply)) ascii reply sign ≡ ok reply_message
unfolding serialize to_dict encode encode_b64url rstrip_pad urlsafe_b64encode points reply_request
reply_sent = refl

send_request-reply_example :
    send_request
      (codec_for (plain reply))
      keyed_wallet
      (λ r. record { status = 400; body = reply_message })
      uuid
      alice_text
      bob_text
      []
    ≡ err (command_response_error (reply_request (some uuid) (some refusal) none))
send_request-reply_example =
    send_request-reply (codec_for (plain reply)) keyed_wallet
      (λ r. record { status = 400; body = reply_message }) uuid alice_text bob_text []
      (104 ∷ 47 ∷ []) (10 ∷ []) reply_message 400 sign (some uuid) (some refusal) none url_found
      refl refl tt (carries (plain reply)) reply_sent
