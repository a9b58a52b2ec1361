-- ===== src/Offchain/Client/Tests.antt =====
-- An inbound payment at concrete data.
use client_sdk_python.Base.{◌≡◌, ◌⊎◌, refl, String, true, Option, none, some, [], ◌∷◌, ok}
use client_sdk_python.Base.Int.{pos}
use client_sdk_python.Identifier.Account.{decode_account, encode_account}
use client_sdk_python.Identifier.Bech32.{
  bech32_address_decode, bech32_address_encode, bech32_encode, decode_lower, decode_data,
}
use client_sdk_python.Identifier.Checksum.{bech32_create_checksum, bech32_verify_checksum}
use client_sdk_python.Identifier.ConvertBits.{convertbits}
use client_sdk_python.JsonRpc.Accounts.{get_account}
use client_sdk_python.Utils.{
  account_address, account_address_bytes, account_address_hex, from_bytes,
}
use client_sdk_python.Utils.Hex.{bytes_hex}
use client_sdk_python.Offchain.Objects.{get_attr, obj_eq}
use client_sdk_python.Offchain.State.{
  match_state, match_states, match_in_state, match_condition, match_field, match_value, resolve,
  is_initial, contains,
}
use client_sdk_python.Offchain.PaymentState.{machine}
use client_sdk_python.Offchain.PaymentCommand.{state, command_is_initial}
use client_sdk_python.Offchain.PaymentTypes.{
  Status, KycDataObject, PaymentActorObject, PaymentObject, unset, needs_kyc_data,
}
use client_sdk_python.Offchain.Limits.{is_under_dual_attestation_limit, validate_currency_code}
use client_sdk_python.Offchain.Client.{
  validate_addresses, create_inbound_payment_command, is_my_account_id, check_state,
  validate_dual_attestation_limit,
}
use client_sdk_python.Offchain.Limits.{one_of}
use client_sdk_python.Offchain.Client.{process_inbound_payment, inbound_command}
use client_sdk_python.Offchain.Client.Sample.{wallet}
use client_sdk_python.Offchain.Client.Inbound.{IsMine, IsChecked, process_inbound_payment_ok}

abbrev actor_of : String → Status → Option KycDataObject → PaymentActorObject
actor_of address s kyc = record {
  address = address;
  status = record { status = s; abort_code = none; abort_message = none };
  kyc_data = kyc;
  metadata = none;
  additional_kyc_data = none;
}

abbrev payment : PaymentObject
payment = record {
  reference_id = "1";
  sender = actor_of "alice" needs_kyc_data (
      some (record {
        type = "individual";
        payload_version = pos 1;
        given_name = some "Alice";
        surname = none;
        address = none;
        dob = none;
        place_of_birth = none;
        national_id = none;
        legal_entity_name = none;
      }));
  receiver = actor_of "bob" unset none;
  action = record { amount = pos 1000; currency = "XUS"; action = "charge"; timestamp = pos 0 };
  original_payment_reference_id = none;
  recipient_signature = none;
  description = none;
}

processed :
    process_inbound_payment wallet "alice" "7" payment
    ≡ ok (inbound_command wallet "7" payment "bob")
unfolding process_inbound_payment validate_addresses create_inbound_payment_command is_my_account_id
    check_state validate_dual_attestation_limit is_under_dual_attestation_limit
    validate_currency_code decode_account encode_account bech32_address_decode bech32_address_encode
    bech32_encode bech32_create_checksum decode_lower decode_data bech32_verify_checksum convertbits
    account_address account_address_bytes account_address_hex from_bytes get_account
    command_is_initial state machine match_state match_states match_in_state match_condition
    match_field match_value resolve get_attr obj_eq is_initial contains bytes_hex
processed = refl

process_inbound_payment_ok_example :
    (IsMine wallet "alice" "7" payment (inbound_command wallet "7" payment "bob") "alice"
      ⊎ IsMine wallet "alice" "7" payment (inbound_command wallet "7" payment "bob") "bob")
    × (one_of "alice" ("alice" ∷ "bob" ∷ []) ≡ true)
    × IsChecked wallet "alice" "7" payment (inbound_command wallet "7" payment "bob")
process_inbound_payment_ok_example =
    process_inbound_payment_ok wallet "alice" "7" payment (inbound_command wallet "7" payment "bob")
      processed
