-- ===== src/Offchain/Client.antt =====
-- Inbound payment commands: `process_inbound_payment_command_request` of src/diem/offchain/client.py,
-- after the request is deserialized. The chain and the signature scheme are given by `Wallet`.
pub mod Inbound
pub mod Sample
pub mod Requests
mod Tests
use client_sdk_python.Base.{
  ℕ, ◌<◌, String, str_eq, Bool, true, false, ◌&&◌, ◌||◌, not, Option, none, some, List, [], ◌∷◌,
  if◌then◌else◌, Outcome, ok, err, ◌>>=◌, ◌>>◌, raise_if,
}
use client_sdk_python.Base.Int.{ℤ, pos, negsuc}
use client_sdk_python.Bcs.Error.{Error, overflow_error}
use client_sdk_python.Bcs.Types.{Utf8, Value}
use client_sdk_python.Identifier.Text.{Text, text_eq, StrCase}
use client_sdk_python.Identifier.Account.{
  IdentifierError, value_error, encode_account, decode_account, decode_account_address,
}
use client_sdk_python.JsonRpc.State.{ClientError, lt_int}
use client_sdk_python.JsonRpc.Accounts.{
  Account, AccountError, account_not_found, no_compliance_key, bad_key, is_set, get_account,
  get_base_url_and_compliance_key,
}
use client_sdk_python.Offchain.PaymentTypes.{PaymentObject, PaymentActorObject}
use client_sdk_python.Offchain.PaymentCommand.{
  PaymentCommand, CommandError, command_is_initial, is_rsend,
}
use client_sdk_python.TxnMetadata.{travel_rule}
use client_sdk_python.TxnMetadata.Message.{address_of}
use client_sdk_python.Utils.{
  AccountAddress, AddressError, AddressArg, address, hex_text, to_bytes, account_address,
}
use client_sdk_python.Utils.Hex.{fromhex}
use client_sdk_python.Offchain.Wallet.{
  Wallet, CurrencyInfo, InboundError, invalid_field_value, invalid_http_header, unknown_address,
  no_kyc_needed, unsupported_currency, invalid_recipient_signature, by_command, by_identifier,
  by_account, by_client, by_serializer, recursion_error, raising, unless_value_error,
}
use client_sdk_python.Offchain.Limits.{
  one_of, codes_of, filter_supported_currency_codes, any_under, validate_currency_code,
  is_under_dual_attestation_limit,
}

module _ (wallet : Wallet) where
  abbrev pub validate_actor_address : PaymentActorObject → Outcome InboundError (Unit {0})
  validate_actor_address actor = do
    raising (unless_value_error invalid_field_value)
        (decode_account wallet.case (wallet.points actor.address) wallet.hrp)
    ok tt

  unfoldable pub validate_addresses : PaymentObject → String → Outcome InboundError (Unit {0})
  validate_addresses payment request_sender_address = do
    validate_actor_address payment.sender
    validate_actor_address payment.receiver
    raise_if
        (not
          (one_of request_sender_address (payment.sender.address ∷ payment.receiver.address ∷ [])))
        invalid_http_header

  abbrev pub account_id : AddressArg → Outcome InboundError Text
  account_id arg = do
    a ← raising (λ e. by_identifier (IdentifierError.conversion e)) (account_address arg)
    raising by_identifier (encode_account (address a) none wallet.hrp)

  -- `account and account.role.parent_vasp_address`, and the comparison with the parent's id.
  abbrev pub is_my_parent : Option Account → Outcome InboundError Bool
  is_my_parent none = ok false
  is_my_parent (some account) =
      let parent = account_id (hex_text account.parent_vasp_address) >>= λ id.
      ok (text_eq wallet.my_compliance_key_account_id id) in
      if is_set account.parent_vasp_address then parent else ok false

  unfoldable pub is_my_account_id : String → Outcome InboundError Bool
  is_my_account_id id = do
    decoded ← raising by_identifier (decode_account wallet.case (wallet.points id) wallet.hrp)
    own ← account_id (address decoded.0)
    let parent =
          raising by_account (get_account wallet.lookup (address decoded.0)) >>= is_my_parent in
        if text_eq wallet.my_compliance_key_account_id own then ok true else parent

  abbrev pub inbound_command : String → PaymentObject → String → PaymentCommand
  inbound_command cid obj my_actor_address = record {
    my_actor_address = my_actor_address;
    payment = obj;
    inbound = true;
    cid = cid;
  }

  -- `if await self.is_my_account_id(obj.receiver.address): ...`, and the `raise` after it.
  abbrev pub if_receives : Bool → String → PaymentObject → Outcome InboundError PaymentCommand
  if_receives true cid obj = ok (inbound_command cid obj obj.receiver.address)
  if_receives false cid obj = err unknown_address

  abbrev pub if_sends :
      Bool
      → String
      → PaymentObject
      → Outcome InboundError PaymentCommand
      → Outcome InboundError PaymentCommand
  if_sends true cid obj otherwise = ok (inbound_command cid obj obj.sender.address)
  if_sends false cid obj otherwise = otherwise

  unfoldable pub create_inbound_payment_command :
      String → PaymentObject → Outcome InboundError PaymentCommand
  unfolding is_my_account_id
  create_inbound_payment_command cid obj = do
    sends ← is_my_account_id obj.sender.address
    if_sends sends cid obj
        (is_my_account_id obj.receiver.address >>= λ receives. if_receives receives cid obj)

  -- `cmd.travel_rule_metadata_signature_message(self.hrp)`; a negative amount does not fit the message.
  unfoldable pub signature_message : PaymentCommand → Outcome InboundError (List ℕ)
  signature_message cmd = do
    sender ←
        raising by_identifier
          (decode_account_address wallet.case (wallet.points cmd.payment.sender.address) wallet.hrp)
    written ← raising by_serializer (
        attested (wallet.points cmd.payment.reference_id) (address_of (to_bytes sender))
          cmd.payment.action.amount)
    ok written.1
    where
      attested : List ℕ → Value → ℤ → Outcome Error (List ℕ × List ℕ)
      attested id sender (pos amount) = travel_rule wallet.utf8 id sender amount
      attested id sender (negsuc amount) = err overflow_error

  -- `public_key.verify(bytes.fromhex(sig), msg)`, in the `try` that turns every failure into one code.
  abbrev pub verifies : List ℕ → Option (List ℕ) → List ℕ → Bool
  verifies key none msg = false
  verifies key (some sig) msg = wallet.verify key sig msg

  abbrev pub signature_verifies : List ℕ → Option String → List ℕ → Bool
  signature_verifies key none msg = false
  signature_verifies key (some sig) msg = verifies key (fromhex (wallet.points sig)) msg

  unfoldable pub validate_recipient_signature :
      PaymentCommand → List ℕ → Outcome InboundError (Unit {0})
  unfolding signature_message
  validate_recipient_signature cmd public_key = do
    msg ← signature_message cmd
    raise_if (not (signature_verifies public_key cmd.payment.recipient_signature msg))
        invalid_recipient_signature

  -- `except ValueError` around `get_base_url_and_compliance_key`; `AccountNotFoundError` is one.
  abbrev pub unless_key_error : AccountError → InboundError
  unless_key_error account_not_found = invalid_http_header
  unless_key_error no_compliance_key = invalid_http_header
  unless_key_error bad_key = invalid_http_header
  unless_key_error e = by_account e

  abbrev pub key_or_raise :
      Option (Outcome AccountError (Text × List ℕ)) → Outcome InboundError (List ℕ)
  key_or_raise none = err recursion_error
  key_or_raise (some (err e)) = err (unless_key_error e)
  key_or_raise (some (ok (base_url, key))) = ok key

  unfoldable pub get_inbound_request_sender_public_key : String → Outcome InboundError (List ℕ)
  get_inbound_request_sender_public_key request_sender_address = do
    decoded ←
        raising (unless_value_error invalid_http_header)
          (decode_account wallet.case (wallet.points request_sender_address) wallet.hrp)
    key_or_raise (
        get_base_url_and_compliance_key wallet.lookup wallet.is_key wallet.recursion_limit
          (address decoded.0))

  unfoldable pub validate_dual_attestation_limit : PaymentCommand → Outcome InboundError (Unit {0})
  unfolding is_under_dual_attestation_limit
  validate_dual_attestation_limit cmd = do
    under ←
        is_under_dual_attestation_limit wallet cmd.payment.action.currency cmd.payment.action.amount
    raise_if under no_kyc_needed

  -- `elif cmd.is_rsend(): ...`
  unfoldable pub check_signed : String → PaymentCommand → Outcome InboundError (Unit {0})
  unfolding get_inbound_request_sender_public_key validate_recipient_signature
  check_signed request_sender_address cmd = do
    public_key ← get_inbound_request_sender_public_key request_sender_address
    validate_recipient_signature cmd public_key

  abbrev pub if_rsend : Bool → Outcome InboundError (Unit {0}) → Outcome InboundError (Unit {0})
  if_rsend true signed = signed
  if_rsend false signed = ok tt

  abbrev pub if_initial :
      Bool
      → Outcome InboundError (Unit {0})
      → Outcome InboundError (Unit {0})
      → Outcome InboundError (Unit {0})
  if_initial true limited otherwise = limited
  if_initial false limited otherwise = otherwise

  -- `if cmd.is_initial(): ...`, `elif cmd.is_rsend(): ...`
  unfoldable pub check_state : String → PaymentCommand → Outcome InboundError (Unit {0})
  unfolding validate_dual_attestation_limit check_signed
  check_state request_sender_address cmd = do
    initial ← raising by_command (command_is_initial cmd)
    if_initial initial (validate_dual_attestation_limit cmd) (
        raising by_command (is_rsend cmd) >>= λ rsend.
        if_rsend rsend (check_signed request_sender_address cmd))

  unfoldable pub process_inbound_payment :
      String → String → PaymentObject → Outcome InboundError PaymentCommand
  unfolding validate_addresses create_inbound_payment_command check_state
  process_inbound_payment request_sender_address cid payment = do
    validate_addresses payment request_sender_address
    cmd ← create_inbound_payment_command cid payment
    check_state request_sender_address cmd
    ok cmd
