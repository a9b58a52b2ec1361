-- ===== src/Offchain/Client/Requests/EndToEnd.antt =====
-- A request from the wallet that makes it to the wallet that processes it, and the reply back.
use client_sdk_python.Base.{
  ℕ, ◌≡◌, refl, ap, ◌∙◌, String, str_eq, eq_iff, true, false, Bool-cases, inl, inr, List, ok,
}
use client_sdk_python.Jws.{JsonCodec}
use client_sdk_python.Offchain.PaymentTypes.{PaymentObject, payment_obj}
use client_sdk_python.Offchain.PaymentCommand.{PaymentCommand}
use client_sdk_python.Offchain.Wallet.{Wallet}
use client_sdk_python.Offchain.Client.{
  get_inbound_request_sender_public_key, process_inbound_payment,
}
use client_sdk_python.Offchain.Json.{asdict, delete_none}
use client_sdk_python.Offchain.Json.Schema.{uuid_match, payment_command_object_type}
use client_sdk_python.Offchain.Json.Plain.{plain, plain_members-plain, IsPlain, is_distinct}
use client_sdk_python.Offchain.Json.RoundTrip.{from_dict-plain}
use client_sdk_python.Offchain.Json.Command.{
  command_request_any, payment_command_any, payment_command_members, new_payment_request,
  new_request,
}
use client_sdk_python.Offchain.Json.Payment.{IsPayment, payment_command-HasType, request-HasType}
use client_sdk_python.Offchain.Json.Fields.{embed-IsPlain}
use client_sdk_python.Offchain.Json.Read.Laws.{read_request-any, read_payment_command-any}
use client_sdk_python.Offchain.Wire.{raising, serialize}
use client_sdk_python.Offchain.Wire.RoundTrip.{Carries, deserialize-serialize}
use client_sdk_python.Offchain.Client.Requests.{
  by_inbound, deserialize_command, deserialize_jws, deserialize_inbound_request,
  process_inbound_payment_command_request, process_inbound_request,
}

no_id : uuid_match "" ≡ false
unfolding uuid_match
no_id = refl

-- An id that matches is not empty.
not_empty : (cid : String) → uuid_match cid ≡ true → str_eq cid "" ≡ false
not_empty cid h = elim (Bool-cases (str_eq cid "")) [
  | inr other ↦ other
  | inl same ↦ cc ((eq_iff cid "").0 same, h, no_id)
]

request_cid :
    (new_id : String) (cmd : PaymentCommand)
    → uuid_match cmd.cid ≡ true
    → (new_request new_id cmd).cid ≡ cmd.cid
unfolding new_request new_payment_request
request_cid new_id cmd h = rw (not_empty cmd.cid h)

payment_command-IsPlain : (p : PaymentObject) → IsPlain (payment_command_any p)
unfolding IsPlain
payment_command-IsPlain p = (tt, (embed-IsPlain (payment_obj p), tt))

request-IsPlain :
    (new_id : String) (cmd : PaymentCommand)
    → IsPlain (command_request_any (new_request new_id cmd))
unfolding IsPlain new_request new_payment_request
request-IsPlain new_id cmd =
    (tt, (tt, (plain_members-plain (payment_command_members cmd.payment), (tt, tt))))

command_loaded :
    (new_id : String) (cmd : PaymentCommand)
    → IsPayment cmd.payment
    → deserialize_command (new_request new_id cmd).command payment_command_object_type
      ≡ ok (payment_command_any cmd.payment)
unfolding deserialize_command new_request new_payment_request asdict delete_none is_distinct
command_loaded new_id cmd h =
    let read =
      from_dict-plain payment_command_object_type "command" (payment_command_any cmd.payment) refl
        (payment_command-HasType cmd.payment h) (payment_command-IsPlain cmd.payment) in
    rw read

is_payment_command :
    (new_id : String) (cmd : PaymentCommand)
    → str_eq (new_request new_id cmd).command_type "PaymentCommand" ≡ true
unfolding new_request new_payment_request
is_payment_command new_id cmd = refl

module _ (json : JsonCodec) (wallet : Wallet) where
  -- The request of a payment command, whose id is a UUID and whose payment has what the classes ask of
  -- it, is serialized; a wallet that gets the message from an address that is not empty, and finds for
  -- it a key that verifies the signatures, does with it what it does with the payment: the outcome is
  -- that of processing the payment with the id of the command. The codecs carry the request.
  pub process_inbound_request-serialize :
      (request_sender_address new_id : String) (cmd : PaymentCommand) (key : List ℕ)
      (sign : List ℕ → List ℕ)
      → uuid_match cmd.cid ≡ true
      → IsPayment cmd.payment
      → str_eq request_sender_address "" ≡ false
      → get_inbound_request_sender_public_key wallet request_sender_address ≡ ok key
      → Carries json wallet.utf8
          (plain (command_request_any (new_request new_id cmd)))
          sign
          (wallet.verify key)
      → (msg : List ℕ) × (serialize json wallet.utf8
            (command_request_any (new_request new_id cmd))
            sign
          ≡ ok msg)
        × (process_inbound_request json wallet request_sender_address msg
            ≡ raising by_inbound
                (process_inbound_payment wallet request_sender_address cmd.cid cmd.payment))
  unfolding process_inbound_request deserialize_inbound_request deserialize_jws
      process_inbound_payment_command_request is_distinct
  process_inbound_request-serialize request_sender_address new_id cmd key sign id h set found
        carries =
      let same = request_cid new_id cmd id in
      let request = new_request new_id cmd in
      let typed = request-HasType request (ap uuid_match same ∙ id) in
      let (msg, sent, got) =
        deserialize-serialize json wallet.utf8 "CommandRequestObject" _
          (command_request_any request) sign (wallet.verify key) refl typed
          (request-IsPlain new_id cmd) carries in
      let read = read_request-any request in
      let command = command_loaded new_id cmd h in
      let payment = read_payment_command-any cmd.payment in
      (msg, sent, rw (set, found, got, read, is_payment_command new_id cmd, command, payment, same))
