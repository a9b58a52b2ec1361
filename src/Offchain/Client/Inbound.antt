-- ===== src/Offchain/Client/Inbound.antt =====
-- What an inbound command that is processed has passed.
use client_sdk_python.Base.{
  ℕ, ◌≡◌, ◌⊎◌, inl, inr, refl, sym, ap, ◌∙◌, subst, String, Bool, true, false, not-false, List, [],
  ◌∷◌, Outcome, ok, err, ◌>>=◌, raise_if, >>=-eq-ok, ok-injective,
}
use client_sdk_python.Offchain.PaymentTypes.{PaymentObject}
use client_sdk_python.Offchain.PaymentCommand.{PaymentCommand, command_is_initial, is_rsend}
use client_sdk_python.Offchain.Wallet.{Wallet, InboundError, by_command, raising}
use client_sdk_python.Offchain.Limits.{one_of, is_under_dual_attestation_limit}
use client_sdk_python.Offchain.Client.{
  validate_actor_address, validate_addresses, is_my_account_id, inbound_command, if_receives,
  if_sends, create_inbound_payment_command, signature_message, signature_verifies,
  validate_recipient_signature, get_inbound_request_sender_public_key,
  validate_dual_attestation_limit, check_signed, if_rsend, if_initial, check_state,
  process_inbound_payment,
}

raise_if-ok : {E : Type 0} (b : Bool) (e : E) {u : Unit {0}} → raise_if b e ≡ ok u → b ≡ false
raise_if-ok true e h = absurd (cc)
raise_if-ok false e h = refl

raising-ok :
    {E A : Type 0} (f : E → InboundError) (o : Outcome E A) {a : A} → raising f o ≡ ok a → o ≡ ok a
raising-ok f (ok a) h = ap ok (ok-injective h)
raising-ok f (err e) h = absurd (cc)

module _ (wallet : Wallet) (request_sender_address cid : String) (payment : PaymentObject) where
  -- The command is the one of an actor whose address is an account of the wallet.
  abbrev pub IsMine : PaymentCommand → String → Type 0
  IsMine cmd actor_address =
      (cmd ≡ inbound_command wallet cid payment actor_address)
      × (is_my_account_id wallet actor_address ≡ ok true)

  received :
      (receives : Bool) (cmd : PaymentCommand)
      → is_my_account_id wallet payment.receiver.address ≡ ok receives
      → if_receives wallet receives cid payment ≡ ok cmd
      → IsMine cmd payment.receiver.address
  received true cmd mine h = (sym (ok-injective h), mine)
  received false cmd mine h = absurd (cc)

  sent :
      (sends : Bool) (cmd : PaymentCommand)
      → is_my_account_id wallet payment.sender.address ≡ ok sends
      → if_sends wallet sends cid payment (
          is_my_account_id wallet payment.receiver.address >>= λ receives.
          if_receives wallet receives cid payment)
        ≡ ok cmd
      → IsMine cmd payment.sender.address ⊎ IsMine cmd payment.receiver.address
  sent true cmd mine h = inl (sym (ok-injective h), mine)
  sent false cmd mine h =
      let (receives, got, k) = >>=-eq-ok (is_my_account_id wallet payment.receiver.address) _ h in
      inr (received receives cmd got k)

  created :
      (cmd : PaymentCommand)
      → create_inbound_payment_command wallet cid payment ≡ ok cmd
      → IsMine cmd payment.sender.address ⊎ IsMine cmd payment.receiver.address
  unfolding create_inbound_payment_command
  created cmd h =
      let (sends, got, k) = >>=-eq-ok (is_my_account_id wallet payment.sender.address) _ h in
      sent sends cmd got k

  from_actor :
      {u : Unit {0}}
      → validate_addresses wallet payment request_sender_address ≡ ok u
      → one_of request_sender_address (payment.sender.address ∷ payment.receiver.address ∷ [])
        ≡ true
  unfolding validate_addresses
  from_actor h =
      let (u1, h1, k1) = >>=-eq-ok (validate_actor_address wallet payment.sender) _ h in
      let (u2, h2, k2) = >>=-eq-ok (validate_actor_address wallet payment.receiver) _ k1 in
      not-false _ (raise_if-ok _ InboundError.invalid_http_header k2)

  -- The key of the sender of the request verifies the recipient signature on the message.
  abbrev pub IsSigned : PaymentCommand → Type 0
  IsSigned cmd =
      (key : List ℕ) × (msg : List ℕ) × (get_inbound_request_sender_public_key wallet
          request_sender_address
        ≡ ok key)
      × (signature_message wallet cmd ≡ ok msg)
      × (signature_verifies wallet key cmd.payment.recipient_signature msg ≡ true)

  abbrev pub IsOverLimit : PaymentCommand → Type 0
  IsOverLimit cmd =
      is_under_dual_attestation_limit wallet cmd.payment.action.currency cmd.payment.action.amount
      ≡ ok false

  abbrev pub IsChecked : PaymentCommand → Type 0
  IsChecked cmd =
      ((command_is_initial cmd ≡ ok true) × IsOverLimit cmd)
      ⊎ ((command_is_initial cmd ≡ ok false)
          × (((is_rsend cmd ≡ ok true) × IsSigned cmd) ⊎ (is_rsend cmd ≡ ok false)))

  limited :
      (cmd : PaymentCommand) {u : Unit {0}}
      → validate_dual_attestation_limit wallet cmd ≡ ok u
      → IsOverLimit cmd
  unfolding validate_dual_attestation_limit
  limited cmd h =
      let amount =
        is_under_dual_attestation_limit wallet cmd.payment.action.currency
          cmd.payment.action.amount in
      let (under, got, k) = >>=-eq-ok amount _ h in
      got ∙ ap ok (raise_if-ok under InboundError.no_kyc_needed k)

  signed :
      (cmd : PaymentCommand) {u : Unit {0}}
      → check_signed wallet request_sender_address cmd ≡ ok u
      → IsSigned cmd
  unfolding check_signed validate_recipient_signature
  signed cmd h =
      let (key, got, k) =
        >>=-eq-ok (get_inbound_request_sender_public_key wallet request_sender_address) _ h in
      let (msg, made, k') = >>=-eq-ok (signature_message wallet cmd) _ k in
      (key, msg, got, made, not-false _ (raise_if-ok _ InboundError.invalid_recipient_signature k'))

  rsend_passed :
      (cmd : PaymentCommand) (rsend : Bool) {u : Unit {0}}
      → is_rsend cmd ≡ ok rsend
      → if_rsend wallet rsend (check_signed wallet request_sender_address cmd) ≡ ok u
      → ((is_rsend cmd ≡ ok true) × IsSigned cmd) ⊎ (is_rsend cmd ≡ ok false)
  rsend_passed cmd true e h = inl (e, signed cmd h)
  rsend_passed cmd false e h = inr e

  initial-IsChecked :
      (cmd : PaymentCommand) (initial : Bool) {u : Unit {0}}
      → command_is_initial cmd ≡ ok initial
      → if_initial wallet initial (validate_dual_attestation_limit wallet cmd) (
          raising by_command (is_rsend cmd) >>= λ rsend.
          if_rsend wallet rsend (check_signed wallet request_sender_address cmd))
        ≡ ok u
      → IsChecked cmd
  initial-IsChecked cmd true e h = inl (e, limited cmd h)
  initial-IsChecked cmd false e h =
      let (rsend, got, k) = >>=-eq-ok (raising by_command (is_rsend cmd)) _ h in
      inr (e, rsend_passed cmd rsend (raising-ok by_command (is_rsend cmd) got) k)

  state-IsChecked :
      (cmd : PaymentCommand) {u : Unit {0}}
      → check_state wallet request_sender_address cmd ≡ ok u
      → IsChecked cmd
  unfolding check_state
  state-IsChecked cmd h =
      let (initial, got, k) = >>=-eq-ok (raising by_command (command_is_initial cmd)) _ h in
      initial-IsChecked cmd initial (raising-ok by_command (command_is_initial cmd) got) k

  -- A payment that is processed gives an inbound command of the payment for the actor, sender or
  -- receiver, whose address is an account of the wallet; the request came from one of the two
  -- addresses; and the amount of an initial payment is not under the limit, and the recipient
  -- signature of a payment in R_SEND verifies with the key of the sender of the request.
  pub process_inbound_payment_ok :
      (cmd : PaymentCommand)
      → process_inbound_payment wallet request_sender_address cid payment ≡ ok cmd
      → (IsMine cmd payment.sender.address ⊎ IsMine cmd payment.receiver.address)
        × (one_of request_sender_address (payment.sender.address ∷ payment.receiver.address ∷ [])
            ≡ true)
        × IsChecked cmd
  unfolding process_inbound_payment
  process_inbound_payment_ok cmd h =
      let (u1, h1, k1) = >>=-eq-ok (validate_addresses wallet payment request_sender_address) _ h in
      let (made, h2, k2) = >>=-eq-ok (create_inbound_payment_command wallet cid payment) _ k1 in
      let (u3, h3, k3) = >>=-eq-ok (check_state wallet request_sender_address made) _ k2 in
      subst
        (λ c.
          (IsMine c payment.sender.address ⊎ IsMine c payment.receiver.address)
          × (one_of request_sender_address (payment.sender.address ∷ payment.receiver.address ∷ [])
              ≡ true)
          × IsChecked c)
        (ok-injective k3) (created made h2, from_actor h1, state-IsChecked made h3)
