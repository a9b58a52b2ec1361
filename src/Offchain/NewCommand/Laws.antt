-- ===== src/Offchain/NewCommand/Laws.antt =====
-- What the other side finds in the commands that `init` and `new_command` make.
use client_sdk_python.Base.{
  ◌≡◌, ◌≢◌, refl, sym, ◌∙◌, ap, String, str_eq, eq_iff, Bool, true, false, Bool-cases, inl, inr,
  Option, none, ok,
}
use client_sdk_python.Base.Int.{ℤ}
use client_sdk_python.Offchain.Objects.{obj_eq, get_attr}
use client_sdk_python.Offchain.PaymentTypes.{KycDataObject, actor_obj}
use client_sdk_python.Offchain.State.{
  match_state, match_states, match_in_state, match_condition, match_field, match_value, resolve,
  contains,
}
use client_sdk_python.Offchain.PaymentState.{machine, s_init, sender, trigger_actor}
use client_sdk_python.Offchain.PaymentCommand.{
  PaymentCommand, validate_actor_object, state, validate, is_sender, my_actor_obj,
  counterparty_actor_obj, counterparty_actor, counterparty_address,
}
use client_sdk_python.Offchain.Accepts.{validate_actor_object_iff}
use client_sdk_python.Offchain.Accepts.First.{validate-none_iff}
use client_sdk_python.Offchain.NewCommand.{init, new_command, new_payment_object, Changes}

-- The command that an actor sends, as the other side, with the address `peer`, receives it.
abbrev pub received : String → PaymentCommand → PaymentCommand
received peer c = record {
  my_actor_address = peer;
  payment = c.payment;
  inbound = true;
  cid = c.cid;
}

str_eq_refl : (s : String) → str_eq s s ≡ true
str_eq_refl s = (eq_iff s s).1 refl

str_eq_apart : (a b : String) → a ≢ b → str_eq a b ≡ false
str_eq_apart a b apart = elim (Bool-cases (str_eq a b)) [
  | inl same ↦ absurd (apart ((eq_iff a b).0 same))
  | inr other ↦ other
]

-- A payment command as the side that is not its sender has it.
receiver-turn :
    (c : PaymentCommand)
    → c.payment.sender.address ≢ c.my_actor_address
    → counterparty_actor c ≡ sender
unfolding counterparty_actor is_sender
receiver-turn c apart = rw (str_eq_apart c.payment.sender.address c.my_actor_address apart)

init-state :
    (p : PaymentCommand) (new_id : String) (now : ℤ) (sender_id : String) (kyc : KycDataObject)
    (receiver_id : String) (amount : ℤ) (currency : String)
    (original description reference : Option String)
    → p.payment
      ≡ new_payment_object new_id now sender_id kyc receiver_id amount currency original description
          reference
    → state p ≡ ok s_init
unfolding state machine match_state match_states match_in_state match_condition match_field
    match_value resolve get_attr obj_eq
init-state p new_id now sender_id kyc receiver_id amount currency original description reference e =
    rw e

-- The payment of `init` is accepted as the first command of an exchange by a receiver with another
-- address, whatever the arguments are.
pub validate-init :
    (new_id : String) (now : ℤ) (cid sender_id : String) (kyc : KycDataObject)
    (receiver_id : String) (amount : ℤ) (currency : String) (original description : Option String)
    (inbound : Bool) (reference : Option String)
    → sender_id ≢ receiver_id
    → validate
        (received receiver_id (
          init new_id now cid sender_id kyc receiver_id amount currency original description inbound
            reference))
        none
      ≡ ok tt
unfolding trigger_actor contains
validate-init new_id now cid sender_id kyc receiver_id amount currency original description inbound
      reference apart =
    let c = received receiver_id (
      init new_id now cid sender_id kyc receiver_id amount currency original description inbound
        reference) in
    (validate-none_iff c).1 (
      s_init,
      init-state c new_id now sender_id kyc receiver_id amount currency original description
          reference refl,
      refl,
      λ _. receiver-turn c apart,
    )

new_command-kept :
    (c : PaymentCommand) (cid : String) (signature : Option String) (changes : Changes)
    (inbound : Bool) (peer : String)
    → c.my_actor_address ≢ peer
    → counterparty_address c ≡ peer
    → my_actor_obj (received peer (new_command c cid signature changes inbound))
      ≡ my_actor_obj (received peer c)
unfolding new_command is_sender my_actor_obj counterparty_actor_obj counterparty_address
new_command-kept c cid signature changes inbound peer apart at =
    elim (Bool-cases (str_eq c.payment.sender.address c.my_actor_address)) [
      | inl mine ↦
          let mine_at = (eq_iff c.payment.sender.address c.my_actor_address).0 mine in
          rw (mine, str_eq_apart c.payment.sender.address peer (λ q. apart (sym mine_at ∙ q)))
      | inr theirs ↦
          let their_at : c.payment.sender.address ≡ peer =
            rw (counterparty_address, counterparty_actor_obj, is_sender, theirs) at at in
          rw (theirs, (eq_iff c.payment.sender.address peer).1 their_at)
    ]

-- The other side finds its own actor object unchanged in what `new_command` makes of a command, so that
-- check always passes, where the two actors have different addresses.
pub validate_actor_object-new_command :
    (c : PaymentCommand) (cid : String) (signature : Option String) (changes : Changes)
    (inbound : Bool) (peer : String)
    → c.my_actor_address ≢ peer
    → counterparty_address c ≡ peer
    → validate_actor_object
        (received peer (new_command c cid signature changes inbound))
        (received peer c)
      ≡ ok tt
validate_actor_object-new_command c cid signature changes inbound peer apart at =
    let new = received peer (new_command c cid signature changes inbound) in
    (validate_actor_object_iff new (received peer c)).1
      (λ _. ap actor_obj (new_command-kept c cid signature changes inbound peer apart at))
