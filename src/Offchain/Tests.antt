-- ===== src/Offchain/Tests.antt =====
-- A payment from its first command to the settlement, and the checks on it.
use client_sdk_python.Base.{
  ℕ, sym, ◌≤◌, ◌<◌, ◌≡◌, ◌≢◌, ◌↔◌, refl, String, Bool, true, false, Option, none, some, [], ◌∷◌, ok,
  err,
}
use client_sdk_python.Base.Int.{pos}
use client_sdk_python.Offchain.Objects.{get_attr, obj_eq}
use client_sdk_python.Offchain.PaymentTypes.{
  Status, StatusObject, KycDataObject, PaymentActorObject, PaymentObject, payment_obj, unset,
  needs_kyc_data, ready_for_settlement, abort,
}
use client_sdk_python.Offchain.State.{
  match_state, match_states, match_in_state, match_condition, match_field, match_value, resolve,
  is_valid_transition, has_transition, is_initial, contains,
}
use client_sdk_python.Offchain.PaymentState.{
  machine, s_init, r_send, ready, trigger_actor, follow_up_action,
}
use client_sdk_python.Offchain.PaymentState.Table.{outlook, state_table, match_state-table}
use client_sdk_python.Offchain.PaymentState.Progress.{
  rank, transition_progress, follow_up_turn, has_action,
}
use client_sdk_python.Offchain.WriteOnce.{payment_marks, check_mark, validate_write_once_fields}
use client_sdk_python.Offchain.WriteOnce.Respect.{Respects, validate_write_once_fields_iff}
use client_sdk_python.Offchain.PaymentCommand.{
  PaymentCommand, state, validate, validate_state_trigger_actor, state_trigger_actor,
  validate_actor_object, validate_write_once, validate_transition, command_is_valid_transition,
  validate_is_initial, command_is_initial, counterparty_actor, my_actor_obj, is_sender,
  too_many_states_matched_error,
}
use client_sdk_python.Offchain.Accepts.{Accepts, validate_iff}
use client_sdk_python.Offchain.Accepts.First.{Opens, validate-none_iff, validate-both_abort}
use client_sdk_python.Offchain.Deal.{IsSameDeal}
use client_sdk_python.Offchain.Exchange.{
  Exchange, opened, updated, reached, answered, Exchange-bounded, Exchange-IsSameDeal,
}
use client_sdk_python.Offchain.NewCommand.{Changes, init, new_command}
use client_sdk_python.Offchain.NewCommand.Laws.{
  received, validate-init, validate_actor_object-new_command,
}
use client_sdk_python.Offchain.PaymentCommand.{counterparty_address, counterparty_actor_obj}

abbrev status_of : Status → StatusObject
status_of s = record { status = s; abort_code = none; abort_message = none }

abbrev person : String → KycDataObject
person name = record {
  type = "individual";
  payload_version = pos 1;
  given_name = some name;
  surname = none;
  address = none;
  dob = none;
  place_of_birth = none;
  national_id = none;
  legal_entity_name = none;
}

abbrev actor_of : String → Status → Option KycDataObject → PaymentActorObject
actor_of address s kyc = record {
  address = address;
  status = status_of s;
  kyc_data = kyc;
  metadata = none;
  additional_kyc_data = none;
}

abbrev payment_of : PaymentActorObject → PaymentActorObject → Option String → PaymentObject
payment_of from to signature = record {
  reference_id = "4185027f-0574-6f55-2668-3a38fdb5de98";
  sender = from;
  receiver = to;
  action = record {
    amount = pos 1000;
    currency = "XUS";
    action = "charge";
    timestamp = pos 1604902048;
  };
  original_payment_reference_id = none;
  recipient_signature = signature;
  description = none;
}

abbrev proposed : PaymentObject
proposed =
    payment_of (actor_of "alice" needs_kyc_data (some (person "Alice"))) (actor_of "bob" unset none)
      none

abbrev signed : PaymentObject
signed =
    payment_of (actor_of "alice" needs_kyc_data (some (person "Alice")))
      (actor_of "bob" ready_for_settlement (some (person "Bob"))) (some "cafe")

abbrev settled : PaymentObject
settled =
    payment_of (actor_of "alice" ready_for_settlement (some (person "Alice")))
      (actor_of "bob" ready_for_settlement (some (person "Bob"))) (some "cafe")

abbrev aborted : PaymentObject
aborted =
    payment_of (actor_of "alice" abort (some (person "Alice"))) (actor_of "bob" abort none) none

-- The commands as the receiver has them.
abbrev at_bob : PaymentObject → Bool → PaymentCommand
at_bob payment inbound = record {
  my_actor_address = "bob";
  payment = payment;
  inbound = inbound;
  cid = "1";
}

abbrev first_command : PaymentCommand
first_command = at_bob proposed true

abbrev second_command : PaymentCommand
second_command = at_bob signed false

abbrev third_command : PaymentCommand
third_command = at_bob settled true

first-accepted : validate first_command none ≡ ok tt
unfolding validate validate_state_trigger_actor state_trigger_actor validate_is_initial
    command_is_initial state machine match_state match_states match_in_state match_condition
    match_field match_value resolve get_attr obj_eq trigger_actor contains is_initial
    counterparty_actor is_sender
first-accepted = refl

second-accepted : validate second_command (some first_command) ≡ ok tt
unfolding validate validate_state_trigger_actor validate_actor_object validate_write_once
    validate_transition command_is_valid_transition state machine match_state match_states
    match_in_state match_condition match_field match_value resolve get_attr obj_eq
    validate_write_once_fields check_mark is_valid_transition has_transition
second-accepted = refl

third-accepted : validate third_command (some second_command) ≡ ok tt
unfolding validate validate_state_trigger_actor state_trigger_actor validate_actor_object
    validate_write_once validate_transition command_is_valid_transition state machine match_state
    match_states match_in_state match_condition match_field match_value resolve get_attr obj_eq
    validate_write_once_fields check_mark is_valid_transition has_transition trigger_actor contains
    counterparty_actor my_actor_obj is_sender
third-accepted = refl

match_state-table_example :
    outlook (match_state machine (payment_obj signed))
    ≡ state_table signed needs_kyc_data ready_for_settlement
match_state-table_example = match_state-table signed

transition_progress_example :
    (rank s_init < rank r_send) × (rank r_send ≤ 7) × (trigger_actor s_init ≢ trigger_actor r_send)
unfolding is_valid_transition has_transition machine
transition_progress_example = transition_progress s_init r_send refl

follow_up_turn_example :
    (follow_up_action (trigger_actor r_send) r_send ≡ some none)
    × (has_action (follow_up_action (trigger_actor ready) r_send) ≡ true)
unfolding is_valid_transition has_transition machine
follow_up_turn_example = follow_up_turn r_send ready refl

validate_write_once_fields_iff_example :
    (validate_write_once_fields payment_marks
        ("payment" ∷ [])
        (payment_obj signed)
        (payment_obj proposed)
      ≡ ok tt)
    ↔ Respects payment_marks (payment_obj signed) (payment_obj proposed)
validate_write_once_fields_iff_example =
    validate_write_once_fields_iff payment_marks ("payment" ∷ []) (payment_obj signed)
      (payment_obj proposed)

validate_iff_example :
    (validate second_command (some first_command) ≡ ok tt) ↔ Accepts second_command first_command
validate_iff_example = validate_iff second_command first_command

validate-none_iff_example : (validate first_command none ≡ ok tt) ↔ Opens first_command
validate-none_iff_example = validate-none_iff first_command

validate-both_abort_example :
    validate (at_bob aborted true) (some first_command) ≡ err too_many_states_matched_error
validate-both_abort_example =
    validate-both_abort (at_bob aborted true) (some first_command) refl refl refl

settlement : Exchange first_command 2 third_command
settlement = updated (updated (opened first_command first-accepted) second-accepted) third-accepted

Exchange-bounded_example : 2 ≤ 6
Exchange-bounded_example = Exchange-bounded first_command third_command 2 settlement

-- What the receiver has disclosed and signed in the second command is kept in the third.
Exchange-IsSameDeal_example :
    (m : ℕ) × Exchange first_command m third_command × IsSameDeal settled signed
Exchange-IsSameDeal_example =
    Exchange-IsSameDeal first_command second_command third_command 1
      (updated (opened first_command first-accepted) second-accepted)
      (answered (reached second_command) third-accepted)

apart : ◌≢◌ {A = String} "alice" "bob"
apart e = absurd (cc)

-- Bob's answer to the first command.
abbrev bobs_changes : Changes
bobs_changes = record {
  status = some ready_for_settlement;
  kyc_data = some (person "Bob");
  additional_kyc_data = none;
  abort_code = none;
  abort_message = none;
  metadata = [];
}

validate-init_example :
    validate
      (received "bob" (
        init "r"
          (pos 1604902048)
          "c"
          "alice"
          (person "Alice")
          "bob"
          (pos 1000)
          "XUS"
          none
          none
          false
          none))
      none
    ≡ ok tt
validate-init_example =
    validate-init "r" (pos 1604902048) "c" "alice" (person "Alice") "bob" (pos 1000) "XUS" none none
      false none apart

bob_to_alice : counterparty_address first_command ≡ "alice"
unfolding counterparty_address counterparty_actor_obj is_sender
bob_to_alice = refl

validate_actor_object-new_command_example :
    validate_actor_object
      (received "alice" (new_command first_command "2" (some "cafe") bobs_changes false))
      (received "alice" first_command)
    ≡ ok tt
validate_actor_object-new_command_example =
    validate_actor_object-new_command first_command "2" (some "cafe") bobs_changes false "alice"
      (λ e. apart (sym e)) bob_to_alice
