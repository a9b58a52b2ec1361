-- ===== src/Offchain/PaymentCommand.antt =====
-- A payment command and its validation: src/diem/offchain/payment_command.py.
use client_sdk_python.Base.{
  String, str_eq, Bool, ◌&&◌, ◌||◌, not, Option, none, some, List, [], ◌∷◌, if◌then◌else◌, Outcome,
  ok, err, ◌>>=◌, ◌>>◌, raise_if,
}
use client_sdk_python.Offchain.Objects.{obj_eq}
use client_sdk_python.Offchain.PaymentTypes.{
  PaymentObject, PaymentActorObject, payment_obj, actor_obj, Status, ready_for_settlement, abort,
  status_text,
}
use client_sdk_python.Offchain.State.{
  FieldPath, State, MatchError, condition_validation_error, no_state_matched,
  too_many_states_matched, match_state, is_valid_transition, is_initial, state_eq,
}
use client_sdk_python.Offchain.PaymentState.{
  machine, Actor, Action, sender, receiver, actor_eq, actor_name, trigger_actor, follow_up_action,
  r_send,
}
use client_sdk_python.Offchain.WriteOnce.{OverwriteError, payment_marks, validate_write_once_fields}

pub record PaymentCommand : Type 0 where
  pub my_actor_address : String
  pub payment : PaymentObject
  pub inbound : Bool
  pub cid : String

-- What a method raises: an `Error` of the protocol, by its code and fields, or an exception that
-- nothing turns into one.
pub data CommandError : Type 0 where
  invalid_command_producer invalid_transition invalid_initial_or_prior_not_found : CommandError
  missing_field : List FieldPath → CommandError
  invalid_overwrite : List String → CommandError
  no_state_matched_error too_many_states_matched_error type_error attribute_error : CommandError

unfoldable pub is_sender : PaymentCommand → Bool
is_sender c = str_eq c.payment.sender.address c.my_actor_address

unfoldable pub is_receiver : PaymentCommand → Bool
is_receiver c = str_eq c.payment.receiver.address c.my_actor_address

unfoldable pub my_actor_obj : PaymentCommand → PaymentActorObject
unfolding is_sender
my_actor_obj c = if is_sender c then c.payment.sender else c.payment.receiver

unfoldable pub counterparty_actor_obj : PaymentCommand → PaymentActorObject
unfolding is_sender
counterparty_actor_obj c = if is_sender c then c.payment.receiver else c.payment.sender

unfoldable pub counterparty_address : PaymentCommand → String
unfolding counterparty_actor_obj
counterparty_address c = (counterparty_actor_obj c).address

unfoldable pub my_actor : PaymentCommand → Actor
unfolding is_sender
my_actor c = if is_sender c then sender else receiver

unfoldable pub counterparty_actor : PaymentCommand → Actor
unfolding is_sender
counterparty_actor c = if is_sender c then receiver else sender

abbrev pub command_state_error : MatchError → CommandError
command_state_error (condition_validation_error result) = missing_field result.mismatched_fields
command_state_error no_state_matched = no_state_matched_error
command_state_error too_many_states_matched = too_many_states_matched_error

abbrev pub or_command_error : Outcome MatchError State → Outcome CommandError State
or_command_error (ok s) = ok s
or_command_error (err e) = err (command_state_error e)

unfoldable pub state : PaymentCommand → Outcome CommandError State
state c = or_command_error (match_state machine (payment_obj c.payment))

unfoldable pub state_trigger_actor : PaymentCommand → Outcome CommandError Actor
state_trigger_actor c = state c >>= λ s. ok (trigger_actor s)

-- `None` where nothing is to be done; an outer `none` is an unknown state.
unfoldable pub command_follow_up_action :
    PaymentCommand → Outcome CommandError (Option (Option Action))
command_follow_up_action c = state c >>= λ s. ok (follow_up_action (my_actor c) s)

unfoldable pub validate_state_trigger_actor : PaymentCommand → Outcome CommandError (Unit {0})
validate_state_trigger_actor c =
    let check = state_trigger_actor c >>= λ actor.
    raise_if (not (actor_eq (counterparty_actor c) actor)) invalid_command_producer in
    if c.inbound then check else ok tt

unfoldable pub validate_actor_object :
    PaymentCommand → PaymentCommand → Outcome CommandError (Unit {0})
validate_actor_object c prior =
    raise_if
      (c.inbound && not (obj_eq (actor_obj (my_actor_obj c)) (actor_obj (my_actor_obj prior))))
      (invalid_overwrite ("payment" ∷ actor_name (my_actor c) ∷ []))

-- `except FieldError`: an `InvalidOverwriteError` becomes a command error.
abbrev pub or_overwrite_error : Outcome OverwriteError (Unit {0}) → Outcome CommandError (Unit {0})
or_overwrite_error (ok _) = ok tt
or_overwrite_error (err (OverwriteError.invalid_overwrite path)) = err (invalid_overwrite path)
or_overwrite_error (err OverwriteError.type_error) = err type_error
or_overwrite_error (err OverwriteError.attribute_error) = err attribute_error

unfoldable pub validate_write_once :
    PaymentCommand → PaymentCommand → Outcome CommandError (Unit {0})
validate_write_once c prior = or_overwrite_error (
    validate_write_once_fields payment_marks ("payment" ∷ []) (payment_obj c.payment)
      (payment_obj prior.payment))

unfoldable pub command_is_valid_transition :
    PaymentCommand → PaymentCommand → Outcome CommandError Bool
command_is_valid_transition c prior = do
  from ← state prior
  to ← state c
  ok (is_valid_transition machine from to)

unfoldable pub validate_transition :
    PaymentCommand → PaymentCommand → Outcome CommandError (Unit {0})
validate_transition c prior = do
  valid ← command_is_valid_transition c prior
  raise_if (not valid) invalid_transition

unfoldable pub command_is_initial : PaymentCommand → Outcome CommandError Bool
command_is_initial c = state c >>= λ s. ok (is_initial machine s)

unfoldable pub validate_is_initial : PaymentCommand → Outcome CommandError (Unit {0})
validate_is_initial c = do
  initial ← command_is_initial c
  raise_if (not initial) invalid_initial_or_prior_not_found

unfoldable pub validate : PaymentCommand → Option PaymentCommand → Outcome CommandError (Unit {0})
validate c (some prior) =
    validate_state_trigger_actor c
    >> validate_actor_object c prior
    >> validate_write_once c prior
    >> validate_transition c prior
validate c none = validate_state_trigger_actor c >> validate_is_initial c

unfoldable pub is_rsend : PaymentCommand → Outcome CommandError Bool
is_rsend c = state c >>= λ s. ok (state_eq r_send s)

abbrev pub has_status : Status → PaymentActorObject → Bool
has_status s actor = str_eq (status_text actor.status.status) (status_text s)

unfoldable pub is_both_ready : PaymentCommand → Bool
is_both_ready c =
    has_status ready_for_settlement c.payment.sender
    && has_status ready_for_settlement c.payment.receiver

unfoldable pub is_abort : PaymentCommand → Bool
is_abort c = has_status abort c.payment.sender || has_status abort c.payment.receiver
