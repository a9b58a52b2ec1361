-- ===== src/Offchain/PaymentState.antt =====
-- The states of a payment, their machine, and what follows from each: src/diem/offchain/payment_state.py
-- and src/diem/offchain/action.py.
pub mod Table
pub mod Progress
use client_sdk_python.Base.{
  String, str_eq, Bool, true, false, Option, none, some, List, [], ◌∷◌, ◌++◌, if◌then◌else◌,
}
use client_sdk_python.Offchain.Objects.{Obj, str}
use client_sdk_python.Offchain.PaymentTypes.{
  Status, status_text, unset, needs_kyc_data, ready_for_settlement, abort, soft_match, StatusObject,
  PaymentActorObject, PaymentObject,
}
use client_sdk_python.Offchain.State.{
  FieldPath, Condition, Conditions, State, Transition, Machine, field, value, require,
  require_valid, nil, cons, contains, build_machine,
}

pub data Actor : Type 0 where
  sender receiver : Actor

pub data Action : Type 0 where
  evaluate_kyc_data review_kyc_data clear_soft_match submit_txn : Action

abbrev pub actor_name : Actor → String
actor_name sender = "sender"
actor_name receiver = "receiver"

-- `status(actor, s)`
abbrev pub status : Actor → Status → Condition
status actor s = value (actor_name actor ∷ "status" ∷ "status" ∷ []) (str (status_text s))

abbrev both : Condition → Condition → Conditions
both a b = cons a (cons b nil)

abbrev set : FieldPath → Condition
set path = field path false

abbrev not_set : FieldPath → Condition
not_set path = field path true

abbrev pub s_init : State
s_init = record {
  id = "S_INIT";
  condition = some (
      require_valid (both (status sender needs_kyc_data) (status receiver unset))
        (set ("sender" ∷ "kyc_data" ∷ [])));
}

abbrev pub s_abort : State
s_abort = record { id = "S_ABORT"; condition = some (require (cons (status sender abort) nil)) }

abbrev pub s_soft : State
s_soft = record {
  id = "S_SOFT";
  condition = some (
      require (
        cons (status sender soft_match) (
          both (status receiver ready_for_settlement)
            (not_set ("receiver" ∷ "additional_kyc_data" ∷ [])))));
}

abbrev pub s_soft_send : State
s_soft_send = record {
  id = "S_SOFT_SEND";
  condition = some (
      require (
        cons (status sender needs_kyc_data)
          (both (status receiver soft_match) (set ("sender" ∷ "additional_kyc_data" ∷ [])))));
}

abbrev pub ready : State
ready = record {
  id = "READY";
  condition =
      some (
        require (both (status sender ready_for_settlement) (status receiver ready_for_settlement)));
}

abbrev pub r_abort : State
r_abort = record { id = "R_ABORT"; condition = some (require (cons (status receiver abort) nil)) }

abbrev pub r_soft : State
r_soft = record {
  id = "R_SOFT";
  condition = some (
      require (
        cons (status sender needs_kyc_data)
          (both (status receiver soft_match) (not_set ("sender" ∷ "additional_kyc_data" ∷ [])))));
}

abbrev pub r_soft_send : State
r_soft_send = record {
  id = "R_SOFT_SEND";
  condition = some (
      require (
        cons (status sender soft_match) (
          both (status receiver ready_for_settlement)
            (set ("receiver" ∷ "additional_kyc_data" ∷ [])))));
}

abbrev pub r_send : State
r_send = record {
  id = "R_SEND";
  condition = some (
      require_valid (both (status sender needs_kyc_data) (status receiver ready_for_settlement))
        (require (both (set ("receiver" ∷ "kyc_data" ∷ [])) (set ("recipient_signature" ∷ [])))));
}

abbrev pub new_transition : State → State → Transition
new_transition s to = record { state = s; to = to }

abbrev pub transitions : List Transition
transitions =
    new_transition s_init r_send
    ∷ new_transition s_init r_abort
    ∷ new_transition s_init r_soft
    ∷ new_transition r_send ready
    ∷ new_transition r_send s_abort
    ∷ new_transition r_send s_soft
    ∷ new_transition r_soft s_soft_send
    ∷ new_transition r_soft s_abort
    ∷ new_transition s_soft_send r_abort
    ∷ new_transition s_soft_send r_send
    ∷ new_transition s_soft r_soft_send
    ∷ new_transition s_soft r_abort
    ∷ new_transition r_soft_send s_abort
    ∷ new_transition r_soft_send ready
    ∷ []

unfoldable pub machine : Machine
unfolding build_machine
machine = build_machine transitions

-- `FOLLOW_UP`, looked up by the state; `none` for a state that it does not have (a `KeyError`).
abbrev pub follow_up : List (String × Option (Actor × Action))
follow_up =
    ("S_INIT", some (receiver, evaluate_kyc_data))
    ∷ ("R_SEND", some (sender, evaluate_kyc_data))
    ∷ ("R_ABORT", none)
    ∷ ("R_SOFT", some (sender, clear_soft_match))
    ∷ ("READY", some (sender, submit_txn))
    ∷ ("S_ABORT", none)
    ∷ ("S_SOFT", some (receiver, clear_soft_match))
    ∷ ("S_SOFT_SEND", some (receiver, review_kyc_data))
    ∷ ("R_SOFT_SEND", some (sender, review_kyc_data))
    ∷ []

unfoldable pub find_follow_up :
    String → List (String × Option (Actor × Action)) → Option (Option (Actor × Action))
find_follow_up id [] = none
find_follow_up id ((j, f) ∷ fs) = if str_eq j id then some f else find_follow_up id fs

unfoldable pub trigger_actor : State → Actor
unfolding contains
trigger_actor state =
    if contains state (r_send ∷ r_abort ∷ r_soft ∷ r_soft_send ∷ []) then receiver else sender

abbrev pub actor_eq : Actor → Actor → Bool
actor_eq sender sender = true
actor_eq receiver receiver = true
actor_eq _ _ = false

abbrev pub for_actor : Actor → Option (Option (Actor × Action)) → Option (Option Action)
for_actor actor none = none
for_actor actor (some none) = some none
for_actor actor (some (some (who, action))) =
    some (if actor_eq who actor then some action else none)

-- The outer `none` is the `KeyError` of an unknown state.
unfoldable pub follow_up_action : Actor → State → Option (Option Action)
unfolding find_follow_up
follow_up_action actor state = for_actor actor (find_follow_up state.id follow_up)
