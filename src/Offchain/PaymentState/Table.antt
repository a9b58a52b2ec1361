-- ===== src/Offchain/PaymentState/Table.antt =====
-- The machine against a table of the statuses.
use client_sdk_python.Base.{
  ◌≡◌, refl, Bool, true, false, Option, none, some, List, [], ◌∷◌, Outcome, ok, err, arith,
  if◌then◌else◌,
}
use client_sdk_python.Offchain.Objects.{get_attr, obj_eq}
use client_sdk_python.Offchain.PaymentTypes.{
  Status, unset, needs_kyc_data, ready_for_settlement, abort, soft_match, PaymentObject,
  payment_obj,
}
use client_sdk_python.Offchain.State.{
  FieldPath, State, MatchError, condition_validation_error, no_state_matched,
  too_many_states_matched, match_state, match_states, match_in_state, match_condition, match_field,
  match_value, resolve,
}
use client_sdk_python.Offchain.PaymentState.{
  machine, s_init, s_abort, s_soft, s_soft_send, ready, r_abort, r_soft, r_soft_send, r_send,
}

-- What `match_state` says of a payment: a state, the fields that a state wants, or neither.
pub data Outlook : Type 0 where
  in_state : State → Outlook
  missing : List FieldPath → Outlook
  no_state many_states : Outlook

abbrev pub outlook : Outcome MatchError State → Outlook
outlook (ok s) = in_state s
outlook (err (condition_validation_error result)) = missing result.mismatched_fields
outlook (err no_state_matched) = no_state
outlook (err too_many_states_matched) = many_states

abbrev pub is_set {ℓ} : {A : Type ℓ} → Option A → Bool
is_set none = false
is_set (some a) = true

abbrev pub unset_fields : Bool → FieldPath → List FieldPath → List FieldPath
unset_fields true path rest = rest
unset_fields false path rest = path ∷ rest

-- The state of a payment by the statuses of the sender and the receiver, and by what is set.
abbrev pub state_table : PaymentObject → Status → Status → Outlook
state_table p abort abort = many_states
state_table p abort _ = in_state s_abort
state_table p _ abort = in_state r_abort
state_table p needs_kyc_data unset =
    if is_set p.sender.kyc_data
    then in_state s_init
    else missing (("sender" ∷ "kyc_data" ∷ []) ∷ [])
state_table p needs_kyc_data ready_for_settlement =
    if is_set p.receiver.kyc_data
    then (if is_set p.recipient_signature
        then in_state r_send
        else missing (("recipient_signature" ∷ []) ∷ []))
    else missing (
        ("receiver" ∷ "kyc_data" ∷ [])
        ∷ unset_fields (is_set p.recipient_signature) ("recipient_signature" ∷ []) [])
state_table p needs_kyc_data soft_match =
    if is_set p.sender.additional_kyc_data then in_state s_soft_send else in_state r_soft
state_table p ready_for_settlement ready_for_settlement = in_state ready
state_table p soft_match ready_for_settlement =
    if is_set p.receiver.additional_kyc_data then in_state r_soft_send else in_state s_soft
state_table p _ _ = no_state

-- `p` with the given statuses.
abbrev with_statuses : PaymentObject → Status → Status → PaymentObject
with_statuses p s r = record p {
  sender = record (p.sender) { status = record (p.sender.status) { status = s } };
  receiver = record (p.receiver) { status = record (p.receiver.status) { status = r } };
}

statuses_table :
    (p : PaymentObject) (s r : Status)
    → outlook (match_state machine (payment_obj (with_statuses p s r))) ≡ state_table p s r
unfolding machine match_state match_states match_in_state match_condition match_field match_value
    resolve get_attr obj_eq
statuses_table p unset unset = refl
statuses_table p unset needs_kyc_data = refl
statuses_table p unset ready_for_settlement = refl
statuses_table p unset abort = refl
statuses_table p unset soft_match = refl
statuses_table p needs_kyc_data unset = ground arith
statuses_table p needs_kyc_data needs_kyc_data = refl
statuses_table p needs_kyc_data ready_for_settlement = ground arith
statuses_table p needs_kyc_data abort = refl
statuses_table p needs_kyc_data soft_match = ground arith
statuses_table p ready_for_settlement unset = refl
statuses_table p ready_for_settlement needs_kyc_data = refl
statuses_table p ready_for_settlement ready_for_settlement = refl
statuses_table p ready_for_settlement abort = refl
statuses_table p ready_for_settlement soft_match = refl
statuses_table p abort unset = refl
statuses_table p abort needs_kyc_data = refl
statuses_table p abort ready_for_settlement = refl
statuses_table p abort abort = refl
statuses_table p abort soft_match = refl
statuses_table p soft_match unset = refl
statuses_table p soft_match needs_kyc_data = refl
statuses_table p soft_match ready_for_settlement = ground arith
statuses_table p soft_match abort = refl
statuses_table p soft_match soft_match = refl

-- The machine puts every payment into the state that the table gives, or rejects it for the fields
-- that the table names, or finds no state or more than one exactly where the table says so.
pub match_state-table :
    (p : PaymentObject)
    → outlook (match_state machine (payment_obj p))
      ≡ state_table p p.sender.status.status p.receiver.status.status
match_state-table p = statuses_table p p.sender.status.status p.receiver.status.status
