-- ===== src/Offchain/Accepts/First.antt =====
-- The first command of an exchange, and a payment that both actors have aborted:
-- src/diem/offchain/payment_command.py.
use client_sdk_python.Base.{
  ◌≡◌, ◌↔◌, refl, sym, ◌∙◌, Bool, true, false, Option, none, some, Outcome, ok, err, ◌>>=◌,
  >>=-eq-ok, ok-injective, eq_iff, if◌then◌else◌,
}
use client_sdk_python.Offchain.PaymentTypes.{abort}
use client_sdk_python.Offchain.State.{
  State, MatchError, condition_validation_error, no_state_matched, too_many_states_matched,
}
use client_sdk_python.Offchain.PaymentState.{Actor}
use client_sdk_python.Offchain.PaymentState.Table.{outlook, many_states, match_state-table}
use client_sdk_python.Offchain.PaymentState.Progress.{is_initial_iff}
use client_sdk_python.Offchain.PaymentCommand.{
  or_command_error, too_many_states_matched_error, PaymentCommand, CommandError, state, validate,
  validate_state_trigger_actor, validate_is_initial, command_is_initial, state_trigger_actor,
}
use client_sdk_python.Offchain.Accepts.{
  IsInTurn, raise_if-not_iff, validate_state_trigger_actor_iff, then_iff,
}

-- The first command of an exchange: accepted without a prior one.
abbrev pub Opens : PaymentCommand → Type 0
Opens c = (s : State) × (state c ≡ ok s) × (s.id ≡ "S_INIT") × IsInTurn c s

validate_is_initial_iff :
    (c : PaymentCommand)
    → (validate_is_initial c ≡ ok tt) ↔ ((s : State) × (state c ≡ ok s) × (s.id ≡ "S_INIT"))
unfolding validate_is_initial command_is_initial
validate_is_initial_iff c = (
  λ h.
      let (initial, at_initial, pass) = >>=-eq-ok (command_is_initial c) _ h in
      let (s, at_s, last) = >>=-eq-ok (state c) _ at_initial in
      (
        s,
        at_s,
        sym (
            (eq_iff "S_INIT" s.id).0
              (sym (is_initial_iff s) ∙ ok-injective last ∙ (raise_if-not_iff initial _).0 pass)),
      ),
  λ (s, at_s, e). rw (at_s, is_initial_iff s, e),
)

-- A command without a prior one is accepted exactly where its payment is in the initial state and, for
-- an inbound command, the counterparty is the actor who triggers that state.
pub validate-none_iff : (c : PaymentCommand) → (validate c none ≡ ok tt) ↔ Opens c
unfolding validate
validate-none_iff c =
    let both = then_iff (validate_state_trigger_actor c) (validate_is_initial c) in
    (
      λ h.
          let (turn, initial) = both.0 h in
          let (s, at, e) = (validate_is_initial_iff c).0 initial in
          (s, at, e, (validate_state_trigger_actor_iff c s at).0 turn),
      λ (s, at, e, turn). both.1 (
        (validate_state_trigger_actor_iff c s at).1 turn,
        (validate_is_initial_iff c).1 (s, at, e),
      ),
    )

outlook-many :
    (found : Outcome MatchError State)
    → outlook found ≡ many_states
    → or_command_error found ≡ err too_many_states_matched_error
outlook-many (ok s) e = absurd (cc)
outlook-many (err (condition_validation_error result)) e = absurd (cc)
outlook-many (err no_state_matched) e = absurd (cc)
outlook-many (err too_many_states_matched) e = refl

both_abort_state :
    (c : PaymentCommand)
    → c.payment.sender.status.status ≡ abort
    → c.payment.receiver.status.status ≡ abort
    → state c ≡ err too_many_states_matched_error
unfolding state
both_abort_state c s r = outlook-many _ (match_state-table c.payment ∙ rw (s, r))

producer_raises :
    (b : Bool) (found : Outcome CommandError State) (actor : State → Outcome CommandError Actor)
    (next : Actor → Outcome CommandError (Unit {0})) (e : CommandError)
    → b ≡ true
    → found ≡ err e
    → (if b then (found >>= actor) >>= next else ok tt) ≡ err e
producer_raises true found actor next e inbound raised = rw raised
producer_raises false found actor next e inbound raised = absurd (cc)

producer-both_abort :
    (c : PaymentCommand)
    → c.inbound ≡ true
    → state c ≡ err too_many_states_matched_error
    → validate_state_trigger_actor c ≡ err too_many_states_matched_error
unfolding validate_state_trigger_actor state_trigger_actor
producer-both_abort c inbound raised = producer_raises c.inbound (state c) _ _ _ inbound raised

-- Where both actors have aborted, the validation of an inbound command ends in a
-- `TooManyStatesMatchedError` that is no error of the protocol, whatever the prior command is.
pub validate-both_abort :
    (c : PaymentCommand) (prior : Option PaymentCommand)
    → c.inbound ≡ true
    → c.payment.sender.status.status ≡ abort
    → c.payment.receiver.status.status ≡ abort
    → validate c prior ≡ err too_many_states_matched_error
unfolding validate
validate-both_abort c none inbound s r = rw (producer-both_abort c inbound (both_abort_state c s r))
validate-both_abort c (some prior) inbound s r =
    rw (producer-both_abort c inbound (both_abort_state c s r))
