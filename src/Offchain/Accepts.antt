-- ===== src/Offchain/Accepts.antt =====
-- What the validation of a command promises: src/diem/offchain/payment_command.py.
pub mod First
use client_sdk_python.Base.{
  ◌≡◌, ◌↔◌, refl, sym, ◌∙◌, Bool, true, false, not, Option, none, some, [], ◌∷◌, Outcome, ok, err,
  ◌>>=◌, ◌>>◌, raise_if, >>=-eq-ok, ok-injective, subst, eq_iff, ◌&&◌, if◌then◌else◌,
}
use client_sdk_python.Offchain.Objects.{obj_eq, obj_eq→eq, obj_eq_refl}
use client_sdk_python.Offchain.PaymentTypes.{payment_obj, actor_obj, abort}
use client_sdk_python.Offchain.State.{
  State, MatchError, condition_validation_error, no_state_matched, too_many_states_matched,
  is_valid_transition,
}
use client_sdk_python.Offchain.PaymentState.{
  machine, Actor, sender, receiver, actor_eq, trigger_actor,
}
use client_sdk_python.Offchain.PaymentState.Table.{outlook, many_states, match_state-table}
use client_sdk_python.Offchain.PaymentState.Progress.{is_initial_iff}
use client_sdk_python.Offchain.WriteOnce.{payment_marks, OverwriteError}
use client_sdk_python.Offchain.WriteOnce.Respect.{Respects, validate_write_once_fields_iff}
use client_sdk_python.Offchain.PaymentCommand.{
  or_command_error, too_many_states_matched_error, PaymentCommand, CommandError,
  invalid_command_producer, invalid_transition, state, validate, my_actor_obj, counterparty_actor,
  or_overwrite_error, validate_state_trigger_actor, validate_actor_object, validate_write_once,
  validate_transition, validate_is_initial, command_is_valid_transition, command_is_initial,
  state_trigger_actor,
}

-- An inbound command comes from the actor whose turn it was.
abbrev pub IsInTurn : PaymentCommand → State → Type 0
IsInTurn c to = c.inbound ≡ true → counterparty_actor c ≡ trigger_actor to

-- An inbound command leaves my own actor object as it was.
abbrev pub IsMineKept : PaymentCommand → PaymentCommand → Type 0
IsMineKept c prior = c.inbound ≡ true → actor_obj (my_actor_obj c) ≡ actor_obj (my_actor_obj prior)

-- The update from the prior command to the new one.
abbrev pub Accepts : PaymentCommand → PaymentCommand → Type 0
Accepts c prior =
    (from : State) × (to : State) × (state prior ≡ ok from)
    × (state c ≡ ok to)
    × (is_valid_transition machine from to ≡ true)
    × IsInTurn c to
    × IsMineKept c prior
    × Respects payment_marks (payment_obj c.payment) (payment_obj prior.payment)

actor_eq→eq : (a b : Actor) → actor_eq a b ≡ true → a ≡ b
actor_eq→eq sender sender e = refl
actor_eq→eq receiver receiver e = refl
actor_eq→eq sender receiver e = cc
actor_eq→eq receiver sender e = cc

actor_eq_refl : (a : Actor) → actor_eq a a ≡ true
actor_eq_refl sender = refl
actor_eq_refl receiver = refl

raise_if-not_iff : (b : Bool) (e : CommandError) → (raise_if (not b) e ≡ ok tt) ↔ (b ≡ true)
raise_if-not_iff true e = (λ h. refl, λ h. refl)
raise_if-not_iff false e = (λ h. absurd (cc), λ h. absurd (cc))

guard_iff :
    (b : Bool) (check : Outcome CommandError (Unit {0}))
    → ((if b then check else ok tt) ≡ ok tt) ↔ (b ≡ true → check ≡ ok tt)
guard_iff true check = (λ h _. h, λ h. h refl)
guard_iff false check = (λ h e. absurd (cc), λ h. refl)

raise_if-and-not_iff :
    (b kept : Bool) (e : CommandError)
    → (raise_if (b && not kept) e ≡ ok tt) ↔ (b ≡ true → kept ≡ true)
raise_if-and-not_iff true true e = (λ h _. refl, λ h. refl)
raise_if-and-not_iff true false e = (λ h _. absurd (cc), λ h. absurd (cc (h refl)))
raise_if-and-not_iff false kept e = (λ h b. absurd (cc), λ h. refl)

or_overwrite_error_iff :
    (r : Outcome OverwriteError (Unit {0})) → (or_overwrite_error r ≡ ok tt) ↔ (r ≡ ok tt)
or_overwrite_error_iff (ok tt) = (λ h. refl, λ h. refl)
or_overwrite_error_iff (err (OverwriteError.invalid_overwrite p)) =
    (λ h. absurd (cc), λ h. absurd (cc))
or_overwrite_error_iff (err OverwriteError.type_error) = (λ h. absurd (cc), λ h. absurd (cc))
or_overwrite_error_iff (err OverwriteError.attribute_error) = (λ h. absurd (cc), λ h. absurd (cc))

producer_iff :
    (found : Outcome CommandError State) (to : State) (a : Actor) (e : CommandError)
    → found ≡ ok to
    → ((found >>= λ s. ok (trigger_actor s)) >>= λ actor. raise_if (not (actor_eq a actor)) e)
        ≡ ok tt
      ↔ (a ≡ trigger_actor to)
producer_iff (ok s) to a e h =
    let same : s ≡ to = ok-injective h in
    subst (λ t. (raise_if (not (actor_eq a (trigger_actor s))) e ≡ ok tt) ↔ (a ≡ trigger_actor t))
      same
      (
        λ r.
            actor_eq→eq a (trigger_actor s)
              ((raise_if-not_iff (actor_eq a (trigger_actor s)) e).0 r),
        λ r. (raise_if-not_iff (actor_eq a (trigger_actor s)) e).1 (rw (← r) (actor_eq_refl a)),
      )
producer_iff (err x) to a e h = absurd (cc)

-- The check of the producer, once the new payment is in a state.
validate_state_trigger_actor_iff :
    (c : PaymentCommand) (to : State)
    → state c ≡ ok to
    → (validate_state_trigger_actor c ≡ ok tt) ↔ IsInTurn c to
unfolding validate_state_trigger_actor state_trigger_actor
validate_state_trigger_actor_iff c to at =
    let inner = producer_iff (state c) to (counterparty_actor c) invalid_command_producer at in
    let outer = guard_iff c.inbound _ in
    (λ h inbound. inner.0 (outer.0 h inbound), λ turn. outer.1 (λ inbound. inner.1 (turn inbound)))

pub validate_actor_object_iff :
    (c prior : PaymentCommand) → (validate_actor_object c prior ≡ ok tt) ↔ IsMineKept c prior
unfolding validate_actor_object
validate_actor_object_iff c prior =
    let mine = actor_obj (my_actor_obj c) in
    let before = actor_obj (my_actor_obj prior) in
    let both = raise_if-and-not_iff c.inbound (obj_eq mine before) _ in
    (
      λ h inbound. obj_eq→eq mine before (both.0 h inbound),
      λ kept. both.1 (λ inbound. rw (kept inbound) (obj_eq_refl before)),
    )

validate_write_once_iff :
    (c prior : PaymentCommand)
    → (validate_write_once c prior ≡ ok tt)
      ↔ Respects payment_marks (payment_obj c.payment) (payment_obj prior.payment)
unfolding validate_write_once
validate_write_once_iff c prior =
    let checks =
      validate_write_once_fields_iff payment_marks ("payment" ∷ []) (payment_obj c.payment)
        (payment_obj prior.payment) in
    let caught = or_overwrite_error_iff _ in
    (λ h. checks.0 (caught.0 h), λ h. caught.1 (checks.1 h))

-- Three checks after a first one.
then_iff :
    (a b : Outcome CommandError (Unit {0})) → ((a >> b) ≡ ok tt) ↔ ((a ≡ ok tt) × (b ≡ ok tt))
then_iff (ok tt) b = (λ h. (refl, h), λ h. h.1)
then_iff (err x) b = (λ h. absurd (cc), λ h. absurd (cc (h.0)))

-- The last check: both payments are in a state, and a transition joins the two.
validate_transition_iff :
    (c prior : PaymentCommand)
    → (validate_transition c prior ≡ ok tt) ↔ (
        (from : State) × (to : State) × (state prior ≡ ok from)
        × (state c ≡ ok to)
        × (is_valid_transition machine from to ≡ true))
unfolding validate_transition command_is_valid_transition
validate_transition_iff c prior = (
  λ h.
      let (valid, at_valid, pass) = >>=-eq-ok (command_is_valid_transition c prior) _ h in
      let (from, at_from, next) = >>=-eq-ok (state prior) _ at_valid in
      let (to, at_to, last) = >>=-eq-ok (state c) _ next in
      (
        from,
        to,
        at_from,
        at_to,
        (raise_if-not_iff (is_valid_transition machine from to) invalid_transition).0
            (rw (ok-injective last) pass),
      ),
  λ (from, to, at_from, at_to, valid). rw (at_from, at_to, valid),
)

-- An update is accepted exactly where both payments are in a state, the two states are joined by a
-- transition, every marked field is respected, and, on an inbound command, the sender of the command
-- is the actor whose turn it was and the receiving actor's own object is unchanged.
pub validate_iff : (c prior : PaymentCommand) → (validate c (some prior) ≡ ok tt) ↔ Accepts c prior
unfolding validate
validate_iff c prior =
    let first = validate_state_trigger_actor c in
    let second = validate_actor_object c prior in
    let third = validate_write_once c prior in
    let last = then_iff (first >> second >> third) (validate_transition c prior) in
    let middle = then_iff (first >> second) third in
    let front = then_iff first second in
    (
      λ h.
          let (h3, h4) = last.0 h in
          let (h2, write) = middle.0 h3 in
          let (turn, mine) = front.0 h2 in
          let (from, to, at_from, at_to, valid) = (validate_transition_iff c prior).0 h4 in
          (
            from,
            to,
            at_from,
            at_to,
            valid,
            (validate_state_trigger_actor_iff c to at_to).0 turn,
            (validate_actor_object_iff c prior).0 mine,
            (validate_write_once_iff c prior).0 write,
          ),
      λ (from, to, at_from, at_to, valid, turn, mine, write). last.1 (
        middle.1 (
          front.1 (
            (validate_state_trigger_actor_iff c to at_to).1 turn,
            (validate_actor_object_iff c prior).1 mine,
          ),
          (validate_write_once_iff c prior).1 write,
        ),
        (validate_transition_iff c prior).1 (from, to, at_from, at_to, valid),
      ),
    )
