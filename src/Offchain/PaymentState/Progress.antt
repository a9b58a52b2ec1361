-- ===== src/Offchain/PaymentState/Progress.antt =====
-- Runs of the payment machine: whose turn it is, and that every exchange ends.
use client_sdk_python.Base.{
  ℕ, suc, ◌+◌, ◌≤◌, ◌<◌, ◌≡◌, ◌≢◌, refl, String, str_eq, eq_iff, Bool, true, false, ◌&&◌, Option,
  none, some, List, [], ◌∷◌, All, arith, if◌then◌else◌, Bool-cases, inl, inr, subst,
}
use client_sdk_python.Offchain.State.{
  State, Transition, is_valid_transition, has_transition, is_initial, contains, state_eq,
}
use client_sdk_python.Offchain.PaymentState.{
  machine, Action, trigger_actor, follow_up_action, transitions,
}

-- How far an exchange has come.
abbrev rank_of : List (String × ℕ) → String → ℕ
rank_of [] id = 0
rank_of ((j, n) ∷ ranks) id = if str_eq j id then n else rank_of ranks id

abbrev pub rank : State → ℕ
rank s =
    rank_of
      (("S_INIT", 1)
        ∷ ("R_SOFT", 2)
        ∷ ("S_SOFT_SEND", 3)
        ∷ ("R_SEND", 4)
        ∷ ("S_SOFT", 5)
        ∷ ("R_SOFT_SEND", 6)
        ∷ ("READY", 7)
        ∷ ("S_ABORT", 7)
        ∷ ("R_ABORT", 7)
        ∷ [])
      s.id

-- A state by its id alone.
abbrev of_id : String → State
of_id id = record { id = id; condition = none }

and_true : (a b : Bool) → (a && b) ≡ true → (a ≡ true) × (b ≡ true)
and_true true b e = (refl, e)
and_true false b e = cc

-- What holds of each transition of a list holds of every pair of states that it joins.
has_transition-All :
    (Q : String → String → Type 0) (ts : List Transition) (s to : State)
    → All (λ (t : Transition). Q t.state.id t.to.id) ts
    → has_transition ts s to ≡ true
    → Q s.id to.id
unfolding has_transition
has_transition-All Q [] s to h e = absurd (cc)
has_transition-All Q (t ∷ ts) s to h e =
    elim (Bool-cases (state_eq t.state s && state_eq t.to to)) [
      | inl here ↦
          let (from, goal) = and_true (state_eq t.state s) (state_eq t.to to) here in
          subst (λ a. Q a to.id) ((eq_iff t.state.id s.id).0 from)
            (subst (λ b. Q t.state.id b) ((eq_iff t.to.id to.id).0 goal) h.0)
      | inr other ↦ has_transition-All Q ts s to h.1 (rw other at e)
    ]

-- A valid transition goes to a higher rank, at most 7, and the two states are triggered by different
-- actors.
pub transition_progress :
    (s to : State)
    → is_valid_transition machine s to ≡ true
    → (rank s < rank to) × (rank to ≤ 7) × (trigger_actor s ≢ trigger_actor to)
unfolding is_valid_transition machine trigger_actor
transition_progress s to e =
    has_transition-All
      (λ a b.
        (rank (of_id a) < rank (of_id b))
        × (rank (of_id b) ≤ 7)
        × (trigger_actor (of_id a) ≢ trigger_actor (of_id b)))
      transitions s to (ground arith) e

-- A sequence of valid transitions.
pub data Run : State → ℕ → State → Type 0 where
  start : (s : State) → Run s 0 s
  step :
      {s t u : State} {n : ℕ} → Run s n t → is_valid_transition machine t u ≡ true → Run s (suc n) u

rank-le : (s : State) → rank s ≤ 7
rank-le s = ground arith

Run-rank : {s t : State} {n : ℕ} → Run s n t → n + rank s ≤ rank t
Run-rank (start s) = omega arith
Run-rank (step {t = t} {u = u} run valid) =
    omega (arith, Run-rank run, (transition_progress t u valid).0)

-- From a state with the id of the initial one at most six transitions can follow.
pub Run-bounded_from : (s t : State) (n : ℕ) → s.id ≡ "S_INIT" → Run s n t → n ≤ 6
Run-bounded_from s t n initial run =
    let one : rank s ≡ 1 = rw initial in omega (arith, one, Run-rank run, rank-le t)

-- A state is initial in the machine exactly where its id is S_INIT.
pub is_initial_iff : (s : State) → is_initial machine s ≡ str_eq "S_INIT" s.id
unfolding is_initial machine contains
is_initial_iff s = ground arith

abbrev pub has_action : Option (Option Action) → Bool
has_action (some (some action)) = true
has_action _ = false

-- Where the machine can go on, the actor who produced the state has nothing to do, and the actor whose
-- turn it is, who produces the next state, has a follow-up action.
pub follow_up_turn :
    (s to : State)
    → is_valid_transition machine s to ≡ true
    → (follow_up_action (trigger_actor s) s ≡ some none)
      × (has_action (follow_up_action (trigger_actor to) s) ≡ true)
unfolding is_valid_transition machine trigger_actor follow_up_action
follow_up_turn s to e =
    has_transition-All
      (λ a b.
        (follow_up_action (trigger_actor (of_id a)) (of_id a) ≡ some none)
        × (has_action (follow_up_action (trigger_actor (of_id b)) (of_id a)) ≡ true))
      transitions s to (ground arith) e
