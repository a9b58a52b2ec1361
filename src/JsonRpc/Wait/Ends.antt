-- ===== src/JsonRpc/Wait/Ends.antt =====
-- The transaction that a wait returns, and the expiration that it reports.
use client_sdk_python.Base.{not-true}
use client_sdk_python.Base.{
  ℕ, ◌*◌, ◌≡◌, inl, inr, refl, subst, Bool, true, false, not, Option, none, some, List, [], ◌∷◌,
  if◌then◌else◌, Outcome, ok, err, Bool-cases,
}
use client_sdk_python.Base.Int.{pos}
use client_sdk_python.Identifier.Text.{Text, text_eq, text_eq_sound}
use client_sdk_python.JsonRpc.State.{ClientError, lt_int}
use client_sdk_python.JsonRpc.Wait.{
  Transaction, Round, WaitResult, returned, hash_mismatch, execution_failed, expired, raised,
  timed_out, unfinished, is_expired, after_answer, wait_for_transaction2,
}

module _ (expiration_time_secs : ℕ) (txn_hash : Text) where
  -- An end that has a round that is in time, after rounds that found nothing and were not expired.
  pub data Ends (P : Round → Type 0) : List Round → Type 0 where
    now :
        (round : Round) (rounds : List Round)
        → round.in_time ≡ true
        → P round
        → Ends P (round ∷ rounds)
    later :
        (round : Round) (rounds : List Round)
        → round.in_time ≡ true
        → round.answer ≡ ok none
        → is_expired expiration_time_secs txn_hash round.state ≡ false
        → Ends P rounds
        → Ends P (round ∷ rounds)

  abbrev pub IsFound : Transaction → Round → Type 0
  IsFound txn round = (round.answer ≡ ok (some txn)) × (txn.hash ≡ txn_hash) × (txn.executed ≡ true)

  abbrev pub IsExpired : Round → Type 0
  IsExpired round =
      (round.answer ≡ ok none)
      × (lt_int round.state.timestamp_usecs (pos (expiration_time_secs * 1000000)) ≡ false)

  -- What each way to end says.
  abbrev pub Says : WaitResult → List Round → Type 0
  Says (returned txn) rounds = Ends (IsFound txn) rounds
  Says expired rounds = Ends IsExpired rounds
  Says result rounds = Unit

  lift :
      (result : WaitResult) (round : Round) (rounds : List Round)
      → round.in_time ≡ true
      → round.answer ≡ ok none
      → is_expired expiration_time_secs txn_hash round.state ≡ false
      → Says result rounds
      → Says result (round ∷ rounds)
  lift (returned txn) round rounds t a x h = later round rounds t a x h
  lift expired round rounds t a x h = later round rounds t a x h
  lift hash_mismatch round rounds t a x h = tt
  lift execution_failed round rounds t a x h = tt
  lift (raised e) round rounds t a x h = tt
  lift timed_out round rounds t a x h = tt
  lift unfinished round rounds t a x h = tt

  tested-Says :
      (same executed : Bool) (round : Round) (rounds : List Round) (txn : Transaction)
      → text_eq txn.hash txn_hash ≡ same
      → txn.executed ≡ executed
      → round.in_time ≡ true
      → round.answer ≡ ok (some txn)
      → Says
          (if not same
            then hash_mismatch
            else if not executed
            then execution_failed
            else returned txn)
          (round ∷ rounds)
  tested-Says true true round rounds txn e x t a =
      now round rounds t (a, text_eq_sound txn.hash txn_hash e, x)
  tested-Says true false round rounds txn e x t a = tt
  tested-Says false executed round rounds txn e x t a = tt

  answer-Says :
      (round : Round) (rounds : List Round) (a : Outcome ClientError (Option Transaction))
      (rest : WaitResult)
      → round.in_time ≡ true
      → round.answer ≡ a
      → Says rest rounds
      → Says (after_answer expiration_time_secs txn_hash round.state a rest) (round ∷ rounds)
  answer-Says round rounds (err e) rest t a h = tt
  answer-Says round rounds (ok (some txn)) rest t a h =
      tested-Says (text_eq txn.hash txn_hash) txn.executed round rounds txn refl refl t a
  answer-Says round rounds (ok none) rest t a h =
      elim (Bool-cases (is_expired expiration_time_secs txn_hash round.state)) [
        | inl past ↦ rw past (now round rounds t (a, not-true _ past))
        | inr before ↦ rw before (lift rest round rounds t a before h)
      ]

  timely-Says :
      (in_time : Bool) (round : Round) (rounds : List Round) (rest : WaitResult)
      → round.in_time ≡ in_time
      → Says rest rounds
      → Says
          (if in_time
            then after_answer expiration_time_secs txn_hash round.state round.answer rest
            else timed_out)
          (round ∷ rounds)
  timely-Says true round rounds rest t h = answer-Says round rounds round.answer rest t refl h
  timely-Says false round rounds rest t h = tt

  wait-Says :
      (rounds : List Round)
      → Says (wait_for_transaction2 expiration_time_secs txn_hash rounds) rounds
  unfolding wait_for_transaction2
  wait-Says [] = tt
  wait-Says (round ∷ rounds) =
      timely-Says round.in_time round rounds
        (wait_for_transaction2 expiration_time_secs txn_hash rounds) refl (wait-Says rounds)

  -- A transaction is returned only where a round in time found it, with the hash that was waited for
  -- and executed, and the rounds before were in time, found none and were not expired.
  pub wait_for_transaction2_returned :
      (rounds : List Round) (txn : Transaction)
      → wait_for_transaction2 expiration_time_secs txn_hash rounds ≡ returned txn
      → Ends (IsFound txn) rounds
  wait_for_transaction2_returned rounds txn h = subst (λ r. Says r rounds) h (wait-Says rounds)

  -- The wait is expired only where a round in time found none after the state was at the expiration or
  -- past it, and the rounds before were in time, found none and were not expired.
  pub wait_for_transaction2_expired :
      (rounds : List Round)
      → wait_for_transaction2 expiration_time_secs txn_hash rounds ≡ expired
      → Ends IsExpired rounds
  wait_for_transaction2_expired rounds h = subst (λ r. Says r rounds) h (wait-Says rounds)
