-- ===== src/JsonRpc/Retry.antt =====
-- `Retry.execute` of src/diem/jsonrpc/client.py. The call is a function of the number of the try and
-- of the state that it changes; the delay between tries changes nothing.
use client_sdk_python.Base.{List, [], ◌∷◌, All}
use client_sdk_python.Base.{
  ℕ, zero, suc, ◌≡◌, ◌≢◌, ◌⊎◌, ◌<◌, refl, sym, ap, ◌∙◌, Bool, true, false, Option, none, some,
  if◌then◌else◌, ◌==◌, Outcome, ok, err, arith, Bool-cases, inl, inr,
}

module _ {S E A : Type 0} (retried : E → Bool) (call : ℕ → S → Outcome E A × S) where
  -- `if tries < self.max_retries: sleep`, `else: raise e`, for an exception of the class that is retried.
  abbrev pub after_try :
      Bool → Outcome E A × S → Option (Outcome E A) × S → Option (Outcome E A) × S
  after_try last (ok a, s) rest = (some (ok a), s)
  after_try last (err e, s) rest =
      if retried e then (if last then (some (err e), s) else rest) else (some (err e), s)

  -- The loop, with `left` tries to make; `none` is the `None` of a loop that makes none.
  unfoldable pub retry_from : ℕ → ℕ → S → Option (Outcome E A) × S
  retry_from zero try s = (none, s)
  retry_from (suc left) try s =
      let rest = retry_from left (suc try) (call try s).1 in after_try (left == 0) (call try s) rest

  unfoldable pub retry_execute : ℕ → S → Option (Outcome E A) × S
  unfolding retry_from
  retry_execute max_retries s = retry_from max_retries 1 s

  -- The outcome of the try that comes `k` tries later, and the state after it.
  abbrev pub outcome_after : ℕ → ℕ → S → Outcome E A
  outcome_after try zero s = (call try s).0
  outcome_after try (suc k) s = outcome_after (suc try) k (call try s).1

  abbrev pub state_after : ℕ → ℕ → S → S
  state_after try zero s = (call try s).1
  state_after try (suc k) s = state_after (suc try) k (call try s).1

  abbrev pub IsRetried : Outcome E A → Type 0
  IsRetried (ok a) = true ≡ false
  IsRetried (err e) = retried e ≡ true

  -- The outcomes of the `k` tries from a try on.
  abbrev pub outcomes : ℕ → ℕ → S → List (Outcome E A)
  outcomes try zero s = []
  outcomes try (suc k) s = (call try s).0 ∷ outcomes (suc try) k (call try s).1

  -- What `retry_from` gives is the try `k`, the first that is not retried or the last that is made.
  abbrev pub IsFirst : ℕ → ℕ → S → ℕ → Type 0
  IsFirst left try s k =
      (k < left)
      × (retry_from left try s ≡ (some (outcome_after try k s), state_after try k s))
      × All IsRetried (outcomes try k s)
      × ((¬ IsRetried (outcome_after try k s)) ⊎ (suc k ≡ left))

  IsRetried-cases : (o : Outcome E A) → IsRetried o ⊎ (¬ IsRetried o)
  IsRetried-cases (ok a) = inr (λ h. absurd (cc))
  IsRetried-cases (err e) = elim (Bool-cases (retried e)) [
    | inl again ↦ inl again
    | inr final ↦ inr (λ again. clash (sym final ∙ again))
  ]
    where
      clash : false ≢ true
      clash h = absurd (cc)

  stops :
      (last : Bool) (r : Outcome E A × S) (rest : Option (Outcome E A) × S)
      → (IsRetried r.0 → last ≡ true)
      → after_try last r rest ≡ (some r.0, r.1)
  stops last (ok a, s) rest h = refl
  stops last (err e, s) rest h = elim (Bool-cases (retried e)) [
    | inl again ↦ rw (again, h again)
    | inr final ↦ rw final
  ]

  goes_on :
      (r : Outcome E A × S) (rest : Option (Outcome E A) × S)
      → IsRetried r.0
      → after_try false r rest ≡ rest
  goes_on (ok a, s) rest h = absurd (cc)
  goes_on (err e, s) rest h = rw h

  not_last : (n : ℕ) → (suc n == 0) ≡ false
  not_last n = ground arith

  first : (left try : ℕ) (s : S) → (k : ℕ) × IsFirst (suc left) try s k
  unfolding retry_from
  first zero try s = (0, (omega arith, stops true (call try s) _ (λ h. refl), tt, inr refl))
  first (suc left) try s =
      let s' = (call try s).1 in
      elim (IsRetried-cases (call try s).0) [
        | inr final ↦ (
          0,
          (
            omega arith,
            stops (suc left == 0) (call try s) _ (λ again. absurd (final again)),
            tt,
            inl final,
          ),
        )
        | inl again ↦
            let (k, (below, result, earlier, last)) = first left (suc try) s' in
            (
              suc k,
              (
                omega arith,
                ap (λ b. after_try b (call try s) (retry_from (suc left) (suc try) s'))
                      (not_last left)
                    ∙ goes_on (call try s) _ again
                    ∙ result,
                (again, earlier),
                elim last [ inl done ↦ inl done | inr all ↦ inr (ap suc all) ],
              ),
            )
      ]

  -- With at least one try allowed, the loop makes some number of tries, at most that many, and gives
  -- what the last one gave: all before it raised the exception that is retried, and it raised that
  -- exception itself only if no try was left.
  pub retry_execute_lem :
      (max_retries : ℕ) (s : S)
      → 0 < max_retries
      → (k : ℕ) × (k < max_retries)
        × (retry_execute max_retries s ≡ (some (outcome_after 1 k s), state_after 1 k s))
        × All IsRetried (outcomes 1 k s)
        × ((¬ IsRetried (outcome_after 1 k s)) ⊎ (suc k ≡ max_retries))
  unfolding retry_execute
  retry_execute_lem zero s h = absurd (omega arith)
  retry_execute_lem (suc left) s h =
      let (k, (below, result, earlier, last)) = first left 1 s in (k, below, result, earlier, last)
