-- ===== src/JsonRpc/Domains/Batches.antt =====
-- Reading the events in batches.
use client_sdk_python.Base.{
  ℕ, zero, suc, ◌+◌, ◌-◌, ◌≡◌, ◌<◌, ◌≤◌, refl, sym, ap, ◌∙◌, Option, none, some, List, [], ◌∷◌,
  ◌++◌, take, drop, length, ltb, ltb→lt, arith, Bool-cases, Option-cases, inl, inr,
  take-append-drop, length-drop, Outcome, ok,
}
use client_sdk_python.JsonRpc.Domains.{
  DomainEvent, Dict, apply_event, and_then, apply_events, Mapping, key_error, mapped, map_from,
  get_treasury, get_vasp_domain_map,
}
use client_sdk_python.Identifier.Text.{Text}
use client_sdk_python.JsonRpc.State.{ClientError}
use client_sdk_python.JsonRpc.Accounts.{Account}

-- How the loop ends when the whole history is applied at once.
abbrev pub as_mapping : Option Dict → Mapping
as_mapping none = key_error
as_mapping (some dict) = mapped dict

and_then_assoc :
    (o : Option Dict) (f g : Dict → Option Dict)
    → and_then (and_then o f) g ≡ and_then o (λ dict. and_then (f dict) g)
and_then_assoc none f g = refl
and_then_assoc (some dict) f g = refl

and_then_ext :
    (o : Option Dict) (f g : Dict → Option Dict)
    → ((dict : Dict) → f dict ≡ g dict)
    → and_then o f ≡ and_then o g
and_then_ext none f g h = refl
and_then_ext (some dict) f g h = h dict

apply_events-append :
    (dict : Dict) (xs ys : List DomainEvent)
    → apply_events dict (xs ++ ys)
      ≡ and_then (apply_events dict xs) (λ dict'. apply_events dict' ys)
unfolding apply_events
apply_events-append dict [] ys = refl
apply_events-append dict (x ∷ xs) ys =
    and_then_ext (apply_event dict x) _ _ (λ dict'. apply_events-append dict' xs ys)
    ∙ sym (
        and_then_assoc (apply_event dict x) (λ dict'. apply_events dict' xs)
          (λ dict'. apply_events dict' ys))

suc_add : (i b : ℕ) → suc i + b ≡ suc (i + b)
suc_add i b = omega arith

zero_add : (b : ℕ) → 0 + b ≡ b
zero_add b = omega arith

module _ {A : Type 0} where
  drop_nil : (b : ℕ) → drop {A = A} b [] ≡ []
  drop_nil zero = refl
  drop_nil (suc b) = refl

  drop-add : (i b : ℕ) (xs : List A) → drop (i + b) xs ≡ drop b (drop i xs)
  drop-add zero b xs = ap (λ n. drop n xs) (zero_add b)
  drop-add (suc i) b [] = rw (suc_add i b) (sym (drop_nil b))
  drop-add (suc i) b (x ∷ xs) = rw (suc_add i b) (drop-add i b xs)

  take_short : (n : ℕ) (xs : List A) → length (take n xs) < n → drop n xs ≡ []
  take_short zero xs h = absurd (omega arith)
  take_short (suc n) [] h = refl
  take_short (suc n) (x ∷ xs) h = take_short n xs (omega arith)

  take_full : (n : ℕ) (xs : List A) → n ≤ length (take n xs) → n ≤ length xs
  take_full zero xs h = omega arith
  take_full (suc n) [] h = h
  take_full (suc n) (x ∷ xs) h = omega (arith, take_full n xs (omega arith))

module _ (get_events : ℕ → ℕ → Outcome ClientError (List DomainEvent)) (batch_size : ℕ)
    (history : List DomainEvent) where
  map_from_lem :
      ((start limit : ℕ) → get_events start limit ≡ ok (take limit (drop start history)))
      → 0 < batch_size
      → (rounds event_index : ℕ) (dict : Dict) → length history - event_index < rounds
      → map_from get_events batch_size rounds event_index dict
        ≡ as_mapping (apply_events dict (drop event_index history))
  unfolding map_from
  map_from_lem serves some_batch zero index dict h = absurd (omega arith)
  map_from_lem serves some_batch (suc rounds) index dict h =
      let rest = drop index history in
      let batch = take batch_size rest in
      let whole =
        ap (apply_events dict) (sym (take-append-drop batch_size rest))
        ∙ apply_events-append dict batch (drop batch_size rest) in
      elim (Option-cases (apply_events dict batch)) [
        | inl stops ↦ rw (serves index batch_size, whole, stops)
        | inr (dict', applied) ↦ elim (Bool-cases (ltb (length batch) batch_size)) [
          | inl short ↦ rw (
            serves index batch_size,
            whole,
            applied,
            short,
            take_short batch_size rest (ltb→lt _ _ short),
          )
          | inr long ↦
              let full = take_full batch_size rest (ground (arith, long)) in
              let size = length-drop index history in
              rw (serves index batch_size, whole, applied, long)
                (map_from_lem serves some_batch rounds (index + batch_size) dict'
                    (omega (arith, full, size))
                  ∙ ap (λ t. as_mapping (apply_events dict' t)) (drop-add index batch_size history))
        ]
      ]

-- Where the server knows the treasury account and gives the events of its stream from a start on, up to a
-- limit, and the batch size is not zero, more rounds than the stream has events are enough, and the map is
-- the one that all the events in order give, or `KeyError` where they do.
pub get_vasp_domain_map_lem :
    (lookup : Text → Outcome ClientError (Option Account)) (treasury : Account)
    (get_events : Text → ℕ → ℕ → Outcome ClientError (List DomainEvent)) (batch_size : ℕ)
    (history : List DomainEvent) (rounds : ℕ)
    → get_treasury lookup ≡ ok treasury
    → ((start limit : ℕ)
        → get_events treasury.vasp_domain_events_key start limit
          ≡ ok (take limit (drop start history)))
    → 0 < batch_size
    → length history < rounds
    → get_vasp_domain_map lookup get_events batch_size rounds ≡ as_mapping (apply_events [] history)
unfolding get_vasp_domain_map
get_vasp_domain_map_lem lookup treasury get_events batch_size history rounds got serves some_batch
      h =
    rw got (
      map_from_lem (get_events treasury.vasp_domain_events_key) batch_size history serves some_batch
        rounds 0 [] (omega arith))
