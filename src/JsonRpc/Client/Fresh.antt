-- ===== src/JsonRpc/Client/Fresh.antt =====
-- Whatever the threads send and the servers reply, the state never goes back, and a response that is
-- older than one that was accepted is not returned.
use client_sdk_python.Base.{
  ◌≡◌, refl, sym, ap, ◌∙◌, Bool, false, some, Outcome, ok, err, ok-injective,
}
use client_sdk_python.JsonRpc.State.{ClientError, State, update_last_known_state}
use client_sdk_python.JsonRpc.State.Order.{
  IsNotOlder, IsNotOlder-refl, IsNotOlder-trans, update_last_known_state_ok,
}
use client_sdk_python.JsonRpc.Client.{
  Json, Reply, fails, not_json, body, after_update, send_http_request,
}

module _ (R : Type 0) where
  -- The states of a client, by the replies that its threads have received.
  pub data Reaches (s : State) : State → Type 0 where
    here : Reaches s s
    reply :
        {s' : State}
        → Reaches s s'
        → (ignore : Bool) (r : Reply R) → Reaches s (send_http_request R ignore s' r).1

  update-IsNotOlder :
      (ignore : Bool) (s : State) (json : Json R)
      → (o : Outcome ClientError State) → ((s' : State) → o ≡ ok s' → IsNotOlder s s')
      → IsNotOlder s (after_update R ignore s json o).1
  update-IsNotOlder ignore s json (ok s') h = h s' refl
  update-IsNotOlder ignore s json (err e) h = IsNotOlder-refl s

  pub send-IsNotOlder :
      (ignore : Bool) (s : State) (r : Reply R) → IsNotOlder s (send_http_request R ignore s r).1
  unfolding send_http_request
  send-IsNotOlder ignore s fails = IsNotOlder-refl s
  send-IsNotOlder ignore s not_json = IsNotOlder-refl s
  send-IsNotOlder ignore s (body json) =
      update-IsNotOlder ignore s json
        (update_last_known_state s json.chain_id json.ledger_version json.timestamp_usecs)
        (λ s' e.
          (update_last_known_state_ok s json.chain_id json.ledger_version json.timestamp_usecs s'
            e).0)

  Reaches-IsNotOlder : (s s' : State) → Reaches s s' → IsNotOlder s s'
  Reaches-IsNotOlder s s' here = IsNotOlder-refl s
  Reaches-IsNotOlder s s'' (reply {s'} earlier ignore r) =
      IsNotOlder-trans s s' _ (Reaches-IsNotOlder s s' earlier) (send-IsNotOlder ignore s' r)

  kept :
      (s : State) (json json' : Json R) (o : Outcome ClientError State) {s'' : State}
      → after_update R false s json o ≡ (ok json', s'')
      → (json ≡ json') × (o ≡ ok s'')
  kept s json json' (ok s') h = (ok-injective (ap (λ r. r.0) h), ap (λ r. ok r.1) h)
  kept s json json' (err e) h = let no : err e ≡ ok json' = ap (λ r. r.0) h in absurd (cc)

  -- Whatever was sent and received between, a body that is returned when stale responses are not
  -- ignored is of the chain of every earlier state, once that is known, its version and timestamp are
  -- not before that state's, and they become the state.
  pub send_http_request_fresh :
      (s s' s'' : State) (r : Reply R) (json : Json R)
      → Reaches s s'
      → send_http_request R false s' r ≡ (ok json, s'')
      → IsNotOlder s s''
        × (s''.chain_id ≡ json.chain_id)
        × (json.ledger_version ≡ some s''.version)
        × (json.timestamp_usecs ≡ some s''.timestamp_usecs)
  unfolding send_http_request
  send_http_request_fresh s s' s'' fails json past h =
      let no : err ClientError.request_exception ≡ ok json = ap (λ r. r.0) h in absurd (cc)
  send_http_request_fresh s s' s'' not_json json past h =
      let no : err ClientError.invalid_server_response ≡ ok json = ap (λ r. r.0) h in absurd (cc)
  send_http_request_fresh s s' s'' (body sent) json past h =
      let (same, updated) =
        kept s' sent json
          (update_last_known_state s' sent.chain_id sent.ledger_version sent.timestamp_usecs) h in
      let (later, chain, version, timestamp) =
        update_last_known_state_ok s' sent.chain_id sent.ledger_version sent.timestamp_usecs s''
          updated in
      (
        IsNotOlder-trans s s' s'' (Reaches-IsNotOlder s s' past) later,
        chain ∙ ap (λ j. j.chain_id) same,
        ap (λ j. j.ledger_version) (sym same) ∙ version,
        ap (λ j. j.timestamp_usecs) (sym same) ∙ timestamp,
      )
