-- ===== src/JsonRpc/Queries/Fresh.antt =====
-- The state is not set back by `execute`, with any strategy and any number of tries.
use client_sdk_python.Base.{
  ℕ, zero, suc, Bool, true, false, Option, some, if◌then◌else◌, Outcome, ok, err, ◌==◌,
}
use client_sdk_python.JsonRpc.State.{ClientError, State}
use client_sdk_python.JsonRpc.State.Order.{IsNotOlder, IsNotOlder-refl, IsNotOlder-trans}
use client_sdk_python.JsonRpc.Client.{
  Strategy, direct, first_success, fallback_to_backup, Exchange, Reply, send_http_request,
  send_request, execute_without_retry,
}
use client_sdk_python.JsonRpc.Client.Fresh.{send-IsNotOlder}
use client_sdk_python.JsonRpc.Retry.{after_try, retry_from, retry_execute}
use client_sdk_python.JsonRpc.Queries.{Call, is_stale, execute}

module _ (R : Type 0) where
  both-IsNotOlder :
      (ignore : Bool) (s : State) (earlier later : Reply R)
      → IsNotOlder s (send_http_request R ignore (send_http_request R ignore s earlier).1 later).1
  both-IsNotOlder ignore s earlier later =
      let between = (send_http_request R ignore s earlier).1 in
      IsNotOlder-trans s between _ (send-IsNotOlder R ignore s earlier)
        (send-IsNotOlder R ignore between later)

  request-IsNotOlder :
      (strategy : Strategy R) (ignore : Bool) (s : State) (exchange : Exchange R)
      → IsNotOlder s (send_request R strategy ignore s exchange).1
  unfolding send_request
  request-IsNotOlder direct ignore s exchange = send-IsNotOlder R ignore s exchange.primary
  request-IsNotOlder first_success ignore s exchange = both-IsNotOlder ignore s _ _
  request-IsNotOlder fallback_to_backup ignore s exchange = both-IsNotOlder ignore s _ _

module _ {A : Type 0} (retried : ClientError → Bool)
    (call : ℕ → State → Outcome ClientError A × State) where
  after-IsNotOlder :
      (last : Bool) (s s' : State) (o : Outcome ClientError A) (again : Bool)
      (rest : Option (Outcome ClientError A) × State)
      → IsNotOlder s s'
      → IsNotOlder s' rest.1
      → IsNotOlder s (if again then (if last then (some o, s') else rest) else (some o, s')).1
  after-IsNotOlder last s s' o false rest h k = h
  after-IsNotOlder true s s' o true rest h k = h
  after-IsNotOlder false s s' o true rest h k = IsNotOlder-trans s s' _ h k

  try-IsNotOlder :
      (last : Bool) (s : State) (tried : Outcome ClientError A × State)
      (rest : Option (Outcome ClientError A) × State)
      → IsNotOlder s tried.1
      → IsNotOlder tried.1 rest.1
      → IsNotOlder s (after_try retried call last tried rest).1
  try-IsNotOlder last s (ok a, s') rest h k = h
  try-IsNotOlder last s (err e, s') rest h k =
      after-IsNotOlder last s s' (err e) (retried e) rest h k

  retry-IsNotOlder :
      (left try : ℕ) (s : State)
      → ((n : ℕ) (s' : State) → IsNotOlder s' (call n s').1)
      → IsNotOlder s (retry_from retried call left try s).1
  unfolding retry_from
  retry-IsNotOlder zero try s h = IsNotOlder-refl s
  retry-IsNotOlder (suc left) try s h =
      try-IsNotOlder (left == 0) s (call try s) _ (h try s)
        (retry-IsNotOlder left (suc try) (call try s).1 h)

-- After any number of tries of a call, with any strategy and whatever the network does, the state is of
-- the chain of the state before, once that is known, and its version and its timestamp are not before
-- that state's.
pub execute-IsNotOlder :
    (R A : Type 0) (strategy : Strategy R) (result_parser : Option (R → Outcome ClientError A))
    (network : Call → ℕ → Exchange R) (max_retries : ℕ) (call : Call) (state : State)
    → IsNotOlder state (execute R A strategy result_parser network max_retries call state).1
unfolding execute retry_execute execute_without_retry
execute-IsNotOlder R A strategy result_parser network max_retries call state =
    retry-IsNotOlder is_stale
      (λ try s. execute_without_retry R strategy result_parser false s (network call try))
      max_retries 1 state (λ n s. request-IsNotOlder R strategy false s (network call n))
