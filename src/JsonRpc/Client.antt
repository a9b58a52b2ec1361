-- ===== src/JsonRpc/Client.antt =====
-- Requests of the client: `_send_http_request`, the request strategies and `execute_without_retry` of
-- src/diem/jsonrpc/client.py. What the network did is given: the reply to each request, and which of
-- two concurrent requests was completed first. `_lock` makes each update of the state one step.
pub mod Fresh
use client_sdk_python.Base.{Bool, true, false, Option, none, some, if◌then◌else◌, Outcome, ok, err}
use client_sdk_python.Base.Int.{ℤ}
use client_sdk_python.JsonRpc.State.{ClientError, State, update_last_known_state}

module _ (R : Type 0) where
  -- A response body: the members that the client reads. `has_error` is `"error" in json`.
  pub record Json : Type 0 where
    pub chain_id : Option ℤ
    pub ledger_version : Option ℤ
    pub timestamp_usecs : Option ℤ
    pub has_error : Bool
    pub result : Option R

  -- How a request ends: `post` or `raise_for_status` raises, the body is not JSON, or it is.
  pub data Reply : Type 0 where
    fails : Reply
    not_json : Reply
    body : Json → Reply

  -- `except StaleResponseError as e: if not ignore_stale_response: raise e`
  abbrev pub keep_stale : Bool → Json → ClientError → Outcome ClientError Json
  keep_stale true json ClientError.stale_response = ok json
  keep_stale ignore json e = err e

  abbrev pub after_update :
      Bool → State → Json → Outcome ClientError State → Outcome ClientError Json × State
  after_update ignore state json (ok state') = (ok json, state')
  after_update ignore state json (err e) = (keep_stale ignore json e, state)

  unfoldable pub send_http_request : Bool → State → Reply → Outcome ClientError Json × State
  send_http_request ignore state fails = (err ClientError.request_exception, state)
  send_http_request ignore state not_json = (err ClientError.invalid_server_response, state)
  send_http_request ignore state (body json) =
      after_update ignore state json
        (update_last_known_state state json.chain_id json.ledger_version json.timestamp_usecs)

  -- `RequestStrategy`, and `RequestWithBackups` with `fallback` false and true.
  pub data Strategy : Type 0 where
    direct : Strategy
    first_success : Strategy
    fallback_to_backup : Strategy

  pub record Exchange : Type 0 where
    pub primary : Reply
    pub backup : Reply
    pub primary_first : Bool

  -- `try: return first.result()`, `except Exception: return second.result()`
  abbrev pub or_other :
      Outcome ClientError Json → Outcome ClientError Json → Outcome ClientError Json
  or_other (ok json) other = ok json
  or_other (err e) other = other

  -- Both requests are submitted, and each updates the state when it completes, whichever is returned.
  unfoldable pub send_request :
      Strategy → Bool → State → Exchange → Outcome ClientError Json × State
  unfolding send_http_request
  send_request direct ignore state exchange = send_http_request ignore state exchange.primary
  send_request first_success ignore state exchange =
      let earlier = if exchange.primary_first then exchange.primary else exchange.backup in
      let later = if exchange.primary_first then exchange.backup else exchange.primary in
      let (first, state') = send_http_request ignore state earlier in
      let (second, state'') = send_http_request ignore state' later in
      (or_other first second, state'')
  send_request fallback_to_backup ignore state exchange =
      let earlier = if exchange.primary_first then exchange.primary else exchange.backup in
      let later = if exchange.primary_first then exchange.backup else exchange.primary in
      let (first, state') = send_http_request ignore state earlier in
      let (second, state'') = send_http_request ignore state' later in
      let of_primary = if exchange.primary_first then first else second in
      let of_backup = if exchange.primary_first then second else first in
      (or_other of_primary of_backup, state'')

  -- The two `except` clauses of `execute_without_retry`.
  abbrev pub translated : {A : Type 0} → Outcome ClientError A → Outcome ClientError A
  translated (ok a) = ok a
  translated (err ClientError.request_exception) = err ClientError.network_error
  translated (err ClientError.parse_error) = err ClientError.invalid_server_response
  translated (err e) = err e

  abbrev pub parse_result :
      {A : Type 0} → Option (R → Outcome ClientError A) → R → Outcome ClientError (Option A)
  parse_result none result = ok none
  parse_result (some parser) result = elim (parser result) [ ok a ↦ ok (some a) | err e ↦ err e ]

  abbrev pub read_response :
      {A : Type 0}
      → Option (R → Outcome ClientError A)
      → Outcome ClientError Json
      → Outcome ClientError (Option A)
  read_response parser (err e) = err e
  read_response parser (ok json) =
      if json.has_error then err ClientError.json_rpc_error else elim json.result [
        | none ↦ err ClientError.invalid_server_response
        | some result ↦ parse_result parser result
      ]

  unfoldable pub execute_without_retry :
      {A : Type 0}
      → Strategy
      → Option (R → Outcome ClientError A)
      → Bool
      → State
      → Exchange
      → Outcome ClientError (Option A) × State
  unfolding send_request
  execute_without_retry strategy result_parser ignore state exchange =
      let (sent, state') = send_request strategy ignore state exchange in
      (translated (read_response result_parser sent), state')
