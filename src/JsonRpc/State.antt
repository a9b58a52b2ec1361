-- ===== src/JsonRpc/State.antt =====
-- The last known state of the server: src/diem/jsonrpc/state.py and `update_last_known_state` of
-- src/diem/jsonrpc/client.py. A value that the response lacks is `none`.
pub mod Order
use client_sdk_python.Base.{
  ℕ, Bool, true, false, ◌&&◌, not, Option, none, some, if◌then◌else◌, ltb, ◌==◌, Outcome, ok, err,
}
use client_sdk_python.Base.Int.{ℤ, pos, negsuc}

pub data ClientError : Type 0 where
  json_rpc_error : ClientError
  network_error : ClientError
  invalid_server_response : ClientError
  stale_response : ClientError
  request_exception : ClientError
  parse_error : ClientError
  type_error : ClientError

pub record State : Type 0 where
  pub chain_id : Option ℤ
  pub version : ℤ
  pub timestamp_usecs : ℤ

abbrev pub lt_int : ℤ → ℤ → Bool
lt_int (pos a) (pos b) = ltb a b
lt_int (pos a) (negsuc b) = false
lt_int (negsuc a) (pos b) = true
lt_int (negsuc a) (negsuc b) = ltb b a

abbrev pub eq_int : ℤ → ℤ → Bool
eq_int (pos a) (pos b) = a == b
eq_int (pos a) (negsuc b) = false
eq_int (negsuc a) (pos b) = false
eq_int (negsuc a) (negsuc b) = a == b

abbrev pub eq_chain : Option ℤ → Option ℤ → Bool
eq_chain none none = true
eq_chain none (some b) = false
eq_chain (some a) none = false
eq_chain (some a) (some b) = eq_int a b

-- `State(chain_id=-1, version=-1, timestamp_usecs=-1)`
abbrev pub initial_state : State
initial_state = record {
  chain_id = some (negsuc 0);
  version = negsuc 0;
  timestamp_usecs = negsuc 0;
}

abbrev pub check_timestamp : State → Option ℤ → ℤ → Option ℤ → Outcome ClientError State
check_timestamp curr chain version none = err type_error
check_timestamp curr chain version (some timestamp) =
    if lt_int timestamp curr.timestamp_usecs
    then err stale_response
    else ok (record { chain_id = chain; version = version; timestamp_usecs = timestamp })

abbrev pub check_version : State → Option ℤ → Option ℤ → Option ℤ → Outcome ClientError State
check_version curr chain none timestamp = err type_error
check_version curr chain (some version) timestamp =
    if lt_int version curr.version
    then err stale_response
    else check_timestamp curr chain version timestamp

-- The state after the update; where it raises, the state stays as it is.
unfoldable pub update_last_known_state :
    State → Option ℤ → Option ℤ → Option ℤ → Outcome ClientError State
update_last_known_state curr chain version timestamp =
    if not (eq_chain curr.chain_id (some (negsuc 0))) && not (eq_chain curr.chain_id chain)
    then err invalid_server_response
    else check_version curr chain version timestamp
