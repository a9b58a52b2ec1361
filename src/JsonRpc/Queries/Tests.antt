-- ===== src/JsonRpc/Queries/Tests.antt =====
-- A get method whose first response is stale.
use client_sdk_python.Base.{
  ℕ, ◌≡◌, refl, true, false, Option, none, some, ◌==◌, if◌then◌else◌, Outcome, ok,
}
use client_sdk_python.Base.Int.{pos}
use client_sdk_python.JsonRpc.State.{ClientError, State, update_last_known_state}
use client_sdk_python.JsonRpc.State.Order.{IsNotOlder}
use client_sdk_python.JsonRpc.Client.{
  Json, body, direct, Exchange, execute_without_retry, send_request, send_http_request,
}
use client_sdk_python.JsonRpc.Retry.{retry_execute, retry_from}
use client_sdk_python.JsonRpc.Queries.{Call, get_metadata, execute}
use client_sdk_python.JsonRpc.Queries.Fresh.{execute-IsNotOlder}

abbrev response : ℕ → Json ℕ
response version = record {
  chain_id = some (pos 4);
  ledger_version = some (pos version);
  timestamp_usecs = some (pos version);
  has_error = false;
  result = some version;
}

abbrev network : Call → ℕ → Exchange ℕ
network call try = record {
  primary = body (response (if try == 1 then 2 else 5));
  backup = body (response 5);
  primary_first = true;
}

abbrev state_at : ℕ → State
state_at version = record {
  chain_id = some (pos 4);
  version = pos version;
  timestamp_usecs = pos version;
}

abbrev parser : Option (ℕ → Outcome ClientError ℕ)
parser = some (λ n. ok n)

-- Version 0 asks for the latest metadata.
genesis_metadata : get_metadata (some (pos 0)) ≡ get_metadata none
unfolding get_metadata
genesis_metadata = refl

executed :
    execute ℕ ℕ direct parser network 3 (get_metadata (some (pos 4))) (state_at 3)
    ≡ (some (ok (some 5)), state_at 5)
unfolding execute retry_execute retry_from execute_without_retry send_request send_http_request
    update_last_known_state
executed = refl

execute-IsNotOlder_example :
    IsNotOlder (state_at 3) (execute ℕ ℕ direct parser network 3 (get_metadata none) (state_at 3)).1
execute-IsNotOlder_example =
    execute-IsNotOlder ℕ ℕ direct parser network 3 (get_metadata none) (state_at 3)
