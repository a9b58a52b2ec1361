-- ===== src/JsonRpc/Queries.antt =====
-- The get methods of src/diem/jsonrpc/client.py: the calls that they make, and `execute`.
pub mod Fresh
mod Tests
use client_sdk_python.Base.{
  ℕ, ◌≡◌, refl, String, Bool, true, false, Option, none, some, List, [], ◌∷◌, if◌then◌else◌,
  Outcome, ok, err, ◌>>=◌,
}
use client_sdk_python.Base.Int.{ℤ, pos}
use client_sdk_python.Identifier.Text.{Text}
use client_sdk_python.Utils.{AddressError, AddressArg, account_address_hex}
use client_sdk_python.JsonRpc.State.{ClientError, State, eq_int}
use client_sdk_python.JsonRpc.Client.{Strategy, Exchange, execute_without_retry}
use client_sdk_python.JsonRpc.Retry.{retry_execute}

-- A parameter of a call: a text, a number, a Boolean, or `None`.
pub data Param : Type 0 where
  text : Text → Param
  int : ℤ → Param
  boolean : Bool → Param
  null : Param

-- The method and the parameters of a JSON-RPC call.
pub record Call : Type 0 where
  pub method : String
  pub params : List Param

-- `[int(version)] if version else []`
abbrev pub if_version : Option ℤ → List Param
if_version none = []
if_version (some version) = if eq_int version (pos 0) then [] else int version ∷ []

-- `bool(flag)` and a value or `None`.
abbrev pub flag : Option Bool → Param
flag none = boolean false
flag (some b) = boolean b

abbrev pub int_or_none : Option ℤ → Param
int_or_none none = null
int_or_none (some i) = int i

unfoldable pub get_metadata : Option ℤ → Call
get_metadata version = record { method = "get_metadata"; params = if_version version }

abbrev pub get_currencies : Call
get_currencies = record { method = "get_currencies"; params = [] }

unfoldable pub get_account_call : AddressArg → Outcome AddressError Call
get_account_call account_address = do
  address ← account_address_hex account_address
  ok (record { method = "get_account"; params = text address ∷ [] })

unfoldable pub get_account_transaction : AddressArg → ℤ → Option Bool → Outcome AddressError Call
get_account_transaction account_address sequence include_events = do
  address ← account_address_hex account_address
  ok (record {
    method = "get_account_transaction";
    params = text address ∷ int sequence ∷ flag include_events ∷ [];
  })

unfoldable pub get_account_transactions :
    AddressArg → ℤ → ℤ → Option Bool → Outcome AddressError Call
get_account_transactions account_address sequence limit include_events = do
  address ← account_address_hex account_address
  ok (record {
    method = "get_account_transactions";
    params = text address ∷ int sequence ∷ int limit ∷ flag include_events ∷ [];
  })

abbrev pub get_transactions : ℤ → ℤ → Option Bool → Call
get_transactions start_version limit include_events = record {
  method = "get_transactions";
  params = int start_version ∷ int limit ∷ flag include_events ∷ [];
}

abbrev pub get_events : Text → ℤ → ℤ → Call
get_events event_stream_key start limit = record {
  method = "get_events";
  params = text event_stream_key ∷ int start ∷ int limit ∷ [];
}

abbrev pub get_state_proof : ℤ → Call
get_state_proof version = record { method = "get_state_proof"; params = int version ∷ [] }

unfoldable pub get_account_state_with_proof :
    AddressArg → Option ℤ → Option ℤ → Outcome AddressError Call
get_account_state_with_proof account_address version ledger_version = do
  address ← account_address_hex account_address
  ok (record {
    method = "get_account_state_with_proof";
    params = text address ∷ int_or_none version ∷ int_or_none ledger_version ∷ [];
  })

-- `Retry(..., StaleResponseError)`
abbrev pub is_stale : ClientError → Bool
is_stale ClientError.stale_response = true
is_stale e = false

-- `execute` of a call: `network` is what happens to each try. A stale response is tried again.
unfoldable pub execute :
    (R A : Type 0)
    → Strategy R
    → Option (R → Outcome ClientError A)
    → (Call → ℕ → Exchange R)
    → ℕ
    → Call
    → State
    → Option (Outcome ClientError (Option A)) × State
unfolding retry_execute execute_without_retry
execute R A strategy result_parser network max_retries call state =
    retry_execute is_stale
      (λ try s. execute_without_retry R strategy result_parser false s (network call try))
      max_retries state
