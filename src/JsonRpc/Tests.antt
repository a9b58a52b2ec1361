-- ===== src/JsonRpc/Tests.antt =====
-- The client at concrete inputs.
use client_sdk_python.Base.{Option}
use client_sdk_python.Base.{length}
use client_sdk_python.Identifier.Text.{Text}
use client_sdk_python.Base.{All, ◌⊎◌, ◌==◌, if◌then◌else◌}
use client_sdk_python.Base.{
  ℕ, suc, ◌≡◌, ◌<◌, refl, Bool, true, false, none, some, List, [], ◌∷◌, take, drop, Outcome, ok,
  err, arith,
}
use client_sdk_python.Base.Int.{pos}
use client_sdk_python.Base.{replicate, sym, inl, inr, Bool-cases, some-injective, ok-injective}
use client_sdk_python.Identifier.Text.{text_eq}
use client_sdk_python.Utils.{
  hex_text, account_address_hex, account_address_bytes, account_address, from_hex, from_bytes,
}
use client_sdk_python.Utils.Hex.{fromhex, fromhex_from, hex_step, bytes_hex}
use client_sdk_python.JsonRpc.Accounts.{
  Account, AccountError, parent_vasp, child_vasp, other_role, must_get_account,
  get_base_url_and_compliance_key,
}
use client_sdk_python.JsonRpc.Accounts.Keys.{
  AreValid, AreParents, IsHolder, Gives, get_base_url_and_compliance_key_lem,
}
use client_sdk_python.JsonRpc.State.{ClientError, State, initial_state, update_last_known_state}
use client_sdk_python.JsonRpc.State.Order.{IsNotOlder}
use client_sdk_python.JsonRpc.Client.{Json, body, send_http_request}
use client_sdk_python.JsonRpc.Client.Fresh.{here, reply, send_http_request_fresh}
use client_sdk_python.JsonRpc.Retry.{
  retry_execute, outcome_after, state_after, IsRetried, outcomes, retry_execute_lem,
}
use client_sdk_python.JsonRpc.Wait.{Transaction, Round, returned, expired, wait_for_transaction2}
use client_sdk_python.JsonRpc.Wait.Ends.{
  Ends, IsFound, IsExpired, wait_for_transaction2_returned, wait_for_transaction2_expired,
}
use client_sdk_python.JsonRpc.Domains.{
  DomainEvent, apply_events, get_treasury, treasury_address, get_vasp_domain_map,
}
use client_sdk_python.JsonRpc.Domains.Batches.{as_mapping, get_vasp_domain_map_lem}

abbrev response : ℕ → ℕ → Json ℕ
response version timestamp = record {
  chain_id = some (pos 4);
  ledger_version = some (pos version);
  timestamp_usecs = some (pos timestamp);
  has_error = false;
  result = some 0;
}

abbrev state_at : ℕ → ℕ → State
state_at version timestamp = record {
  chain_id = some (pos 4);
  version = pos version;
  timestamp_usecs = pos timestamp;
}

first_reply : (send_http_request ℕ false initial_state (body (response 3 30))).1 ≡ state_at 3 30
unfolding send_http_request update_last_known_state
first_reply = refl

-- An older response raises, and is taken where stale responses are ignored.
stale_reply :
    send_http_request ℕ false (state_at 3 30) (body (response 2 40))
    ≡ (err ClientError.stale_response, state_at 3 30)
unfolding send_http_request update_last_known_state
stale_reply = refl

ignored_reply :
    send_http_request ℕ true (state_at 3 30) (body (response 2 40))
    ≡ (ok (response 2 40), state_at 3 30)
unfolding send_http_request update_last_known_state
ignored_reply = refl

second_reply :
    send_http_request ℕ false
      (send_http_request ℕ false initial_state (body (response 3 30))).1
      (body (response 5 50))
    ≡ (ok (response 5 50), state_at 5 50)
unfolding send_http_request update_last_known_state
second_reply = refl

send_http_request_fresh_example :
    IsNotOlder initial_state (state_at 5 50)
    × (some (pos 4) ≡ some (pos 4))
    × ((response 5 50).ledger_version ≡ some (pos 5))
    × ((response 5 50).timestamp_usecs ≡ some (pos 50))
send_http_request_fresh_example =
    send_http_request_fresh ℕ initial_state
      (send_http_request ℕ false initial_state (body (response 3 30))).1 (state_at 5 50)
      (body (response 5 50)) (response 5 50) (reply here false (body (response 3 30))) second_reply

-- A call that raises at its first two tries.
abbrev third_time : ℕ → ℕ → Outcome Bool ℕ × ℕ
third_time try s = (if try == 3 then ok s else err true, suc s)

third_result : retry_execute (λ e. e) third_time 15 0 ≡ (some (ok 2), 3)
unfolding retry_execute
third_result = refl

retry_execute_lem_example :
    (k : ℕ) × (k < 15)
    × (retry_execute (λ e. e) third_time 15 0
        ≡ (some (outcome_after (λ e. e) third_time 1 k 0), state_after (λ e. e) third_time 1 k 0))
    × All (IsRetried (λ e. e) third_time) (outcomes (λ e. e) third_time 1 k 0)
    × ((¬ IsRetried (λ e. e) third_time (outcome_after (λ e. e) third_time 1 k 0)) ⊎ (suc k ≡ 15))
retry_execute_lem_example = retry_execute_lem (λ e. e) third_time 15 0 (omega arith)

abbrev transaction : Transaction
transaction = record { hash = 97 ∷ 98 ∷ []; executed = true }

abbrev rounds : List Round
rounds =
    record { in_time = true; state = state_at 3 30; answer = ok none }
    ∷ record { in_time = true; state = state_at 4 40; answer = ok (some transaction) }
    ∷ []

wait_result : wait_for_transaction2 10 (97 ∷ 98 ∷ []) rounds ≡ returned transaction
unfolding wait_for_transaction2
wait_result = refl

wait_for_transaction2_returned_example :
    Ends 10 (97 ∷ 98 ∷ []) (IsFound 10 (97 ∷ 98 ∷ []) transaction) rounds
wait_for_transaction2_returned_example =
    wait_for_transaction2_returned 10 (97 ∷ 98 ∷ []) rounds transaction wait_result

-- The state of the round has the timestamp of the expiration.
abbrev late_rounds : List Round
late_rounds =
    record { in_time = true; state = state_at 3 9999999; answer = ok none }
    ∷ record { in_time = true; state = state_at 4 10000000; answer = ok none }
    ∷ []

late_result : wait_for_transaction2 10 (97 ∷ 98 ∷ []) late_rounds ≡ expired
unfolding wait_for_transaction2
late_result = refl

wait_for_transaction2_expired_example :
    Ends 10 (97 ∷ 98 ∷ []) (IsExpired 10 (97 ∷ 98 ∷ [])) late_rounds
wait_for_transaction2_expired_example =
    wait_for_transaction2_expired 10 (97 ∷ 98 ∷ []) late_rounds late_result

abbrev history : List DomainEvent
history =
    record { removed = false; domain = 97 ∷ []; address = 1 ∷ [] }
    ∷ record { removed = false; domain = 98 ∷ []; address = 2 ∷ [] }
    ∷ record { removed = true; domain = 97 ∷ []; address = 1 ∷ [] }
    ∷ []

abbrev treasury : Account
treasury = record {
  role_type = other_role;
  parent_vasp_address = [];
  base_url = [];
  compliance_key = [];
  sequence_number = 0;
  vasp_domain_events_key = 101 ∷ [];
}

-- Only the treasury account is known, and only its stream has events.
abbrev treasury_only : Text → Outcome ClientError (Option Account)
treasury_only t = if text_eq t treasury_address then ok (some treasury) else ok none

abbrev events_of : Text → ℕ → ℕ → Outcome ClientError (List DomainEvent)
events_of key start limit =
    if text_eq key (101 ∷ []) then ok (take limit (drop start history)) else ok []

got_treasury : get_treasury treasury_only ≡ ok treasury
unfolding get_treasury must_get_account account_address_hex account_address_bytes account_address
    from_hex from_bytes fromhex fromhex_from hex_step bytes_hex
got_treasury = refl

get_vasp_domain_map_lem_example :
    get_vasp_domain_map treasury_only events_of 2 4 ≡ as_mapping (apply_events [] history)
get_vasp_domain_map_lem_example =
    get_vasp_domain_map_lem treasury_only treasury events_of 2 history 4 got_treasury
      (λ start limit. refl) (omega arith) (omega arith)

left : apply_events [] history ≡ some ((98 ∷ [], 2 ∷ []) ∷ [])
unfolding apply_events
left = refl

-- `valid` of the tests: a key of two bytes.
abbrev two_bytes : List ℕ → Bool
two_bytes bytes = length bytes == 2

abbrev child : Account
child = record {
  role_type = child_vasp;
  parent_vasp_address = replicate 32 49;
  base_url = [];
  compliance_key = [];
  sequence_number = 0;
  vasp_domain_events_key = [];
}

-- The key `0a0b` and the base url `x`.
abbrev parent : Account
parent = record {
  role_type = parent_vasp;
  parent_vasp_address = [];
  base_url = 120 ∷ [];
  compliance_key = 48 ∷ 97 ∷ 48 ∷ 98 ∷ [];
  sequence_number = 0;
  vasp_domain_events_key = [];
}

-- The child stands at `0000...`, the parent at `1111...`.
abbrev server : Text → Outcome ClientError (Option Account)
server t = if text_eq t (replicate 32 49) then ok (some parent) else ok (some child)

child_found : must_get_account server (hex_text (replicate 32 48)) ≡ ok child
unfolding must_get_account account_address_hex account_address_bytes account_address from_hex
    from_bytes fromhex fromhex_from hex_step bytes_hex
child_found = refl

parent_found : must_get_account server (hex_text child.parent_vasp_address) ≡ ok parent
unfolding must_get_account account_address_hex account_address_bytes account_address from_hex
    from_bytes fromhex fromhex_from hex_step bytes_hex
parent_found = refl

parent_key : fromhex parent.compliance_key ≡ some (10 ∷ 11 ∷ [])
unfolding fromhex fromhex_from hex_step
parent_key = refl

-- The two accounts that the server has.
given : (t : Text) (a : Account) → server t ≡ ok (some a) → (a ≡ parent) ⊎ (a ≡ child)
given t a h = elim (Bool-cases (text_eq t (replicate 32 49))) [
  | inl ones ↦ inl (sym (some-injective _ _ (ok-injective (rw ones at h))))
  | inr others ↦ inr (sym (some-injective _ _ (ok-injective (rw others at h))))
]

keys_valid : AreValid server two_bytes
keys_valid t a h own = elim (given t a h) [
  | inl e ↦ (10 ∷ 11 ∷ [], rw e parent_key, refl)
  | inr e ↦ absurd (cc)
]

parents_known : AreParents server two_bytes
parents_known t a h named = elim (given t a h) [
  | inl e ↦ absurd (cc)
  | inr e ↦ (parent, rw e parent_found, refl)
]

get_base_url_and_compliance_key_lem_example :
    ((e : AccountError) × (must_get_account server (hex_text (replicate 32 48)) ≡ err e)
      × (get_base_url_and_compliance_key server two_bytes 2 (hex_text (replicate 32 48))
          ≡ some (err e)))
    ⊎ ((account : Account) × (holder : Account) × (must_get_account server
            (hex_text (replicate 32 48))
          ≡ ok account)
        × IsHolder server two_bytes account holder
        × Gives server two_bytes holder
            (get_base_url_and_compliance_key server two_bytes 2 (hex_text (replicate 32 48))))
get_base_url_and_compliance_key_lem_example =
    get_base_url_and_compliance_key_lem server two_bytes (hex_text (replicate 32 48)) keys_valid
      parents_known

-- The child has the key of its parent.
childs_key :
    get_base_url_and_compliance_key server two_bytes 2 (hex_text (replicate 32 48))
    ≡ some (ok (120 ∷ [], 10 ∷ 11 ∷ []))
unfolding get_base_url_and_compliance_key must_get_account account_address_hex account_address_bytes
    account_address from_hex from_bytes fromhex fromhex_from hex_step bytes_hex
childs_key = refl
