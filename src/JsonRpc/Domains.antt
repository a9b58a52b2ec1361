-- ===== src/JsonRpc/Domains.antt =====
-- `get_vasp_domain_map` of src/diem/jsonrpc/client.py. What the server answers to `get_account` and to
-- `get_events` are the parameters `lookup` and `get_events`.
pub mod Batches
use client_sdk_python.Base.{
  ℕ, zero, suc, ◌+◌, ◌-◌, ◌≡◌, ◌<◌, ◌≤◌, refl, sym, ap, ◌∙◌, Bool, true, false, Option, none, some,
  List, [], ◌∷◌, ◌++◌, take, drop, length, if◌then◌else◌, ltb, lt→ltb, ltb→lt, arith, Bool-cases,
  inl, inr, take-append-drop, length-drop, append-nil, replicate, Outcome, ok, err, ◌>>=◌,
}
use client_sdk_python.Identifier.Text.{Text, text_eq}
use client_sdk_python.JsonRpc.State.{ClientError}
use client_sdk_python.JsonRpc.Accounts.{Account, AccountError, addressed, must_get_account}
use client_sdk_python.Utils.{address, hex_text, account_address}

-- `event.data`
pub record DomainEvent : Type 0 where
  pub removed : Bool
  pub domain : Text
  pub address : Text

abbrev pub Dict : Type 0
Dict = List (Text × Text)

-- `domain_map[key] = value`
abbrev pub set : Dict → Text → Text → Dict
set [] key value = (key, value) ∷ []
set ((k, v) ∷ dict) key value =
    let rest = set dict key value in if text_eq k key then (k, value) ∷ dict else (k, v) ∷ rest

abbrev pub cons_entry : Text × Text → Option Dict → Option Dict
cons_entry entry none = none
cons_entry entry (some dict) = some (entry ∷ dict)

-- `del domain_map[key]`, where `none` is the `KeyError`.
abbrev pub del : Dict → Text → Option Dict
del [] key = none
del ((k, v) ∷ dict) key =
    let rest = del dict key in if text_eq k key then some dict else cons_entry (k, v) rest

abbrev pub apply_event : Dict → DomainEvent → Option Dict
apply_event dict event =
    if event.removed then del dict event.domain else some (set dict event.domain event.address)

abbrev pub and_then : Option Dict → (Dict → Option Dict) → Option Dict
and_then none next = none
and_then (some dict) next = next dict

-- `for event in events`
unfoldable pub apply_events : Dict → List DomainEvent → Option Dict
apply_events dict [] = some dict
apply_events dict (event ∷ events) =
    and_then (apply_event dict event) (λ dict'. apply_events dict' events)

-- How the method ends: the loop is cut off, the treasury account is not got, a request for events fails,
-- `del` raises `KeyError`, or the map is returned.
pub data Mapping : Type 0 where
  out_of_fuel : Mapping
  account_failed : AccountError → Mapping
  events_failed : ClientError → Mapping
  key_error : Mapping
  mapped : Dict → Mapping

-- What the loop does with the map that a batch has left.
abbrev pub after_batch : Bool → Option Dict → (Dict → Mapping) → Mapping
after_batch short none rest = key_error
after_batch short (some dict) rest = if short then mapped dict else rest dict

-- A round, with what the request for a batch gave.
abbrev pub after_events :
    Outcome ClientError (List DomainEvent) → ℕ → Dict → (Dict → Mapping) → Mapping
unfolding apply_events
after_events (err e) batch_size dict rest = events_failed e
after_events (ok events) batch_size dict rest =
    after_batch (ltb (length events) batch_size) (apply_events dict events) rest

module _ (get_events : ℕ → ℕ → Outcome ClientError (List DomainEvent)) (batch_size : ℕ) where
  -- `while True`, for `rounds` rounds at most.
  unfoldable pub map_from : ℕ → ℕ → Dict → Mapping
  unfolding apply_events
  map_from zero event_index dict = out_of_fuel
  map_from (suc rounds) event_index dict =
      after_events (get_events event_index batch_size) batch_size dict
        (λ dict'. map_from rounds (event_index + batch_size) dict')

-- `TREASURY_ADDRESS`
abbrev pub treasury_address : Text
treasury_address = replicate 25 48 ++ (98 ∷ 49 ∷ 101 ∷ 53 ∷ 53 ∷ 101 ∷ 100 ∷ [])

abbrev pub with_account : Outcome AccountError Account → (Account → Mapping) → Mapping
with_account (err e) next = account_failed e
with_account (ok account) next = next account

module _ (lookup : Text → Outcome ClientError (Option Account)) where
  -- `self.must_get_account(utils.account_address(TREASURY_ADDRESS))`
  unfoldable pub get_treasury : Outcome AccountError Account
  unfolding account_address
  get_treasury = do
    a ← addressed (account_address (hex_text treasury_address))
    must_get_account lookup (address a)

  -- The events of a stream are asked for by its key.
  unfoldable pub get_vasp_domain_map :
      (Text → ℕ → ℕ → Outcome ClientError (List DomainEvent)) → ℕ → ℕ → Mapping
  unfolding map_from get_treasury
  get_vasp_domain_map get_events batch_size rounds =
      with_account get_treasury
        (λ account. map_from (get_events account.vasp_domain_events_key) batch_size rounds 0 [])
