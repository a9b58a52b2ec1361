-- ===== src/JsonRpc/Wait.antt =====
-- `wait_for_transaction2` of src/diem/jsonrpc/client.py. Each round of the loop is given what it sees:
-- whether the time is before the end of the wait, the last known state, and the answer of
-- `get_account_transaction`, which is asked after the state was read.
pub mod Ends
use client_sdk_python.Base.{
  ℕ, ◌*◌, Bool, true, false, not, Option, none, some, List, [], ◌∷◌, if◌then◌else◌, Outcome, ok,
  err,
}
use client_sdk_python.Base.Int.{ℤ, pos}
use client_sdk_python.Identifier.Text.{Text, text_eq}
use client_sdk_python.JsonRpc.State.{ClientError, State, lt_int}

-- `executed` is `vm_status.type == VM_STATUS_EXECUTED`.
pub record Transaction : Type 0 where
  pub hash : Text
  pub executed : Bool

pub record Round : Type 0 where
  pub in_time : Bool
  pub state : State
  pub answer : Outcome ClientError (Option Transaction)

-- How the wait ends; `unfinished` is a wait whose rounds are not all given.
pub data WaitResult : Type 0 where
  returned : Transaction → WaitResult
  hash_mismatch : WaitResult
  execution_failed : WaitResult
  expired : WaitResult
  raised : ClientError → WaitResult
  timed_out : WaitResult
  unfinished : WaitResult

module _ (expiration_time_secs : ℕ) (txn_hash : Text) where
  abbrev pub check_transaction : Transaction → WaitResult
  check_transaction txn =
      if not (text_eq txn.hash txn_hash)
      then hash_mismatch
      else if not txn.executed
      then execution_failed
      else returned txn

  -- `expiration_time_secs * 1_000_000 <= state.timestamp_usecs`
  abbrev pub is_expired : State → Bool
  is_expired state = not (lt_int state.timestamp_usecs (pos (expiration_time_secs * 1000000)))

  abbrev pub after_answer :
      State → Outcome ClientError (Option Transaction) → WaitResult → WaitResult
  after_answer state (err e) rest = raised e
  after_answer state (ok (some txn)) rest = check_transaction txn
  after_answer state (ok none) rest = if is_expired state then expired else rest

  unfoldable pub wait_for_transaction2 : List Round → WaitResult
  wait_for_transaction2 [] = unfinished
  wait_for_transaction2 (round ∷ rounds) =
      let rest = wait_for_transaction2 rounds in
      if round.in_time then after_answer round.state round.answer rest else timed_out
