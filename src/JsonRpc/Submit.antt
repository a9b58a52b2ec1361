-- ===== src/JsonRpc/Submit.antt =====
-- `submit` and `wait_for_transaction` of src/diem/jsonrpc/client.py.
mod Tests
use client_sdk_python.Base.{
  ℕ, ◌≡◌, refl, ap, ◌∙◌, Bool, true, Option, none, some, List, [], ◌∷◌, All, IsByte, Outcome, ok,
  err, ◌>>=◌,
}
use client_sdk_python.Base.Int.{ℤ, pos, negsuc}
use client_sdk_python.Bcs.Error.{Error}
use client_sdk_python.Bcs.Types.{Value, Utf8, Utf8Laws, int, object, nil, cons}
use client_sdk_python.DiemTypes.Codec.{
  bcs_serialize, deserialize_exactly, IsInstance, deserialize-bcs_serialize,
}
use client_sdk_python.Identifier.Text.{Text}
use client_sdk_python.Utils.Hex.{bytes_hex, fromhex, fromhex-bytes_hex}
use client_sdk_python.Utils.Hashing.{transaction_hash}
use client_sdk_python.JsonRpc.State.{ClientError, State}
use client_sdk_python.JsonRpc.Client.{Strategy, Exchange, execute_without_retry}
use client_sdk_python.JsonRpc.Wait.{Round, WaitResult, wait_for_transaction2}

-- `typing.Union[diem_types.SignedTransaction, str]`
pub data TransactionArg : Type 0 where
  signed : Value → TransactionArg
  hex_text : Text → TransactionArg

-- `not_hex` is the `ValueError` of `bytes.fromhex`; `not_signed` is a value without the attributes of a
-- signed transaction.
pub data SubmitError : Type 0 where
  not_hex not_signed : SubmitError
  by_serializer : Error → SubmitError
  by_client : ClientError → SubmitError

abbrev pub serialized : {A : Type 0} → Outcome Error A → Outcome SubmitError A
serialized (ok a) = ok a
serialized (err e) = err (by_serializer e)

abbrev pub or_not_hex : Option (List ℕ) → Outcome SubmitError (List ℕ)
or_not_hex none = err not_hex
or_not_hex (some bytes) = ok bytes

-- The address, the sequence number and the expiration of `txn.raw_txn`. A number that is negative
-- does not serialize, so there is no hash to wait for.
pub record Awaited : Type 0 where
  pub sender : Value
  pub sequence_number : ℕ
  pub expiration_timestamp_secs : ℕ

abbrev pub awaited : Value → Outcome SubmitError Awaited
awaited
      (object c (
        cons
          (object r (
            cons sender (
              cons (int (pos seq)) (
                cons payload
                  (cons gas (cons price (cons code (cons (int (pos expiration)) rest))))))))
          authenticator)) =
    ok (record { sender = sender; sequence_number = seq; expiration_timestamp_secs = expiration })
awaited _ = err not_signed

abbrev pub submitted : {A : Type 0} → Outcome ClientError A → Outcome SubmitError (Unit {0})
submitted (ok a) = ok tt
submitted (err e) = err (by_client e)

-- The state is not changed when the transaction does not serialize.
abbrev pub submit_text :
    (R : Type 0)
    → Strategy R
    → State
    → (Text → Exchange R)
    → Outcome SubmitError Text
    → Outcome SubmitError (Unit {0}) × State
submit_text R strategy state exchange (err e) = (err e, state)
submit_text R strategy state exchange (ok text) =
    let parser : Option (R → Outcome ClientError (Unit {0})) = none in
    let (sent, state') = execute_without_retry R strategy parser true state (exchange text) in
    (submitted sent, state')

module _ (utf8 : Utf8) where
  -- The text that is the one parameter of the request.
  unfoldable pub submitted_text : TransactionArg → Outcome SubmitError Text
  submitted_text (hex_text text) = ok text
  submitted_text (signed txn) = do
    bytes ← serialized (bcs_serialize utf8 "SignedTransaction" txn)
    ok (bytes_hex bytes)

  -- `exchange` is what the network does with the request of a text. A stale response is ignored, and
  -- the result is not parsed.
  unfoldable pub submit :
      (R : Type 0)
      → Strategy R
      → State
      → (Text → Exchange R)
      → TransactionArg
      → Outcome SubmitError (Unit {0}) × State
  unfolding submitted_text
  submit R strategy state exchange txn = submit_text R strategy state exchange (submitted_text txn)

  module _ (sha3_256 : List ℕ → List ℕ) where
    -- What the rounds of the wait see of the account's transaction.
    abbrev pub wait_for_signed : (Value → ℕ → List Round) → Value → Outcome SubmitError WaitResult
    wait_for_signed rounds txn = do
      txn_hash ← serialized (transaction_hash sha3_256 utf8 txn)
      a ← awaited txn
      ok (
          wait_for_transaction2 a.expiration_timestamp_secs txn_hash
            (rounds a.sender a.sequence_number))

    unfoldable pub wait_for_transaction :
        (Value → ℕ → List Round) → TransactionArg → Outcome SubmitError WaitResult
    wait_for_transaction rounds (signed txn) = wait_for_signed rounds txn
    wait_for_transaction rounds (hex_text text) = do
      bytes ← or_not_hex (fromhex text)
      txn ← serialized (deserialize_exactly utf8 "SignedTransaction" bytes)
      wait_for_signed rounds txn

    -- A signed transaction, an instance of its class, and the hex text of its serialization are the same
    -- to `submit`, from any state and with any network, and to `wait_for_transaction`, with any rounds.
    -- UTF-8 keeps its laws.
    pub signed-hex_text :
        (R : Type 0) (strategy : Strategy R) (state : State) (exchange : Text → Exchange R)
        (rounds : Value → ℕ → List Round) (txn : Value)
        → Utf8Laws utf8
        → IsInstance utf8 "SignedTransaction" txn
        → (bytes : List ℕ) × (bcs_serialize utf8 "SignedTransaction" txn ≡ ok bytes)
          × (submit R strategy state exchange (signed txn)
              ≡ submit R strategy state exchange (hex_text (bytes_hex bytes)))
          × (wait_for_transaction rounds (signed txn)
              ≡ wait_for_transaction rounds (hex_text (bytes_hex bytes)))
    unfolding submit wait_for_transaction submitted_text
    signed-hex_text R strategy state exchange rounds txn laws h =
        let (bytes, written, fine, read) =
          deserialize-bcs_serialize utf8 "SignedTransaction" txn laws h in
        (bytes, written, rw written, rw (fromhex-bytes_hex bytes fine, read))
