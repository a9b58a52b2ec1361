-- ===== src/Utils/Hashing.antt =====
-- Hashes and signed transactions: src/diem/utils.py and src/diem/auth_key.py. `sha3_256` is that of
-- hashlib.
use client_sdk_python.Base.{ℕ, List, [], ◌∷◌, ◌++◌, Outcome, ok, ◌>>=◌}
use client_sdk_python.Bcs.Error.{Error}
use client_sdk_python.Bcs.Types.{Value, Utf8, object, variant, bytestring, nil, cons}
use client_sdk_python.DiemTypes.Codec.{bcs_serialize}
use client_sdk_python.Identifier.Text.{Text}
use client_sdk_python.Utils.Hex.{bytes_hex}

-- `DIEM::`
abbrev pub diem_hash_prefix : List ℕ
diem_hash_prefix = 68 ∷ 73 ∷ 69 ∷ 77 ∷ 58 ∷ 58 ∷ []

-- `RawTransaction` and `Transaction`
abbrev pub transaction_type : List ℕ
transaction_type = 84 ∷ 114 ∷ 97 ∷ 110 ∷ 115 ∷ 97 ∷ 99 ∷ 116 ∷ 105 ∷ 111 ∷ 110 ∷ []

abbrev pub raw_transaction_type : List ℕ
raw_transaction_type = 82 ∷ 97 ∷ 119 ∷ transaction_type

-- `SignedTransaction.from_raw_txn_and_ed25519_key`
unfoldable pub create_signed_transaction : Value → List ℕ → List ℕ → Value
create_signed_transaction txn public_key signature = object "SignedTransaction" (
    cons txn (
      cons
        (variant "TransactionAuthenticator" 0 (
          cons (object "Ed25519PublicKey" (cons (bytestring public_key) nil))
            (cons (object "Ed25519Signature" (cons (bytestring signature) nil)) nil)))
        nil))

module _ (sha3_256 : List ℕ → List ℕ) where
  unfoldable pub hash : List ℕ → List ℕ → List ℕ
  hash b1 b2 = sha3_256 (b1 ++ b2)

  unfoldable pub diem_hash_seed : List ℕ → List ℕ
  unfolding hash
  diem_hash_seed typ = hash diem_hash_prefix typ

  -- The bytes of the authentication key of a public key.
  unfoldable pub from_public_key : List ℕ → List ℕ
  unfolding hash
  from_public_key public_key = hash public_key (0 ∷ [])

  module _ (utf8 : Utf8) where
    unfoldable pub raw_transaction_signing_msg : Value → Outcome Error (List ℕ)
    unfolding diem_hash_seed
    raw_transaction_signing_msg txn = do
      bytes ← bcs_serialize utf8 "RawTransaction" txn
      ok (diem_hash_seed raw_transaction_type ++ bytes)

    unfoldable pub transaction_hash : Value → Outcome Error Text
    unfolding diem_hash_seed
    transaction_hash txn = do
      bytes ← bcs_serialize utf8 "Transaction" (variant "Transaction" 0 (cons txn nil))
      ok (bytes_hex (hash (diem_hash_seed transaction_type) bytes))
