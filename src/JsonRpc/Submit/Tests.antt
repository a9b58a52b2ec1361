-- ===== src/JsonRpc/Submit/Tests.antt =====
-- A signed transaction, its hex text, and what is submitted and awaited.
use client_sdk_python.Base.{
  ℕ, zero, suc, ◌≡◌, refl, true, List, [], ◌∷◌, ◌++◌, replicate, All, IsByte, ok, arith,
}
use client_sdk_python.Base.Int.{pos}
use client_sdk_python.Bcs.Ascii.{ascii, ascii-laws}
use client_sdk_python.Bcs.Types.{
  Value, Values, text, int, bytestring, items, tuple_of, object, variant, nil, cons,
}
use client_sdk_python.Bcs.Parser.{read}
use client_sdk_python.Bcs.Words.{from_le}
use client_sdk_python.Bcs.Uleb.Decode.{
  deserialize_uleb128_as_u32, deserialize_len, deserialize_variant_index, uleb128_rounds,
}
use client_sdk_python.Bcs.Deserializer.{
  bcs_deserialize, deserialize, deserialize_any, deserialize_class, deserialize_container,
  deserialize_format, deserialize_primitive, deserialize_bytes, deserialize_str,
  deserialize_unsigned, deserialize_each,
}
use client_sdk_python.DiemTypes.Classes.{diem_types}
use client_sdk_python.DiemTypes.Codec.{
  bcs_serialize, deserialize_exactly, IsInstance, bcs_deserialize_canonical,
}
use client_sdk_python.Identifier.Text.{Text}
use client_sdk_python.Utils.Hex.{bytes_hex}
use client_sdk_python.Utils.Hashing.{create_signed_transaction}
use client_sdk_python.JsonRpc.State.{initial_state}
use client_sdk_python.JsonRpc.Client.{fails, direct, Exchange}
use client_sdk_python.JsonRpc.Wait.{Round}
use client_sdk_python.JsonRpc.Submit.{
  signed, hex_text, submit, wait_for_transaction, signed-hex_text,
}

abbrev ones : ℕ → Values
ones zero = nil
ones (suc n) = cons (int (pos 1)) (ones n)

abbrev script : Value
script = object "Script" (cons (bytestring []) (cons (items nil) (cons (items nil) nil)))

abbrev raw_txn : Value
raw_txn = object "RawTransaction" (
    cons (object "AccountAddress" (cons (tuple_of (ones 16)) nil)) (
      cons (int (pos 5)) (
        cons (variant "TransactionPayload" 1 (cons script nil)) (
          cons (int (pos 9)) (
            cons (int (pos 0)) (
              cons (text (88 ∷ 85 ∷ 83 ∷ []))
                (cons (int (pos 30)) (cons (object "ChainId" (cons (int (pos 4)) nil)) nil))))))))

abbrev word : ℕ → List ℕ
word n = n ∷ replicate 7 0

abbrev txn_bytes : List ℕ
txn_bytes =
    replicate 16 1
    ++ (word 5
        ++ (1
            ∷ 0
            ∷ 0
            ∷ 0
            ∷ (word 9
                ++ (word 0 ++ (3 ∷ 88 ∷ 85 ∷ 83 ∷ (word 30 ++ (4 ∷ 0 ∷ 1 ∷ 7 ∷ 2 ∷ 8 ∷ 9 ∷ [])))))))

abbrev txn : Value
unfolding create_signed_transaction
txn = create_signed_transaction raw_txn (7 ∷ []) (8 ∷ 9 ∷ [])

txn_read : deserialize_exactly ascii "SignedTransaction" txn_bytes ≡ ok txn
unfolding create_signed_transaction deserialize_exactly bcs_deserialize deserialize deserialize_any
    deserialize_class deserialize_container deserialize_format deserialize_primitive
    deserialize_bytes deserialize_str deserialize_len deserialize_variant_index
    deserialize_uleb128_as_u32 uleb128_rounds from_le read diem_types deserialize_unsigned
    deserialize_each
txn_read = refl

txn_bytes-IsByte : All IsByte txn_bytes
txn_bytes-IsByte = ground arith

txn-IsInstance : IsInstance ascii "SignedTransaction" txn
txn-IsInstance =
    (bcs_deserialize_canonical ascii "SignedTransaction" txn_bytes txn ascii-laws txn_bytes-IsByte
      txn_read).0

abbrev no_network : Text → Exchange ℕ
no_network t = record { primary = fails; backup = fails; primary_first = true }

abbrev no_rounds : Value → ℕ → List Round
no_rounds sender seq = []

signed-hex_text_example :
    (bytes : List ℕ) × (bcs_serialize ascii "SignedTransaction" txn ≡ ok bytes)
    × (submit ascii ℕ direct initial_state no_network (signed txn)
        ≡ submit ascii ℕ direct initial_state no_network (hex_text (bytes_hex bytes)))
    × (wait_for_transaction ascii (λ m. m) no_rounds (signed txn)
        ≡ wait_for_transaction ascii (λ m. m) no_rounds (hex_text (bytes_hex bytes)))
signed-hex_text_example =
    signed-hex_text ascii (λ m. m) ℕ direct initial_state no_network no_rounds txn ascii-laws
      txn-IsInstance
