-- ===== src/Utils/Tests.antt =====
-- Addresses at concrete inputs.
use client_sdk_python.Base.{◌≡◌, refl, some, [], ◌∷◌, ◌++◌, All, IsByte, length, replicate, ok}
use client_sdk_python.Utils.{
  AccountAddress, account_address_of, to_bytes, from_hex, from_bytes, address, hex_text,
  account_address, account_address_hex,
}
use client_sdk_python.Utils.Hex.{bytes_hex, fromhex, fromhex_from, hex_step}
use client_sdk_python.Utils.Addresses.{account_address_hex_text}

abbrev treasury : AccountAddress
treasury = account_address_of (replicate 12 0 ++ (11 ∷ 30 ∷ 85 ∷ 237 ∷ []))

-- `fromhex` skips the space and reads both cases.
fromhex_example : fromhex (48 ∷ 65 ∷ 32 ∷ 102 ∷ 102 ∷ []) ≡ some (10 ∷ 255 ∷ [])
unfolding fromhex fromhex_from hex_step
fromhex_example = refl

-- `0000000000000000000000000b1e55ed`
reads_treasury :
    account_address (hex_text (replicate 25 48 ++ (98 ∷ 49 ∷ 101 ∷ 53 ∷ 53 ∷ 101 ∷ 100 ∷ [])))
    ≡ ok treasury
unfolding account_address from_hex from_bytes fromhex fromhex_from hex_step
reads_treasury = refl

account_address_hex_text_example :
    (length (to_bytes treasury) ≡ 16)
    × All IsByte (to_bytes treasury)
    × (account_address_hex (address treasury) ≡ ok (bytes_hex (to_bytes treasury)))
    × (account_address (hex_text (bytes_hex (to_bytes treasury))) ≡ ok treasury)
account_address_hex_text_example =
    account_address_hex_text (replicate 25 48 ++ (98 ∷ 49 ∷ 101 ∷ 53 ∷ 53 ∷ 101 ∷ 100 ∷ []))
      treasury reads_treasury
