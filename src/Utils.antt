-- ===== src/Utils.antt =====
-- Conversions of addresses: src/diem/utils.py, with `AccountAddress` of src/diem/diem_types and the
-- authentication key of src/diem/auth_key.py. A `bytes` value is the list of its bytes.
pub mod Hex
pub mod Hashing
pub mod Addresses
mod Tests
use client_sdk_python.Base.{
  ℕ, ◌-◌, Bool, not, Option, none, some, List, [], ◌∷◌, ◌++◌, length, take, drop, ◌==◌,
  if◌then◌else◌, Outcome, ok, err, ◌>>=◌, ◌>>◌, raise_if,
}
use client_sdk_python.Identifier.Text.{Text}
use client_sdk_python.Utils.Hex.{bytes_hex, fromhex}

-- What is raised. `not_hex` and `wrong_length` are the `ValueError`s of `bytes.fromhex` and of
-- `AccountAddress.from_bytes`; `no_to_bytes` is the `AttributeError` of `to_bytes` of a `bytes` value.
pub data AddressError : Type 0 where
  not_hex : AddressError
  wrong_length : AddressError
  invalid_account_address : AddressError
  invalid_sub_address : AddressError
  no_to_bytes : AddressError

abbrev pub account_address_length : ℕ
account_address_length = 16

abbrev pub sub_address_len : ℕ
sub_address_len = 8

-- `value`, the tuple of 16 bytes.
pub data AccountAddress : Type 0 where
  account_address_of : List ℕ → AccountAddress

abbrev pub to_bytes : AccountAddress → List ℕ
to_bytes (account_address_of value) = value

unfoldable pub from_bytes : List ℕ → Outcome AddressError AccountAddress
from_bytes bytes = do
  raise_if (not (length bytes == account_address_length)) AddressError.wrong_length
  ok (account_address_of bytes)

abbrev pub or_not_hex : Option (List ℕ) → Outcome AddressError (List ℕ)
or_not_hex none = err AddressError.not_hex
or_not_hex (some bytes) = ok bytes

abbrev pub fromhex_or_raise : Text → Outcome AddressError (List ℕ)
fromhex_or_raise text = or_not_hex (fromhex text)

abbrev pub to_hex : AccountAddress → Text
to_hex address = bytes_hex (to_bytes address)

unfoldable pub from_hex : Text → Outcome AddressError AccountAddress
unfolding from_bytes
from_hex text = do bytes ← fromhex_or_raise text; from_bytes bytes

-- `typing.Union[diem_types.AccountAddress, bytes, str]`
pub data AddressArg : Type 0 where
  address : AccountAddress → AddressArg
  raw : List ℕ → AddressArg
  hex_text : Text → AddressArg

-- `except ValueError as e: raise InvalidAccountAddressError(e)`
abbrev pub as_invalid : {A : Type 0} → Outcome AddressError A → Outcome AddressError A
as_invalid (ok a) = ok a
as_invalid (err e) = err AddressError.invalid_account_address

unfoldable pub account_address : AddressArg → Outcome AddressError AccountAddress
unfolding from_bytes from_hex
account_address (address a) = ok a
account_address (raw bytes) = as_invalid (from_bytes bytes)
account_address (hex_text text) = as_invalid (from_hex text)

unfoldable pub account_address_bytes : AddressArg → Outcome AddressError (List ℕ)
unfolding account_address
account_address_bytes (address a) = ok (to_bytes a)
account_address_bytes (raw bytes) = err AddressError.no_to_bytes
account_address_bytes (hex_text text) = do a ← account_address (hex_text text); ok (to_bytes a)

unfoldable pub account_address_hex : AddressArg → Outcome AddressError Text
unfolding account_address_bytes
account_address_hex arg = do bytes ← account_address_bytes arg; ok (bytes_hex bytes)

-- `typing.Union[str, bytes]`
pub data SubAddressArg : Type 0 where
  sub_bytes : List ℕ → SubAddressArg
  sub_hex : Text → SubAddressArg

abbrev pub sub_address_bytes : SubAddressArg → Outcome AddressError (List ℕ)
sub_address_bytes (sub_bytes bytes) = ok bytes
sub_address_bytes (sub_hex text) = fromhex_or_raise text

unfoldable pub sub_address : SubAddressArg → Outcome AddressError (List ℕ)
sub_address arg = do
  bytes ← sub_address_bytes arg
  raise_if (not (length bytes == sub_address_len)) AddressError.invalid_sub_address
  ok bytes

-- `hex` of an optional `bytes`.
abbrev pub hex : Option (List ℕ) → Text
hex none = []
hex (some bytes) = bytes_hex bytes

-- `AuthKey.account_address` and `AuthKey.prefix`, of the key's bytes.
unfoldable pub key_account_address : List ℕ → Outcome AddressError AccountAddress
unfolding account_address
key_account_address key = account_address (raw (drop (length key - account_address_length) key))

abbrev pub key_prefix : List ℕ → List ℕ
key_prefix key = take (length key - account_address_length) key
