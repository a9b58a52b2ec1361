-- ===== src/Identifier/Account.antt =====
-- Account identifiers: `encode_account`, `decode_account` and `decode_hrp` of
-- src/diem/identifier/__init__.py.
pub mod RoundTrip
use client_sdk_python.Base.{
  ℕ, Bool, not, ◌||◌, Option, none, some, List, [], ◌∷◌, take, length, ◌==◌, if◌then◌else◌, Outcome,
  ok, err, ◌>>=◌, ◌>>◌, raise_if,
}
use client_sdk_python.Identifier.Text.{Text, text_eq, StrCase}
use client_sdk_python.Identifier.Bech32.{
  Bech32Error, bech32_address_encode, bech32_address_decode, diem_zero_subaddress,
}
use client_sdk_python.Utils.{
  AddressError, AccountAddress, AddressArg, raw, account_address, account_address_bytes,
  SubAddressArg, sub_bytes, sub_hex, sub_address,
}

-- `DM`, `TDM`, `PDM` and `DDM`
abbrev pub dm : Text
dm = 100 ∷ 109 ∷ []

abbrev pub tdm : Text
tdm = 116 ∷ 100 ∷ 109 ∷ []

abbrev pub pdm : Text
pdm = 112 ∷ 100 ∷ 109 ∷ []

abbrev pub ddm : Text
ddm = 100 ∷ 100 ∷ 109 ∷ []

-- What is raised: an exception of the conversions, the `ValueError` that reports a `Bech32Error`, the
-- `IndexError` that is not caught, and the `ValueError` of a wrong size.
pub data IdentifierError : Type 0 where
  conversion : AddressError → IdentifierError
  value_error : Bech32Error → IdentifierError
  uncaught_index_error : IdentifierError
  wrong_size : IdentifierError

abbrev pub converted : {A : Type 0} → Outcome AddressError A → Outcome IdentifierError A
converted (ok a) = ok a
converted (err e) = err (IdentifierError.conversion e)

-- `except Bech32Error as e: raise ValueError(...)`
abbrev pub as_value_error : {A : Type 0} → Outcome Bech32Error A → Outcome IdentifierError A
as_value_error (ok a) = ok a
as_value_error (err Bech32Error.index_error) = err IdentifierError.uncaught_index_error
as_value_error (err e) = err (IdentifierError.value_error e)

-- `utils.sub_address(subaddr) if subaddr else None`, where an empty `str` or `bytes` is false.
abbrev pub optional_sub_address : Option SubAddressArg → Outcome AddressError (Option (List ℕ))
optional_sub_address none = ok none
optional_sub_address (some (sub_bytes [])) = ok none
optional_sub_address (some (sub_hex [])) = ok none
optional_sub_address (some arg) = sub_address arg >>= λ bytes. ok (some bytes)

unfoldable pub encode_account :
    AddressArg → Option SubAddressArg → Text → Outcome IdentifierError Text
encode_account onchain_addr subaddr hrp = do
  address ← converted (account_address_bytes onchain_addr)
  subaddress ← converted (optional_sub_address subaddr)
  as_value_error (bech32_address_encode hrp address subaddress)

-- `subaddress_bytes` if it is not `DIEM_ZERO_SUBADDRESS`.
abbrev pub present_subaddress : List ℕ → Option (List ℕ)
present_subaddress bytes = if not (text_eq bytes diem_zero_subaddress) then some bytes else none

unfoldable pub decode_account :
    StrCase → Text → Text → Outcome IdentifierError (AccountAddress × Option (List ℕ))
decode_account case encoded_address hrp = do
  decoded ← as_value_error (bech32_address_decode case hrp encoded_address)
  address ← converted (account_address (raw decoded.1))
  ok (address, present_subaddress decoded.2)

unfoldable pub decode_hrp : Text → Outcome IdentifierError Text
decode_hrp encoded_address = do
  raise_if (not (length encoded_address == 50 || length encoded_address == 49))
      IdentifierError.wrong_size
  ok (if text_eq (take 2 encoded_address) dm then dm else take 3 encoded_address)

unfoldable pub decode_account_address :
    StrCase → Text → Text → Outcome IdentifierError AccountAddress
unfolding decode_account
decode_account_address case encoded_address hrp = do
  decoded ← decode_account case encoded_address hrp
  ok decoded.0

unfoldable pub decode_account_subaddress :
    StrCase → Text → Text → Outcome IdentifierError (Option (List ℕ))
unfolding decode_account
decode_account_subaddress case encoded_address hrp = do
  decoded ← decode_account case encoded_address hrp
  ok decoded.1
