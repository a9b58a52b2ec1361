-- ===== src/Offchain/Limits.antt =====
-- The currency and the dual attestation limit of an inbound payment: `validate_currency_code` and
-- `is_under_dual_attestation_limit` of src/diem/offchain/client.py.
use client_sdk_python.Base.{
  String, str_eq, Bool, false, ◌&&◌, ◌||◌, not, Option, none, some, List, [], ◌∷◌, if◌then◌else◌,
  Outcome, ok, ◌>>=◌, ◌>>◌, raise_if,
}
use client_sdk_python.Base.Int.{ℤ}
use client_sdk_python.JsonRpc.State.{lt_int}
use client_sdk_python.Offchain.Wallet.{
  Wallet, CurrencyInfo, InboundError, invalid_field_value, unsupported_currency, by_client, raising,
}

abbrev pub one_of : String → List String → Bool
one_of s [] = false
one_of s (t ∷ ts) = str_eq s t || one_of s ts

abbrev pub codes_of : List CurrencyInfo → List String
codes_of [] = []
codes_of (c ∷ cs) = c.code ∷ codes_of cs

-- `filter(lambda code: supported_codes is None or code in supported_codes, codes)`
abbrev pub filter_supported_currency_codes : Option (List String) → List String → List String
filter_supported_currency_codes none codes = codes
filter_supported_currency_codes (some supported) [] = []
filter_supported_currency_codes (some supported) (code ∷ codes) =
    let rest = filter_supported_currency_codes (some supported) codes in
    if one_of code supported then code ∷ rest else rest

-- `for info in currencies: if info.code == currency: if _is_under_the_threshold(...): return ...`
abbrev pub any_under : ℤ → String → ℤ → List CurrencyInfo → Bool
any_under limit currency amount [] = false
any_under limit currency amount (info ∷ infos) =
    str_eq info.code currency && lt_int (info.to_xdx amount) limit
    || any_under limit currency amount infos

module _ (wallet : Wallet) where
  -- `validate_currency_code` and what its exceptions become.
  unfoldable pub validate_currency_code :
      String → List CurrencyInfo → Outcome InboundError (Unit {0})
  validate_currency_code currency currencies = do
    raise_if (not (one_of currency (codes_of currencies))) invalid_field_value
    raise_if
        (not (
          one_of currency (
            filter_supported_currency_codes wallet.supported_currency_codes (codes_of currencies))))
        unsupported_currency

  unfoldable pub is_under_dual_attestation_limit : String → ℤ → Outcome InboundError Bool
  unfolding validate_currency_code
  is_under_dual_attestation_limit currency amount = do
    currencies ← raising by_client wallet.currencies
    validate_currency_code currency currencies
    limit ← raising by_client wallet.dual_attestation_limit
    ok (any_under limit currency amount currencies)
