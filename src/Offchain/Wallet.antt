-- ===== src/Offchain/Wallet.antt =====
-- What a client of src/diem/offchain/client.py holds and asks, and what the processing of an inbound
-- payment raises.
use client_sdk_python.Base.{ℕ, String, Bool, Option, List, Outcome, ok, err}
use client_sdk_python.Base.Int.{ℤ}
use client_sdk_python.Bcs.Error.{Error}
use client_sdk_python.Bcs.Types.{Utf8}
use client_sdk_python.Identifier.Text.{Text, StrCase}
use client_sdk_python.Identifier.Account.{IdentifierError, value_error}
use client_sdk_python.JsonRpc.State.{ClientError}
use client_sdk_python.JsonRpc.Accounts.{Account, AccountError}
use client_sdk_python.Offchain.PaymentCommand.{CommandError}

-- `code` and `math.ceil(to_xdx_exchange_rate * amount)`, a float operation, of a `rpc.CurrencyInfo`.
pub record CurrencyInfo : Type 0 where
  pub code : String
  pub to_xdx : ℤ → ℤ

-- The fields of the client, what its JSON-RPC client answers, and what the libraries give: the code
-- points of a `str`, its cases, the UTF-8 codec, the keys that Ed25519 takes and its verification.
pub record Wallet : Type 0 where
  pub hrp : Text
  pub my_compliance_key_account_id : Text
  pub supported_currency_codes : Option (List String)
  pub lookup : Text → Outcome ClientError (Option Account)
  pub currencies : Outcome ClientError (List CurrencyInfo)
  pub dual_attestation_limit : Outcome ClientError ℤ
  pub recursion_limit : ℕ
  pub points : String → Text
  pub case : StrCase
  pub utf8 : Utf8
  pub is_key : List ℕ → Bool
  pub verify : List ℕ → List ℕ → List ℕ → Bool

-- The codes of the errors that are raised, and the exceptions that pass through.
pub data InboundError : Type 0 where
  invalid_field_value : InboundError
  invalid_http_header : InboundError
  unknown_address : InboundError
  no_kyc_needed : InboundError
  unsupported_currency : InboundError
  invalid_recipient_signature : InboundError
  by_command : CommandError → InboundError
  by_identifier : IdentifierError → InboundError
  by_account : AccountError → InboundError
  by_client : ClientError → InboundError
  by_serializer : Error → InboundError
  recursion_error : InboundError

abbrev pub raising : {E A : Type 0} → (E → InboundError) → Outcome E A → Outcome InboundError A
raising f (ok a) = ok a
raising f (err e) = err (f e)

-- `except ValueError` around `decode_account`.
abbrev pub unless_value_error : InboundError → IdentifierError → InboundError
unless_value_error code (value_error e) = code
unless_value_error code e = by_identifier e
