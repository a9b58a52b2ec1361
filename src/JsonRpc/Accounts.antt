-- ===== src/JsonRpc/Accounts.antt =====
-- The account queries of src/diem/jsonrpc/client.py that follow a child to its parent. `lookup` is what
-- the server answers to `get_account`, by the hex text of the address.
pub mod Parents
pub mod Keys
use client_sdk_python.Base.{
  ℕ, zero, suc, Bool, true, false, ◌&&◌, not, Option, none, some, List, [], ◌∷◌, if◌then◌else◌,
  Outcome, ok, err, ◌>>=◌,
}
use client_sdk_python.Identifier.Text.{Text}
use client_sdk_python.JsonRpc.State.{ClientError}
use client_sdk_python.Utils.{AddressError, AddressArg, hex_text, account_address_hex}
use client_sdk_python.Utils.Hex.{fromhex}

-- `role.type`, where `other` is every type that is neither of the two.
pub data RoleType : Type 0 where
  parent_vasp : RoleType
  child_vasp : RoleType
  other_role : RoleType

-- The members of `rpc.Account` that are read; a text that is not set is empty.
pub record Account : Type 0 where
  pub role_type : RoleType
  pub parent_vasp_address : Text
  pub base_url : Text
  pub compliance_key : Text
  pub sequence_number : ℕ
  pub vasp_domain_events_key : Text

pub data AccountError : Type 0 where
  bad_address : AddressError → AccountError
  request_failed : ClientError → AccountError
  account_not_found : AccountError
  not_a_vasp : AccountError
  no_compliance_key : AccountError
  bad_key : AccountError

-- `if text`
abbrev pub is_set : Text → Bool
is_set [] = false
is_set (c ∷ t) = true

abbrev pub addressed : {A : Type 0} → Outcome AddressError A → Outcome AccountError A
addressed (ok t) = ok t
addressed (err e) = err (bad_address e)

abbrev pub requested : {A : Type 0} → Outcome ClientError A → Outcome AccountError A
requested (ok a) = ok a
requested (err e) = err (request_failed e)

abbrev pub found : Option Account → Outcome AccountError Account
found none = err account_not_found
found (some account) = ok account

-- `from_public_bytes(bytes.fromhex(...))`: `valid` is what `Ed25519PublicKey` takes.
abbrev pub public_key_of : (List ℕ → Bool) → Option (List ℕ) → Outcome AccountError (List ℕ)
public_key_of valid none = err bad_key
public_key_of valid (some bytes) = if valid bytes then ok bytes else err bad_key

module _ (lookup : Text → Outcome ClientError (Option Account)) where
  unfoldable pub get_account : AddressArg → Outcome AccountError (Option Account)
  get_account account_address = do
    address ← addressed (account_address_hex account_address)
    requested (lookup address)

  unfoldable pub must_get_account : AddressArg → Outcome AccountError Account
  unfolding get_account
  must_get_account account_address = do account ← get_account account_address; found account

  unfoldable pub get_account_sequence : AddressArg → Outcome AccountError ℕ
  unfolding get_account
  get_account_sequence account_address = do
    account ← get_account account_address
    found account >>= λ a. ok a.sequence_number

  -- What is done with the account that was got, where `parent` is the call for its parent.
  abbrev pub parent_of :
      Outcome AccountError Account
      → (Text → Option (Outcome AccountError Account))
      → Option (Outcome AccountError Account)
  parent_of (err e) parent = some (err e)
  parent_of (ok account) parent = elim account.role_type [
    | parent_vasp ↦ some (ok account)
    | child_vasp ↦ parent account.parent_vasp_address
    | other_role ↦ some (err not_a_vasp)
  ]

  -- The method calls itself, `calls` times at most; `none` is a call that is cut off.
  unfoldable pub get_parent_vasp_account : ℕ → AddressArg → Option (Outcome AccountError Account)
  unfolding must_get_account
  get_parent_vasp_account zero account_address = none
  get_parent_vasp_account (suc calls) account_address =
      parent_of (must_get_account account_address)
        (λ address. get_parent_vasp_account calls (hex_text address))

  abbrev pub key_of :
      (List ℕ → Bool)
      → Outcome AccountError Account
      → (Text → Option (Outcome AccountError (Text × List ℕ)))
      → Option (Outcome AccountError (Text × List ℕ))
  key_of valid (err e) parent = some (err e)
  key_of valid (ok account) parent =
      let own = public_key_of valid (fromhex account.compliance_key) >>= λ key.
      ok (account.base_url, key) in
      let of_parent = parent account.parent_vasp_address in
      if is_set account.compliance_key && is_set account.base_url
      then some own
      else if is_set account.parent_vasp_address
      then of_parent
      else some (err no_compliance_key)

  unfoldable pub get_base_url_and_compliance_key :
      (List ℕ → Bool) → ℕ → AddressArg → Option (Outcome AccountError (Text × List ℕ))
  unfolding must_get_account
  get_base_url_and_compliance_key valid zero account_address = none
  get_base_url_and_compliance_key valid (suc calls) account_address =
      key_of valid (must_get_account account_address)
        (λ address. get_base_url_and_compliance_key valid calls (hex_text address))
