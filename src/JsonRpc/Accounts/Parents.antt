-- ===== src/JsonRpc/Accounts/Parents.antt =====
-- What `get_parent_vasp_account` returns.
use client_sdk_python.Base.{
  ℕ, zero, suc, ◌≡◌, refl, sym, ap, ◌∙◌, Option, some, Outcome, ok, err, some-injective,
  ok-injective,
}
use client_sdk_python.Identifier.Text.{Text}
use client_sdk_python.JsonRpc.State.{ClientError}
use client_sdk_python.JsonRpc.Accounts.{
  Account, RoleType, parent_vasp, child_vasp, other_role, not_a_vasp, AccountError,
  must_get_account, parent_of, get_parent_vasp_account,
}
use client_sdk_python.Utils.{AddressArg, hex_text}

module _ (lookup : Text → Outcome ClientError (Option Account)) where
  -- What is returned is the account of a parent VASP.
  returned_parent :
      (account : Account) (role : RoleType) (next : Option (Outcome AccountError Account))
      (found : Account)
      → account.role_type ≡ role
      → (next ≡ some (ok found) → found.role_type ≡ parent_vasp)
      → elim role [
        | parent_vasp ↦ some (ok account)
        | child_vasp ↦ next
        | other_role ↦ some (err not_a_vasp)
      ]
        ≡ some (ok found)
      → found.role_type ≡ parent_vasp
  returned_parent account parent_vasp next found e h k =
      ap (λ a. a.role_type) (sym (ok-injective (some-injective _ _ k))) ∙ e
  returned_parent account child_vasp next found e h k = h k
  returned_parent account other_role next found e h k =
      let no : err not_a_vasp ≡ ok found = some-injective _ _ k in absurd (cc)

  parent_of_role :
      (got : Outcome AccountError Account) (parent : Text → Option (Outcome AccountError Account))
      (found : Account)
      → ((t : Text) → parent t ≡ some (ok found) → found.role_type ≡ parent_vasp)
      → parent_of lookup got parent ≡ some (ok found)
      → found.role_type ≡ parent_vasp
  parent_of_role (err e) parent found h k =
      let no : err e ≡ ok found = some-injective _ _ k in absurd (cc)
  parent_of_role (ok account) parent found h k =
      returned_parent account account.role_type (parent account.parent_vasp_address) found refl
        (h account.parent_vasp_address) k

  -- However often the method calls itself, the account that it returns is the one of a parent VASP.
  pub get_parent_vasp_account_role :
      (calls : ℕ) (start : AddressArg) (found : Account)
      → get_parent_vasp_account lookup calls start ≡ some (ok found)
      → found.role_type ≡ parent_vasp
  unfolding get_parent_vasp_account
  get_parent_vasp_account_role zero start found h = absurd (cc)
  get_parent_vasp_account_role (suc calls) start found h =
      parent_of_role (must_get_account lookup start) _ found
        (λ t. get_parent_vasp_account_role calls (hex_text t) found) h
