-- ===== src/JsonRpc/Accounts/Keys.antt =====
-- The base url and the compliance key of an account, over `get_base_url_and_compliance_key` of
-- src/diem/jsonrpc/client.py: what the accounts of the chain keep, and what is then returned.
use client_sdk_python.Base.{
  ℕ, ◌≡◌, ◌⊎◌, inl, inr, refl, ap, ◌∙◌, Bool, true, false, ◌&&◌, Option, none, some, List, Outcome,
  ok, err, >>=-eq-ok, Outcome-cases, Bool-cases,
}
use client_sdk_python.Identifier.Text.{Text}
use client_sdk_python.JsonRpc.State.{ClientError}
use client_sdk_python.JsonRpc.Accounts.{
  Account, AccountError, no_compliance_key, is_set, found, requested, addressed, get_account,
  must_get_account, key_of, get_base_url_and_compliance_key,
}
use client_sdk_python.Utils.{AddressArg, hex_text, account_address_hex}
use client_sdk_python.Utils.Hex.{fromhex}

-- Both a compliance key and a base url are set.
abbrev HasOwn : Account → Type 0
HasOwn account = (is_set account.compliance_key && is_set account.base_url) ≡ true

abbrev HasNoOwn : Account → Type 0
HasNoOwn account = (is_set account.compliance_key && is_set account.base_url) ≡ false

abbrev Result : Type 0
Result = Option (Outcome AccountError (Text × List ℕ))

found-eq-ok : (o : Option Account) {a : Account} → found o ≡ ok a → o ≡ some a
found-eq-ok none h = absurd (cc)
found-eq-ok (some b) h = cc

requested-eq-ok : {A : Type 0} (o : Outcome ClientError A) {a : A} → requested o ≡ ok a → o ≡ ok a
requested-eq-ok (ok b) h = cc
requested-eq-ok (err e) h = absurd (cc)

module _ (lookup : Text → Outcome ClientError (Option Account)) (valid : List ℕ → Bool) where
  -- A compliance key that the server gives is the hex text of a valid key.
  abbrev pub AreValid : Type 0
  AreValid =
      (t : Text) (a : Account)
      → lookup t ≡ ok (some a)
      → HasOwn a
      → (key : List ℕ) × (fromhex a.compliance_key ≡ some key) × (valid key ≡ true)

  -- A parent that an account names is known, and names no parent itself.
  abbrev pub AreParents : Type 0
  AreParents =
      (t : Text) (a : Account)
      → lookup t ≡ ok (some a)
      → is_set a.parent_vasp_address ≡ true
      → (p : Account) × (must_get_account lookup (hex_text a.parent_vasp_address) ≡ ok p)
        × (is_set p.parent_vasp_address ≡ false)

  -- The account whose key counts for an account: itself, or its parent.
  abbrev pub IsHolder : Account → Account → Type 0
  IsHolder account holder =
      ((holder ≡ account) × (HasOwn account ⊎ (is_set account.parent_vasp_address ≡ false)))
      ⊎ (HasNoOwn account
          × (must_get_account lookup (hex_text account.parent_vasp_address) ≡ ok holder))

  -- The holder's base url and key are the result, or there is none.
  abbrev pub Gives : Account → Option (Outcome AccountError (Text × List ℕ)) → Type 0
  Gives holder result =
      (HasNoOwn holder × (result ≡ some (err no_compliance_key)))
      ⊎ ((key : List ℕ) × HasOwn holder
          × (fromhex holder.compliance_key ≡ some key)
          × (valid key ≡ true)
          × (result ≡ some (ok (holder.base_url, key))))

  -- An account that was got is one that the server gave.
  got-lookup :
      (start : AddressArg) (a : Account)
      → must_get_account lookup start ≡ ok a
      → (t : Text) × (lookup t ≡ ok (some a))
  unfolding must_get_account get_account
  got-lookup start a h =
      let (o, got, is_found) = >>=-eq-ok (get_account lookup start) found h in
      let (t, addr, asked) =
        >>=-eq-ok (addressed (account_address_hex start)) (λ t. requested (lookup t)) got in
      (t, requested-eq-ok (lookup t) asked ∙ ap ok (found-eq-ok o is_found))

  module _ (keys : AreValid) where
    own-Gives :
        (start : AddressArg) (a : Account) (parent : Text → Result)
        → must_get_account lookup start ≡ ok a
        → HasOwn a
        → Gives a (key_of lookup valid (ok a) parent)
    own-Gives start a parent got own =
        let (t, given) = got-lookup start a got in
        let (key, written, is_valid) = keys t a given own in
        inr (key, own, written, is_valid, rw (own, written, is_valid))

    -- An account that names no parent.
    top-Gives :
        (start : AddressArg) (a : Account) (parent : Text → Result)
        → must_get_account lookup start ≡ ok a
        → is_set a.parent_vasp_address ≡ false
        → Gives a (key_of lookup valid (ok a) parent)
    top-Gives start a parent got top =
        elim (Bool-cases (is_set a.compliance_key && is_set a.base_url)) [
          | inl own ↦ own-Gives start a parent got own
          | inr lacks ↦ inl (lacks, rw (lacks, top))
        ]

    -- The call for the parent is the last one that is needed.
    settles :
        (start : AddressArg) (a : Account)
        → AreParents
        → must_get_account lookup start ≡ ok a
        → (holder : Account) × IsHolder a holder
          × Gives holder (
              key_of lookup valid (ok a) (λ address.
                key_of lookup valid (must_get_account lookup (hex_text address)) (λ further. none)))
    settles start a parents got =
        let next = λ (address : Text).
          key_of lookup valid (must_get_account lookup (hex_text address)) (λ further. none) in
        elim (Bool-cases (is_set a.compliance_key && is_set a.base_url)) [
          | inl own ↦ (a, inl (refl, inl own), own-Gives start a next got own)
          | inr lacks ↦ elim (Bool-cases (is_set a.parent_vasp_address)) [
            | inl named ↦
                let (t, given) = got-lookup start a got in
                let (p, got_p, top) = parents t a given named in
                let gives =
                  top-Gives (hex_text a.parent_vasp_address) p (λ further. none) got_p top in
                (p, inr (lacks, got_p), rw (lacks, named, got_p) gives)
            | inr top ↦ (a, inl (refl, inr top), top-Gives start a next got top)
          ]
        ]

  -- Where compliance keys are valid and the parents that accounts name are known and name none, two calls
  -- settle the base url and the key of every account: they are those of the account itself, if it has
  -- both or names no parent, or else of its parent, and are not found only if that one lacks one of
  -- the two. An account that is not got is the error of getting it.
  pub get_base_url_and_compliance_key_lem :
      (start : AddressArg)
      → AreValid
      → AreParents
      → ((e : AccountError) × (must_get_account lookup start ≡ err e)
          × (get_base_url_and_compliance_key lookup valid 2 start ≡ some (err e)))
        ⊎ ((account : Account) × (holder : Account) × (must_get_account lookup start ≡ ok account)
            × IsHolder account holder
            × Gives holder (get_base_url_and_compliance_key lookup valid 2 start))
  unfolding get_base_url_and_compliance_key
  get_base_url_and_compliance_key_lem start keys parents =
      elim (Outcome-cases (must_get_account lookup start)) [
        | inl (e, failed) ↦ inl (e, failed, rw failed)
        | inr (a, got) ↦
            let (holder, holds, gives) = settles keys start a parents got in
            inr (a, holder, got, holds, rw got gives)
      ]
