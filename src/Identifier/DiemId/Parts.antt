-- ===== src/Identifier/DiemId/Parts.antt =====
-- The parts of a DiemID that was created.
use client_sdk_python.Base.{
  ℕ, ◌≡◌, ◌≢◌, refl, sym, ap, ◌∙◌, Bool, true, false, ◌||◌, not, [], ◌∷◌, ◌++◌, length, ◌==◌,
  if◌then◌else◌, ltb, ok, ◌>>◌, raise_if, Bool-cases, ok-injective, inl, inr,
}
use client_sdk_python.Identifier.Text.{Text, contains}
use client_sdk_python.Identifier.DiemId.{
  at_sign, before_at, after_at, not_a_diem_id, all_allowed, is_diem_id, create_diem_id,
  get_user_identifier_from_diem_id, get_vasp_identifier_from_diem_id,
}

if_false : (b : Bool) {c : Bool} → (if b then false else c) ≡ true → (b ≡ false) × (c ≡ true)
if_false true h = absurd (cc)
if_false false h = (refl, h)

refused :
    (b : Bool) {id : Text} {r : Text}
    → (raise_if (not b) not_a_diem_id >> ok id) ≡ ok r
    → (b ≡ true) × (id ≡ r)
refused true h = (refl, ok-injective h)
refused false h = absurd (cc)

module _ (alnum : ℕ → Bool) (at_apart : alnum at_sign ≡ false) where
  no_at : (t rest : Text) → all_allowed alnum (t ++ (at_sign ∷ rest)) ≢ true
  no_at [] rest h =
      let e : all_allowed alnum (at_sign ∷ rest) ≡ false = rw at_apart in
      let e' : false ≡ true = sym e ∙ h in absurd (cc)
  no_at (c ∷ t) rest h = no_at t rest (if_false _ h).1

  split_at :
      (user vasp : Text)
      → all_allowed alnum (after_at (user ++ (at_sign ∷ vasp))) ≡ true
      → (before_at (user ++ (at_sign ∷ vasp)) ≡ user) × (after_at (user ++ (at_sign ∷ vasp)) ≡ vasp)
  split_at [] vasp h = (refl, refl)
  split_at (c ∷ user) vasp h = elim (Bool-cases (c == at_sign)) [
    | inl same ↦ absurd (no_at user vasp (sym (rw same refl) ∙ h))
    | inr other ↦
        let (front, back) = split_at user vasp (sym (rw other refl) ∙ h) in
        (rw (other, front), rw (other, back))
  ]

  is_diem_id_parts : (t : Text) → is_diem_id alnum t ≡ true → all_allowed alnum (after_at t) ≡ true
  unfolding is_diem_id
  is_diem_id_parts t h =
      let (present, h1) = if_false (not (contains t at_sign)) h in
      let (short, h2) =
        if_false (ltb 64 (length (before_at t)) || ltb 63 (length (after_at t))) h1 in
      (if_false (not (all_allowed alnum (before_at t))) h2).1

  -- Where "@" is not alphanumeric, a DiemID that was created gives back the user identifier and the
  -- domain identifier it was created from.
  pub create_diem_id-parts :
      (user vasp diem_id : Text)
      → create_diem_id alnum user vasp ≡ ok diem_id
      → (get_user_identifier_from_diem_id alnum diem_id ≡ ok user)
        × (get_vasp_identifier_from_diem_id alnum diem_id ≡ ok vasp)
  unfolding create_diem_id get_user_identifier_from_diem_id get_vasp_identifier_from_diem_id
  create_diem_id-parts user vasp diem_id h =
      let (valid, whole) = refused (is_diem_id alnum (user ++ (at_sign ∷ vasp))) h in
      let (front, back) = split_at user vasp (is_diem_id_parts (user ++ (at_sign ∷ vasp)) valid) in
      let valid' : is_diem_id alnum diem_id ≡ true = ap (is_diem_id alnum) (sym whole) ∙ valid in
      (
        rw valid' (ap ok (ap before_at (sym whole) ∙ front)),
        rw valid' (ap ok (ap after_at (sym whole) ∙ back)),
      )
