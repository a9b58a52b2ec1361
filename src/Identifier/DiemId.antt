-- ===== src/Identifier/DiemId.antt =====
-- DiemIDs: src/diem/identifier/diem_id.py. `str.isalnum` of one character is the parameter `alnum`.
pub mod Parts
use client_sdk_python.Base.{
  ℕ, ◌≤◌, ◌≡◌, ◌⊎◌, inl, inr, refl, sym, ap, ◌∙◌, Bool, true, false, ◌&&◌, ◌||◌, not, Option, none,
  some, List, [], ◌∷◌, ◌++◌, All, all, length, ◌==◌, ==_iff, if◌then◌else◌, ltb, Outcome, ok, err,
  ◌>>=◌, ◌>>◌, raise_if, arith, Bool-cases, >>=-eq-ok,
}
use client_sdk_python.Identifier.Text.{Text, contains, &&-true}

abbrev pub at_sign : ℕ
at_sign = 64

-- `t.split("@", 1)[0]` and `t.split("@", 1)[1]`, where the second is asked only of a text with "@".
abbrev pub before_at : Text → Text
before_at [] = []
before_at (c ∷ t) = let rest = before_at t in if c == at_sign then [] else c ∷ rest

abbrev pub after_at : Text → Text
after_at [] = []
after_at (c ∷ t) = let rest = after_at t in if c == at_sign then t else rest

pub data DiemIdError : Type 0 where
  not_a_diem_id : DiemIdError

module _ (alnum : ℕ → Bool) where
  -- The loop over the characters of one part.
  abbrev pub all_allowed : Text → Bool
  all_allowed [] = true
  all_allowed (ch ∷ t) =
      let rest = all_allowed t in if not (alnum ch) && not (ch == 46) then false else rest

  unfoldable pub is_diem_id : Text → Bool
  is_diem_id account_identifier =
      if not (contains account_identifier at_sign)
      then false
      else if ltb 64 (length (before_at account_identifier))
          || ltb 63 (length (after_at account_identifier))
      then false
      else if not (all_allowed (before_at account_identifier))
      then false
      else all_allowed (after_at account_identifier)

  unfoldable pub create_diem_id : Text → Text → Outcome DiemIdError Text
  unfolding is_diem_id
  create_diem_id user_identifier vasp_domain_identifier = do
    raise_if (not (is_diem_id (user_identifier ++ (at_sign ∷ vasp_domain_identifier))))
        not_a_diem_id
    ok (user_identifier ++ (at_sign ∷ vasp_domain_identifier))

  unfoldable pub get_user_identifier_from_diem_id : Text → Outcome DiemIdError Text
  unfolding is_diem_id
  get_user_identifier_from_diem_id diem_id = do
    raise_if (not (is_diem_id diem_id)) not_a_diem_id
    ok (before_at diem_id)

  unfoldable pub get_vasp_identifier_from_diem_id : Text → Outcome DiemIdError Text
  unfolding is_diem_id
  get_vasp_identifier_from_diem_id diem_id = do
    raise_if (not (is_diem_id diem_id)) not_a_diem_id
    ok (after_at diem_id)
