-- ===== src/Jws/Sample.antt =====
-- Concrete codecs and keys for the runs on concrete data.
use client_sdk_python.Base.{
  ℕ, ◌%◌, ◌≡◌, Bool, true, none, some, List, [], ◌∷◌, All, IsByte, length, if◌then◌else◌, arith,
}
use client_sdk_python.Identifier.Text.{Text, text_eq, text_eq_refl}
use client_sdk_python.Offchain.Json.{Any, Members, dict, str, no_members, member}
use client_sdk_python.Jws.{JsonCodec}

-- `{"alg":"EdDSA"}`
abbrev pub header_text : Text
header_text = 123 ∷ 34 ∷ 97 ∷ 108 ∷ 103 ∷ 34 ∷ 58 ∷ 34 ∷ 69 ∷ 100 ∷ 68 ∷ 83 ∷ 65 ∷ 34 ∷ 125 ∷ []

abbrev pub headers : Members
headers = member "alg" (str "EdDSA") no_members

-- A codec for the headers and one more value, which it writes as `{}`.
abbrev pub codec_for : Any → JsonCodec
codec_for v = record {
  dumps = λ w. 123 ∷ 125 ∷ [];
  dumps_compact = λ w. header_text;
  loads = λ t.
      if text_eq t header_text
      then some (dict headers)
      else if text_eq t (123 ∷ 125 ∷ [])
      then some v
      else none;
}

-- A signature that depends on the length of the message.
abbrev pub sign : List ℕ → List ℕ
sign m = length m % 256 ∷ []

abbrev pub verify : List ℕ → List ℕ → Bool
verify sig m = text_eq sig (sign m)

pub sign-IsByte : (m : List ℕ) → All IsByte (sign m)
sign-IsByte m = (omega arith, tt)

pub verify-sign : (m : List ℕ) → verify (sign m) m ≡ true
verify-sign m = text_eq_refl (sign m)
