-- ===== src/Offchain/Wire.antt =====
-- Objects as signed messages: src/diem/offchain/jws.py, with `to_json` and `from_json` of
-- src/diem/offchain/types/__init__.py.
pub mod RoundTrip
use client_sdk_python.Base.{ℕ, Bool, Option, none, some, List, [], Outcome, ok, err, ◌>>=◌, false}
use client_sdk_python.Bcs.Types.{Utf8}
use client_sdk_python.Identifier.Text.{Text}
use client_sdk_python.Jws.{JsonCodec, JwsError, encode, decode}
use client_sdk_python.Offchain.Json.{Any, Members, str, no_members, member, AsdictError, to_dict}
use client_sdk_python.Offchain.Json.Schema.{FieldType}
use client_sdk_python.Offchain.Json.Load.{LoadError, from_dict}

-- What is raised: by the jws module, by `from_dict`, by `asdict`, and `JSONDecodeError`.
pub data WireError : Type 0 where
  by_jws : JwsError → WireError
  by_load : LoadError → WireError
  by_asdict : AsdictError → WireError
  json_decode_error : WireError

abbrev pub raising : {E F A : Type 0} → (E → F) → Outcome E A → Outcome F A
raising f (ok a) = ok a
raising f (err e) = err (f e)

-- The default of `headers`.
abbrev pub default_headers : Members
default_headers = member "alg" (str "EdDSA") no_members

abbrev pub loaded : Option Any → Outcome WireError Any
loaded none = err json_decode_error
loaded (some v) = ok v

module _ (json : JsonCodec) (utf8 : Utf8) where
  unfoldable pub to_json : Any → Outcome WireError Text
  to_json obj = do d ← raising by_asdict (to_dict obj); ok (json.dumps d)

  unfoldable pub from_json : Text → FieldType → Outcome WireError Any
  from_json text klass = do v ← loaded (json.loads text); raising by_load (from_dict klass "" v)

  unfoldable pub serialize : Any → (List ℕ → List ℕ) → Outcome WireError (List ℕ)
  unfolding to_json
  serialize obj sign = do
    text ← to_json obj
    raising by_jws (encode json utf8 text sign default_headers false)

  unfoldable pub deserialize : List ℕ → FieldType → (List ℕ → List ℕ → Bool) → Outcome WireError Any
  unfolding from_json
  deserialize msg klass verify = do
    decoded ← raising by_jws (decode json utf8 msg verify [])
    from_json decoded.1 klass
