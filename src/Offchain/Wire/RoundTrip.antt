-- ===== src/Offchain/Wire/RoundTrip.antt =====
-- An object that is serialized with a key is deserialized with the key that verifies its signatures.
use client_sdk_python.Base.{
  ℕ, ◌≡◌, refl, Bool, true, false, some, List, String, ok, All, IsByte, >>=-eq-ok,
}
use client_sdk_python.Bcs.Types.{Utf8, Utf8Laws}
use client_sdk_python.Jws.{JsonCodec, encode}
use client_sdk_python.Jws.RoundTrip.{decode-encode}
use client_sdk_python.Offchain.Json.{Any, dict, get}
use client_sdk_python.Offchain.Json.Schema.{Fields, dataclass, literal_eq}
use client_sdk_python.Offchain.Json.Typed.{HasType}
use client_sdk_python.Offchain.Json.Plain.{plain, IsPlain, is_distinct}
use client_sdk_python.Offchain.Json.RoundTrip.{from_dict-to_dict}
use client_sdk_python.Offchain.Wire.{default_headers, to_json, from_json, serialize, deserialize}

-- What is relied on for one message: the codecs can encode the text of a dict and read it back, and
-- the text of the default headers. A signature is bytes and verifies.
pub record Carries (json : JsonCodec) (utf8 : Utf8) (v : Any) (sign : List ℕ → List ℕ)
    (verify : List ℕ → List ℕ → Bool) : Type 0 where
  pub laws : Utf8Laws utf8
  pub header_bytes : List ℕ
  pub bytes : List ℕ
  pub header_encoded : utf8.encode (json.dumps_compact (dict default_headers)) ≡ some header_bytes
  pub header_read :
      json.loads (json.dumps_compact (dict default_headers)) ≡ some (dict default_headers)
  pub encoded : utf8.encode (json.dumps v) ≡ some bytes
  pub read : json.loads (json.dumps v) ≡ some v
  pub signed : (m : List ℕ) → All IsByte (sign m)
  pub verified : (m : List ℕ) → verify (sign m) m ≡ true

module _ (json : JsonCodec) (utf8 : Utf8) where
  -- An instance of a class as its fields describe it, with no `None` in its dicts, is serialized, and
  -- the message is deserialized with the class to that instance.
  pub deserialize-serialize :
      (name : String) (fields : Fields) (v : Any) (sign : List ℕ → List ℕ)
      (verify : List ℕ → List ℕ → Bool)
      → is_distinct (dataclass name fields) ≡ true
      → HasType (dataclass name fields) v
      → IsPlain v
      → Carries json utf8 (plain v) sign verify
      → (msg : List ℕ) × (serialize json utf8 v sign ≡ ok msg)
        × (deserialize json utf8 msg (dataclass name fields) verify ≡ ok v)
  unfolding serialize to_json deserialize from_json literal_eq get
  deserialize-serialize name fields v sign verify d h p carries =
      let (written, read) = from_dict-to_dict name fields "" v d h p in
      let both =
        decode-encode json utf8 default_headers (json.dumps (plain v)) carries.header_bytes
          carries.bytes sign verify carries.laws carries.header_encoded carries.header_read refl
          carries.encoded carries.signed carries.verified in
      let (msg, made, decoded) =
        >>=-eq-ok (encode json utf8 (json.dumps (plain v)) sign default_headers false) _ both.0 in
      (msg, rw (written, made), rw (decoded, carries.read, read))
