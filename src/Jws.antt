-- ===== src/Jws.antt =====
-- Signed messages: src/diem/jws.py. A `bytes` value is the list of its bytes.
pub mod Base64
pub mod Digits
pub mod RoundTrip
pub mod Sample
pub mod Authentic
mod Tests
use client_sdk_python.Base.{
  ℕ, Bool, true, false, not, Option, none, some, List, [], ◌∷◌, ◌++◌, if◌then◌else◌, ◌==◌, Outcome,
  ok, err, ◌>>=◌, ◌>>◌, raise_if,
}
use client_sdk_python.Bcs.Types.{Utf8}
use client_sdk_python.Identifier.Text.{Text}
use client_sdk_python.Offchain.Json.{Any, Members, dict, get}
use client_sdk_python.Offchain.Json.Schema.{literal_eq, text}
use client_sdk_python.Jws.Base64.{is_empty, encode_b64url, decode_b64url}

-- The json module: `json.dumps` as it stands and with `separators=(",", ":")`, and `json.loads`,
-- which raises a `JSONDecodeError` on a text that is no JSON.
pub record JsonCodec : Type 0 where
  pub dumps : Any → Text
  pub dumps_compact : Any → Text
  pub loads : Text → Option Any

-- `invalid_message`, `bad_base64` and `bad_utf8` are the `ValueError`s of the message's form, of
-- `base64` and of the codec; `invalid_header` is `InvalidHeaderError`; `invalid_signature` is what
-- `verify` raises.
pub data JwsError : Type 0 where
  invalid_message invalid_header invalid_signature bad_base64 bad_utf8 : JwsError

abbrev pub or_raise : {A : Type 0} → JwsError → Option A → Outcome JwsError A
or_raise e none = err e
or_raise e (some a) = ok a

-- `b".".join([header, payload])`
abbrev pub signing_message : List ℕ → List ℕ → List ℕ
signing_message payload header = header ++ (46 ∷ payload)

abbrev push : ℕ → List (List ℕ) → List (List ℕ)
push c [] = (c ∷ []) ∷ []
push c (part ∷ parts) = (c ∷ part) ∷ parts

-- `msg.split(b".")`
unfoldable pub split_dots : List ℕ → List (List ℕ)
split_dots [] = [] ∷ []
split_dots (c ∷ cs) = let rest = split_dots cs in if c == 46 then [] ∷ rest else push c rest

-- The three parts of a message.
pub record Parts : Type 0 where
  pub header : List ℕ
  pub body : List ℕ
  pub sig : List ℕ

abbrev pub three_parts : List (List ℕ) → Outcome JwsError Parts
three_parts (header ∷ body ∷ sig ∷ []) = ok (record { header = header; body = body; sig = sig })
three_parts _ = err invalid_message

-- `protected_headers` is a dict whose "alg" is "EdDSA".
abbrev pub checked_headers : Any → Outcome JwsError Members
checked_headers (dict ms) =
    if literal_eq (get "alg" ms) (text "EdDSA") then ok ms else err invalid_header
checked_headers _ = err invalid_header

-- `if detached_content and not body`
abbrev pub body_of : List ℕ → List ℕ → List ℕ
body_of detached_content body =
    if is_empty detached_content
    then body
    else if is_empty body
    then encode_b64url detached_content
    else body

module _ (json : JsonCodec) (utf8 : Utf8) where
  unfoldable pub encode_headers : Members → Outcome JwsError (List ℕ)
  encode_headers headers = do
    bytes ← or_raise bad_utf8 (utf8.encode (json.dumps_compact (dict headers)))
    ok (encode_b64url bytes)

  unfoldable pub encode : Text → (List ℕ → List ℕ) → Members → Bool → Outcome JwsError (List ℕ)
  unfolding encode_headers
  encode msg sign headers content_detached = do
    header ← encode_headers headers
    bytes ← or_raise bad_utf8 (utf8.encode msg)
    let payload = encode_b64url bytes in
        let sig = encode_b64url (sign (signing_message payload header)) in
        let sent = if content_detached then [] else payload in
        ok (header ++ (46 ∷ sent ++ (46 ∷ sig)))

  -- The header of a message: every `ValueError` of its text is an `InvalidHeaderError`.
  unfoldable pub decode_headers : List ℕ → Outcome JwsError Members
  decode_headers header = do
    bytes ← or_raise invalid_header (decode_b64url header)
    header_text ← or_raise invalid_header (utf8.decode bytes)
    headers ← or_raise invalid_header (json.loads header_text)
    checked_headers headers

  unfoldable pub decode :
      List ℕ → (List ℕ → List ℕ → Bool) → List ℕ → Outcome JwsError (Members × Text)
  unfolding split_dots decode_headers
  decode msg verify detached_content = do
    parts ← three_parts (split_dots msg)
    let body = body_of detached_content parts.body in
        decode_headers parts.header >>= λ headers.
        or_raise bad_base64 (decode_b64url parts.sig) >>= λ sig.
        raise_if (not (verify sig (signing_message body parts.header))) invalid_signature
        >> or_raise bad_base64 (decode_b64url body)
        >>= λ bytes. or_raise bad_utf8 (utf8.decode bytes) >>= λ content. ok (headers, content)
