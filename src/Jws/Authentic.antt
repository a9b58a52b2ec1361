-- ===== src/Jws/Authentic.antt =====
-- What a message that is decoded has passed.
use client_sdk_python.Base.{
  ℕ, ◌≡◌, refl, ap, subst, ◌∙◌, Bool, true, false, not, not-false, Option, none, some, List, [],
  ◌∷◌, if◌then◌else◌, ok, err, ◌>>◌, raise_if, >>=-eq-ok, ok-injective,
}
use client_sdk_python.Bcs.Types.{Utf8}
use client_sdk_python.Identifier.Text.{Text}
use client_sdk_python.Offchain.Json.{Any, Members, dict, get}
use client_sdk_python.Offchain.Json.Schema.{literal_eq, text}
use client_sdk_python.Jws.{
  JsonCodec, JwsError, invalid_header, invalid_signature, bad_base64, bad_utf8, or_raise,
  signing_message, split_dots, Parts, three_parts, checked_headers, decode_headers, body_of, decode,
}
use client_sdk_python.Jws.Base64.{decode_b64url}

or_raise-ok : {A : Type 0} (e : JwsError) (o : Option A) {a : A} → or_raise e o ≡ ok a → o ≡ some a
or_raise-ok e none h = absurd (cc)
or_raise-ok e (some a) h = ap some (ok-injective h)

raise_if-ok : (b : Bool) (e : JwsError) {u : Unit {0}} → raise_if b e ≡ ok u → b ≡ false
raise_if-ok true e h = absurd (cc)
raise_if-ok false e h = refl

three_parts-ok :
    (parts : List (List ℕ)) {p : Parts}
    → three_parts parts ≡ ok p
    → parts ≡ p.header ∷ p.body ∷ p.sig ∷ []
three_parts-ok [] h = absurd (cc)
three_parts-ok (a ∷ []) h = absurd (cc)
three_parts-ok (a ∷ b ∷ []) h = absurd (cc)
three_parts-ok (a ∷ b ∷ c ∷ []) h = ap (λ x. x.header ∷ x.body ∷ x.sig ∷ []) (ok-injective h)
three_parts-ok (a ∷ b ∷ c ∷ d ∷ ds) h = absurd (cc)

alg_checked :
    (same : Bool) (ms : Members) {headers : Members}
    → (if same then ok ms else err invalid_header) ≡ ok headers
    → (same ≡ true) × (ms ≡ headers)
alg_checked true ms h = (refl, ok-injective h)
alg_checked false ms h = absurd (cc)

IsEdDsa : Members → Type 0
IsEdDsa headers = literal_eq (get "alg" headers) (text "EdDSA") ≡ true

checked_headers-ok :
    (v : Any) {headers : Members} → checked_headers v ≡ ok headers → IsEdDsa headers
unfolding IsEdDsa
checked_headers-ok (dict ms) h =
    let (same, is) = alg_checked (literal_eq (get "alg" ms) (text "EdDSA")) ms h in
    subst (λ x. literal_eq (get "alg" x) (text "EdDSA") ≡ true) is same
checked_headers-ok _ h = absurd (cc)

module _ (json : JsonCodec) (utf8 : Utf8) where
  decode_headers-ok :
      (header : List ℕ) {headers : Members}
      → decode_headers json utf8 header ≡ ok headers
      → IsEdDsa headers
  unfolding decode_headers
  decode_headers-ok header h =
      let (bytes, h1, k1) = >>=-eq-ok (or_raise invalid_header (decode_b64url header)) _ h in
      let (t, h2, k2) = >>=-eq-ok (or_raise invalid_header (utf8.decode bytes)) _ k1 in
      let (v, h3, k3) = >>=-eq-ok (or_raise invalid_header (json.loads t)) _ k2 in
      checked_headers-ok v k3

  -- A message that is decoded has three parts; "alg" of its headers is "EdDSA"; the signature that
  -- its third part encodes verifies on the header and the body, where the detached content stands
  -- for an empty body; and the content is what the body encodes.
  pub decode_ok :
      (msg detached_content : List ℕ) (verify : List ℕ → List ℕ → Bool) (headers : Members)
      (content : Text)
      → decode json utf8 msg verify detached_content ≡ ok (headers, content)
      → (parts : Parts) × (sig : List ℕ) × (bytes : List ℕ) × (split_dots msg
          ≡ parts.header ∷ parts.body ∷ parts.sig ∷ [])
        × (decode_headers json utf8 parts.header ≡ ok headers)
        × (literal_eq (get "alg" headers) (text "EdDSA") ≡ true)
        × (decode_b64url parts.sig ≡ some sig)
        × (verify sig (signing_message (body_of detached_content parts.body) parts.header) ≡ true)
        × (decode_b64url (body_of detached_content parts.body) ≡ some bytes)
        × (utf8.decode bytes ≡ some content)
  unfolding decode IsEdDsa
  decode_ok msg detached_content verify headers content h =
      let (parts, h1, k1) = >>=-eq-ok (three_parts (split_dots msg)) _ h in
      let body = body_of detached_content parts.body in
      let (hs, h2, k2) = >>=-eq-ok (decode_headers json utf8 parts.header) _ k1 in
      let (sig, h3, k3) = >>=-eq-ok (or_raise bad_base64 (decode_b64url parts.sig)) _ k2 in
      let test =
        raise_if (not (verify sig (signing_message body parts.header))) invalid_signature in
      let (bytes, h4, k4) = >>=-eq-ok (test >> or_raise bad_base64 (decode_b64url body)) _ k3 in
      let (u, h5, k5) = >>=-eq-ok test _ h4 in
      let (t, h6, k6) = >>=-eq-ok (or_raise bad_utf8 (utf8.decode bytes)) _ k4 in
      let same = ok-injective k6 in
      let read : decode_headers json utf8 parts.header ≡ ok headers = h2 ∙ ap (λ x. ok x.0) same in
      let text_read : utf8.decode bytes ≡ some content =
        or_raise-ok bad_utf8 (utf8.decode bytes) h6 ∙ ap (λ x. some x.1) same in
      (
        parts,
        sig,
        bytes,
        three_parts-ok (split_dots msg) h1,
        read,
        decode_headers-ok parts.header read,
        or_raise-ok bad_base64 (decode_b64url parts.sig) h3,
        not-false _ (raise_if-ok _ invalid_signature h5),
        or_raise-ok bad_base64 (decode_b64url body) k5,
        text_read,
      )
