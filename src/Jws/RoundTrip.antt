-- ===== src/Jws/RoundTrip.antt =====
-- A message that is encoded is decoded, with its content in it or detached.
use client_sdk_python.Base.{
  ℕ, ◌≡◌, refl, sym, ap, ◌∙◌, Bool, true, false, some, List, [], ◌∷◌, ◌++◌, All, IsByte, ok, ◌>>=◌,
}
use client_sdk_python.Bcs.Types.{Utf8, Utf8Laws}
use client_sdk_python.Identifier.Text.{Text}
use client_sdk_python.Offchain.Json.{Members, dict, get}
use client_sdk_python.Offchain.Json.Schema.{literal_eq, text}
use client_sdk_python.Jws.{
  JsonCodec, signing_message, split_dots, three_parts, encode_headers, encode, decode_headers,
  body_of, decode,
}
use client_sdk_python.Jws.Base64.{encode_b64url}
use client_sdk_python.Jws.Digits.{
  IsDotless, decode_b64url-encode, encode_b64url-IsDotless, encode_b64url-empty,
}

split_dots-last : (s : List ℕ) → IsDotless s → split_dots s ≡ s ∷ []
unfolding split_dots
split_dots-last [] h = refl
split_dots-last (c ∷ cs) h = rw (h.0, split_dots-last cs h.1)

split_dots-part : (s t : List ℕ) → IsDotless s → split_dots (s ++ (46 ∷ t)) ≡ s ∷ split_dots t
unfolding split_dots
split_dots-part [] t h = refl
split_dots-part (c ∷ cs) t h = rw (h.0, split_dots-part cs t h.1)

parts_of :
    (header body sig : List ℕ)
    → IsDotless header
    → IsDotless body
    → IsDotless sig
    → three_parts (split_dots (header ++ (46 ∷ body ++ (46 ∷ sig))))
      ≡ ok (record { header = header; body = body; sig = sig })
parts_of header body sig h b s = ap three_parts (
    split_dots-part header _ h
    ∙ ap (λ x. header ∷ x)
        (split_dots-part body sig b ∙ ap (λ x. body ∷ x) (split_dots-last sig s)))

module _ (json : JsonCodec) (utf8 : Utf8) where
  headers_read :
      (headers : Members) (bytes : List ℕ)
      → Utf8Laws utf8
      → utf8.encode (json.dumps_compact (dict headers)) ≡ some bytes
      → json.loads (json.dumps_compact (dict headers)) ≡ some (dict headers)
      → literal_eq (get "alg" headers) (text "EdDSA") ≡ true
      → decode_headers json utf8 (encode_b64url bytes) ≡ ok headers
  unfolding decode_headers
  headers_read headers bytes laws written read alg =
      let back = laws.decode-encode (json.dumps_compact (dict headers)) bytes written in
      let b = laws.encode-IsByte (json.dumps_compact (dict headers)) bytes written in
      rw (decode_b64url-encode bytes b, back, read, alg)

  -- What `decode` gives of the parts that `encode` writes.
  parts_read :
      (headers : Members) (msg : Text) (header_bytes bytes sig detached : List ℕ) (sent : List ℕ)
      (verify : List ℕ → List ℕ → Bool)
      → Utf8Laws utf8
      → utf8.encode (json.dumps_compact (dict headers)) ≡ some header_bytes
      → json.loads (json.dumps_compact (dict headers)) ≡ some (dict headers)
      → literal_eq (get "alg" headers) (text "EdDSA") ≡ true
      → utf8.encode msg ≡ some bytes
      → All IsByte sig
      → verify sig (signing_message (encode_b64url bytes) (encode_b64url header_bytes)) ≡ true
      → IsDotless sent
      → body_of detached sent ≡ encode_b64url bytes
      → decode json utf8
          (encode_b64url header_bytes ++ (46 ∷ sent ++ (46 ∷ encode_b64url sig)))
          verify
          detached
        ≡ ok (headers, msg)
  unfolding decode
  parts_read headers msg header_bytes bytes sig detached sent verify laws written read alg encoded
        bs verified dotless body =
      let hb = laws.encode-IsByte (json.dumps_compact (dict headers)) header_bytes written in
      let mb = laws.encode-IsByte msg bytes encoded in
      let split =
        parts_of (encode_b64url header_bytes) sent (encode_b64url sig)
          (encode_b64url-IsDotless header_bytes hb) dotless (encode_b64url-IsDotless sig bs) in
      rw (
        split,
        body,
        headers_read headers header_bytes laws written read alg,
        decode_b64url-encode sig bs,
        verified,
        decode_b64url-encode bytes mb,
        laws.decode-encode msg bytes encoded,
      )

  detached_body : (bytes : List ℕ) → All IsByte bytes → body_of bytes [] ≡ encode_b64url bytes
  detached_body [] b = sym encode_b64url-empty
  detached_body (x ∷ xs) b = refl

  -- A message that is encoded with protected headers whose "alg" is "EdDSA" is decoded to these headers
  -- and the content, and so is one that is encoded with its content detached, when the bytes of
  -- the content are given. UTF-8 keeps its laws and can encode the content and the text of the
  -- headers, json reads the text of the headers back, a signature is bytes and verifies.
  pub decode-encode :
      (headers : Members) (msg : Text) (header_bytes bytes : List ℕ) (sign : List ℕ → List ℕ)
      (verify : List ℕ → List ℕ → Bool)
      → Utf8Laws utf8
      → utf8.encode (json.dumps_compact (dict headers)) ≡ some header_bytes
      → json.loads (json.dumps_compact (dict headers)) ≡ some (dict headers)
      → literal_eq (get "alg" headers) (text "EdDSA") ≡ true
      → utf8.encode msg ≡ some bytes
      → ((m : List ℕ) → All IsByte (sign m))
      → ((m : List ℕ) → verify (sign m) m ≡ true)
      → ((encode json utf8 msg sign headers false >>= λ m. decode json utf8 m verify [])
          ≡ ok (headers, msg))
        × ((encode json utf8 msg sign headers true >>= λ m. decode json utf8 m verify bytes)
            ≡ ok (headers, msg))
  unfolding encode encode_headers
  decode-encode headers msg header_bytes bytes sign verify laws written read alg encoded bs
        verified =
      let header = encode_b64url header_bytes in
      let body = encode_b64url bytes in
      let sig = sign (signing_message body header) in
      let mb = laws.encode-IsByte msg bytes encoded in
      let reads = λ (detached sent : List ℕ).
        parts_read headers msg header_bytes bytes sig detached sent verify laws written read alg
          encoded (bs (signing_message body header)) (verified (signing_message body header)) in
      (
        rw (written, encoded) (reads [] body (encode_b64url-IsDotless bytes mb) refl),
        rw (written, encoded) (reads bytes [] tt (detached_body bytes mb)),
      )
