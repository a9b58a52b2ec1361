-- ===== src/Jws/Tests.antt =====
-- Signed messages at concrete data.
use client_sdk_python.Base.{ℕ, ◌≡◌, refl, true, false, some, List, [], ◌∷◌, ok, ◌>>=◌}
use client_sdk_python.Bcs.Ascii.{ascii, ascii-laws}
use client_sdk_python.Identifier.Text.{Text}
use client_sdk_python.Offchain.Json.{null, get}
use client_sdk_python.Offchain.Json.Schema.{literal_eq, text, points}
use client_sdk_python.Jws.{
  Parts, encode, encode_headers, decode, decode_headers, split_dots, signing_message, body_of,
}
use client_sdk_python.Jws.Base64.{
  encode_b64url, decode_b64url, urlsafe_b64encode, rstrip_pad, fix_padding, b64decode_rest,
}
use client_sdk_python.Jws.Sample.{
  codec_for, headers, sign, verify, sign-IsByte, verify-sign, header_text,
}
use client_sdk_python.Jws.RoundTrip.{decode-encode}
use client_sdk_python.Jws.Authentic.{decode_ok}

abbrev hello : Text
hello = 104 ∷ 105 ∷ 46 ∷ 46 ∷ []

abbrev message : Text
unfolding points
message = points "eyJhbGciOiJFZERTQSJ9.aGkuLg.Gw"

encoded : encode (codec_for null) ascii hello sign headers false ≡ ok message
unfolding encode encode_headers encode_b64url urlsafe_b64encode rstrip_pad points
encoded = refl

-- Padding that is not needed is skipped, and so is what is outside the alphabet.
skipped : decode_b64url (61 ∷ 97 ∷ 33 ∷ 71 ∷ 107 ∷ 117 ∷ 76 ∷ 103 ∷ []) ≡ some hello
unfolding decode_b64url
skipped = refl

decode-encode_example :
    ((encode (codec_for null) ascii hello sign headers false >>= λ m.
    decode (codec_for null) ascii m verify [])
      ≡ ok (headers, hello))
    × ((encode (codec_for null) ascii hello sign headers true >>= λ m.
          decode (codec_for null) ascii m verify hello)
        ≡ ok (headers, hello))
unfolding literal_eq get
decode-encode_example =
    decode-encode (codec_for null) ascii headers hello header_text hello sign verify ascii-laws refl
      refl refl refl sign-IsByte verify-sign

decoded : decode (codec_for null) ascii message verify [] ≡ ok (headers, hello)
unfolding decode decode_headers split_dots decode_b64url fix_padding b64decode_rest literal_eq get
    points
decoded = refl

decode_ok_example :
    (parts : Parts) × (sig : List ℕ) × (bytes : List ℕ) × (split_dots message
      ≡ parts.header ∷ parts.body ∷ parts.sig ∷ [])
    × (decode_headers (codec_for null) ascii parts.header ≡ ok headers)
    × (literal_eq (get "alg" headers) (text "EdDSA") ≡ true)
    × (decode_b64url parts.sig ≡ some sig)
    × (verify sig (signing_message (body_of [] parts.body) parts.header) ≡ true)
    × (decode_b64url (body_of [] parts.body) ≡ some bytes)
    × (ascii.decode bytes ≡ some hello)
decode_ok_example = decode_ok (codec_for null) ascii message [] verify headers hello decoded
