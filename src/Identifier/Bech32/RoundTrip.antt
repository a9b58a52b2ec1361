-- ===== src/Identifier/Bech32/RoundTrip.antt =====
-- Decoding an address that was encoded.
use client_sdk_python.Base.{
  ℕ, suc, ◌+◌, ◌-◌, ◌≡◌, ◌⊎◌, inl, inr, refl, sym, ap, ◌∙◌, true, false, not, Option, none, some,
  List, [], ◌∷◌, ◌++◌, All, all, take, drop, length, get_elem?, ◌==◌, ==_iff, arith, All-append,
  length-append, IsByte, take-append_left, drop-append_left, Outcome, ok, ◌>>=◌, ◌>>◌, raise_if,
}
use client_sdk_python.Identifier.Text.{Text, text_eq_refl, find, contains, StrCase}
use client_sdk_python.Identifier.Checksum.{bech32_create_checksum, bech32_verify_checksum}
use client_sdk_python.Identifier.Checksum.Create.{
  IsDigit, IsHrpChar, verify-create_checksum, create_checksum-IsDigit, length-create_checksum,
}
use client_sdk_python.Identifier.ConvertBits.{convertbits}
use client_sdk_python.Identifier.ConvertBits.RoundTrip.{convertbits_lem}
use client_sdk_python.Identifier.Bech32.Charset.{
  IsLower, lower_IsLower, IsLower-IsAscii, chars_of_lem,
}
use client_sdk_python.Identifier.Bech32.{
  Bech32Error, or_raise, bech32_charset, bech32_separator, bech32_version, values_of, bech32_encode,
  bech32_address_encode, subaddress_final, subaddress_fits, decode_data, decode_lower,
  bech32_address_decode,
}

module _ {A : Type 0} where
  get_elem?-append : (xs ys : List A) (y : A) → get_elem? (xs ++ (y ∷ ys)) (length xs) ≡ some y
  get_elem?-append [] ys y = refl
  get_elem?-append (x ∷ xs) ys y = get_elem?-append xs ys y

  get_elem?-append_next :
      (xs ys : List A) (y z : A) → get_elem? (xs ++ (y ∷ z ∷ ys)) (suc (length xs)) ≡ some z
  get_elem?-append_next [] ys y z = refl
  get_elem?-append_next (x ∷ xs) ys y z = get_elem?-append_next xs ys y z

  drop-append_next : (xs ys : List A) (y : A) → drop (suc (length xs)) (xs ++ (y ∷ ys)) ≡ ys
  drop-append_next [] ys y = refl
  drop-append_next (x ∷ xs) ys y = drop-append_next xs ys y

  drop-append_third :
      (xs ys : List A) (y z : A) → drop (suc (suc (length xs))) (xs ++ (y ∷ z ∷ ys)) ≡ ys
  drop-append_third [] ys y z = refl
  drop-append_third (x ∷ xs) ys y z = drop-append_third xs ys y z

-- What `decode_lower` does after the separator.
unfoldable pub decode_after : Text → ℕ → Text → Outcome Bech32Error (ℕ × List ℕ × List ℕ)
unfolding decode_data
decode_after hrp c after = do
  raise_if (not (all (contains bech32_charset) (c ∷ after))) Bech32Error.bad_characters
  version ← or_raise (find bech32_charset c) Bech32Error.version_mismatch
  raise_if (not (version == bech32_version)) Bech32Error.version_mismatch
  values ← values_of after
  raise_if (not (bech32_verify_checksum hrp (version ∷ values))) Bech32Error.bad_checksum
  decode_data version values

add_one : (n : ℕ) → n + 1 ≡ suc n
add_one n = omega arith

add_two : (n : ℕ) → n + 2 ≡ suc (suc n)
add_two n = omega arith

pub decode_lower_lem :
    (hrp after : Text) (c : ℕ)
    → decode_lower hrp (hrp ++ (bech32_separator ∷ c ∷ after)) ≡ decode_after hrp c after
unfolding decode_lower decode_after
decode_lower_lem hrp after c = rw (
  add_one (length hrp),
  add_two (length hrp),
  take-append_left hrp (bech32_separator ∷ c ∷ after),
  text_eq_refl hrp,
  get_elem?-append hrp (c ∷ after) bech32_separator,
  drop-append_next hrp (c ∷ after) bech32_separator,
  get_elem?-append_next hrp after bech32_separator c,
  drop-append_third hrp after bech32_separator c,
)

-- The groups that the encoder makes, decoded after the checksum is cut off.
decode_data_lem :
    (address subaddress groups check : List ℕ)
    → convertbits groups 5 8 false ≡ some (address ++ subaddress)
    → length check ≡ 6
    → length address ≡ 16
    → length subaddress ≡ 8
    → decode_data 1 (groups ++ check) ≡ ok (1, address, subaddress)
unfolding decode_data
decode_data_lem address subaddress groups check back six sixteen eight =
    let cut : length (groups ++ check) - 6 ≡ length groups =
      omega (arith, length-append groups check, six) in
    let whole : length (address ++ subaddress) ≡ 24 =
      omega (arith, length-append address subaddress, sixteen, eight) in
    rw (
      cut,
      take-append_left groups check,
      back,
      whole,
      ap (λ n. take n (address ++ subaddress)) (sym sixteen) ∙ take-append_left address subaddress,
      ap (λ n. drop n (address ++ subaddress)) (sym sixteen) ∙ drop-append_left address subaddress,
    )

pub lower_ascii-hrp : (hrp : Text) → All IsLower hrp → All IsHrpChar hrp
lower_ascii-hrp [] h = tt
lower_ascii-hrp (c ∷ hrp) h = (omega (arith, h.0.0), lower_ascii-hrp hrp h.1)

fits :
    (subaddress : Option (List ℕ))
    → length (subaddress_final subaddress) ≡ 8
    → subaddress_fits subaddress ≡ true
fits none h = refl
fits (some s) h = (==_iff (length s) 8).1 h

pub All-lower : (t : Text) (case : StrCase) → All IsLower t → case.lower t ≡ t
All-lower t case h = case.lower-IsAscii t (IsLower-IsAscii t h) ∙ lower_IsLower t h

-- A lower-case text of the right length is passed on as it stands.
pub bech32_address_decode_lower :
    (case : StrCase) (hrp t : Text)
    → All IsLower t
    → (length t ≡ 50) ⊎ (length t ≡ 49)
    → bech32_address_decode case hrp t ≡ decode_lower hrp t
unfolding bech32_address_decode
bech32_address_decode_lower case hrp t low size = elim size [
  | inl is50 ↦ rw (is50, All-lower t case low, text_eq_refl t)
  | inr is49 ↦ rw (is49, All-lower t case low, text_eq_refl t)
]

-- Encoding an address of 16 bytes, with a subaddress of 8 bytes or none, under a lower-case ASCII
-- prefix of two or three characters gives the prefix and 47 characters, a text that decodes to version
-- 1, the address and the subaddress, with 8 zero bytes for none.
pub bech32_address-decode-encode :
    (case : StrCase) (hrp : Text) (address : List ℕ) (subaddress : Option (List ℕ))
    → All IsLower hrp
    → (length hrp ≡ 3) ⊎ (length hrp ≡ 2)
    → length address ≡ 16
    → length (subaddress_final subaddress) ≡ 8
    → All IsByte address
    → All IsByte (subaddress_final subaddress)
    → (rest : Text) × (bech32_address_encode hrp address subaddress ≡ ok (hrp ++ rest))
      × (length rest ≡ 47)
      × (bech32_address_decode case hrp (hrp ++ rest)
          ≡ ok (1, address, subaddress_final subaddress))
unfolding bech32_address_encode bech32_encode decode_after
bech32_address-decode-encode case hrp address subaddress low short sixteen eight b b' =
    let sub = subaddress_final subaddress in
    let (groups, enc, digits, size, back) =
      convertbits_lem (address ++ sub) (All-append IsByte address sub b b') in
    let check = bech32_create_checksum hrp (1 ∷ groups) in
    let digits' =
      All-append IsDigit groups check digits (create_checksum-IsDigit hrp (1 ∷ groups)) in
    let (after, chars, values, every, lows, len) = chars_of_lem (groups ++ check) digits' in
    let text = hrp ++ (bech32_separator ∷ 112 ∷ after) in
    let good =
      verify-create_checksum hrp (1 ∷ groups) (lower_ascii-hrp hrp low) (omega arith, digits) in
    let decoded =
      decode_data_lem address sub groups check back (length-create_checksum hrp (1 ∷ groups))
        sixteen eight in
    let lows' =
      All-append IsLower hrp (bech32_separator ∷ 112 ∷ after) low
        ((omega arith, refl), ((omega arith, refl), lows)) in
    let measure : length after ≡ 45 = omega (
      arith,
      len,
      length-append groups check,
      length-create_checksum hrp (1 ∷ groups),
      size,
      length-append address sub,
      sixteen,
      eight,
    ) in
    let whole = length-append hrp (bech32_separator ∷ 112 ∷ after) in
    let fits_in : (length text ≡ 50) ⊎ (length text ≡ 49) = ground (arith, measure, whole, short) in
    (
      bech32_separator ∷ 112 ∷ after,
      rw (sixteen, fits subaddress eight, enc, chars),
      omega (arith, measure),
      bech32_address_decode_lower case hrp text lows' fits_in
          ∙ decode_lower_lem hrp after 112
          ∙ rw (every, values, good, decoded),
    )
