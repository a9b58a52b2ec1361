-- ===== src/Identifier/Tests.antt =====
-- Runs of the identifiers, and the theorems at concrete inputs.
use client_sdk_python.Base.{err}
use client_sdk_python.Base.{
  ℕ, ◌≡◌, ◌*◌, ◌+◌, ◌/◌, ltb, ltb→lt, ◌==◌, ==_iff, all, refl, Bool, true, false, ◌&&◌, ◌||◌, some,
  List, [], ◌∷◌, ◌++◌, All, map, replicate, length, leb, ok, arith,
}
use client_sdk_python.Identifier.Text.{Text, StrCase, &&-true, ascii_lower, ascii_upper}
use client_sdk_python.Identifier.Checksum.{bech32_verify_checksum}
use client_sdk_python.Identifier.Checksum.Create.{IsDigit}
use client_sdk_python.Identifier.ConvertBits.{convertbits}
use client_sdk_python.Identifier.ConvertBits.RoundTrip.{convertbits_lem}
use client_sdk_python.Identifier.Bech32.{Bech32Error}
use client_sdk_python.Identifier.Bech32.{bech32_address_decode, decode_lower, decode_data}
use client_sdk_python.Identifier.Bech32.Charset.{IsLower}
use client_sdk_python.Identifier.Bech32.Detects.{bech32_address_decode_single}
use client_sdk_python.Identifier.Account.{dm}
use client_sdk_python.Identifier.DiemId.{
  create_diem_id, get_user_identifier_from_diem_id, get_vasp_identifier_from_diem_id, is_diem_id,
}
use client_sdk_python.Identifier.DiemId.Parts.{create_diem_id-parts}

-- `str.lower` and `str.upper` of ASCII texts.
abbrev ascii_case : StrCase
ascii_case = record {
  lower = map ascii_lower;
  upper = map ascii_upper;
  lower-IsAscii = λ t h. refl;
  upper-IsAscii = λ t h. refl;
}

abbrev address_bytes : List ℕ
address_bytes = replicate 15 0 ++ (1 ∷ [])

abbrev one_to_eight : List ℕ
one_to_eight = 1 ∷ 2 ∷ 3 ∷ 4 ∷ 5 ∷ 6 ∷ 7 ∷ 8 ∷ []

convertbits_lem_example :
    (groups : List ℕ) × (convertbits (1 ∷ 255 ∷ []) 8 5 true ≡ some groups)
    × All IsDigit groups
    × (length groups ≡ (8 * 2 + 4) / 5)
    × (convertbits groups 5 8 false ≡ some (1 ∷ 255 ∷ []))
convertbits_lem_example = convertbits_lem (1 ∷ 255 ∷ []) (omega arith, (omega arith, tt))

abbrev ascii_alnum : ℕ → Bool
ascii_alnum c = leb 48 c && leb c 57 || (leb 65 c && leb c 90 || leb 97 c && leb c 122)

-- `a@b.c`
created :
    create_diem_id ascii_alnum (97 ∷ []) (98 ∷ 46 ∷ 99 ∷ []) ≡ ok (97 ∷ 64 ∷ 98 ∷ 46 ∷ 99 ∷ [])
unfolding create_diem_id is_diem_id
created = refl

create_diem_id-parts_example :
    (get_user_identifier_from_diem_id ascii_alnum (97 ∷ 64 ∷ 98 ∷ 46 ∷ 99 ∷ []) ≡ ok (97 ∷ []))
    × (get_vasp_identifier_from_diem_id ascii_alnum (97 ∷ 64 ∷ 98 ∷ 46 ∷ 99 ∷ [])
        ≡ ok (98 ∷ 46 ∷ 99 ∷ []))
create_diem_id-parts_example =
    create_diem_id-parts ascii_alnum refl (97 ∷ []) (98 ∷ 46 ∷ 99 ∷ [])
      (97 ∷ 64 ∷ 98 ∷ 46 ∷ 99 ∷ []) created

-- The characters after `dm1p` of the address with no subaddress.
abbrev after_version : Text
after_version =
    replicate 25 113 ++ (121 ∷ replicate 13 113 ++ (103 ∷ 52 ∷ 106 ∷ 114 ∷ 120 ∷ 113 ∷ []))

IsLower-sound : (t : Text) → all (λ c. ltb c 128 && ascii_lower c == c) t ≡ true → All IsLower t
IsLower-sound [] h = tt
IsLower-sound (c ∷ t) h =
    let (here, there) = &&-true (ltb c 128 && ascii_lower c == c) _ h in
    let (ascii, same) = &&-true (ltb c 128) _ here in
    ((ltb→lt c 128 ascii, (==_iff _ c).0 same), IsLower-sound t there)

decodes :
    bech32_address_decode ascii_case dm (dm ++ (49 ∷ ([] ++ (112 ∷ after_version))))
    ≡ ok (1, address_bytes, replicate 8 0)
unfolding bech32_address_decode decode_lower decode_data bech32_verify_checksum convertbits
decodes = refl

-- The version character changed to that of zero.
bech32_address_decode_single_example :
    (e : Bech32Error) × (bech32_address_decode ascii_case dm
        (dm ++ (49 ∷ ([] ++ (113 ∷ after_version))))
      ≡ err e)
bech32_address_decode_single_example =
    bech32_address_decode_single ascii_case dm [] after_version 112 113
      (IsLower-sound (dm ++ (49 ∷ ([] ++ (112 ∷ after_version)))) refl) (omega arith, refl)
      (λ e. absurd (omega (arith, e))) (1, address_bytes, replicate 8 0) decodes
