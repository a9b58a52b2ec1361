-- ===== src/Identifier/Bech32.antt =====
-- Bech32 addresses: src/diem/identifier/bech32.py. A text is the list of its code points; `str.lower`
-- and `str.upper` are the parameter `case`.
pub mod Charset
pub mod RoundTrip
pub mod Detects
use client_sdk_python.Base.{
  ℕ, zero, suc, ◌+◌, ◌-◌, Bool, true, false, ◌&&◌, ◌||◌, not, Option, none, some, List, [], ◌∷◌,
  ◌++◌, all, take, drop, length, replicate, get_elem?, ◌==◌, Outcome, ok, err, ◌>>=◌, ◌>>◌,
  raise_if,
}
use client_sdk_python.Identifier.Text.{Text, text_eq, find, contains, StrCase}
use client_sdk_python.Identifier.Checksum.{bech32_create_checksum, bech32_verify_checksum}
use client_sdk_python.Identifier.ConvertBits.{convertbits}

-- `qpzry9x8gf2tvdw0s3jn54khce6mua7l`
abbrev pub bech32_charset : Text
bech32_charset =
    113 ∷ 112 ∷ 122 ∷ 114 ∷ 121 ∷ 57 ∷ 120 ∷ 56 ∷ 103 ∷ 102 ∷ 50 ∷ 116 ∷ 118 ∷ 100 ∷ 119 ∷ 48 ∷ 115
    ∷ 51 ∷ 106 ∷ 110 ∷ 53 ∷ 52 ∷ 107 ∷ 104 ∷ 99 ∷ 101 ∷ 54 ∷ 109 ∷ 117 ∷ 97 ∷ 55 ∷ 108 ∷ []

abbrev pub bech32_separator : ℕ
bech32_separator = 49

abbrev pub bech32_version : ℕ
bech32_version = 1

abbrev pub diem_address_size : ℕ
diem_address_size = 16

abbrev pub diem_subaddress_size : ℕ
diem_subaddress_size = 8

abbrev pub diem_zero_subaddress : List ℕ
diem_zero_subaddress = replicate diem_subaddress_size 0

-- What is raised: one constructor for each `raise Bech32Error`, and the `IndexError` of a subscript.
pub data Bech32Error : Type 0 where
  address_size : Bech32Error
  subaddress_size : Bech32Error
  to_base32 : Bech32Error
  bech32_size : Bech32Error
  mixed_case : Bech32Error
  wrong_hrp : Bech32Error
  bad_separator : Bech32Error
  bad_characters : Bech32Error
  version_mismatch : Bech32Error
  bad_checksum : Bech32Error
  from_base32 : Bech32Error
  decoded_size : Bech32Error
  index_error : Bech32Error

abbrev pub or_raise : {A : Type 0} → Option A → Bech32Error → Outcome Bech32Error A
or_raise none e = err e
or_raise (some a) e = ok a

-- `[_BECH32_CHARSET[d] for d in combined]`
abbrev pub chars_of : List ℕ → Outcome Bech32Error Text
chars_of [] = ok []
chars_of (d ∷ ds) = do
  c ← or_raise (get_elem? bech32_charset d) index_error
  cs ← chars_of ds
  ok (c ∷ cs)

unfoldable pub bech32_encode : Text → List ℕ → Outcome Bech32Error Text
bech32_encode hrp values = do
  chars ← chars_of (values ++ bech32_create_checksum hrp values)
  ok (hrp ++ (bech32_separator ∷ chars))

abbrev pub subaddress_fits : Option (List ℕ) → Bool
subaddress_fits none = true
subaddress_fits (some subaddress) = length subaddress == diem_subaddress_size

abbrev pub subaddress_final : Option (List ℕ) → List ℕ
subaddress_final none = diem_zero_subaddress
subaddress_final (some subaddress) = subaddress

unfoldable pub bech32_address_encode : Text → List ℕ → Option (List ℕ) → Outcome Bech32Error Text
bech32_address_encode hrp address subaddress = do
  raise_if (not (length address == diem_address_size)) address_size
  raise_if (not (subaddress_fits subaddress)) subaddress_size
  five_bit ← or_raise (convertbits (address ++ subaddress_final subaddress) 8 5 true) to_base32
  bech32_encode hrp (bech32_version ∷ five_bit)

-- `[_BECH32_CHARSET.find(x) for x in ...]`. The code takes -1 for a character that is not in the
-- alphabet; it has refused such characters before.
abbrev pub values_of : Text → Outcome Bech32Error (List ℕ)
values_of [] = ok []
values_of (c ∷ cs) = do
  v ← or_raise (find bech32_charset c) bad_characters
  vs ← values_of cs
  ok (v ∷ vs)

-- From `_convertbits(data[:-_BECH32_CHECKSUM_CHAR_SIZE], 5, 8, False)` on.
unfoldable pub decode_data : ℕ → List ℕ → Outcome Bech32Error (ℕ × List ℕ × List ℕ)
decode_data version values = do
  decoded ← or_raise (convertbits (take (length values - 6) values) 5 8 false) from_base32
  raise_if (not (length decoded == diem_address_size + diem_subaddress_size)) decoded_size
  ok (version, take diem_address_size decoded, drop (length decoded - diem_subaddress_size) decoded)

-- What stands after `bech32 = bech32.lower()`.
unfoldable pub decode_lower : Text → Text → Outcome Bech32Error (ℕ × List ℕ × List ℕ)
unfolding decode_data
decode_lower expected_hrp bech32 = do
  hrp ← ok (take (length expected_hrp) bech32)
  raise_if (not (text_eq hrp expected_hrp)) wrong_hrp
  separator ← or_raise (get_elem? bech32 (length expected_hrp)) index_error
  raise_if (not (separator == bech32_separator)) bad_separator
  raise_if (not (all (contains bech32_charset) (drop (length expected_hrp + 1) bech32)))
      bad_characters
  first ← or_raise (get_elem? bech32 (length expected_hrp + 1)) index_error
  version ← or_raise (find bech32_charset first) version_mismatch
  raise_if (not (version == bech32_version)) version_mismatch
  values ← values_of (drop (length expected_hrp + 2) bech32)
  raise_if (not (bech32_verify_checksum hrp (version ∷ values))) bad_checksum
  decode_data version values

unfoldable pub bech32_address_decode :
    StrCase → Text → Text → Outcome Bech32Error (ℕ × List ℕ × List ℕ)
unfolding decode_lower
bech32_address_decode case expected_hrp bech32 = do
  raise_if (not (length bech32 == 50 || length bech32 == 49)) bech32_size
  raise_if (not (text_eq bech32 (case.lower bech32)) && not (text_eq bech32 (case.upper bech32)))
      mixed_case
  decode_lower expected_hrp (case.lower bech32)
