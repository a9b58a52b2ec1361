-- ===== src/Jws/Base64.antt =====
-- `encode_b64url`, `decode_b64url` and `fix_padding` of src/diem/jws.py, over the two functions of
-- Python's base64 module for the URL-safe alphabet.
use client_sdk_python.Base.{
  ℕ, ◌+◌, ◌-◌, ◌*◌, ◌/◌, ◌%◌, Bool, true, false, ◌||◌, ◌&&◌, Option, none, some, List, [], ◌∷◌,
  ◌++◌, length, replicate, if◌then◌else◌, ◌==◌, leb, ltb,
}

-- `not b` of a `bytes` value.
abbrev pub is_empty : List ℕ → Bool
is_empty [] = true
is_empty (x ∷ xs) = false

-- The character of six bits.
abbrev pub alphabet : ℕ → ℕ
alphabet v =
    if ltb v 26
    then v + 65
    else if ltb v 52
    then v + 71
    else if ltb v 62
    then v - 4
    else if v == 62
    then 45
    else 95

-- `base64.urlsafe_b64encode`
unfoldable pub urlsafe_b64encode : List ℕ → List ℕ
urlsafe_b64encode [] = []
urlsafe_b64encode (a ∷ []) = alphabet (a / 4) ∷ alphabet (a % 4 * 16) ∷ 61 ∷ 61 ∷ []
urlsafe_b64encode (a ∷ b ∷ []) =
    alphabet (a / 4) ∷ alphabet (a % 4 * 16 + b / 16) ∷ alphabet (b % 16 * 4) ∷ 61 ∷ []
urlsafe_b64encode (a ∷ b ∷ c ∷ rest) =
    alphabet (a / 4)
    ∷ alphabet (a % 4 * 16 + b / 16)
    ∷ alphabet (b % 16 * 4 + c / 64)
    ∷ alphabet (c % 64)
    ∷ urlsafe_b64encode rest

abbrev pub unless_pad : ℕ → List ℕ → List ℕ
unless_pad c [] = if c == 61 then [] else c ∷ []
unless_pad c (d ∷ ds) = c ∷ d ∷ ds

-- `rstrip(b"=")`
unfoldable pub rstrip_pad : List ℕ → List ℕ
rstrip_pad [] = []
rstrip_pad (c ∷ cs) = unless_pad c (rstrip_pad cs)

unfoldable pub encode_b64url : List ℕ → List ℕ
encode_b64url msg = rstrip_pad (urlsafe_b64encode msg)

unfoldable pub fix_padding : List ℕ → List ℕ
fix_padding input = input ++ replicate (4 - length input % 4) 61

-- The six bits of a character: `-` and `_` are translated to `+` and `/` first.
abbrev pub digit : ℕ → Option ℕ
digit c =
    if leb 65 c && leb c 90
    then some (c - 65)
    else if leb 97 c && leb c 122
    then some (c - 71)
    else if leb 48 c && leb c 57
    then some (c + 4)
    else if c == 45 || c == 43
    then some 62
    else if c == 95 || c == 47
    then some 63
    else none

-- Where the decoder stands in a group of four, with the bits that wait, and whether one `=` came.
pub data Quad : Type 0 where
  start : Quad
  one two padded three : ℕ → Quad

abbrev pub emit : ℕ → Option (List ℕ) → Option (List ℕ)
emit b none = none
emit b (some bs) = some (b ∷ bs)

-- The end of the text: a group that is not complete is a `binascii.Error`.
abbrev pub at_end : Quad → Option (List ℕ)
at_end start = some []
at_end _ = none

-- After `=`: a complete padding ends the text.
abbrev pub on_pad : Quad → (Quad → Option (List ℕ)) → Option (List ℕ)
on_pad start next = next start
on_pad (one l) next = next (one l)
on_pad (two l) next = next (padded l)
on_pad (padded l) next = some []
on_pad (three l) next = some []

-- After another character: one that is outside the alphabet is skipped.
abbrev pub on_digit : Quad → (Quad → Option (List ℕ)) → Option ℕ → Option (List ℕ)
on_digit q next none = next q
on_digit start next (some v) = next (one v)
on_digit (one l) next (some v) = emit (l * 4 + v / 16) (next (two (v % 16)))
on_digit (two l) next (some v) = emit (l * 16 + v / 4) (next (three (v % 4)))
on_digit (padded l) next (some v) = emit (l * 16 + v / 4) (next (three (v % 4)))
on_digit (three l) next (some v) = emit (l * 64 + v) (next start)

-- `base64.urlsafe_b64decode` of the rest of a text, from a place in a group.
unfoldable pub b64decode_rest : List ℕ → Quad → Option (List ℕ)
b64decode_rest [] q = at_end q
b64decode_rest (c ∷ cs) q =
    let next = b64decode_rest cs in if c == 61 then on_pad q next else on_digit q next (digit c)

unfoldable pub decode_b64url : List ℕ → Option (List ℕ)
unfolding b64decode_rest fix_padding
decode_b64url msg = b64decode_rest (fix_padding msg) start
