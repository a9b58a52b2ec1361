-- ===== src/Utils/Hex.antt =====
-- `bytes.hex` and `bytes.fromhex`, as src/diem/utils.py uses them: two digits for a byte, and ASCII
-- whitespace skipped between bytes.
use client_sdk_python.Base.{not-true}
use client_sdk_python.Base.{
  ℕ, ◌+◌, ◌-◌, ◌*◌, ◌/◌, ◌%◌, ◌≡◌, ◌<◌, refl, ap, ◌∙◌, Bool, true, ◌&&◌, ◌||◌, not, Option, none,
  some, List, [], ◌∷◌, ◌++◌, All, IsByte, if◌then◌else◌, leb, ltb, ◌==◌, ==_iff, arith,
}
use client_sdk_python.Base.Bits.{all_below, all_below_sound}
use client_sdk_python.Identifier.Text.{Text, &&-true}

abbrev pub hex_digit : ℕ → ℕ
hex_digit n = if ltb n 10 then 48 + n else 87 + n

unfoldable pub bytes_hex : List ℕ → Text
bytes_hex [] = []
bytes_hex (b ∷ bytes) = hex_digit (b / 16) ∷ hex_digit (b % 16) ∷ bytes_hex bytes

abbrev pub is_space : ℕ → Bool
is_space c = leb 9 c && leb c 13 || c == 32

abbrev pub nibble : ℕ → Option ℕ
nibble c =
    if leb 48 c && leb c 57
    then some (c - 48)
    else if leb 97 c && leb c 102
    then some (c - 87)
    else if leb 65 c && leb c 70
    then some (c - 55)
    else none

abbrev pub first_digit : Option ℕ → Option (Option ℕ × List ℕ)
first_digit none = none
first_digit (some h) = some (some h, [])

abbrev pub second_digit : ℕ → Option ℕ → Option (Option ℕ × List ℕ)
second_digit h none = none
second_digit h (some l) = some (none, (h * 16 + l) ∷ [])

-- One character: the first digit that waits for its second, and the byte that is complete.
unfoldable pub hex_step : Option ℕ → ℕ → Option (Option ℕ × List ℕ)
hex_step none c = if is_space c then some (none, []) else first_digit (nibble c)
hex_step (some h) c = second_digit h (nibble c)

abbrev pub prepend : List ℕ → Option (List ℕ) → Option (List ℕ)
prepend out none = none
prepend out (some rest) = some (out ++ rest)

unfoldable pub fromhex_from : Option ℕ → Text → Option (List ℕ)
unfolding hex_step
fromhex_from none [] = some []
fromhex_from (some h) [] = none
fromhex_from pending (c ∷ text) = elim (hex_step pending c) [
  | none ↦ none
  | some (pending', out) ↦ prepend out (fromhex_from pending' text)
]

unfoldable pub fromhex : Text → Option (List ℕ)
unfolding fromhex_from
fromhex text = fromhex_from none text

reads : ℕ → Option ℕ → Bool
reads n none = ltb n 0
reads n (some m) = m == n

reads_sound : (n : ℕ) (o : Option ℕ) → reads n o ≡ true → o ≡ some n
unfolding reads
reads_sound n none h = absurd (ground (arith, h))
reads_sound n (some m) h = ap some ((==_iff m n).0 h)

digit_table :
    all_below 16 (λ n. not (is_space (hex_digit n)) && reads n (nibble (hex_digit n))) ≡ true
unfolding all_below reads
digit_table = refl

hex_digit-read :
    (n : ℕ) → n < 16 → (is_space (hex_digit n) ≡ Bool.false) × (nibble (hex_digit n) ≡ some n)
hex_digit-read n h =
    let (space, digit) = &&-true _ _ (
      all_below_sound (λ i. not (is_space (hex_digit i)) && reads i (nibble (hex_digit i))) 16 n h
        digit_table) in
    (not-true _ space, reads_sound n _ digit)

high_step : (n : ℕ) → n < 16 → hex_step none (hex_digit n) ≡ some (some n, [])
unfolding hex_step
high_step n h = let (space, digit) = hex_digit-read n h in rw (space, digit)

low_step : (m n : ℕ) → n < 16 → hex_step (some m) (hex_digit n) ≡ some (none, (m * 16 + n) ∷ [])
unfolding hex_step
low_step m n h = let (space, digit) = hex_digit-read n h in rw (hex_step, digit)

pub from_step :
    (pending : Option ℕ) (c : ℕ) (text : Text) {pending' : Option ℕ} {out : List ℕ}
    → hex_step pending c ≡ some (pending', out)
    → fromhex_from pending (c ∷ text) ≡ prepend out (fromhex_from pending' text)
unfolding fromhex_from
from_step none c text e = rw (fromhex_from, e)
from_step (some h) c text e = rw (fromhex_from, e)

from_printed :
    (bytes : List ℕ) → All IsByte bytes → fromhex_from none (bytes_hex bytes) ≡ some bytes
unfolding fromhex_from bytes_hex
from_printed [] h = refl
from_printed (b ∷ bytes) h =
    let whole : b / 16 * 16 + b % 16 ≡ b = omega arith in
    let second : fromhex_from (some (b / 16)) (hex_digit (b % 16) ∷ bytes_hex bytes)
        ≡ some (b ∷ bytes) =
      from_step (some (b / 16)) (hex_digit (b % 16)) (bytes_hex bytes)
        (low_step (b / 16) (b % 16) (omega arith))
      ∙ rw (whole, from_printed bytes h.1) in
    from_step none (hex_digit (b / 16)) (hex_digit (b % 16) ∷ bytes_hex bytes)
      (high_step (b / 16) (omega (arith, h.0)))
    ∙ ap (prepend []) second

-- What was printed reads as the bytes that it was printed from.
pub fromhex-bytes_hex : (bytes : List ℕ) → All IsByte bytes → fromhex (bytes_hex bytes) ≡ some bytes
unfolding fromhex
fromhex-bytes_hex bytes h = from_printed bytes h
