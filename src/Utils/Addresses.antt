-- ===== src/Utils/Addresses.antt =====
-- The bytes of addresses, and their texts.
use client_sdk_python.Base.{Option-cases, inl, inr}
use client_sdk_python.Base.{
  ℕ, ◌≡◌, ◌≢◌, ◌<◌, refl, sym, ap, ◌∙◌, subst, Bool, true, false, not, Option, none, some,
  some-injective, List, [], ◌∷◌, All, All-append, IsByte, length, ◌==◌, ==_iff, if◌then◌else◌,
  Outcome, ok, err, ◌>>◌, raise_if, >>=-eq-ok, ok-injective, arith,
}
use client_sdk_python.Identifier.Text.{Text}
use client_sdk_python.Utils.{
  AddressError, AccountAddress, account_address_of, to_bytes, from_bytes, from_hex,
  fromhex_or_raise, or_not_hex, address, hex_text, account_address, account_address_bytes,
  account_address_hex, as_invalid,
}
use client_sdk_python.Utils.Hex.{
  hex_step, first_digit, second_digit, from_step, nibble, is_space, prepend, fromhex_from, fromhex,
  bytes_hex, fromhex-bytes_hex,
}

nibble_below : (c n : ℕ) → nibble c ≡ some n → n < 16
nibble_below c n h = ground (arith, h)

-- The digit that waits for its second is a digit.
Waits : Option ℕ → Type 0
Waits none = Unit
Waits (some h) = h < 16

first_digit_fine :
    (o : Option ℕ) {p : Option ℕ} {out : List ℕ}
    → ((n : ℕ) → o ≡ some n → n < 16)
    → first_digit o ≡ some (p, out)
    → Waits p × All IsByte out
unfolding Waits
first_digit_fine none below h = absurd (cc)
first_digit_fine (some n) below h =
    let same = some-injective _ _ h in
    subst (λ r. Waits r.0 × All IsByte r.1) same (below n refl, tt)

second_digit_fine :
    (m : ℕ) (o : Option ℕ) {p : Option ℕ} {out : List ℕ}
    → m < 16
    → ((n : ℕ) → o ≡ some n → n < 16)
    → second_digit m o ≡ some (p, out)
    → Waits p × All IsByte out
unfolding Waits
second_digit_fine m none hm below h = absurd (cc)
second_digit_fine m (some n) hm below h =
    let hn = below n refl in
    subst (λ r. Waits r.0 × All IsByte r.1) (some-injective _ _ h) (tt, (omega arith, tt))

spaced :
    (b : Bool) (o : Option ℕ) {p : Option ℕ} {out : List ℕ}
    → ((n : ℕ) → o ≡ some n → n < 16)
    → (if b then some (none, []) else first_digit o) ≡ some (p, out)
    → Waits p × All IsByte out
unfolding Waits
spaced true o below h = subst (λ r. Waits r.0 × All IsByte r.1) (some-injective _ _ h) (tt, tt)
spaced false o below h = first_digit_fine o below h

hex_step_fine :
    (pending : Option ℕ) (c : ℕ) {p : Option ℕ} {out : List ℕ}
    → Waits pending
    → hex_step pending c ≡ some (p, out)
    → Waits p × All IsByte out
unfolding hex_step Waits
hex_step_fine none c w h = spaced (is_space c) (nibble c) (nibble_below c) h
hex_step_fine (some m) c w h = second_digit_fine m (nibble c) w (nibble_below c) h

prepend-IsByte :
    (out : List ℕ) (rest : Option (List ℕ)) {bytes : List ℕ}
    → All IsByte out
    → ((r : List ℕ) → rest ≡ some r → All IsByte r)
    → prepend out rest ≡ some bytes
    → All IsByte bytes
prepend-IsByte out none ho hr h = absurd (cc)
prepend-IsByte out (some r) ho hr h =
    subst (All IsByte) (some-injective _ _ h) (All-append IsByte out r ho (hr r refl))

fromhex_from-IsByte :
    (pending : Option ℕ) (text : Text) (bytes : List ℕ)
    → Waits pending
    → fromhex_from pending text ≡ some bytes
    → All IsByte bytes
unfolding fromhex_from
fromhex_from-IsByte none [] bytes w h = subst (All IsByte) (some-injective _ _ h) tt
fromhex_from-IsByte (some m) [] bytes w h = absurd (cc)
fromhex_from-IsByte pending (c ∷ text) bytes w h = elim (Option-cases (hex_step pending c)) [
  | inl stop ↦ absurd (clash (sym (no_step pending c text stop) ∙ h))
  | inr ((p, out), go) ↦
      let (w', ho) = hex_step_fine pending c w go in
      prepend-IsByte out (fromhex_from p text) ho (λ r. fromhex_from-IsByte p text r w')
        (sym (from_step pending c text go) ∙ h)
]
  where
    clash : {bs : List ℕ} → none ≢ some bs
    clash e = absurd (cc)

    no_step :
        (q : Option ℕ) (d : ℕ) (t : Text) → hex_step q d ≡ none → fromhex_from q (d ∷ t) ≡ none
    no_step none d t e = rw (fromhex_from, e)
    no_step (some m) d t e = rw (fromhex_from, e)

fromhex-IsByte : (text : Text) (bytes : List ℕ) → fromhex text ≡ some bytes → All IsByte bytes
unfolding fromhex Waits
fromhex-IsByte text bytes h = fromhex_from-IsByte none text bytes tt h

as_invalid_ok : {A : Type 0} (o : Outcome AddressError A) {a : A} → as_invalid o ≡ ok a → o ≡ ok a
as_invalid_ok (ok a) h = h
as_invalid_ok (err e) h = absurd (cc)

from_bytes_sized :
    (bytes : List ℕ) (sized : Bool) {a : AccountAddress}
    → (raise_if (not sized) AddressError.wrong_length >> ok (account_address_of bytes)) ≡ ok a
    → (sized ≡ true) × (account_address_of bytes ≡ a)
from_bytes_sized bytes true h = (refl, ok-injective h)
from_bytes_sized bytes false h = absurd (cc)

or_not_hex_ok : (o : Option (List ℕ)) {bytes : List ℕ} → or_not_hex o ≡ ok bytes → o ≡ some bytes
or_not_hex_ok none h = absurd (cc)
or_not_hex_ok (some bs) h = ap some (ok-injective h)

reads_back :
    (bytes : List ℕ)
    → length bytes ≡ 16
    → All IsByte bytes
    → account_address (hex_text (bytes_hex bytes)) ≡ ok (account_address_of bytes)
unfolding account_address from_hex from_bytes
reads_back bytes size b = rw (fromhex-bytes_hex bytes b, size)

-- An account address that is read from a hex text is 16 bytes, and its own hex text reads as it.
pub account_address_hex_text :
    (text : Text) (a : AccountAddress)
    → account_address (hex_text text) ≡ ok a
    → (length (to_bytes a) ≡ 16)
      × All IsByte (to_bytes a)
      × (account_address_hex (address a) ≡ ok (bytes_hex (to_bytes a)))
      × (account_address (hex_text (bytes_hex (to_bytes a))) ≡ ok a)
unfolding account_address from_hex from_bytes account_address_hex account_address_bytes
account_address_hex_text text a h =
    let (bytes, read, made) =
      >>=-eq-ok (fromhex_or_raise text) _ (as_invalid_ok (from_hex text) h) in
    let is_hex = or_not_hex_ok (fromhex text) read in
    let (sized, whole) = from_bytes_sized bytes (length bytes == 16) made in
    let size : length bytes ≡ 16 = (==_iff (length bytes) 16).0 sized in
    let b = fromhex-IsByte text bytes is_hex in
    subst
      (λ x.
        (length (to_bytes x) ≡ 16)
        × All IsByte (to_bytes x)
        × (account_address_hex (address x) ≡ ok (bytes_hex (to_bytes x)))
        × (account_address (hex_text (bytes_hex (to_bytes x))) ≡ ok x))
      whole (size, b, refl, reads_back bytes size b)
