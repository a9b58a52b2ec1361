-- ===== src/Identifier/Bech32/Charset.antt =====
-- The characters of the alphabet and their values.
use client_sdk_python.Base.{
  ℕ, zero, suc, ◌<◌, ◌≡◌, ◌⊎◌, inl, inr, refl, sym, ap, ◌∙◌, Bool, true, false, ◌&&◌, Option, none,
  some, List, [], ◌∷◌, ◌++◌, All, all, map, length, get_elem?, ◌==◌, ==_iff, arith, some-injective,
  subst, >>=-eq-ok, ok-injective, if◌then◌else◌, ltb, ltb→lt, ok,
}
use client_sdk_python.Base.Bits.{all_below, all_below_sound}
use client_sdk_python.Identifier.Text.{
  Text, &&-true, find, next_index, contains, IsAscii, ascii_lower,
}
use client_sdk_python.Identifier.Checksum.Create.{IsDigit}
use client_sdk_python.Identifier.Bech32.{Bech32Error, or_raise, bech32_charset, chars_of, values_of}

-- Characters that `str.lower` leaves alone.
abbrev pub IsLower : ℕ → Type 0
IsLower c = IsAscii c × (ascii_lower c ≡ c)

pub lower_IsLower : (t : Text) → All IsLower t → map ascii_lower t ≡ t
lower_IsLower [] h = refl
lower_IsLower (c ∷ t) h = rw (h.0.1, lower_IsLower t h.1)

pub IsLower-IsAscii : (t : Text) → All IsLower t → All IsAscii t
IsLower-IsAscii [] h = tt
IsLower-IsAscii (c ∷ t) h = (h.0.0, IsLower-IsAscii t h.1)

found : Option ℕ → ℕ → Bool
found none d = false
found (some i) d = i == d

found_sound : (o : Option ℕ) (d : ℕ) → found o d ≡ true → o ≡ some d
unfolding found
found_sound none d h = absurd (cc)
found_sound (some i) d h = ap some ((==_iff i d).0 h)

row : ℕ → Option ℕ → Bool
unfolding found
row d none = false
row d (some c) =
    found (find bech32_charset c) d
    && (contains bech32_charset c && (ltb c 128 && ascii_lower c == c))

charset_table : all_below 32 (λ d. row d (get_elem? bech32_charset d)) ≡ true
unfolding all_below row
charset_table = refl

row_sound :
    (d : ℕ) (o : Option ℕ)
    → row d o ≡ true
    → (c : ℕ) × (o ≡ some c)
      × (find bech32_charset c ≡ some d)
      × (contains bech32_charset c ≡ true)
      × IsLower c
unfolding row
row_sound d none h = absurd (cc)
row_sound d (some c) h =
    let (at, rest) = &&-true _ _ h in
    let (isin, rest') = &&-true _ _ rest in
    let (ascii, low) = &&-true _ _ rest' in
    (
      c,
      refl,
      found_sound (find bech32_charset c) d at,
      isin,
      (ltb→lt c 128 ascii, (==_iff _ c).0 low),
    )

-- A digit's character, which reads as the digit again.
pub char_of_digit :
    (d : ℕ)
    → IsDigit d
    → (c : ℕ) × (get_elem? bech32_charset d ≡ some c)
      × (find bech32_charset c ≡ some d)
      × (contains bech32_charset c ≡ true)
      × IsLower c
char_of_digit d h =
    row_sound d (get_elem? bech32_charset d)
      (all_below_sound (λ i. row i (get_elem? bech32_charset i)) 32 d h charset_table)

pub chars_of_lem :
    (ds : List ℕ)
    → All IsDigit ds
    → (cs : Text) × (chars_of ds ≡ ok cs)
      × (values_of cs ≡ ok ds)
      × (all (contains bech32_charset) cs ≡ true)
      × All IsLower cs
      × (length cs ≡ length ds)
chars_of_lem [] h = ([], refl, refl, refl, tt, refl)
chars_of_lem (d ∷ ds) h =
    let (c, at, back, isin, low) = char_of_digit d h.0 in
    let (cs, chars, values, every, lows, size) = chars_of_lem ds h.1 in
    (c ∷ cs, rw (at, chars), rw (back, values), rw (isin, every), (low, lows), ap suc size)

find_step :
    (b : Bool) (o : Option ℕ) {i : ℕ}
    → (if b then some 0 else next_index o) ≡ some i
    → ((b ≡ true) × (i ≡ 0)) ⊎ ((b ≡ false) × ((j : ℕ) × (o ≡ some j) × (i ≡ suc j)))
find_step true o h = inl (refl, sym (some-injective _ _ h))
find_step false none h = absurd (cc)
find_step false (some j) h = inr (refl, (j, refl, sym (some-injective _ _ h)))

-- A character's value is its place in the alphabet.
find_get : (t : Text) (c i : ℕ) → find t c ≡ some i → get_elem? t i ≡ some c
find_get [] c i h = absurd (cc)
find_get (d ∷ t) c i h = elim (find_step (c == d) (find t c) h) [
  | inl (same, first) ↦ rw first (ap some (sym ((==_iff c d).0 same)))
  | inr (other, (j, rest, later)) ↦ rw later (find_get t c j rest)
]

get_elem?-lt : (t : Text) (i : ℕ) {c : ℕ} → get_elem? t i ≡ some c → i < length t
get_elem?-lt [] i h = absurd (cc)
get_elem?-lt (d ∷ t) zero h = omega arith
get_elem?-lt (d ∷ t) (suc i) h = omega (arith, get_elem?-lt t i h)

pub find-IsDigit : (c v : ℕ) → find bech32_charset c ≡ some v → IsDigit v
find-IsDigit c v h = get_elem?-lt bech32_charset v (find_get bech32_charset c v h)

-- Different characters have different values.
pub find_injective :
    (c d v : ℕ) → find bech32_charset c ≡ some v → find bech32_charset d ≡ some v → c ≡ d
find_injective c d v hc hd =
    some-injective _ _ (sym (find_get bech32_charset c v hc) ∙ find_get bech32_charset d v hd)

pub or_raise_ok :
    {A : Type 0} (o : Option A) (e : Bech32Error) {a : A} → or_raise o e ≡ ok a → o ≡ some a
or_raise_ok none e h = absurd (cc)
or_raise_ok (some a) e h = ap some (ok-injective h)

pub values_of-cons :
    (c : ℕ) (cs : Text) {v : ℕ} {vs : List ℕ}
    → find bech32_charset c ≡ some v
    → values_of cs ≡ ok vs
    → values_of (c ∷ cs) ≡ ok (v ∷ vs)
values_of-cons c cs here there = rw (here, there)

-- The values of characters, and those of a text cut before a character.
pub values_of-split :
    (before after : Text) (c : ℕ) {vs : List ℕ}
    → values_of (before ++ (c ∷ after)) ≡ ok vs
    → (bs : List ℕ) × (v : ℕ) × (rest : List ℕ) × (values_of before ≡ ok bs)
      × (find bech32_charset c ≡ some v)
      × (values_of after ≡ ok rest)
      × (vs ≡ bs ++ (v ∷ rest))
values_of-split [] after c h =
    let (v, here, h1) =
      >>=-eq-ok (or_raise (find bech32_charset c) Bech32Error.bad_characters) _ h in
    let (rest, there, h2) = >>=-eq-ok (values_of after) _ h1 in
    ([], v, rest, refl, or_raise_ok _ _ here, there, sym (ok-injective h2))
values_of-split (b ∷ before) after c h =
    let (u, here, h1) =
      >>=-eq-ok (or_raise (find bech32_charset b) Bech32Error.bad_characters) _ h in
    let (vs', there, h2) = >>=-eq-ok (values_of (before ++ (c ∷ after))) _ h1 in
    let (bs, v, rest, front, at, back, whole) = values_of-split before after c there in
    (
      u ∷ bs,
      v,
      rest,
      values_of-cons b before (or_raise_ok _ _ here) front,
      at,
      back,
      sym (ok-injective h2) ∙ ap (λ t. u ∷ t) whole,
    )

pub values_of-digits : (cs : Text) {vs : List ℕ} → values_of cs ≡ ok vs → All IsDigit vs
values_of-digits [] h = subst (All IsDigit) (ok-injective h) tt
values_of-digits (c ∷ cs) h =
    let (v, here, h1) =
      >>=-eq-ok (or_raise (find bech32_charset c) Bech32Error.bad_characters) _ h in
    let (vs, there, h2) = >>=-eq-ok (values_of cs) _ h1 in
    subst (All IsDigit) (ok-injective h2)
      (find-IsDigit c v (or_raise_ok _ _ here), values_of-digits cs there)
