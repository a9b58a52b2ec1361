-- ===== src/Identifier/Text.antt =====
-- Texts as lists of code points: what src/diem/identifier uses of `str`.
use client_sdk_python.Base.{
  ℕ, suc, ◌+◌, ◌-◌, ◌<◌, ◌≡◌, refl, Bool, true, false, ◌&&◌, ◌||◌, Option, none, some, List, [],
  ◌∷◌, map, All, if◌then◌else◌, ◌==◌, ==_iff, leb,
}

abbrev pub Text : Type 0
Text = List ℕ

-- `==` on texts, and on `bytes`.
abbrev pub text_eq : Text → Text → Bool
text_eq [] [] = true
text_eq [] (d ∷ t) = false
text_eq (c ∷ s) [] = false
text_eq (c ∷ s) (d ∷ t) = c == d && text_eq s t

pub &&-true : (a b : Bool) → (a && b) ≡ true → (a ≡ true) × (b ≡ true)
&&-true true true h = (refl, refl)
&&-true true false h = absurd (cc)
&&-true false b h = absurd (cc)

pub text_eq_refl : (t : Text) → text_eq t t ≡ true
text_eq_refl [] = refl
text_eq_refl (c ∷ t) = rw ((==_iff c c).1 refl, text_eq_refl t)

pub text_eq_sound : (s t : Text) → text_eq s t ≡ true → s ≡ t
text_eq_sound [] [] h = refl
text_eq_sound [] (d ∷ t) h = absurd (cc)
text_eq_sound (c ∷ s) [] h = absurd (cc)
text_eq_sound (c ∷ s) (d ∷ t) h =
    let (here, there) = &&-true (c == d) (text_eq s t) h in
    rw ((==_iff c d).0 here, text_eq_sound s t there)

abbrev pub next_index : Option ℕ → Option ℕ
next_index none = none
next_index (some i) = some (suc i)

-- `t.find(c)` of one character, where `none` stands for -1.
abbrev pub find : Text → ℕ → Option ℕ
find [] c = none
find (d ∷ t) c = let rest = find t c in if c == d then some 0 else next_index rest

-- `x in t` for one character.
abbrev pub contains : Text → ℕ → Bool
contains [] c = false
contains (d ∷ t) c = c == d || contains t c

-- What the code relies on of `str.lower` and `str.upper`: on a text of ASCII characters they work
-- character by character.
abbrev pub IsAscii : ℕ → Type 0
IsAscii c = c < 128

abbrev pub ascii_lower : ℕ → ℕ
ascii_lower c = if leb 65 c && leb c 90 then c + 32 else c

abbrev pub ascii_upper : ℕ → ℕ
ascii_upper c = if leb 97 c && leb c 122 then c - 32 else c

pub record StrCase : Type 0 where
  pub lower : Text → Text
  pub upper : Text → Text
  pub lower-IsAscii : (t : Text) → All IsAscii t → lower t ≡ map ascii_lower t
  pub upper-IsAscii : (t : Text) → All IsAscii t → upper t ≡ map ascii_upper t
