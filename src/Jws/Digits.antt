-- ===== src/Jws/Digits.antt =====
-- The digits of base64, and that bytes come back from them.
use client_sdk_python.Base.{
  ℕ, zero, suc, ◌+◌, ◌-◌, ◌*◌, ◌/◌, ◌%◌, ◌<◌, ◌≡◌, refl, sym, ap, subst, ◌∙◌, false, Option, some,
  List, [], ◌∷◌, ◌++◌, length, replicate, if◌then◌else◌, ◌==◌, All, IsByte, arith,
}
use client_sdk_python.Jws.Base64.{
  alphabet, digit, urlsafe_b64encode, unless_pad, rstrip_pad, encode_b64url, fix_padding, Quad,
  start, one, two, three, emit, on_pad, on_digit, b64decode_rest, decode_b64url, is_empty,
}

pub digit-alphabet : (v : ℕ) → v < 64 → digit (alphabet v) ≡ some v
digit-alphabet v h = ground arith

pub alphabet_not_pad : (v : ℕ) → v < 64 → (alphabet v == 61) ≡ false
alphabet_not_pad v h = ground arith

pub alphabet_not_dot : (v : ℕ) → v < 64 → (alphabet v == 46) ≡ false
alphabet_not_dot v h = ground arith

-- A digit is taken.
b64decode_digit :
    (v : ℕ) (cs : List ℕ) (q : Quad)
    → v < 64
    → b64decode_rest (alphabet v ∷ cs) q ≡ on_digit q (b64decode_rest cs) (some v)
unfolding b64decode_rest
b64decode_digit v cs q h =
    ap
      (λ b.
        if b
        then on_pad q (b64decode_rest cs)
        else on_digit q (b64decode_rest cs) (digit (alphabet v)))
      (alphabet_not_pad v h)
    ∙ ap (on_digit q (b64decode_rest cs)) (digit-alphabet v h)

rstrip_digit :
    (v : ℕ) (cs ds : List ℕ)
    → v < 64
    → rstrip_pad cs ≡ ds
    → rstrip_pad (alphabet v ∷ cs) ≡ alphabet v ∷ ds
unfolding rstrip_pad
rstrip_digit v cs ds h e =
    ap (unless_pad (alphabet v)) e ∙ kept (alphabet v) ds (alphabet_not_pad v h)
  where
    kept : (c : ℕ) (ds : List ℕ) → (c == 61) ≡ false → unless_pad c ds ≡ c ∷ ds
    kept c [] e = rw e
    kept c (d ∷ ds) e = refl

rstrip_end : (n : ℕ) → rstrip_pad (replicate n 61) ≡ []
unfolding rstrip_pad
rstrip_end zero = refl
rstrip_end (suc n) = rw (rstrip_end n)

emit_eq : {a b : ℕ} {o p : Option (List ℕ)} → a ≡ b → o ≡ p → emit a o ≡ emit b p
emit_eq e h = cc (e, h)

pub four_digits :
    (v w x y : ℕ) (cs : List ℕ)
    → v < 64
    → w < 64
    → x < 64
    → y < 64
    → b64decode_rest (alphabet v ∷ alphabet w ∷ alphabet x ∷ alphabet y ∷ cs) start
      ≡ emit
          (v * 4 + w / 16)
          (emit (w % 16 * 16 + x / 4) (emit (x % 4 * 64 + y) (b64decode_rest cs start)))
four_digits v w x y cs hv hw hx hy =
    b64decode_digit v _ start hv
    ∙ b64decode_digit w _ (one v) hw
    ∙ ap (emit (v * 4 + w / 16)) (
        b64decode_digit x _ (two (w % 16)) hx
        ∙ ap (emit (w % 16 * 16 + x / 4)) (b64decode_digit y cs (three (x % 4)) hy))

pub three_digits :
    (v w x : ℕ)
    → v < 64
    → w < 64
    → x < 64
    → b64decode_rest (alphabet v ∷ alphabet w ∷ alphabet x ∷ 61 ∷ []) start
      ≡ some ((v * 4 + w / 16) ∷ (w % 16 * 16 + x / 4) ∷ [])
unfolding b64decode_rest
three_digits v w x hv hw hx =
    b64decode_digit v (alphabet w ∷ alphabet x ∷ 61 ∷ []) start hv
    ∙ b64decode_digit w (alphabet x ∷ 61 ∷ []) (one v) hw
    ∙ ap (emit (v * 4 + w / 16)) (b64decode_digit x (61 ∷ []) (two (w % 16)) hx)

pub two_digits :
    (v w : ℕ)
    → v < 64
    → w < 64
    → b64decode_rest (alphabet v ∷ alphabet w ∷ 61 ∷ 61 ∷ []) start ≡ some ((v * 4 + w / 16) ∷ [])
unfolding b64decode_rest
two_digits v w hv hw =
    b64decode_digit v (alphabet w ∷ 61 ∷ 61 ∷ []) start hv
    ∙ b64decode_digit w (61 ∷ 61 ∷ []) (one v) hw

fix_padding_group :
    (v w x y : ℕ) (cs : List ℕ) → fix_padding (v ∷ w ∷ x ∷ y ∷ cs) ≡ v ∷ w ∷ x ∷ y ∷ fix_padding cs
unfolding fix_padding
fix_padding_group v w x y cs =
    let same : suc (suc (suc (suc (length cs)))) % 4 ≡ length cs % 4 = omega arith in
    ap (λ n. v ∷ w ∷ x ∷ y ∷ (cs ++ replicate (4 - n) 61)) same

-- The digits of a message without its padding.
unfoldable pub digits : List ℕ → List ℕ
digits [] = []
digits (a ∷ []) = alphabet (a / 4) ∷ alphabet (a % 4 * 16) ∷ []
digits (a ∷ b ∷ []) = alphabet (a / 4) ∷ alphabet (a % 4 * 16 + b / 16) ∷ alphabet (b % 16 * 4) ∷ []
digits (a ∷ b ∷ c ∷ rest) =
    alphabet (a / 4)
    ∷ alphabet (a % 4 * 16 + b / 16)
    ∷ alphabet (b % 16 * 4 + c / 64)
    ∷ alphabet (c % 64)
    ∷ digits rest

rstrip-digits : (m : List ℕ) → All IsByte m → rstrip_pad (urlsafe_b64encode m) ≡ digits m
unfolding urlsafe_b64encode digits
rstrip-digits [] h = rstrip_end 0
rstrip-digits (a ∷ []) h =
    rstrip_digit (a / 4) _ _ (omega (arith, h.0))
      (rstrip_digit (a % 4 * 16) _ _ (omega arith) (rstrip_end 2))
rstrip-digits (a ∷ b ∷ []) h = rstrip_digit (a / 4) _ _ (omega (arith, h.0)) (
    rstrip_digit (a % 4 * 16 + b / 16) _ _ (omega (arith, h.1.0))
      (rstrip_digit (b % 16 * 4) _ _ (omega arith) (rstrip_end 1)))
rstrip-digits (a ∷ b ∷ c ∷ rest) h = rstrip_digit (a / 4) _ _ (omega (arith, h.0)) (
    rstrip_digit (a % 4 * 16 + b / 16) _ _ (omega (arith, h.1.0)) (
      rstrip_digit (b % 16 * 4 + c / 64) _ _ (omega (arith, h.1.1.0))
        (rstrip_digit (c % 64) _ _ (omega arith) (rstrip-digits rest h.1.1.1))))

pub encode_b64url-digits : (m : List ℕ) → All IsByte m → encode_b64url m ≡ digits m
unfolding encode_b64url
encode_b64url-digits m h = rstrip-digits m h

-- The bytes of a group come back from its digits.
first_byte : (a r : ℕ) → IsByte a → r < 16 → a / 4 * 4 + (a % 4 * 16 + r) / 16 ≡ a
first_byte a r ha hr = omega arith

second_byte :
    (a b r : ℕ) → IsByte b → r < 4 → (a % 4 * 16 + b / 16) % 16 * 16 + (b % 16 * 4 + r) / 4 ≡ b
second_byte a b r hb hr = omega arith

last_byte : (a b : ℕ) → IsByte b → (a % 4 * 16 + b / 16) % 16 * 16 + b % 16 * 4 / 4 ≡ b
last_byte a b hb = omega arith

third_byte : (b c : ℕ) → IsByte c → (b % 16 * 4 + c / 64) % 4 * 64 + c % 64 ≡ c
third_byte b c hc = omega arith

no_digits : b64decode_rest (fix_padding []) start ≡ some []
unfolding b64decode_rest fix_padding
no_digits = refl

two_padded : (v w : ℕ) → fix_padding (v ∷ w ∷ []) ≡ v ∷ w ∷ 61 ∷ 61 ∷ []
unfolding fix_padding
two_padded v w = refl

three_padded : (v w x : ℕ) → fix_padding (v ∷ w ∷ x ∷ []) ≡ v ∷ w ∷ x ∷ 61 ∷ []
unfolding fix_padding
three_padded v w x = refl

digits_decode : (m : List ℕ) → All IsByte m → b64decode_rest (fix_padding (digits m)) start ≡ some m
unfolding digits
digits_decode [] h = no_digits
digits_decode (a ∷ []) h =
    ap (λ t. b64decode_rest t start) (two_padded (alphabet (a / 4)) (alphabet (a % 4 * 16)))
    ∙ two_digits (a / 4) (a % 4 * 16) (omega (arith, h.0)) (omega arith)
    ∙ ap (λ x. some (x ∷ [])) (omega arith)
digits_decode (a ∷ b ∷ []) h =
    ap (λ t. b64decode_rest t start)
      (three_padded (alphabet (a / 4)) (alphabet (a % 4 * 16 + b / 16)) (alphabet (b % 16 * 4)))
    ∙ three_digits (a / 4) (a % 4 * 16 + b / 16) (b % 16 * 4) (omega (arith, h.0))
        (omega (arith, h.1.0)) (omega arith)
    ∙ ap some (cc (first_byte a (b / 16) h.0 (omega (arith, h.1.0)), last_byte a b h.1.0))
digits_decode (a ∷ b ∷ c ∷ rest) h =
    ap (λ t. b64decode_rest t start)
      (fix_padding_group (alphabet (a / 4)) (alphabet (a % 4 * 16 + b / 16))
        (alphabet (b % 16 * 4 + c / 64)) (alphabet (c % 64)) (digits rest))
    ∙ four_digits (a / 4) (a % 4 * 16 + b / 16) (b % 16 * 4 + c / 64) (c % 64)
        (fix_padding (digits rest)) (omega (arith, h.0)) (omega (arith, h.1.0))
        (omega (arith, h.1.1.0)) (omega arith)
    ∙ emit_eq (first_byte a (b / 16) h.0 (omega (arith, h.1.0))) (
        emit_eq (second_byte a b (c / 64) h.1.0 (omega (arith, h.1.1.0)))
          (emit_eq (third_byte b c h.1.1.0) (digits_decode rest h.1.1.1)))

-- Bytes that are encoded without padding are decoded again.
pub decode_b64url-encode : (m : List ℕ) → All IsByte m → decode_b64url (encode_b64url m) ≡ some m
unfolding decode_b64url
decode_b64url-encode m h =
    ap (λ t. b64decode_rest (fix_padding t) start) (encode_b64url-digits m h) ∙ digits_decode m h

-- The text of a part has no dot.
abbrev pub IsDotless : List ℕ → Type 0
IsDotless = All (λ c. (c == 46) ≡ false)

digits-IsDotless : (m : List ℕ) → All IsByte m → IsDotless (digits m)
unfolding digits
digits-IsDotless [] h = tt
digits-IsDotless (a ∷ []) h = (
  alphabet_not_dot (a / 4) (omega (arith, h.0)),
  (alphabet_not_dot (a % 4 * 16) (omega arith), tt),
)
digits-IsDotless (a ∷ b ∷ []) h =
    let second = alphabet_not_dot (a % 4 * 16 + b / 16) (omega (arith, h.1.0)) in
    let third = alphabet_not_dot (b % 16 * 4) (omega arith) in
    (alphabet_not_dot (a / 4) (omega (arith, h.0)), (second, (third, tt)))
digits-IsDotless (a ∷ b ∷ c ∷ rest) h =
    let second = alphabet_not_dot (a % 4 * 16 + b / 16) (omega (arith, h.1.0)) in
    let third = alphabet_not_dot (b % 16 * 4 + c / 64) (omega (arith, h.1.1.0)) in
    let fourth = alphabet_not_dot (c % 64) (omega arith) in
    (
      alphabet_not_dot (a / 4) (omega (arith, h.0)),
      (second, (third, (fourth, digits-IsDotless rest h.1.1.1))),
    )

pub encode_b64url-IsDotless : (m : List ℕ) → All IsByte m → IsDotless (encode_b64url m)
encode_b64url-IsDotless m h =
    subst IsDotless (sym (encode_b64url-digits m h)) (digits-IsDotless m h)

pub encode_b64url-empty : encode_b64url [] ≡ []
unfolding digits
encode_b64url-empty = encode_b64url-digits [] tt

-- Only the empty `bytes` has an empty text.
pub encode_b64url-not_empty :
    (b : ℕ) (bs : List ℕ) → All IsByte (b ∷ bs) → is_empty (encode_b64url (b ∷ bs)) ≡ false
unfolding digits
encode_b64url-not_empty b bs h = ap is_empty (encode_b64url-digits (b ∷ bs) h) ∙ full b bs
  where
    full : (c : ℕ) (cs : List ℕ) → is_empty (digits (c ∷ cs)) ≡ false
    full c [] = refl
    full c (d ∷ []) = refl
    full c (d ∷ e ∷ es) = refl
