-- ===== src/Bcs/Parser.antt =====
-- Reading from `self.input` (src/diem/serde_binary/__init__.py). The stream is the list of the bytes
-- that are still to be read; a parser returns its value and what is left, or raises.
use client_sdk_python.Base.{
  ℕ, ◌≡◌, refl, List, [], ◌∷◌, ◌++◌, arith, leb, if◌then◌else◌, Outcome, ok, err, length, take,
  drop, take-append_left, drop-append_left, take-append-drop, length-take, length-append,
}
use client_sdk_python.Bcs.Error.{Error, deserialization_error, DeserializationFault}

abbrev pub Parser : Type 0 → Type 0
Parser A = List ℕ → Outcome Error (A × List ℕ)

infixl 5 ◌>>=◌
abbrev pub ◌>>=◌ : {A B : Type 0} → Parser A → (A → Parser B) → Parser B
◌>>=◌ m f inp = elim (m inp) [ ok (a, rest) ↦ f a rest | err e ↦ err e ]

abbrev pub pure : {A : Type 0} → A → Parser A
pure a inp = ok (a, inp)

abbrev pub raise : {A : Type 0} → DeserializationFault → Parser A
raise e inp = err (deserialization_error e)

-- `BinaryDeserializer.read`
unfoldable pub read : ℕ → Parser (List ℕ)
read n inp =
    if leb n (length inp)
    then ok (take n inp, drop n inp)
    else err (deserialization_error DeserializationFault.input_too_short)

-- Inversion of a successful bind.
pub >>=-eq-ok :
    {A B : Type 0} (m : Parser A) (f : A → Parser B) (inp : List ℕ) {b : B × List ℕ}
    → (m >>= f) inp ≡ ok b
    → (a : A) × (rest : List ℕ) × (m inp ≡ ok (a, rest)) × (f a rest ≡ ok b)
>>=-eq-ok {A} {B} m f inp {b} = go (m inp) refl
  where
    go :
        (r : Outcome Error (A × List ℕ))
        → m inp ≡ r
        → (elim r [ ok (a, rest) ↦ f a rest | err e ↦ err e ]) ≡ ok b
        → (a : A) × (rest : List ℕ) × (m inp ≡ ok (a, rest)) × (f a rest ≡ ok b)
    go (ok (a, rest)) e h = (a, rest, e, h)
    go (err x) e h = cc

-- Reading what a writer put in front.
pub read-append : (bs rest : List ℕ) → read (length bs) (bs ++ rest) ≡ ok (bs, rest)
unfolding read
read-append bs rest =
    ground (arith, take-append_left bs rest, drop-append_left bs rest, length-append bs rest)

pub read_one : (b : ℕ) (rest : List ℕ) → read 1 (b ∷ rest) ≡ ok (b ∷ [], rest)
unfolding read
read_one b rest = ground arith

-- A read that succeeds takes the bytes at the front.
pub read-eq-ok :
    (n : ℕ) (inp bs rest : List ℕ)
    → read n inp ≡ ok (bs, rest)
    → (inp ≡ bs ++ rest) × (length bs ≡ n)
unfolding read
read-eq-ok n inp bs rest h = ground (arith, take-append-drop n inp, length-take n inp)

pub read_one-eq-ok :
    (inp bs rest : List ℕ) → read 1 inp ≡ ok (bs, rest) → (b : ℕ) × (inp ≡ b ∷ rest) × (bs ≡ b ∷ [])
read_one-eq-ok inp [] rest h = absurd (omega (arith, read-eq-ok 1 inp [] rest h))
read_one-eq-ok inp (b ∷ []) rest h = (b, (read-eq-ok 1 inp (b ∷ []) rest h).0, refl)
read_one-eq-ok inp (b ∷ c ∷ bs) rest h =
    absurd (omega (arith, read-eq-ok 1 inp (b ∷ c ∷ bs) rest h))
