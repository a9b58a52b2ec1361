-- ===== src/Bcs/Fits.antt =====
-- The values that a type annotation stands for: the abstract side of the wire format. A value fits a
-- format within a depth budget; what a serializer and a deserializer of such values promise.
use client_sdk_python.Base.{
  ℕ, zero, suc, ◌^◌, ◌≤◌, ◌<◌, ◌≡◌, ◌⊎◌, String, some, Bool, true, false, List, ◌++◌, length,
  get_elem?, All, IsByte, Outcome, ok,
}
use client_sdk_python.Base.Int.{ℤ, pos}
use client_sdk_python.Bcs.Error.{Error}
use client_sdk_python.Bcs.Parser.{Parser}
use client_sdk_python.Bcs.Words.{FitsSigned}
use client_sdk_python.Bcs.Uleb.Encode.{max_length, max_u32}
use client_sdk_python.Bcs.Deserializer.{words_of_int}
use client_sdk_python.Bcs.Types.{
  Primitive, Format, Formats, Container, Registry, Value, Values, Utf8, count, is_null, prim,
  sequence, tuple, optional, named, struct, enum, opaque, null, boolean, int, text, bytestring,
  items, tuple_of, object, variant, nil, cons,
}

abbrev pub FitsUnsigned : ℕ → Value → Type 0
FitsUnsigned size v = (n : ℕ) × (v ≡ int (pos n)) × (n < 256 ^ size)

abbrev pub FitsInt : ℕ → Value → Type 0
FitsInt size v = (z : ℤ) × (v ≡ int z) × FitsSigned size z

abbrev pub FitsPrimitive : Utf8 → Primitive → Value → Type 0
FitsPrimitive utf8 Primitive.bool v = (b : Bool) × (v ≡ boolean b)
FitsPrimitive utf8 Primitive.uint8 v = FitsUnsigned 1 v
FitsPrimitive utf8 Primitive.uint16 v = FitsUnsigned 2 v
FitsPrimitive utf8 Primitive.uint32 v = FitsUnsigned 4 v
FitsPrimitive utf8 Primitive.uint64 v = FitsUnsigned 8 v
FitsPrimitive utf8 Primitive.uint128 v = (n : ℕ) × (v ≡ words_of_int (pos n)) × (n < 256 ^ 16)
FitsPrimitive utf8 Primitive.int8 v = FitsInt 1 v
FitsPrimitive utf8 Primitive.int16 v = FitsInt 2 v
FitsPrimitive utf8 Primitive.int32 v = FitsInt 4 v
FitsPrimitive utf8 Primitive.int64 v = FitsInt 8 v
FitsPrimitive utf8 Primitive.int128 v = (z : ℤ) × (v ≡ words_of_int z) × FitsSigned 16 z
FitsPrimitive utf8 Primitive.float32 v = ⊥
FitsPrimitive utf8 Primitive.float64 v = ⊥
FitsPrimitive utf8 Primitive.unit v = v ≡ null
FitsPrimitive utf8 Primitive.char v = ⊥
FitsPrimitive utf8 Primitive.str v =
    (s : List ℕ) × (bs : List ℕ) × (v ≡ text s)
    × (utf8.encode s ≡ some bs)
    × (length bs ≤ max_length)
FitsPrimitive utf8 Primitive.bytes v =
    (bs : List ℕ) × (v ≡ bytestring bs) × All IsByte bs × (length bs ≤ max_length)

abbrev pub FitsEach : (Value → Type 0) → Values → Type 0
FitsEach P nil = Unit
FitsEach P (cons v vs) = P v × FitsEach P vs

module _ (utf8 : Utf8) (call : String → Value → Type 0) where
  abbrev mutual
    pub FitsFormat : Format → Value → Type 0
    FitsFormat (prim p) v = FitsPrimitive utf8 p v
    FitsFormat (sequence f) v =
        (vs : Values) × (v ≡ items vs) × (count vs ≤ max_length) × FitsEach (FitsFormat f) vs
    FitsFormat (tuple fs) v = (vs : Values) × (v ≡ tuple_of vs) × FitsFields fs vs
    FitsFormat (optional f) v = (v ≡ null) ⊎ ((is_null v ≡ false) × FitsFormat f v)
    FitsFormat (named c) v = call c v

    pub FitsFields : Formats → Values → Type 0
    FitsFields nil nil = Unit
    FitsFields nil (cons v vs) = ⊥
    FitsFields (cons f fs) nil = ⊥
    FitsFields (cons f fs) (cons v vs) = FitsFormat f v × FitsFields fs vs

abbrev pub FitsContainer : (Formats → Values → Type 0) → String → Container → Value → Type 0
FitsContainer call c (struct fs) v = (vs : Values) × (v ≡ object c vs) × call fs vs
FitsContainer call c (enum variants) v =
    (index : ℕ) × (fs : Formats) × (vs : Values) × (v ≡ variant c index vs)
    × (get_elem? variants index ≡ some fs)
    × (index ≤ max_u32)
    × call fs vs
FitsContainer call c opaque v = ⊥

-- An instance of the class `c` whose objects nest at most `budget` deep.
unfoldable pub FitsClass : Utf8 → Registry → ℕ → String → Value → Type 0
FitsClass utf8 registry zero c v = FitsContainer (λ fs vs. ⊥) c (registry c) v
FitsClass utf8 registry (suc budget) c v =
    FitsContainer (FitsFields utf8 (FitsClass utf8 registry budget)) c (registry c) v

abbrev pub Fits : Utf8 → Registry → ℕ → Format → Value → Type 0
Fits utf8 registry budget = FitsFormat utf8 (FitsClass utf8 registry budget)

-- The writer writes every fitting value, as bytes, and the reader takes exactly those bytes back.
abbrev pub RoundTrips :
    {A : Type 0} → (A → Type 0) → (A → Outcome Error (List ℕ)) → Parser A → Type 0
RoundTrips {A} P write read =
    (v : A)
    → P v
    → (bs : List ℕ) × (write v ≡ ok bs)
      × All IsByte bs
      × ((rest : List ℕ) → read (bs ++ rest) ≡ ok (v, rest))

-- Whatever the reader accepts is a fitting value behind the very bytes that the writer makes of it.
abbrev pub IsCanonical :
    {A : Type 0} → (A → Type 0) → (A → Outcome Error (List ℕ)) → Parser A → Type 0
IsCanonical {A} P write read =
    (inp : List ℕ) (v : A) (rest : List ℕ)
    → All IsByte inp
    → read inp ≡ ok (v, rest)
    → P v × (bs : List ℕ) × (write v ≡ ok bs) × (inp ≡ bs ++ rest)

-- `typing.Optional` of a type whose values include `None` has two encodings of `None`.
abbrev pub is_nullable : Format → Bool
is_nullable (prim Primitive.unit) = true
is_nullable (optional f) = true
is_nullable _ = false

abbrev mutual
  pub IsPlain : Format → Type 0
  IsPlain (prim p) = Unit
  IsPlain (sequence f) = IsPlain f
  IsPlain (tuple fs) = ArePlain fs
  IsPlain (optional f) = (is_nullable f ≡ false) × IsPlain f
  IsPlain (named c) = Unit

  pub ArePlain : Formats → Type 0
  ArePlain nil = Unit
  ArePlain (cons f fs) = IsPlain f × ArePlain fs

abbrev pub IsPlainContainer : Container → Type 0
IsPlainContainer (struct fs) = ArePlain fs
IsPlainContainer (enum variants) = All ArePlain variants
IsPlainContainer opaque = Unit

abbrev pub IsPlainRegistry : Registry → Type 0
IsPlainRegistry registry = (c : String) → IsPlainContainer (registry c)
