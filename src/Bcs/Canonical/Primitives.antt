-- ===== src/Bcs/Canonical/Primitives.antt =====
-- Each `primitive_type_deserializer` accepts only what the serializer of its primitive writes.
use client_sdk_python.Base.{
  ℕ, zero, suc, ◌+◌, ◌*◌, ◌^◌, ◌≤◌, ◌<◌, ◌≡◌, refl, ap, ◌∙◌, Bool, true, false, Option, none, some,
  List, [], ◌∷◌, ◌++◌, arith, length, All, IsByte, ok, if◌then◌else◌, ◌==◌, append_assoc,
  All-append_left, All-append_right, subst,
}
use client_sdk_python.Base.Int.{ℤ, pos}
use client_sdk_python.Bcs.Error.{unexpected_bool, invalid_unicode}
use client_sdk_python.Bcs.Parser.{
  Parser, ◌>>=◌, pure, raise, >>=-eq-ok, read, read-eq-ok, read_one-eq-ok,
}
use client_sdk_python.Bcs.Words.{
  from_le, from_le_signed, to_bytes, FitsSigned, le_bytes, residue, from_le-lt, le_bytes-from_le,
  le_bytes-from_le_signed, from_le_signed-FitsSigned, to_bytes-le_bytes, to_bytes_signed-le_bytes,
}
use client_sdk_python.Bcs.Uleb.Encode.{serialize_u32_as_uleb128, max_length}
use client_sdk_python.Bcs.Uleb.Decode.{deserialize_len}
use client_sdk_python.Bcs.Uleb.RoundTrip.{serialize_len-eq-ok, deserialize_len_canonical}
use client_sdk_python.Bcs.Types.{Primitive, Value, Utf8, Utf8Laws, boolean, int, text, bytestring}
use client_sdk_python.Bcs.Serializer.{
  to_int, serialize_unsigned, serialize_signed, serialize_bytes, serialize_str, serialize_primitive,
}
use client_sdk_python.Bcs.Deserializer.{
  words_of_int, deserialize_bool, deserialize_unsigned, deserialize_signed, deserialize_u128,
  deserialize_i128, deserialize_bytes, deserialize_str, deserialize_primitive,
}
use client_sdk_python.Bcs.Fits.{FitsPrimitive, IsCanonical}
use client_sdk_python.Bcs.RoundTrip.Primitives.{int_of_words-words_of_int}

-- What a read of `size` bytes says.
record Taken (size : ℕ) (inp bs rest : List ℕ) : Type 0 where
  front : inp ≡ bs ++ rest
  bytes : All IsByte bs
  sized : length bs ≡ size

read-Taken :
    (size : ℕ) (inp bs rest : List ℕ)
    → All IsByte inp
    → read size inp ≡ ok (bs, rest)
    → Taken size inp bs rest
read-Taken size inp bs rest b e =
    let (front, sized) = read-eq-ok size inp bs rest e in
    record { front = front; bytes = All-append_left IsByte bs rest (rw front at b); sized = sized }

from_le_fits : (size : ℕ) (inp bs rest : List ℕ) → Taken size inp bs rest → from_le bs < 256 ^ size
from_le_fits size inp bs rest t = rw (← t.sized) (from_le-lt bs t.bytes)

unsigned_writes :
    (size : ℕ) (inp bs rest : List ℕ) (v : Value)
    → Taken size inp bs rest
    → to_int v ≡ ok (pos (from_le bs))
    → serialize_unsigned size v ≡ ok bs
unfolding serialize_unsigned
unsigned_writes size inp bs rest v t e =
    rw (e, to_bytes-le_bytes size (from_le bs) (from_le_fits size inp bs rest t), ← t.sized)
      (ap ok (le_bytes-from_le bs t.bytes))

from_le_signed_fits :
    (size : ℕ) (inp bs rest : List ℕ) → Taken size inp bs rest → FitsSigned size (from_le_signed bs)
from_le_signed_fits size inp bs rest t =
    subst (λ k. FitsSigned k (from_le_signed bs)) t.sized (from_le_signed-FitsSigned bs t.bytes)

signed_writes :
    (size : ℕ) (inp bs rest : List ℕ) (v : Value)
    → Taken size inp bs rest
    → to_int v ≡ ok (from_le_signed bs)
    → serialize_signed size v ≡ ok bs
unfolding serialize_signed
signed_writes size inp bs rest v t e =
    rw
      (
        e,
        to_bytes_signed-le_bytes size (from_le_signed bs) (from_le_signed_fits size inp bs rest t),
      )
      (ap ok (
        subst (λ k. le_bytes k (residue k (from_le_signed bs)) ≡ bs) t.sized
          (le_bytes-from_le_signed bs t.bytes)))

-- A reader of `size` bytes that makes a value of them.
fixed_read :
    (size : ℕ) (make : List ℕ → Value) (inp : List ℕ) (v : Value) (rest : List ℕ)
    → All IsByte inp
    → (read size >>= λ bs. pure (make bs)) inp ≡ ok (v, rest)
    → (bs : List ℕ) × Taken size inp bs rest × (v ≡ make bs)
fixed_read size make inp v rest b e =
    let (bs, left, took, made) = >>=-eq-ok (read size) (λ bs. pure (make bs)) inp e in
    let same : left ≡ rest = cc in
    (bs, subst (λ r. Taken size inp bs r) same (read-Taken size inp bs left b took), cc)

unsigned_canonical :
    (size : ℕ) (inp : List ℕ) (v : Value) (rest : List ℕ)
    → All IsByte inp
    → deserialize_unsigned size inp ≡ ok (v, rest)
    → ((n : ℕ) × (v ≡ int (pos n)) × (n < 256 ^ size))
      × (bs : List ℕ) × (serialize_unsigned size v ≡ ok bs)
      × (inp ≡ bs ++ rest)
unfolding deserialize_unsigned
unsigned_canonical size inp v rest b e =
    let (bs, t, made) = fixed_read size (λ bs. int (pos (from_le bs))) inp v rest b e in
    (
      (from_le bs, made, from_le_fits size inp bs rest t),
      bs,
      unsigned_writes size inp bs rest v t (rw made (unfold to_int in refl)),
      t.front,
    )

signed_canonical :
    (size : ℕ) (inp : List ℕ) (v : Value) (rest : List ℕ)
    → All IsByte inp
    → deserialize_signed size inp ≡ ok (v, rest)
    → ((z : ℤ) × (v ≡ int z) × FitsSigned size z)
      × (bs : List ℕ) × (serialize_signed size v ≡ ok bs)
      × (inp ≡ bs ++ rest)
unfolding deserialize_signed
signed_canonical size inp v rest b e =
    let (bs, t, made) = fixed_read size (λ bs. int (from_le_signed bs)) inp v rest b e in
    (
      (from_le_signed bs, made, from_le_signed_fits size inp bs rest t),
      bs,
      signed_writes size inp bs rest v t (rw made (unfold to_int in refl)),
      t.front,
    )

uint128-IsCanonical :
    (utf8 : Utf8)
    → IsCanonical (FitsPrimitive utf8 Primitive.uint128) (serialize_unsigned 16) deserialize_u128
unfolding deserialize_u128
uint128-IsCanonical utf8 inp v rest b e =
    let (bs, t, made) = fixed_read 16 (λ bs. words_of_int (pos (from_le bs))) inp v rest b e in
    (
      (from_le bs, made, from_le_fits 16 inp bs rest t),
      bs,
      unsigned_writes 16 inp bs rest v t (rw made (int_of_words-words_of_int (pos (from_le bs)))),
      t.front,
    )

int128-IsCanonical :
    (utf8 : Utf8)
    → IsCanonical (FitsPrimitive utf8 Primitive.int128) (serialize_signed 16) deserialize_i128
unfolding deserialize_i128
int128-IsCanonical utf8 inp v rest b e =
    let (bs, t, made) = fixed_read 16 (λ bs. words_of_int (from_le_signed bs)) inp v rest b e in
    (
      (from_le_signed bs, made, from_le_signed_fits 16 inp bs rest t),
      bs,
      signed_writes 16 inp bs rest v t (rw made (int_of_words-words_of_int (from_le_signed bs))),
      t.front,
    )

-- The value that one byte stands for, and the byte that it is written as.
abbrev bool_of : ℕ → Parser Value
bool_of b =
    if b == 0
    then pure (boolean false)
    else if b == 1
    then pure (boolean true)
    else raise unexpected_bool

bool_byte :
    (x : ℕ) (inp : List ℕ) (v : Value) (rest left : List ℕ)
    → inp ≡ x ∷ left
    → bool_of (x + 256 * 0) left ≡ ok (v, rest)
    → (c : Bool) × (v ≡ boolean c) × (inp ≡ (if c then 1 else 0) ∷ rest)
bool_byte zero inp v rest left front e = (false, cc, cc)
bool_byte (suc zero) inp v rest left front e = (true, cc, cc)
bool_byte (suc (suc x)) inp v rest left front e = absurd (ground arith)

bool_writes : (c : Bool) → serialize_unsigned 1 (boolean c) ≡ ok ((if c then 1 else 0) ∷ [])
unfolding serialize_unsigned to_int to_bytes le_bytes
bool_writes true = refl
bool_writes false = refl

bool-IsCanonical :
    (utf8 : Utf8)
    → IsCanonical
        (FitsPrimitive utf8 Primitive.bool)
        (serialize_primitive utf8 Primitive.bool)
        (deserialize_primitive utf8 Primitive.bool)
unfolding serialize_primitive deserialize_primitive deserialize_bool from_le
bool-IsCanonical utf8 inp v rest b e =
    let (bs, left, took, made) = >>=-eq-ok (read 1) _ inp e in
    let (x, front, one) = read_one-eq-ok inp bs left took in
    let (c, ev, front') = bool_byte x inp v rest left front (rw one at made) in
    ((c, ev), (if c then 1 else 0) ∷ [], rw ev (bool_writes c), front')

-- A length and as many bytes.
deserialize_bytes_canonical :
    (inp bs rest : List ℕ)
    → All IsByte inp
    → deserialize_bytes inp ≡ ok (bs, rest)
    → All IsByte bs
      × (length bs ≤ max_length)
      × (serialize_bytes (bytestring bs) ≡ ok (serialize_u32_as_uleb128 (length bs) ++ bs))
      × (inp ≡ (serialize_u32_as_uleb128 (length bs) ++ bs) ++ rest)
unfolding deserialize_bytes serialize_bytes
deserialize_bytes_canonical inp bs rest b e =
    let (n, left, got, took) = >>=-eq-ok deserialize_len _ inp e in
    let (short, front) = deserialize_len_canonical inp b got in
    let t =
      read-Taken n left bs rest
        (All-append_right IsByte (serialize_u32_as_uleb128 n) left (rw front at b)) took in
    let fits : length bs ≤ max_length = omega (arith, t.sized) in
    (
      t.bytes,
      fits,
      rw (serialize_len-eq-ok (length bs) fits),
      front ∙ rw (append_assoc, t.sized, t.front),
    )

bytes-IsCanonical :
    (utf8 : Utf8)
    → IsCanonical
        (FitsPrimitive utf8 Primitive.bytes)
        (serialize_primitive utf8 Primitive.bytes)
        (deserialize_primitive utf8 Primitive.bytes)
unfolding serialize_primitive deserialize_primitive
bytes-IsCanonical utf8 inp v rest b e =
    let (bs, left, got, made) = >>=-eq-ok deserialize_bytes _ inp e in
    let (bytes, short, wrote, front) = deserialize_bytes_canonical inp bs left b got in
    let ev : v ≡ bytestring bs = cc in
    let er : left ≡ rest = cc in
    (
      (bs, ev, bytes, short),
      serialize_u32_as_uleb128 (length bs) ++ bs,
      rw ev wrote,
      rw (← er) front,
    )

text_decoded :
    (decoded : Option (List ℕ)) (v : Value) (rest left : List ℕ)
    → (elim decoded as (λ o. Parser Value) [
      | none ↦ raise invalid_unicode
      | some s ↦ pure (text s)
    ])
        left
      ≡ ok (v, rest)
    → (s : List ℕ) × (decoded ≡ some s) × (v ≡ text s) × (left ≡ rest)
text_decoded none v rest left e = absurd (cc)
text_decoded (some s) v rest left e = (s, refl, cc, cc)

str-IsCanonical :
    (utf8 : Utf8)
    → Utf8Laws utf8
    → IsCanonical (FitsPrimitive utf8 Primitive.str) (serialize_str utf8) (deserialize_str utf8)
unfolding serialize_str deserialize_str
str-IsCanonical utf8 laws inp v rest b e =
    let (bs, left, got, made) = >>=-eq-ok deserialize_bytes _ inp e in
    let (bytes, short, wrote, front) = deserialize_bytes_canonical inp bs left b got in
    let (s, code, ev, er) = text_decoded (utf8.decode bs) v rest left made in
    let code' = laws.encode-decode s bs code in
    (
      (s, bs, ev, code', short),
      serialize_u32_as_uleb128 (length bs) ++ bs,
      rw (ev, code', serialize_str) wrote,
      rw (← er) front,
    )

pub primitive-IsCanonical :
    (utf8 : Utf8) (p : Primitive)
    → Utf8Laws utf8
    → IsCanonical (FitsPrimitive utf8 p) (serialize_primitive utf8 p) (deserialize_primitive utf8 p)
unfolding serialize_primitive deserialize_primitive
primitive-IsCanonical utf8 Primitive.bool laws inp v rest b e = bool-IsCanonical utf8 inp v rest b e
primitive-IsCanonical utf8 Primitive.uint8 laws inp v rest b e = unsigned_canonical 1 inp v rest b e
primitive-IsCanonical utf8 Primitive.uint16 laws inp v rest b e =
    unsigned_canonical 2 inp v rest b e
primitive-IsCanonical utf8 Primitive.uint32 laws inp v rest b e =
    unsigned_canonical 4 inp v rest b e
primitive-IsCanonical utf8 Primitive.uint64 laws inp v rest b e =
    unsigned_canonical 8 inp v rest b e
primitive-IsCanonical utf8 Primitive.uint128 laws inp v rest b e =
    uint128-IsCanonical utf8 inp v rest b e
primitive-IsCanonical utf8 Primitive.int8 laws inp v rest b e = signed_canonical 1 inp v rest b e
primitive-IsCanonical utf8 Primitive.int16 laws inp v rest b e = signed_canonical 2 inp v rest b e
primitive-IsCanonical utf8 Primitive.int32 laws inp v rest b e = signed_canonical 4 inp v rest b e
primitive-IsCanonical utf8 Primitive.int64 laws inp v rest b e = signed_canonical 8 inp v rest b e
primitive-IsCanonical utf8 Primitive.int128 laws inp v rest b e =
    int128-IsCanonical utf8 inp v rest b e
primitive-IsCanonical utf8 Primitive.float32 laws inp v rest b e = absurd (cc)
primitive-IsCanonical utf8 Primitive.float64 laws inp v rest b e = absurd (cc)
primitive-IsCanonical utf8 Primitive.unit laws inp v rest b e = (cc, [], refl, cc)
primitive-IsCanonical utf8 Primitive.char laws inp v rest b e = absurd (cc)
primitive-IsCanonical utf8 Primitive.str laws inp v rest b e =
    str-IsCanonical utf8 laws inp v rest b e
primitive-IsCanonical utf8 Primitive.bytes laws inp v rest b e =
    bytes-IsCanonical utf8 inp v rest b e
