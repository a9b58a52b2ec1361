-- ===== src/Bcs/RoundTrip/Primitives.antt =====
-- Each primitive of `primitive_type_serializer` is read back by its `primitive_type_deserializer`.
use client_sdk_python.Base.{
  ℕ, ◌^◌, ◌≤◌, ◌<◌, ◌≡◌, refl, ap, true, false, List, [], ◌∷◌, ◌++◌, arith, length, All, IsByte,
  All-append, ok, append_assoc,
}
use client_sdk_python.Base.Int.{ℤ, pos, negsuc}
use client_sdk_python.Bcs.Parser.{◌>>=◌, read, read-append, read_one}
use client_sdk_python.Bcs.Words.{
  from_le, to_bytes, FitsSigned, le_bytes, residue, length-le_bytes, le_bytes-IsByte,
  from_le-le_bytes, to_bytes-le_bytes, to_bytes_signed-le_bytes, from_le_signed-le_bytes,
}
use client_sdk_python.Bcs.Uleb.Encode.{serialize_u32_as_uleb128, max_length}
use client_sdk_python.Bcs.Uleb.RoundTrip.{
  serialize_len-eq-ok, deserialize_len-serialize, uleb128-IsByte,
}
use client_sdk_python.Bcs.Types.{Primitive, Value, Utf8, Utf8Laws, int, bytestring}
use client_sdk_python.Bcs.Serializer.{
  int_of_words, to_int, serialize_unsigned, serialize_signed, serialize_bytes, serialize_str,
  serialize_primitive,
}
use client_sdk_python.Bcs.Deserializer.{
  words_of_int, deserialize_bool, deserialize_unsigned, deserialize_signed, deserialize_u128,
  deserialize_i128, deserialize_bytes, deserialize_str, deserialize_primitive,
}
use client_sdk_python.Bcs.Fits.{FitsPrimitive, RoundTrips}

read_exactly : (n : ℕ) (bs rest : List ℕ) → length bs ≡ n → read n (bs ++ rest) ≡ ok (bs, rest)
read_exactly n bs rest e = rw (← e) (read-append bs rest)

-- The words that `uint128` and `int128` keep stand for the number that they were made of.
pub int_of_words-words_of_int : (z : ℤ) → to_int (words_of_int z) ≡ ok z
unfolding to_int int_of_words words_of_int
int_of_words-words_of_int (pos n) = ap (λ t. ok (pos t)) (omega arith)
int_of_words-words_of_int (negsuc n) = ap (λ t. ok (negsuc t)) (omega arith)

-- A number `n` that a value stands for, in `size` bytes.
unsigned_writes :
    (size n : ℕ) (v : Value)
    → to_int v ≡ ok (pos n)
    → n < 256 ^ size
    → serialize_unsigned size v ≡ ok (le_bytes size n)
unfolding serialize_unsigned
unsigned_writes size n v e h = rw e (to_bytes-le_bytes size n h)

signed_writes :
    (size : ℕ) (z : ℤ) (v : Value)
    → to_int v ≡ ok z
    → FitsSigned size z
    → serialize_signed size v ≡ ok (le_bytes size (residue size z))
unfolding serialize_signed
signed_writes size z v e h = rw e (to_bytes_signed-le_bytes size z h)

read-le_bytes :
    (size n : ℕ) (rest : List ℕ) → read size (le_bytes size n ++ rest) ≡ ok (le_bytes size n, rest)
read-le_bytes size n rest = read_exactly size (le_bytes size n) rest (length-le_bytes size n)

bool-RoundTrips :
    (utf8 : Utf8)
    → RoundTrips
        (FitsPrimitive utf8 Primitive.bool)
        (serialize_primitive utf8 Primitive.bool)
        (deserialize_primitive utf8 Primitive.bool)
unfolding serialize_primitive deserialize_primitive serialize_unsigned to_bytes le_bytes
    deserialize_bool from_le
bool-RoundTrips utf8 v (true, e) =
    (1 ∷ [], rw e refl, omega arith, λ rest. rw (e, read_one 1 rest, ◌>>=◌))
bool-RoundTrips utf8 v (false, e) =
    (0 ∷ [], rw e refl, omega arith, λ rest. rw (e, read_one 0 rest, ◌>>=◌))

unsigned-RoundTrips :
    (size : ℕ) (n : ℕ) (v : Value)
    → v ≡ int (pos n)
    → n < 256 ^ size
    → (bs : List ℕ) × (serialize_unsigned size v ≡ ok bs)
      × All IsByte bs
      × ((rest : List ℕ) → deserialize_unsigned size (bs ++ rest) ≡ ok (v, rest))
unfolding deserialize_unsigned
unsigned-RoundTrips size n v e h = (
  le_bytes size n,
  unsigned_writes size n v (rw e (unfold to_int in refl)) h,
  le_bytes-IsByte size n,
  λ rest. rw (read-le_bytes size n rest, ◌>>=◌, from_le-le_bytes size n h, e),
)

signed-RoundTrips :
    (size : ℕ) (z : ℤ) (v : Value)
    → v ≡ int z
    → FitsSigned size z
    → (bs : List ℕ) × (serialize_signed size v ≡ ok bs)
      × All IsByte bs
      × ((rest : List ℕ) → deserialize_signed size (bs ++ rest) ≡ ok (v, rest))
unfolding deserialize_signed
signed-RoundTrips size z v e h = (
  le_bytes size (residue size z),
  signed_writes size z v (rw e (unfold to_int in refl)) h,
  le_bytes-IsByte size (residue size z),
  λ rest. rw (read-le_bytes size (residue size z) rest, ◌>>=◌, from_le_signed-le_bytes size z h, e),
)

uint128-RoundTrips :
    (utf8 : Utf8)
    → RoundTrips (FitsPrimitive utf8 Primitive.uint128) (serialize_unsigned 16) deserialize_u128
unfolding deserialize_u128
uint128-RoundTrips utf8 v (n, e, h) = (
  le_bytes 16 n,
  unsigned_writes 16 n v (rw e (int_of_words-words_of_int (pos n))) h,
  le_bytes-IsByte 16 n,
  λ rest. rw (read-le_bytes 16 n rest, ◌>>=◌, from_le-le_bytes 16 n h, e),
)

int128-RoundTrips :
    (utf8 : Utf8)
    → RoundTrips (FitsPrimitive utf8 Primitive.int128) (serialize_signed 16) deserialize_i128
unfolding deserialize_i128
int128-RoundTrips utf8 v (z, e, h) = (
  le_bytes 16 (residue 16 z),
  signed_writes 16 z v (rw e (int_of_words-words_of_int z)) h,
  le_bytes-IsByte 16 (residue 16 z),
  λ rest. rw (read-le_bytes 16 (residue 16 z) rest, ◌>>=◌, from_le_signed-le_bytes 16 z h, e),
)

-- A length and as many bytes.
abbrev framed : List ℕ → List ℕ
framed bs = serialize_u32_as_uleb128 (length bs) ++ bs

serialize_bytes-framed :
    (bs : List ℕ) → length bs ≤ max_length → serialize_bytes (bytestring bs) ≡ ok (framed bs)
unfolding serialize_bytes
serialize_bytes-framed bs h = rw (serialize_len-eq-ok (length bs) h)

deserialize_bytes-framed :
    (bs rest : List ℕ)
    → length bs ≤ max_length
    → deserialize_bytes (framed bs ++ rest) ≡ ok (bs, rest)
unfolding deserialize_bytes
deserialize_bytes-framed bs rest h =
    rw (append_assoc, deserialize_len-serialize (length bs) (bs ++ rest) h, ◌>>=◌)
      (read-append bs rest)

framed-IsByte : (bs : List ℕ) → All IsByte bs → All IsByte (framed bs)
framed-IsByte bs h =
    All-append IsByte (serialize_u32_as_uleb128 (length bs)) bs (uleb128-IsByte (length bs)) h

bytes-RoundTrips :
    (utf8 : Utf8)
    → RoundTrips
        (FitsPrimitive utf8 Primitive.bytes)
        (serialize_primitive utf8 Primitive.bytes)
        (deserialize_primitive utf8 Primitive.bytes)
unfolding serialize_primitive deserialize_primitive
bytes-RoundTrips utf8 v (bs, e, b, h) = (
  framed bs,
  rw e (serialize_bytes-framed bs h),
  framed-IsByte bs b,
  λ rest. rw (deserialize_bytes-framed bs rest h, ◌>>=◌, e),
)

str-RoundTrips :
    (utf8 : Utf8)
    → Utf8Laws utf8
    → RoundTrips (FitsPrimitive utf8 Primitive.str) (serialize_str utf8) (deserialize_str utf8)
unfolding serialize_str deserialize_str
str-RoundTrips utf8 laws v (s, bs, e, code, h) = (
  framed bs,
  rw (e, code, serialize_str) (serialize_bytes-framed bs h),
  framed-IsByte bs (laws.encode-IsByte s bs code),
  λ rest.
      rw (
        deserialize_bytes-framed bs rest h,
        ◌>>=◌,
        laws.decode-encode s bs code,
        deserialize_str,
        e,
      ),
)

pub primitive-RoundTrips :
    (utf8 : Utf8) (p : Primitive)
    → Utf8Laws utf8
    → RoundTrips (FitsPrimitive utf8 p) (serialize_primitive utf8 p) (deserialize_primitive utf8 p)
unfolding serialize_primitive deserialize_primitive
primitive-RoundTrips utf8 Primitive.bool laws v h = bool-RoundTrips utf8 v h
primitive-RoundTrips utf8 Primitive.uint8 laws v (n, e, h) = unsigned-RoundTrips 1 n v e h
primitive-RoundTrips utf8 Primitive.uint16 laws v (n, e, h) = unsigned-RoundTrips 2 n v e h
primitive-RoundTrips utf8 Primitive.uint32 laws v (n, e, h) = unsigned-RoundTrips 4 n v e h
primitive-RoundTrips utf8 Primitive.uint64 laws v (n, e, h) = unsigned-RoundTrips 8 n v e h
primitive-RoundTrips utf8 Primitive.uint128 laws v h = uint128-RoundTrips utf8 v h
primitive-RoundTrips utf8 Primitive.int8 laws v (z, e, h) = signed-RoundTrips 1 z v e h
primitive-RoundTrips utf8 Primitive.int16 laws v (z, e, h) = signed-RoundTrips 2 z v e h
primitive-RoundTrips utf8 Primitive.int32 laws v (z, e, h) = signed-RoundTrips 4 z v e h
primitive-RoundTrips utf8 Primitive.int64 laws v (z, e, h) = signed-RoundTrips 8 z v e h
primitive-RoundTrips utf8 Primitive.int128 laws v h = int128-RoundTrips utf8 v h
primitive-RoundTrips utf8 Primitive.float32 laws v h = absurd h
primitive-RoundTrips utf8 Primitive.float64 laws v h = absurd h
primitive-RoundTrips utf8 Primitive.unit laws v e = ([], refl, tt, λ rest. rw e)
primitive-RoundTrips utf8 Primitive.char laws v h = absurd h
primitive-RoundTrips utf8 Primitive.str laws v h = str-RoundTrips utf8 laws v h
primitive-RoundTrips utf8 Primitive.bytes laws v h = bytes-RoundTrips utf8 v h
