-- ===== src/Bcs/Types.antt =====
-- The types that `serialize_any` and `deserialize_any` walk, and the Python values that they read and
-- build (src/diem/serde_binary/__init__.py, src/diem/serde_types/__init__.py).
use client_sdk_python.Base.{
  ℕ, zero, suc, String, str_eq, if◌then◌else◌, List, [], ◌∷◌, Option, some, Bool, true, false, ◌≡◌,
  All, IsByte,
}
use client_sdk_python.Base.Int.{ℤ}

-- The keys of `primitive_type_serializer`.
pub data Primitive : Type 0 where
  bool uint8 uint16 uint32 uint64 uint128 int8 int16 int32 int64 int128 : Primitive
  float32 float64 unit char str bytes : Primitive

-- A type annotation: a primitive, `Sequence[T]`, `Tuple[T, ...]`, `Optional[T]`, or a class by name.
mutual
  pub data Format : Type 0 where
    prim : Primitive → Format
    sequence : Format → Format
    tuple : Formats → Format
    optional : Format → Format
    named : String → Format

  pub data Formats : Type 0 where
    nil : Formats
    cons : Format → Formats → Formats

-- What a class is: a dataclass with the types of its fields, an enum class with the fields of each of
-- its `VARIANTS`, or neither.
pub data Container : Type 0 where
  struct : Formats → Container
  enum : List Formats → Container
  opaque : Container

-- The classes of a program, by name.
abbrev pub Registry : Type 0
Registry = String → Container

-- `wide` holds the words of a `uint128` or an `int128`; `object c vs` is an instance of the dataclass
-- `c`, and `variant c i vs` of the class `c.VARIANTS[i]`, with the values of its fields in order.
mutual
  pub data Value : Type 0 where
    null : Value
    boolean : Bool → Value
    int : ℤ → Value
    wide : ℤ → ℕ → Value
    text : List ℕ → Value
    bytestring : List ℕ → Value
    items : Values → Value
    tuple_of : Values → Value
    object : String → Values → Value
    variant : String → ℕ → Values → Value

  pub data Values : Type 0 where
    nil : Values
    cons : Value → Values → Values

abbrev pub count : Values → ℕ
count nil = 0
count (cons v vs) = suc (count vs)

-- `obj is None`
abbrev pub is_null : Value → Bool
is_null null = true
is_null _ = false

-- Python's UTF-8 codec: a `str` is the list of its code points. Encoding fails on a lone surrogate,
-- decoding on bytes that are no UTF-8; each undoes the other.
pub record Utf8 : Type 0 where
  pub encode : List ℕ → Option (List ℕ)
  pub decode : List ℕ → Option (List ℕ)

pub record Utf8Laws (utf8 : Utf8) : Type 0 where
  pub decode-encode : (s bs : List ℕ) → utf8.encode s ≡ some bs → utf8.decode bs ≡ some s
  pub encode-decode : (s bs : List ℕ) → utf8.decode bs ≡ some s → utf8.encode s ≡ some bs
  pub encode-IsByte : (s bs : List ℕ) → utf8.encode s ≡ some bs → All IsByte bs

abbrev pub formats : List Format → Formats
formats [] = nil
formats (f ∷ fs) = cons f (formats fs)

-- `typing.Tuple[T, T, ...]` of `n` times the same type.
abbrev pub array : ℕ → Format → Formats
array zero f = nil
array (suc n) f = cons f (array n f)

-- The classes of a list by name; any other name is no class that the serializers know.
abbrev pub class_of : List (String × Container) → Registry
class_of [] c = opaque
class_of ((d, k) ∷ classes) c = if str_eq d c then k else class_of classes c
