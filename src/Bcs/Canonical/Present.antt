-- ===== src/Bcs/Canonical/Present.antt =====
-- `None` is a value of `Optional[T]` and of the unit type only.
use client_sdk_python.Base.{ℕ, zero, suc, ◌≡◌, refl, ap, ◌∙◌, false, String}
use client_sdk_python.Base.Int.{ℤ, pos, negsuc}
use client_sdk_python.Bcs.Types.{
  Primitive, Format, Registry, Value, Utf8, is_null, prim, sequence, tuple, optional, named, struct,
  enum, opaque, Container,
}
use client_sdk_python.Bcs.Deserializer.{words_of_int}
use client_sdk_python.Bcs.Fits.{
  FitsPrimitive, FitsFormat, FitsFields, FitsContainer, FitsClass, is_nullable,
}
use client_sdk_python.Bcs.Types.{Formats, Values}

words_present : (z : ℤ) → is_null (words_of_int z) ≡ false
unfolding words_of_int
words_present (pos n) = refl
words_present (negsuc n) = refl

primitive_present :
    (utf8 : Utf8) (p : Primitive) (v : Value)
    → is_nullable (prim p) ≡ false
    → FitsPrimitive utf8 p v
    → is_null v ≡ false
primitive_present utf8 Primitive.unit v n h = cc
primitive_present utf8 Primitive.bool v n (b, e) = ap is_null e
primitive_present utf8 Primitive.uint8 v n (k, e, h) = ap is_null e
primitive_present utf8 Primitive.uint16 v n (k, e, h) = ap is_null e
primitive_present utf8 Primitive.uint32 v n (k, e, h) = ap is_null e
primitive_present utf8 Primitive.uint64 v n (k, e, h) = ap is_null e
primitive_present utf8 Primitive.uint128 v n (k, e, h) = ap is_null e ∙ words_present (pos k)
primitive_present utf8 Primitive.int8 v n (k, e, h) = ap is_null e
primitive_present utf8 Primitive.int16 v n (k, e, h) = ap is_null e
primitive_present utf8 Primitive.int32 v n (k, e, h) = ap is_null e
primitive_present utf8 Primitive.int64 v n (k, e, h) = ap is_null e
primitive_present utf8 Primitive.int128 v n (k, e, h) = ap is_null e ∙ words_present k
primitive_present utf8 Primitive.float32 v n h = absurd h
primitive_present utf8 Primitive.float64 v n h = absurd h
primitive_present utf8 Primitive.char v n h = absurd h
primitive_present utf8 Primitive.str v n (s, bs, e, code, h) = ap is_null e
primitive_present utf8 Primitive.bytes v n (bs, e, bytes, h) = ap is_null e

pub format_present :
    (utf8 : Utf8) (P : String → Value → Type 0)
    → ((c : String) (v : Value) → P c v → is_null v ≡ false)
    → (f : Format) (v : Value) → is_nullable f ≡ false
    → FitsFormat utf8 P f v
    → is_null v ≡ false
format_present utf8 P class (prim p) v n h = primitive_present utf8 p v n h
format_present utf8 P class (sequence f) v n h = ap is_null h.1
format_present utf8 P class (tuple fs) v n h = ap is_null h.1
format_present utf8 P class (optional f) v n h = cc
format_present utf8 P class (named c) v n h = class c v h

container_present :
    (P : Formats → Values → Type 0) (c : String) (k : Container) (v : Value)
    → FitsContainer P c k v
    → is_null v ≡ false
container_present P c (struct fs) v h = ap is_null h.1
container_present P c (enum variants) v h = ap is_null h.3
container_present P c opaque v h = absurd h

pub class_present :
    (utf8 : Utf8) (registry : Registry) (budget : ℕ) (c : String) (v : Value)
    → FitsClass utf8 registry budget c v
    → is_null v ≡ false
unfolding FitsClass
class_present utf8 registry zero c v h = container_present (λ fs vs. ⊥) c (registry c) v h
class_present utf8 registry (suc budget) c v h =
    container_present (FitsFields utf8 (FitsClass utf8 registry budget)) c (registry c) v h
