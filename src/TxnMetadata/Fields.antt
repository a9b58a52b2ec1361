-- ===== src/TxnMetadata/Fields.antt =====
-- Metadata that is read back, and its fields: what fits them, and that they fit.
use client_sdk_python.Base.{
  ℕ, zero, suc, ◌<◌, ◌≤◌, ◌^◌, ◌≡◌, ◌≢◌, String, refl, ◌∙◌, ap, inl, inr, Option, none, some, List,
  [], ◌∷◌, All, IsByte, length, get_elem?, Outcome, ok, err, arith,
}
use client_sdk_python.Base.Int.{pos}
use client_sdk_python.Bcs.Error.{Error, deserialization_error, DeserializationFault}
use client_sdk_python.Bcs.Types.{
  Primitive, Formats, Value, Utf8, Utf8Laws, array, prim, optional, bytestring, nil, count, null,
  int,
}
use client_sdk_python.Bcs.Uleb.Encode.{max_length}
use client_sdk_python.Bcs.Uleb.Decode.{
  deserialize_uleb128_as_u32, deserialize_variant_index, uleb128_rounds,
}
use client_sdk_python.Bcs.Parser.{read}
use client_sdk_python.Bcs.Fits.{FitsEach, FitsFormat, FitsFields}
use client_sdk_python.Bcs.Serializer.{byte_items}
use client_sdk_python.Bcs.Deserializer.{
  bcs_deserialize, deserialize, deserialize_any, deserialize_class, deserialize_container,
  deserialize_format,
}
use client_sdk_python.DiemTypes.Classes.{diem_types}
use client_sdk_python.DiemTypes.Codec.{
  bcs_serialize, deserialize_exactly, IsInstance, deserialize-bcs_serialize,
}
use client_sdk_python.TxnMetadata.{
  or_null, uint, metadata_structure, decode_structure, if_truthy, strs,
}

-- The bytes carry the structure.
abbrev pub Carries : Utf8 → Outcome Error (List ℕ) → Value → Type 0
Carries utf8 written v =
    (bs : List ℕ) × (written ≡ ok bs) × (decode_structure utf8 bs ≡ ok (some v))

empty_input :
    (utf8 : Utf8)
    → deserialize_exactly utf8 "Metadata" []
      ≡ err (deserialization_error DeserializationFault.input_too_short)
unfolding deserialize_exactly bcs_deserialize deserialize deserialize_any deserialize_class
    deserialize_format deserialize_container deserialize_variant_index deserialize_uleb128_as_u32
    uleb128_rounds read diem_types
empty_input utf8 = refl

no_empty : (utf8 : Utf8) {v : Value} → deserialize_exactly utf8 "Metadata" [] ≢ ok v
no_empty utf8 e = absurd (cc (empty_input utf8, e))

decodes :
    (utf8 : Utf8) (bs : List ℕ) {v : Value}
    → deserialize_exactly utf8 "Metadata" bs ≡ ok v
    → decode_structure utf8 bs ≡ ok (metadata_structure v)
unfolding decode_structure
decodes utf8 [] e = absurd (no_empty utf8 e)
decodes utf8 (b ∷ bs) e = rw e

-- Metadata that is an instance is read back.
pub instance-Carries :
    (utf8 : Utf8) (m v : Value)
    → Utf8Laws utf8
    → IsInstance utf8 "Metadata" m
    → metadata_structure m ≡ some v
    → Carries utf8 (bcs_serialize utf8 "Metadata" m) v
instance-Carries utf8 m v laws h e =
    let (bs, w, b, r) = deserialize-bcs_serialize utf8 "Metadata" m laws h in
    (bs, w, decodes utf8 bs r ∙ ap ok e)

-- The attributes that a GeneralMetadataV0 should have, `None` where nothing is given.
abbrev pub bytes_attribute : Option (List ℕ) → Value
bytes_attribute none = null
bytes_attribute (some bytes) = bytestring bytes

-- No event, and the event 0, are none.
abbrev pub event_attribute : Option ℕ → Value
event_attribute none = null
event_attribute (some zero) = null
event_attribute (some (suc n)) = int (pos (suc n))

pub or_null-bytestring : (o : Option (List ℕ)) → or_null bytestring o ≡ bytes_attribute o
or_null-bytestring none = refl
or_null-bytestring (some bytes) = refl

pub or_null-if_truthy : (o : Option ℕ) → or_null uint (if_truthy o) ≡ event_attribute o
or_null-if_truthy none = refl
or_null-if_truthy (some zero) = refl
or_null-if_truthy (some (suc n)) = refl

-- Bytes that fit a field.
abbrev pub IsShort : List ℕ → Type 0
IsShort bs = All IsByte bs × (length bs ≤ max_length)

abbrev pub Given {ℓ} : {A : Type ℓ} → (A → Type 0) → Option A → Type 0
Given P none = Unit
Given P (some a) = P a

pub optional_bytes :
    (utf8 : Utf8) (call : String → Value → Type 0) (o : Option (List ℕ))
    → Given IsShort o
    → FitsFormat utf8 call (optional (prim Primitive.bytes)) (or_null bytestring o)
optional_bytes utf8 call none h = inl refl
optional_bytes utf8 call (some bs) (b, short) = inr (refl, (bs, refl, b, short))

pub optional_uint :
    (utf8 : Utf8) (call : String → Value → Type 0) (o : Option ℕ)
    → Given (λ n. n < 256 ^ 8) o
    → FitsFormat utf8 call (optional (prim Primitive.uint64)) (or_null uint (if_truthy o))
optional_uint utf8 call none h = inl refl
optional_uint utf8 call (some zero) h = inl refl
optional_uint utf8 call (some (suc n)) h = inr (refl, (suc n, refl, h))

-- A text that fits a field.
abbrev pub IsShortText : Utf8 → List ℕ → Type 0
IsShortText utf8 s = (bs : List ℕ) × (utf8.encode s ≡ some bs) × (length bs ≤ max_length)

pub a_reason :
    (reason : ℕ)
    → reason < 5
    → get_elem? {A = Formats} (nil ∷ nil ∷ nil ∷ nil ∷ nil ∷ []) reason ≡ some nil
a_reason zero h = refl
a_reason (suc zero) h = refl
a_reason (suc (suc zero)) h = refl
a_reason (suc (suc (suc zero))) h = refl
a_reason (suc (suc (suc (suc zero)))) h = refl
a_reason (suc (suc (suc (suc (suc n))))) h = absurd (omega arith)

pub byte_items-Fit :
    (n : ℕ) (utf8 : Utf8) (call : String → Value → Type 0) (bs : List ℕ)
    → length bs ≡ n
    → All IsByte bs
    → FitsFields utf8 call (array n (prim Primitive.uint8)) (byte_items bs)
byte_items-Fit zero utf8 call [] e h = tt
byte_items-Fit zero utf8 call (b ∷ bs) e h = absurd (omega (arith, e))
byte_items-Fit (suc n) utf8 call [] e h = absurd (omega (arith, e))
byte_items-Fit (suc n) utf8 call (b ∷ bs) e h =
    ((b, refl, omega (arith, h.0)), byte_items-Fit n utf8 call bs (omega (arith, e)) h.1)

pub texts-Fit :
    (utf8 : Utf8) (call : String → Value → Type 0) (ids : List (List ℕ))
    → All (IsShortText utf8) ids
    → FitsEach (FitsFormat utf8 call (prim Primitive.str)) (strs ids)
texts-Fit utf8 call [] h = tt
texts-Fit utf8 call (id ∷ ids) ((bs, e, short), hs) =
    ((id, bs, refl, e, short), texts-Fit utf8 call ids hs)

pub count-strs : (ids : List (List ℕ)) → count (strs ids) ≡ length ids
count-strs [] = refl
count-strs (id ∷ ids) = ap suc (count-strs ids)
