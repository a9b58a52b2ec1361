-- ===== src/DiemTypes/Codec.antt =====
-- The `bcs_serialize` and `bcs_deserialize` methods that every class of diem_types has.
use client_sdk_python.Base.{
  ℕ, ◌≡◌, sym, ap, ◌∙◌, String, List, [], ◌∷◌, All, IsByte, Outcome, ok, err, append-nil,
}
use client_sdk_python.Bcs.Error.{Error}
use client_sdk_python.Bcs.Types.{Value, Utf8, Utf8Laws, named}
use client_sdk_python.Bcs.Serializer.{serialize, max_container_depth}
use client_sdk_python.Bcs.Deserializer.{deserialize, bcs_deserialize, fully_read}
use client_sdk_python.Bcs.Fits.{FitsClass}
use client_sdk_python.Bcs.RoundTrip.Formats.{deserialize-serialize_any}
use client_sdk_python.Bcs.Canonical.Formats.{deserialize_any_canonical}
use client_sdk_python.DiemTypes.Classes.{diem_types, diem_types-IsPlain}

-- `X.bcs_serialize`: `bcs.serialize(self, X)`.
unfoldable pub bcs_serialize : Utf8 → String → Value → Outcome Error (List ℕ)
bcs_serialize utf8 c v = serialize utf8 diem_types v (named c)

-- `X.bcs_deserialize`
unfoldable pub deserialize_exactly : Utf8 → String → List ℕ → Outcome Error Value
deserialize_exactly utf8 = bcs_deserialize utf8 diem_types

-- An instance of a class of diem_types: its fields have the declared types, its lists and byte strings
-- are at most 2^31 - 1 long, and its objects nest at most 500 deep.
abbrev pub IsInstance : Utf8 → String → Value → Type 0
IsInstance utf8 = FitsClass utf8 diem_types max_container_depth

-- With a UTF-8 codec that keeps its laws, every instance of a class of diem_types serializes, and deserializing the bytes gives it back.
pub deserialize-bcs_serialize :
    (utf8 : Utf8) (c : String) (v : Value)
    → Utf8Laws utf8
    → IsInstance utf8 c v
    → (bs : List ℕ) × (bcs_serialize utf8 c v ≡ ok bs)
      × All IsByte bs
      × (deserialize_exactly utf8 c bs ≡ ok v)
unfolding bcs_serialize serialize deserialize_exactly bcs_deserialize deserialize
deserialize-bcs_serialize utf8 c v laws h =
    let (bs, w, b, r) =
      deserialize-serialize_any utf8 diem_types max_container_depth (named c) laws v h in
    (bs, w, b, ap fully_read (rw (append-nil bs) at (r [])))

fully_read-eq-ok :
    (r : Outcome Error (Value × List ℕ)) {v : Value} → fully_read r ≡ ok v → r ≡ ok (v, [])
fully_read-eq-ok (ok (w, [])) e = cc
fully_read-eq-ok (ok (w, b ∷ bs)) e = cc
fully_read-eq-ok (err x) e = cc

-- With such a codec, what deserializes from an input of bytes is an instance, and the input is the one serialization of it.
pub bcs_deserialize_canonical :
    (utf8 : Utf8) (c : String) (inp : List ℕ) (v : Value)
    → Utf8Laws utf8
    → All IsByte inp
    → deserialize_exactly utf8 c inp ≡ ok v
    → IsInstance utf8 c v × (bcs_serialize utf8 c v ≡ ok inp)
unfolding bcs_serialize serialize deserialize_exactly bcs_deserialize deserialize
bcs_deserialize_canonical utf8 c inp v laws b e =
    let (h, bs, w, cut) =
      deserialize_any_canonical utf8 diem_types max_container_depth (named c) laws
        diem_types-IsPlain tt inp v [] b
        (fully_read-eq-ok (deserialize utf8 diem_types (named c) inp) e) in
    (h, w ∙ ap ok (rw (append-nil bs) at (sym cut)))
