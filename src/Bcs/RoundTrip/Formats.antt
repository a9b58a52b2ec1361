-- ===== src/Bcs/RoundTrip/Formats.antt =====
-- Every value that fits its type annotation is written and read back, whatever follows it.
use client_sdk_python.Base.{
  ℕ, zero, suc, ◌≡◌, refl, inl, inr, List, [], ◌∷◌, ◌++◌, arith, String, eq_iff, All, IsByte,
  All-append, Outcome, ok, append_assoc,
}
use client_sdk_python.Bcs.Error.{Error}
use client_sdk_python.Bcs.Parser.{Parser, ◌>>=◌, read_one}
use client_sdk_python.Bcs.Words.{from_le}
use client_sdk_python.Bcs.Uleb.Encode.{serialize_u32_as_uleb128}
use client_sdk_python.Bcs.Uleb.RoundTrip.{
  serialize_len-eq-ok, deserialize_len-serialize, serialize_variant_index-eq-ok,
  deserialize_variant_index-serialize, uleb128-IsByte,
}
use client_sdk_python.Bcs.Types.{
  Format, Formats, Container, Registry, Value, Values, Utf8, Utf8Laws, count, prim, sequence, tuple,
  optional, named, struct, enum, opaque, nil, cons,
}
use client_sdk_python.Bcs.Serializer.{
  to_items, serialize_each, serialize_format, serialize_tuple, serialize_fields,
  serialize_container, serialize_class, serialize_any,
}
use client_sdk_python.Bcs.Deserializer.{
  deserialize_each, deserialize_format, deserialize_fields, deserialize_container,
  deserialize_class, deserialize_any,
}
use client_sdk_python.Bcs.Fits.{
  FitsEach, FitsFormat, FitsFields, FitsContainer, FitsClass, Fits, RoundTrips,
}
use client_sdk_python.Bcs.RoundTrip.Primitives.{primitive-RoundTrips}

module _ (P : Value → Type 0) (write : Value → Outcome Error (List ℕ)) (item : Parser Value)
    (item-RoundTrips : RoundTrips P write item) where
  each-RoundTrips :
      (vs : Values)
      → FitsEach P vs
      → (bs : List ℕ) × (serialize_each write vs ≡ ok bs)
        × All IsByte bs
        × ((rest : List ℕ) → deserialize_each item (count vs) (bs ++ rest) ≡ ok (vs, rest))
  unfolding serialize_each deserialize_each
  each-RoundTrips nil h = ([], refl, tt, λ rest. refl)
  each-RoundTrips (cons v vs) (hv, hvs) =
      let (front, wf, bf, rf) = item-RoundTrips v hv in
      let (back, wb, bb, rb) = each-RoundTrips vs hvs in
      (
        front ++ back,
        rw (wf, wb),
        All-append IsByte front back bf bb,
        λ rest. rw (append_assoc, rf (back ++ rest), ◌>>=◌, rb rest),
      )

module _ (utf8 : Utf8) (laws : Utf8Laws utf8) (P : String → Value → Type 0)
    (write : String → Value → Outcome Error (List ℕ)) (class : String → Parser Value)
    (class-RoundTrips : (c : String) → RoundTrips (P c) (write c) (class c)) where
  mutual
    unfolding serialize_format deserialize_format to_items from_le

    format-RoundTrips :
        (f : Format)
        → RoundTrips
            (FitsFormat utf8 P f)
            (serialize_format utf8 write f)
            (deserialize_format utf8 class f)
    format-RoundTrips (prim p) v h = primitive-RoundTrips utf8 p laws v h
    format-RoundTrips (sequence f) v (vs, e, short, h) =
        let (body, w, b, r) =
          each-RoundTrips (FitsFormat utf8 P f) (serialize_format utf8 write f)
            (deserialize_format utf8 class f) (format-RoundTrips f) vs h in
        (
          serialize_u32_as_uleb128 (count vs) ++ body,
          rw (e, serialize_len-eq-ok (count vs) short, w),
          All-append IsByte (serialize_u32_as_uleb128 (count vs)) body (uleb128-IsByte (count vs))
              b,
          λ rest. rw (
            append_assoc,
            deserialize_len-serialize (count vs) (body ++ rest) short,
            ◌>>=◌,
            r rest,
            e,
          ),
        )
    format-RoundTrips (tuple fs) v (vs, e, h) =
        let (bs, wt, wf, b, r) = fields-RoundTrips fs vs h in
        (bs, rw (e, wt), b, λ rest. rw (r rest, ◌>>=◌, e))
    format-RoundTrips (optional f) v (inl e) =
        (0 ∷ [], rw e, omega arith, λ rest. rw (read_one 0 rest, ◌>>=◌, e))
    format-RoundTrips (optional f) v (inr (present, h)) =
        let (bs, w, b, r) = format-RoundTrips f v h in
        (
          1 ∷ bs,
          rw (present, w),
          (omega arith, b),
          λ rest. rw (read_one 1 (bs ++ rest), ◌>>=◌) (r rest),
        )
    format-RoundTrips (named c) v h = class-RoundTrips c v h

    fields-RoundTrips :
        (fs : Formats) (vs : Values)
        → FitsFields utf8 P fs vs
        → (bs : List ℕ) × (serialize_tuple utf8 write fs vs ≡ ok bs)
          × (serialize_fields utf8 write fs vs ≡ ok bs)
          × All IsByte bs
          × ((rest : List ℕ) → deserialize_fields utf8 class fs (bs ++ rest) ≡ ok (vs, rest))
    fields-RoundTrips nil nil h = ([], refl, refl, tt, λ rest. refl)
    fields-RoundTrips nil (cons v vs) h = absurd h
    fields-RoundTrips (cons f fs) nil h = absurd h
    fields-RoundTrips (cons f fs) (cons v vs) (hv, hvs) =
        let (front, wf, bf, rf) = format-RoundTrips f v hv in
        let (back, wt, wb, bb, rb) = fields-RoundTrips fs vs hvs in
        (
          front ++ back,
          rw (wf, wt),
          rw (wf, wb),
          All-append IsByte front back bf bb,
          λ rest. rw (append_assoc, rf (back ++ rest), ◌>>=◌, rb rest),
        )

module _ (P : Formats → Values → Type 0) (write : Formats → Values → Outcome Error (List ℕ))
    (body : Formats → Parser Values)
    (body-RoundTrips : (fs : Formats) → RoundTrips (P fs) (write fs) (body fs)) where
  container-RoundTrips :
      (c : String) (k : Container)
      → RoundTrips
          (FitsContainer P c k)
          (serialize_container write c k)
          (deserialize_container body c k)
  unfolding serialize_container deserialize_container
  container-RoundTrips c (struct fs) v (vs, e, h) =
      let (bs, w, b, r) = body-RoundTrips fs vs h in
      (bs, rw (e, (eq_iff c c).1 refl) w, b, λ rest. rw (r rest, ◌>>=◌, e))
  container-RoundTrips c (enum variants) v (index, fs, vs, e, at, small, h) =
      let (bs, w, b, r) = body-RoundTrips fs vs h in
      (
        serialize_u32_as_uleb128 index ++ bs,
        rw (e, serialize_variant_index-eq-ok index small, at, (eq_iff c c).1 refl, w),
        All-append IsByte (serialize_u32_as_uleb128 index) bs (uleb128-IsByte index) b,
        λ rest. rw (
          append_assoc,
          deserialize_variant_index-serialize index (bs ++ rest) small,
          ◌>>=◌,
          at,
          r rest,
          e,
        ),
      )
  container-RoundTrips c opaque v h = absurd h

class-RoundTrips :
    (utf8 : Utf8) (registry : Registry) (budget : ℕ)
    → Utf8Laws utf8
    → (c : String)
    → RoundTrips
        (FitsClass utf8 registry budget c)
        (serialize_class utf8 registry budget c)
        (deserialize_class utf8 registry budget c)
unfolding FitsClass serialize_class deserialize_class
class-RoundTrips utf8 registry zero laws c =
    container-RoundTrips _ _ _ (λ fs vs h. absurd h) c (registry c)
class-RoundTrips utf8 registry (suc budget) laws c =
    container-RoundTrips _ _ _
      (λ fs vs h.
        let (bs, wt, wf, b, r) =
          fields-RoundTrips utf8 laws _ _ _ (class-RoundTrips utf8 registry budget laws) fs vs h in
        (bs, wf, b, r))
      c (registry c)

-- With a UTF-8 codec that keeps its laws, a value that fits its type within the depth budget is serialized without an error, to bytes, and
-- deserializing those bytes, whatever follows them, gives the value and leaves what follows.
pub deserialize-serialize_any :
    (utf8 : Utf8) (registry : Registry) (budget : ℕ) (f : Format)
    → Utf8Laws utf8
    → (v : Value) → Fits utf8 registry budget f v
    → (bs : List ℕ) × (serialize_any utf8 registry budget f v ≡ ok bs)
      × All IsByte bs
      × ((rest : List ℕ) → deserialize_any utf8 registry budget f (bs ++ rest) ≡ ok (v, rest))
unfolding serialize_any deserialize_any
deserialize-serialize_any utf8 registry budget f laws =
    format-RoundTrips utf8 laws _ _ _ (class-RoundTrips utf8 registry budget laws) f
