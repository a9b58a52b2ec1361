-- ===== src/Bcs/Canonical/Formats.antt =====
-- Whatever `deserialize_any` accepts is what `serialize_any` writes for the value that it returns.
use client_sdk_python.Base.{
  ℕ, zero, suc, ◌+◌, ◌*◌, ◌≤◌, ◌≡◌, refl, ap, ◌∙◌, ◌⊎◌, inl, inr, false, Option, none, some, List,
  [], ◌∷◌, ◌++◌, arith, String, eq_iff, get_elem?, All, IsByte, All-append_right, Outcome, ok,
  append_assoc, if◌then◌else◌, ◌==◌, subst,
}
use client_sdk_python.Bcs.Error.{Error, wrong_option_tag, unexpected_variant_index}
use client_sdk_python.Bcs.Parser.{Parser, ◌>>=◌, >>=-eq-ok, pure, raise, read, read_one-eq-ok}
use client_sdk_python.Bcs.Words.{from_le}
use client_sdk_python.Bcs.Uleb.Encode.{serialize_u32_as_uleb128, max_length}
use client_sdk_python.Bcs.Uleb.Decode.{deserialize_len, deserialize_variant_index}
use client_sdk_python.Bcs.Uleb.RoundTrip.{
  serialize_len-eq-ok, deserialize_len_canonical, serialize_variant_index-eq-ok,
  deserialize_variant_index_canonical,
}
use client_sdk_python.Bcs.Types.{
  Format, Formats, Container, Registry, Value, Values, Utf8, Utf8Laws, count, is_null, prim,
  sequence, tuple, optional, named, struct, enum, opaque, null, items, tuple_of, object, variant,
  nil, cons,
}
use client_sdk_python.Bcs.Serializer.{
  to_items, serialize_each, serialize_format, serialize_tuple, serialize_fields,
  serialize_container, serialize_class, serialize_any,
}
use client_sdk_python.Bcs.Deserializer.{
  deserialize_each, deserialize_format, deserialize_fields, deserialize_container,
  deserialize_class, deserialize_any,
}
use client_sdk_python.Bcs.Fits.{
  FitsEach, FitsFormat, FitsFields, FitsContainer, FitsClass, Fits, IsCanonical, IsPlain, ArePlain,
  IsPlainContainer, IsPlainRegistry,
}
use client_sdk_python.Bcs.Canonical.Primitives.{primitive-IsCanonical}
use client_sdk_python.Bcs.Canonical.Present.{format_present, class_present}

module _ (P : Value → Type 0) (write : Value → Outcome Error (List ℕ)) (item : Parser Value)
    (item-IsCanonical : IsCanonical P write item) where
  each-IsCanonical :
      (n : ℕ) (inp : List ℕ) (vs : Values) (rest : List ℕ)
      → All IsByte inp
      → deserialize_each item n inp ≡ ok (vs, rest)
      → FitsEach P vs
        × (count vs ≡ n)
        × (bs : List ℕ) × (serialize_each write vs ≡ ok bs)
        × (inp ≡ bs ++ rest)
  unfolding serialize_each deserialize_each
  each-IsCanonical zero inp vs rest b e =
      let none_read : vs ≡ nil = cc in rw none_read (tt, refl, [], refl, cc)
  each-IsCanonical (suc n) inp vs rest b e =
      let (v, left, got, e') = >>=-eq-ok item _ inp e in
      let (ws, left', got', made) = >>=-eq-ok (deserialize_each item n) _ left e' in
      let (hv, front, wf, cut) = item-IsCanonical inp v left b got in
      let (hvs, size, back, wb, cut') =
        each-IsCanonical n left ws left' (All-append_right IsByte front left (rw cut at b)) got' in
      let er : left' ≡ rest = cc in
      let ev : vs ≡ cons v ws = cc in
      rw ev ((hv, hvs), ap suc size, front ++ back, rw (wf, wb), cut ∙ rw (cut', er, append_assoc))

-- The tag of an optional value.
tag_cases :
    (x : ℕ) (present : Parser Value) (v : Value) (rest left : List ℕ)
    → (if x + 256 * 0 == 0
          then pure null
          else if x + 256 * 0 == 1
          then present
          else raise wrong_option_tag)
        left
      ≡ ok (v, rest)
    → ((x ≡ 0) × (v ≡ null) × (left ≡ rest)) ⊎ ((x ≡ 1) × (present left ≡ ok (v, rest)))
tag_cases zero present v rest left e = inl (refl, cc, cc)
tag_cases (suc zero) present v rest left e = inr (refl, e)
tag_cases (suc (suc x)) present v rest left e = absurd (ground arith)

module _ (utf8 : Utf8) (laws : Utf8Laws utf8) (P : String → Value → Type 0)
    (write : String → Value → Outcome Error (List ℕ)) (class : String → Parser Value)
    (class-present : (c : String) (v : Value) → P c v → is_null v ≡ false)
    (class-IsCanonical : (c : String) → IsCanonical (P c) (write c) (class c)) where
  mutual
    unfolding serialize_format deserialize_format to_items from_le

    format-IsCanonical :
        (f : Format)
        → IsPlain f
        → IsCanonical
            (FitsFormat utf8 P f)
            (serialize_format utf8 write f)
            (deserialize_format utf8 class f)
    format-IsCanonical (prim p) plain inp v rest b e =
        primitive-IsCanonical utf8 p laws inp v rest b e
    format-IsCanonical (sequence f) plain inp v rest b e =
        let (n, left, got, e') = >>=-eq-ok deserialize_len _ inp e in
        let (vs, left', got', made) =
          >>=-eq-ok (deserialize_each (deserialize_format utf8 class f) n) _ left e' in
        let (short, cut) = deserialize_len_canonical inp b got in
        let (h, size, body, w, cut') =
          each-IsCanonical (FitsFormat utf8 P f) (serialize_format utf8 write f)
            (deserialize_format utf8 class f) (format-IsCanonical f plain) n left vs left'
            (All-append_right IsByte (serialize_u32_as_uleb128 n) left (rw cut at b)) got' in
        let er : left' ≡ rest = cc in
        let ev : v ≡ items vs = cc in
        let short' : count vs ≤ max_length = rw size short in
        (
          (vs, ev, short', h),
          serialize_u32_as_uleb128 (count vs) ++ body,
          rw (ev, serialize_len-eq-ok (count vs) short', w),
          cut ∙ rw (cut', er, size, append_assoc),
        )
    format-IsCanonical (tuple fs) plain inp v rest b e =
        let (vs, left, got, made) = >>=-eq-ok (deserialize_fields utf8 class fs) _ inp e in
        let (h, bs, wt, wf, cut) = fields-IsCanonical fs plain inp vs left b got in
        let er : left ≡ rest = cc in
        let ev : v ≡ tuple_of vs = cc in ((vs, ev, h), bs, rw (ev, wt), rw (← er) cut)
    format-IsCanonical (optional f) plain inp v rest b e =
        let (bs, left, took, e') = >>=-eq-ok (read 1) _ inp e in
        let (x, cut, one) = read_one-eq-ok inp bs left took in
        elim (tag_cases x (deserialize_format utf8 class f) v rest left (rw one at e')) [
          | inl (ex, ev, er) ↦ (inl ev, 0 ∷ [], rw ev, cut ∙ rw (ex, er))
          | inr (ex, got) ↦
              let (h, body, w, cut') =
                format-IsCanonical f plain.1 left v rest (rw cut at b).1 got in
              let there = format_present utf8 P class-present f v plain.0 h in
              (inr (there, h), 1 ∷ body, rw (there, w), cut ∙ rw (ex, cut'))
        ]
    format-IsCanonical (named c) plain inp v rest b e = class-IsCanonical c inp v rest b e

    fields-IsCanonical :
        (fs : Formats)
        → ArePlain fs
        → (inp : List ℕ) (vs : Values) (rest : List ℕ) → All IsByte inp
        → deserialize_fields utf8 class fs inp ≡ ok (vs, rest)
        → FitsFields utf8 P fs vs
          × (bs : List ℕ) × (serialize_tuple utf8 write fs vs ≡ ok bs)
          × (serialize_fields utf8 write fs vs ≡ ok bs)
          × (inp ≡ bs ++ rest)
    fields-IsCanonical nil plain inp vs rest b e =
        let none_read : vs ≡ nil = cc in rw none_read (tt, [], refl, refl, cc)
    fields-IsCanonical (cons f fs) plain inp vs rest b e =
        let (v, left, got, e') = >>=-eq-ok (deserialize_format utf8 class f) _ inp e in
        let (ws, left', got', made) = >>=-eq-ok (deserialize_fields utf8 class fs) _ left e' in
        let (hv, front, wf, cut) = format-IsCanonical f plain.0 inp v left b got in
        let (hvs, back, wt, wb, cut') =
          fields-IsCanonical fs plain.1 left ws left'
            (All-append_right IsByte front left (rw cut at b)) got' in
        let er : left' ≡ rest = cc in
        let ev : vs ≡ cons v ws = cc in
        rw ev
          ((hv, hvs), front ++ back, rw (wf, wt), rw (wf, wb), cut ∙ rw (cut', er, append_assoc))

module _ (P : Formats → Values → Type 0) (write : Formats → Values → Outcome Error (List ℕ))
    (body : Formats → Parser Values)
    (body-IsCanonical : (fs : Formats)
      → ArePlain fs
      → IsCanonical (P fs) (write fs) (body fs)) where
  -- The variant that an index names.
  variant_cases :
      (c : String) (found : Option Formats) (index : ℕ) (v : Value) (rest left : List ℕ)
      → (elim found as (λ o. Parser Value) [
        | none ↦ raise unexpected_variant_index
        | some fs ↦ body fs >>= λ vs. pure (variant c index vs)
      ])
          left
        ≡ ok (v, rest)
      → (fs : Formats) × (vs : Values) × (found ≡ some fs)
        × (v ≡ variant c index vs)
        × (body fs left ≡ ok (vs, rest))
  variant_cases c none index v rest left e = absurd (cc)
  variant_cases c (some fs) index v rest left e =
      let (vs, left', got, made) = >>=-eq-ok (body fs) _ left e in
      let er : left' ≡ rest = cc in (fs, vs, refl, cc, rw (← er) got)

  variant-ArePlain :
      (variants : List Formats) (index : ℕ) (fs : Formats)
      → All ArePlain variants
      → get_elem? variants index ≡ some fs
      → ArePlain fs
  variant-ArePlain [] index fs h e = absurd (cc)
  variant-ArePlain (gs ∷ variants) zero fs h e = let same : gs ≡ fs = cc in subst ArePlain same h.0
  variant-ArePlain (gs ∷ variants) (suc index) fs h e = variant-ArePlain variants index fs h.1 e

  container-IsCanonical :
      (c : String) (k : Container)
      → IsPlainContainer k
      → IsCanonical
          (FitsContainer P c k)
          (serialize_container write c k)
          (deserialize_container body c k)
  unfolding serialize_container deserialize_container
  container-IsCanonical c (struct fs) plain inp v rest b e =
      let (vs, left, got, made) = >>=-eq-ok (body fs) _ inp e in
      let (h, bs, w, cut) = body-IsCanonical fs plain inp vs left b got in
      let er : left ≡ rest = cc in
      let ev : v ≡ object c vs = cc in
      ((vs, ev, h), bs, rw (ev, (eq_iff c c).1 refl) w, rw (← er) cut)
  container-IsCanonical c (enum variants) plain inp v rest b e =
      let (index, left, got, e') = >>=-eq-ok deserialize_variant_index _ inp e in
      let (small, cut) = deserialize_variant_index_canonical inp b got in
      let (fs, vs, at, ev, got') =
        variant_cases c (get_elem? variants index) index v rest left e' in
      let (h, bs, w, cut') =
        body-IsCanonical fs (variant-ArePlain variants index fs plain at) left vs rest
          (All-append_right IsByte (serialize_u32_as_uleb128 index) left (rw cut at b)) got' in
      (
        (index, fs, vs, ev, at, small, h),
        serialize_u32_as_uleb128 index ++ bs,
        rw (ev, serialize_variant_index-eq-ok index small, at, (eq_iff c c).1 refl, w),
        cut ∙ rw (cut', append_assoc),
      )
  container-IsCanonical c opaque plain inp v rest b e = absurd (cc)

class-IsCanonical :
    (utf8 : Utf8) (registry : Registry) (budget : ℕ)
    → Utf8Laws utf8
    → IsPlainRegistry registry
    → (c : String)
    → IsCanonical
        (FitsClass utf8 registry budget c)
        (serialize_class utf8 registry budget c)
        (deserialize_class utf8 registry budget c)
unfolding FitsClass serialize_class deserialize_class
class-IsCanonical utf8 registry zero laws plain c =
    container-IsCanonical (λ fs vs. ⊥) _ _ (λ fs p inp vs rest b e. absurd (cc)) c (registry c)
      (plain c)
class-IsCanonical utf8 registry (suc budget) laws plain c =
    container-IsCanonical (FitsFields utf8 (FitsClass utf8 registry budget)) _ _
      (λ fs p inp vs rest b e.
        let (h, bs, wt, wf, cut) =
          fields-IsCanonical utf8 laws (FitsClass utf8 registry budget) _ _
            (class_present utf8 registry budget) (class-IsCanonical utf8 registry budget laws plain)
            fs p inp vs rest b e in
        (h, bs, wf, cut))
      c (registry c) (plain c)

-- With a UTF-8 codec that keeps its laws, on an input of bytes, and where no optional type has `None`
-- among the values of its inner type, deserialization accepts only
-- canonical encodings: the value that it returns fits the type, and the bytes that it consumed are
-- exactly those that serialization writes for that value.
pub deserialize_any_canonical :
    (utf8 : Utf8) (registry : Registry) (budget : ℕ) (f : Format)
    → Utf8Laws utf8
    → IsPlainRegistry registry
    → IsPlain f
    → (inp : List ℕ) (v : Value) (rest : List ℕ) → All IsByte inp
    → deserialize_any utf8 registry budget f inp ≡ ok (v, rest)
    → Fits utf8 registry budget f v
      × (bs : List ℕ) × (serialize_any utf8 registry budget f v ≡ ok bs)
      × (inp ≡ bs ++ rest)
unfolding serialize_any deserialize_any
deserialize_any_canonical utf8 registry budget f laws plain pf =
    format-IsCanonical utf8 laws (FitsClass utf8 registry budget) _ _
      (class_present utf8 registry budget) (class-IsCanonical utf8 registry budget laws plain) f pf
