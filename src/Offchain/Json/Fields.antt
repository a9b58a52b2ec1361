-- ===== src/Offchain/Json/Fields.antt =====
-- The fields of payments as JSON: optional ones, texts, statuses, addresses and ids.
use client_sdk_python.Base.{◌≡◌, refl, inl, inr, String, true, Option, none, some, List, [], ◌∷◌}
use client_sdk_python.Base.Int.{ℤ, pos}
use client_sdk_python.Offchain.Objects.{Obj, Objs, Attrs, nil, cons, end, attr}
use client_sdk_python.Offchain.PaymentTypes.{
  Status, unset, needs_kyc_data, ready_for_settlement, abort, soft_match, status_text, StatusObject,
  NationalIdObject, AddressObject, or_null, strs, status_obj, national_id_obj, address_obj,
}
use client_sdk_python.Offchain.Json.{Any, embed, embed_items, embed_attrs}
use client_sdk_python.Offchain.Json.Schema.{
  FieldType, str_type, any_value, number, is_valid, is_one_of, literal_eq, one_of, texts,
  status_object_type, national_id_object_type, address_object_type,
}
use client_sdk_python.Offchain.Json.Typed.{HasType, FieldHas, AllItems}
use client_sdk_python.Offchain.Json.Plain.{IsPlain, ArePlain, HoldPlain}

mutual
  unfolding embed IsPlain

  pub embed-IsPlain : (o : Obj) → IsPlain (embed o)
  embed-IsPlain (Obj.list vs) = embed_items-ArePlain vs
  embed-IsPlain (Obj.instance_of c as') = embed_attrs-HoldPlain as'
  embed-IsPlain _ = tt

  embed_items-ArePlain : (vs : Objs) → ArePlain (embed_items vs)
  embed_items-ArePlain nil = tt
  embed_items-ArePlain (cons v vs) = (embed-IsPlain v, embed_items-ArePlain vs)

  embed_attrs-HoldPlain : (as' : Attrs) → HoldPlain (embed_attrs as')
  embed_attrs-HoldPlain end = tt
  embed_attrs-HoldPlain (attr n v as') = (embed-IsPlain v, embed_attrs-HoldPlain as')

-- An optional field without valid values.
pub optional-Has :
    {A : Type 0} (type : FieldType) (write : A → Obj) (o : Option A)
    → ((a : A) → FieldHas any_value true (HasType type) (embed (write a)))
    → FieldHas any_value true (HasType type) (embed (or_null write o))
unfolding embed
optional-Has type write none each = inl (refl, refl)
optional-Has type write (some a) each = each a

pub optional_text :
    (o : Option String) → FieldHas any_value true (HasType str_type) (embed (or_null Obj.str o))
unfolding embed HasType is_valid
optional_text o = optional-Has str_type Obj.str o (λ s. inr (refl, refl, refl))

pub strs-AllItems : (ss : List String) → AllItems (HasType str_type) (embed_items (strs ss))
unfolding embed HasType
strs-AllItems [] = tt
strs-AllItems (s ∷ ss) = (refl, strs-AllItems ss)

status_named :
    (s : Status)
    → is_valid
        (one_of (
          texts ("none" ∷ "needs_kyc_data" ∷ "ready_for_settlement" ∷ "abort" ∷ "soft_match" ∷ [])))
        (Any.str (status_text s))
      ≡ true
unfolding is_valid
status_named unset = refl
status_named needs_kyc_data = refl
status_named ready_for_settlement = refl
status_named abort = refl
status_named soft_match = refl

pub status-HasType : (s : StatusObject) → HasType status_object_type (embed (status_obj s))
unfolding embed HasType is_valid
status-HasType s = (
  refl,
  (
    refl,
    inr (refl, status_named s.status, refl),
    (refl, optional_text s.abort_code, (refl, optional_text s.abort_message, tt)),
  ),
)

national_id-HasType :
    (n : NationalIdObject) → HasType national_id_object_type (embed (national_id_obj n))
unfolding embed HasType is_valid
national_id-HasType n = (
  refl,
  (refl, inr (refl, refl, refl), (refl, optional_text n.country, (refl, optional_text n.type, tt))),
)

address-HasType : (a : AddressObject) → HasType address_object_type (embed (address_obj a))
unfolding embed HasType
address-HasType a = (
  refl,
  (
    refl,
    optional_text a.city,
    (
      refl,
      optional_text a.country,
      (
        refl,
        optional_text a.line1,
        (
          refl,
          optional_text a.line2,
          (refl, optional_text a.postal_code, (refl, optional_text a.state, tt)),
        ),
      ),
    ),
  ),
)

pub optional_address :
    (o : Option AddressObject)
    → FieldHas any_value true (HasType address_object_type) (embed (or_null address_obj o))
unfolding embed is_valid
optional_address o =
    optional-Has address_object_type address_obj o (λ a. inr (refl, refl, address-HasType a))

pub optional_national_id :
    (o : Option NationalIdObject)
    → FieldHas any_value true (HasType national_id_object_type) (embed (or_null national_id_obj o))
unfolding embed is_valid
optional_national_id o =
    optional-Has national_id_object_type national_id_obj o
      (λ n. inr (refl, refl, national_id-HasType n))

pub version_one : (i : ℤ) → i ≡ pos 1 → is_one_of (Any.int i) (number (pos 1) ∷ []) ≡ true
unfolding is_one_of literal_eq
version_one i e = rw e
