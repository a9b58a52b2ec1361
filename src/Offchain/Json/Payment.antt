-- ===== src/Offchain/Json/Payment.antt =====
-- Payments and requests that `from_dict` reads: the typed objects are instances of their classes.
use client_sdk_python.Base.{◌≡◌, refl, inl, inr, String, true, Option, none, some, List, [], ◌∷◌}
use client_sdk_python.Base.Int.{pos}
use client_sdk_python.Offchain.Objects.{Obj}
use client_sdk_python.Offchain.PaymentTypes.{
  KycDataObject, PaymentActionObject, PaymentActorObject, PaymentObject, or_null, strs,
  kyc_data_obj, action_obj, actor_obj, payment_obj,
}
use client_sdk_python.Offchain.Json.{Any, embed}
use client_sdk_python.Offchain.Json.Schema.{
  str_type, list_type, any_value, pattern_of, is_valid, is_one_of, literal_eq, texts, uuid_match,
  kyc_data_object_type, payment_action_object_type, payment_actor_object_type, payment_object_type,
  payment_command_object_type, command_request_object_type,
}
use client_sdk_python.Offchain.Json.Command.{
  CommandRequestObject, payment_command_any, command_request_any,
}
use client_sdk_python.Offchain.Json.Typed.{HasType, FieldHas}
use client_sdk_python.Offchain.Json.Fields.{
  optional-Has, optional_text, strs-AllItems, status-HasType, optional_address,
  optional_national_id, version_one,
}

-- What holds of an optional value that is set.
abbrev pub IfSet : {A : Type 0} → (A → Type 0) → Option A → Type 0
IfSet P none = Unit {0}
IfSet P (some a) = P a

abbrev pub IsKycData : KycDataObject → Type 0
IsKycData k =
    (is_one_of (Any.str k.type) (texts ("individual" ∷ "entity" ∷ [])) ≡ true)
    × (k.payload_version ≡ pos 1)

-- What the annotations and metadata of the classes ask of a payment beyond the types of its fields.
abbrev pub IsPayment : PaymentObject → Type 0
IsPayment p =
    (uuid_match p.reference_id ≡ true)
    × IfSet IsKycData p.sender.kyc_data
    × IfSet IsKycData p.receiver.kyc_data
    × (p.action.action ≡ "charge")
    × IfSet (λ s. uuid_match s ≡ true) p.original_payment_reference_id

kyc_data-HasType :
    (k : KycDataObject) → IsKycData k → HasType kyc_data_object_type (embed (kyc_data_obj k))
unfolding embed HasType is_valid
kyc_data-HasType k (named, version) = (
  refl,
  (
    refl,
    inr (refl, named, refl),
    (
      refl,
      inr (refl, version_one k.payload_version version, refl),
      (
        refl,
        optional_text k.given_name,
        (
          refl,
          optional_text k.surname,
          (
            refl,
            optional_address k.address,
            (
              refl,
              optional_text k.dob,
              (
                refl,
                optional_address k.place_of_birth,
                (
                  refl,
                  optional_national_id k.national_id,
                  (refl, optional_text k.legal_entity_name, tt),
                ),
              ),
            ),
          ),
        ),
      ),
    ),
  ),
)

optional_kyc_data :
    (o : Option KycDataObject)
    → IfSet IsKycData o
    → FieldHas any_value true (HasType kyc_data_object_type) (embed (or_null kyc_data_obj o))
unfolding embed is_valid
optional_kyc_data none h = inl (refl, refl)
optional_kyc_data (some k) h = inr (refl, refl, kyc_data-HasType k h)

optional_metadata :
    (o : Option (List String))
    → FieldHas any_value true
        (HasType (list_type str_type))
        (embed (or_null (λ ss. Obj.list (strs ss)) o))
unfolding embed is_valid HasType
optional_metadata o =
    optional-Has (list_type str_type) (λ ss. Obj.list (strs ss)) o
      (λ ss. inr (refl, refl, strs-AllItems ss))

actor-HasType :
    (a : PaymentActorObject)
    → IfSet IsKycData a.kyc_data
    → HasType payment_actor_object_type (embed (actor_obj a))
unfolding embed HasType is_valid
actor-HasType a h = (
  refl,
  (
    refl,
    inr (refl, refl, refl),
    (
      refl,
      inr (refl, refl, status-HasType a.status),
      (
        refl,
        optional_kyc_data a.kyc_data h,
        (refl, optional_metadata a.metadata, (refl, optional_text a.additional_kyc_data, tt)),
      ),
    ),
  ),
)

charged : (s : String) → s ≡ "charge" → is_one_of (Any.str s) (texts ("charge" ∷ [])) ≡ true
unfolding is_one_of literal_eq
charged s e = rw e

action-HasType :
    (a : PaymentActionObject)
    → a.action ≡ "charge"
    → HasType payment_action_object_type (embed (action_obj a))
unfolding embed HasType is_valid
action-HasType a h = (
  refl,
  (
    refl,
    inr (refl, refl, refl),
    (
      refl,
      inr (refl, refl, refl),
      (refl, inr (refl, charged a.action h, refl), (refl, inr (refl, refl, refl), tt)),
    ),
  ),
)

optional_uuid :
    (o : Option String)
    → IfSet (λ s. uuid_match s ≡ true) o
    → FieldHas (pattern_of uuid_match) true (HasType str_type) (embed (or_null Obj.str o))
unfolding embed HasType is_valid
optional_uuid none h = inl (refl, refl)
optional_uuid (some s) h = inr (refl, h, refl)

pub payment-HasType :
    (p : PaymentObject) → IsPayment p → HasType payment_object_type (embed (payment_obj p))
unfolding embed HasType is_valid
payment-HasType p (id, sender_kyc, receiver_kyc, charge, original) = (
  refl,
  (
    refl,
    inr (refl, id, refl),
    (
      refl,
      inr (refl, refl, actor-HasType p.sender sender_kyc),
      (
        refl,
        inr (refl, refl, actor-HasType p.receiver receiver_kyc),
        (
          refl,
          inr (refl, refl, action-HasType p.action charge),
          (
            refl,
            optional_uuid p.original_payment_reference_id original,
            (refl, optional_text p.recipient_signature, (refl, optional_text p.description, tt)),
          ),
        ),
      ),
    ),
  ),
)

pub payment_command-HasType :
    (p : PaymentObject) → IsPayment p → HasType payment_command_object_type (payment_command_any p)
unfolding HasType is_valid is_one_of embed
payment_command-HasType p h =
    (refl, (refl, inr (refl, refl, refl), (refl, inr (refl, refl, payment-HasType p h), tt)))

pub request-HasType :
    (r : CommandRequestObject)
    → uuid_match r.cid ≡ true
    → HasType command_request_object_type (command_request_any r)
unfolding HasType is_valid is_one_of embed
request-HasType r h = (
  refl,
  (
    refl,
    inr (refl, h, refl),
    (
      refl,
      inr (refl, refl, refl),
      (refl, inr (refl, refl, refl), (refl, inr (refl, refl, refl), tt)),
    ),
  ),
)
