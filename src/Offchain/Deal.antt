-- ===== src/Offchain/Deal.antt =====
-- What the updates of a payment leave as it was, over the write checks of
-- src/diem/offchain/payment_command.py and the marks of src/diem/offchain/types/payment_types.py.
use client_sdk_python.Base.{◌≡◌, ◌⊎◌, inl, inr, refl, sym, ◌∙◌, String, Option, none, some}
use client_sdk_python.Offchain.Objects.{Obj, Attrs, null, str, instance_of, get_attr, int, list}
use client_sdk_python.Offchain.PaymentTypes.{
  PaymentObject, PaymentActorObject, PaymentActionObject, payment_obj, actor_obj, action_obj,
  kyc_data_obj, or_null,
}
use client_sdk_python.Offchain.WriteOnce.{payment_marks}
use client_sdk_python.Offchain.WriteOnce.Respect.{
  Keeps, Respects, RespectsFields, RespectsFields-get_attr, fields, new_absent, prior_absent, text,
  number, items,
}

-- A field that is set keeps its value.
abbrev pub IsKeptOnceSet : Obj → Obj → Type 0
IsKeptOnceSet new old = (old ≡ null) ⊎ (new ≡ old)

abbrev pub IsActorKept : PaymentActorObject → PaymentActorObject → Type 0
IsActorKept new old =
    (new.address ≡ old.address)
    × IsKeptOnceSet (or_null kyc_data_obj new.kyc_data) (or_null kyc_data_obj old.kyc_data)
    × IsKeptOnceSet (or_null str new.additional_kyc_data) (or_null str old.additional_kyc_data)

-- The same deal: what is paid, between whom, and everything that was already disclosed or signed.
abbrev pub IsSameDeal : PaymentObject → PaymentObject → Type 0
IsSameDeal new old =
    (new.action ≡ old.action)
    × (new.original_payment_reference_id ≡ old.original_payment_reference_id)
    × IsActorKept new.sender old.sender
    × IsActorKept new.receiver old.receiver
    × IsKeptOnceSet (or_null str new.recipient_signature) (or_null str old.recipient_signature)
    × IsKeptOnceSet (or_null str new.description) (or_null str old.description)

-- What the relation says of two instances.
Content : Obj → Obj → Type 0
Content (instance_of c a) (instance_of d b) = RespectsFields payment_marks c a b
Content _ _ = Unit

content : {x y : Obj} → Respects payment_marks x y → Content x y
unfolding Content
content (new_absent null) = tt
content (new_absent (str b)) = tt
content (new_absent (int b)) = tt
content (new_absent (list b)) = tt
content (new_absent (instance_of d b)) = tt
content (prior_absent null) = tt
content (prior_absent (str b)) = tt
content (prior_absent (int b)) = tt
content (prior_absent (list b)) = tt
content (prior_absent (instance_of d b)) = tt
content (text a b) = tt
content (number a b) = tt
content (items a b) = tt
content (fields c a b h) = h

or_null-str-injective : (a b : Option String) → or_null str a ≡ or_null str b → a ≡ b
or_null-str-injective none none e = refl
or_null-str-injective none (some b) e = absurd (cc)
or_null-str-injective (some a) none e = absurd (cc)
or_null-str-injective (some a) (some b) e = cc

action_obj-injective : (a b : PaymentActionObject) → action_obj a ≡ action_obj b → a ≡ b
action_obj-injective a b e =
    let amount : a.amount ≡ b.amount = cc in
    let currency : a.currency ≡ b.currency = cc in
    let action : a.action ≡ b.action = cc in
    let timestamp : a.timestamp ≡ b.timestamp = cc in rw (amount, currency, action, timestamp)

instance_kept :
    (c name : String) (a b : Attrs) (x y : Obj)
    → Respects payment_marks (instance_of c a) (instance_of c b)
    → get_attr name a ≡ some x
    → get_attr name b ≡ some y
    → Keeps (payment_marks c name) x y × Respects payment_marks x y
unfolding Content
instance_kept c name a b x y h = RespectsFields-get_attr payment_marks c name a b (content h)

str-kept : (a b : String) → IsKeptOnceSet (str a) (str b) → a ≡ b
str-kept a b (inl e) = absurd (cc)
str-kept a b (inr e) = cc

actor_kept :
    (new old : PaymentActorObject)
    → Respects payment_marks (actor_obj new) (actor_obj old)
    → IsActorKept new old
unfolding get_attr
actor_kept new old h = (
  str-kept _ _ (instance_kept "PaymentActorObject" "address" _ _ _ _ h refl refl).0,
  (instance_kept "PaymentActorObject" "kyc_data" _ _ _ _ h refl refl).0,
  (instance_kept "PaymentActorObject" "additional_kyc_data" _ _ _ _ h refl refl).0,
)

action_kept : (a b : PaymentActionObject) → IsKeptOnceSet (action_obj a) (action_obj b) → a ≡ b
action_kept a b (inl e) = absurd (cc)
action_kept a b (inr e) = action_obj-injective a b e

-- Payments that respect the marks are the same deal.
pub payment_kept :
    (new old : PaymentObject)
    → Respects payment_marks (payment_obj new) (payment_obj old)
    → IsSameDeal new old
unfolding get_attr
payment_kept new old h = (
  action_kept _ _ (instance_kept "PaymentObject" "action" _ _ _ _ h refl refl).0,
  or_null-str-injective _ _
      (instance_kept "PaymentObject" "original_payment_reference_id" _ _ _ _ h refl refl).0,
  actor_kept new.sender old.sender (instance_kept "PaymentObject" "sender" _ _ _ _ h refl refl).1,
  actor_kept new.receiver old.receiver
      (instance_kept "PaymentObject" "receiver" _ _ _ _ h refl refl).1,
  (instance_kept "PaymentObject" "recipient_signature" _ _ _ _ h refl refl).0,
  (instance_kept "PaymentObject" "description" _ _ _ _ h refl refl).0,
)

once_set_trans : {a b c : Obj} → IsKeptOnceSet b a → IsKeptOnceSet c b → IsKeptOnceSet c a
once_set_trans (inl e) f = inl e
once_set_trans (inr e) (inl f) = inl (sym e ∙ f)
once_set_trans (inr e) (inr f) = inr (f ∙ e)

actor_trans : (a b c : PaymentActorObject) → IsActorKept b a → IsActorKept c b → IsActorKept c a
actor_trans a b c (e0, e1, e2) (f0, f1, f2) = (f0 ∙ e0, once_set_trans e1 f1, once_set_trans e2 f2)

-- Sameness of deals passes along a chain of updates.
pub IsSameDeal-trans : (p q r : PaymentObject) → IsSameDeal q p → IsSameDeal r q → IsSameDeal r p
IsSameDeal-trans p q r (e0, e1, e2, e3, e4, e5) (f0, f1, f2, f3, f4, f5) = (
  f0 ∙ e0,
  f1 ∙ e1,
  actor_trans p.sender q.sender r.sender e2 f2,
  actor_trans p.receiver q.receiver r.receiver e3 f3,
  once_set_trans e4 f4,
  once_set_trans e5 f5,
)

actor_refl : (a : PaymentActorObject) → IsActorKept a a
actor_refl a = (refl, inr refl, inr refl)

pub IsSameDeal-refl : (p : PaymentObject) → IsSameDeal p p
IsSameDeal-refl p = (refl, refl, actor_refl p.sender, actor_refl p.receiver, inr refl, inr refl)
