-- ===== src/Offchain/PaymentTypes.antt =====
-- The dataclasses of src/diem/offchain/types/payment_types.py, and each of them as an object.
use client_sdk_python.Base.{String, Option, none, some, List, [], ◌∷◌}
use client_sdk_python.Base.Int.{ℤ}
use client_sdk_python.Offchain.Objects.{
  Obj, Objs, null, str, int, list, instance_of, end, attr, nil, cons,
}

-- The strings of class `Status`; `unset` is `Status.none`.
pub data Status : Type 0 where
  unset needs_kyc_data ready_for_settlement abort soft_match : Status

abbrev pub status_text : Status → String
status_text unset = "none"
status_text needs_kyc_data = "needs_kyc_data"
status_text ready_for_settlement = "ready_for_settlement"
status_text abort = "abort"
status_text soft_match = "soft_match"

-- A `status` is a plain string in the code; `from_dict` lets only the strings of `Status` in.
pub record StatusObject : Type 0 where
  pub status : Status
  pub abort_code : Option String
  pub abort_message : Option String

pub record NationalIdObject : Type 0 where
  pub id_value : String
  pub country : Option String
  pub type : Option String

pub record AddressObject : Type 0 where
  pub city : Option String
  pub country : Option String
  pub line1 : Option String
  pub line2 : Option String
  pub postal_code : Option String
  pub state : Option String

pub record KycDataObject : Type 0 where
  pub type : String
  pub payload_version : ℤ
  pub given_name : Option String
  pub surname : Option String
  pub address : Option AddressObject
  pub dob : Option String
  pub place_of_birth : Option AddressObject
  pub national_id : Option NationalIdObject
  pub legal_entity_name : Option String

pub record PaymentActionObject : Type 0 where
  pub amount : ℤ
  pub currency : String
  pub action : String
  pub timestamp : ℤ

pub record PaymentActorObject : Type 0 where
  pub address : String
  pub status : StatusObject
  pub kyc_data : Option KycDataObject
  pub metadata : Option (List String)
  pub additional_kyc_data : Option String

pub record PaymentObject : Type 0 where
  pub reference_id : String
  pub sender : PaymentActorObject
  pub receiver : PaymentActorObject
  pub action : PaymentActionObject
  pub original_payment_reference_id : Option String
  pub recipient_signature : Option String
  pub description : Option String

-- An optional field: `None`, or the value.
abbrev pub or_null {ℓ} : {A : Type ℓ} → (A → Obj) → Option A → Obj
or_null f none = null
or_null f (some a) = f a

abbrev pub strs : List String → Objs
strs [] = nil
strs (s ∷ ss) = cons (str s) (strs ss)

abbrev pub status_obj : StatusObject → Obj
status_obj s = instance_of "StatusObject" (
    attr "status" (str (status_text s.status)) (
      attr "abort_code" (or_null str s.abort_code)
        (attr "abort_message" (or_null str s.abort_message) end)))

abbrev pub national_id_obj : NationalIdObject → Obj
national_id_obj n = instance_of "NationalIdObject" (
    attr "id_value" (str n.id_value)
      (attr "country" (or_null str n.country) (attr "type" (or_null str n.type) end)))

abbrev pub address_obj : AddressObject → Obj
address_obj a = instance_of "AddressObject" (
    attr "city" (or_null str a.city) (
      attr "country" (or_null str a.country) (
        attr "line1" (or_null str a.line1) (
          attr "line2" (or_null str a.line2) (
            attr "postal_code" (or_null str a.postal_code)
              (attr "state" (or_null str a.state) end))))))

abbrev pub kyc_data_obj : KycDataObject → Obj
kyc_data_obj k = instance_of "KycDataObject" (
    attr "type" (str k.type) (
      attr "payload_version" (int k.payload_version) (
        attr "given_name" (or_null str k.given_name) (
          attr "surname" (or_null str k.surname) (
            attr "address" (or_null address_obj k.address) (
              attr "dob" (or_null str k.dob) (
                attr "place_of_birth" (or_null address_obj k.place_of_birth) (
                  attr "national_id" (or_null national_id_obj k.national_id)
                    (attr "legal_entity_name" (or_null str k.legal_entity_name) end)))))))))

abbrev pub action_obj : PaymentActionObject → Obj
action_obj a = instance_of "PaymentActionObject" (
    attr "amount" (int a.amount) (
      attr "currency" (str a.currency)
        (attr "action" (str a.action) (attr "timestamp" (int a.timestamp) end))))

abbrev pub actor_obj : PaymentActorObject → Obj
actor_obj a = instance_of "PaymentActorObject" (
    attr "address" (str a.address) (
      attr "status" (status_obj a.status) (
        attr "kyc_data" (or_null kyc_data_obj a.kyc_data) (
          attr "metadata" (or_null (λ ss. list (strs ss)) a.metadata)
            (attr "additional_kyc_data" (or_null str a.additional_kyc_data) end)))))

abbrev pub payment_obj : PaymentObject → Obj
payment_obj p = instance_of "PaymentObject" (
    attr "reference_id" (str p.reference_id) (
      attr "sender" (actor_obj p.sender) (
        attr "receiver" (actor_obj p.receiver) (
          attr "action" (action_obj p.action) (
            attr "original_payment_reference_id" (or_null str p.original_payment_reference_id) (
              attr "recipient_signature" (or_null str p.recipient_signature)
                (attr "description" (or_null str p.description) end)))))))
