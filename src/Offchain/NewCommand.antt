-- ===== src/Offchain/NewCommand.antt =====
-- New payment commands: `init` and `new_command` of src/diem/offchain/payment_command.py, over
-- `new_payment_object` and the replace functions of src/diem/offchain/types/__init__.py.
pub mod Laws
use client_sdk_python.Base.{
  ℕ, String, str_eq, Option, none, some, List, [], ◌∷◌, ◌++◌, if◌then◌else◌, Bool, true, false,
  ◌||◌,
}
use client_sdk_python.Base.Int.{ℤ}
use client_sdk_python.Offchain.PaymentTypes.{
  Status, StatusObject, KycDataObject, PaymentActorObject, PaymentObject, unset, needs_kyc_data,
}
use client_sdk_python.Offchain.PaymentCommand.{PaymentCommand, is_sender, my_actor_obj}

-- `a or b` on texts, and the text of `a` where `if a` holds of it.
abbrev pub text_or : Option String → String → String
text_or none other = other
text_or (some s) other = if str_eq s "" then other else s

abbrev pub changed : Option String → Option String → Option String
changed none old = old
changed (some s) old = if str_eq s "" then old else some s

-- `new_id` is what `uuid.uuid4()` gives, `now` the default timestamp of the action.
abbrev pub new_payment_object :
    String
    → ℤ
    → String
    → KycDataObject
    → String
    → ℤ
    → String
    → Option String
    → Option String
    → Option String
    → PaymentObject
new_payment_object new_id now sender_account_id sender_kyc_data receiver_account_id amount currency
      original_payment_reference_id description reference_id =
    record {
      reference_id = text_or reference_id new_id;
      sender = record {
        address = sender_account_id;
        status = record { status = needs_kyc_data; abort_code = none; abort_message = none };
        kyc_data = some sender_kyc_data;
        metadata = none;
        additional_kyc_data = none;
      };
      receiver = record {
        address = receiver_account_id;
        status = record { status = unset; abort_code = none; abort_message = none };
        kyc_data = none;
        metadata = none;
        additional_kyc_data = none;
      };
      action = record { amount = amount; currency = currency; action = "charge"; timestamp = now };
      original_payment_reference_id = original_payment_reference_id;
      recipient_signature = none;
      description = description;
    }

-- `PaymentCommand.init`; `cid` is what `uuid.uuid4()` gives for it.
abbrev pub init :
    String
    → ℤ
    → String
    → String
    → KycDataObject
    → String
    → ℤ
    → String
    → Option String
    → Option String
    → Bool
    → Option String
    → PaymentCommand
init new_id now cid sender_account_id sender_kyc_data receiver_account_id amount currency
      original_payment_reference_id description inbound reference_id =
    record {
      my_actor_address = sender_account_id;
      payment =
          new_payment_object new_id now sender_account_id sender_kyc_data receiver_account_id amount
            currency original_payment_reference_id description reference_id;
      inbound = inbound;
      cid = cid;
    }

-- What a caller of `new_command` gives for the actor; absent is `None`.
pub record Changes : Type 0 where
  pub status : Option Status
  pub kyc_data : Option KycDataObject
  pub additional_kyc_data : Option String
  pub abort_code : Option String
  pub abort_message : Option String
  pub metadata : List String

abbrev pub or_old {ℓ} : {A : Type ℓ} → Option A → A → A
or_old none old = old
or_old (some a) old = a

abbrev pub or_old_option {ℓ} : {A : Type ℓ} → Option A → Option A → Option A
or_old_option none old = old
or_old_option (some a) old = some a

abbrev pub replace_payment_status :
    StatusObject → Option Status → Option String → Option String → StatusObject
replace_payment_status status_obj status abort_code abort_message = record {
  status = or_old status status_obj.status;
  abort_code = changed abort_code status_obj.abort_code;
  abort_message = changed abort_message status_obj.abort_message;
}

-- `actor.metadata + metadata if actor.metadata else metadata`, where `metadata` is not empty.
abbrev pub more_metadata : List String → Option (List String) → Option (List String)
more_metadata [] old = old
more_metadata (m ∷ ms) none = some (m ∷ ms)
more_metadata (m ∷ ms) (some old) = some (old ++ (m ∷ ms))

-- The status is replaced only where one of its parts is given; with none of them the replacement is the
-- same object.
abbrev pub replace_payment_actor : PaymentActorObject → Changes → PaymentActorObject
replace_payment_actor actor changes = record {
  address = actor.address;
  status =
      replace_payment_status actor.status changes.status changes.abort_code changes.abort_message;
  kyc_data = or_old_option changes.kyc_data actor.kyc_data;
  metadata = more_metadata changes.metadata actor.metadata;
  additional_kyc_data = changed changes.additional_kyc_data actor.additional_kyc_data;
}

abbrev pub with_actors :
    PaymentObject → PaymentActorObject → PaymentActorObject → Option String → PaymentObject
with_actors p from to recipient_signature = record p {
  sender = from;
  receiver = to;
  recipient_signature = changed recipient_signature p.recipient_signature;
}

-- `PaymentCommand.new_command`: my own actor object replaced; `cid` is new.
unfoldable pub new_command :
    PaymentCommand → String → Option String → Changes → Bool → PaymentCommand
unfolding is_sender my_actor_obj
new_command c cid recipient_signature changes inbound =
    let mine = replace_payment_actor (my_actor_obj c) changes in
    record {
      my_actor_address = c.my_actor_address;
      payment =
          if is_sender c
          then with_actors c.payment mine c.payment.receiver recipient_signature
          else with_actors c.payment c.payment.sender mine recipient_signature;
      inbound = inbound;
      cid = cid;
    }
