-- ===== src/Offchain/Json/Sample.antt =====
-- A payment for the runs on concrete data.
use client_sdk_python.Base.{String, false, Option, none, some, [], ◌∷◌}
use client_sdk_python.Base.Int.{pos}
use client_sdk_python.Offchain.PaymentTypes.{
  Status, KycDataObject, PaymentActorObject, PaymentObject, unset, needs_kyc_data,
}
use client_sdk_python.Offchain.PaymentCommand.{PaymentCommand}

abbrev pub uuid : String
uuid = "4185027f-0574-6f55-2668-3a38fdb5de98"

abbrev pub alice_kyc : KycDataObject
alice_kyc = record {
  type = "individual";
  payload_version = pos 1;
  given_name = some "Alice";
  surname = none;
  address = none;
  dob = none;
  place_of_birth = none;
  national_id = none;
  legal_entity_name = none;
}

abbrev pub sample_actor : String → Status → Option KycDataObject → PaymentActorObject
sample_actor address s kyc = record {
  address = address;
  status = record { status = s; abort_code = none; abort_message = none };
  kyc_data = kyc;
  metadata = some ("first" ∷ []);
  additional_kyc_data = none;
}

abbrev pub sample_payment : PaymentObject
sample_payment = record {
  reference_id = uuid;
  sender = sample_actor "alice" needs_kyc_data (some alice_kyc);
  receiver = sample_actor "bob" unset none;
  action = record { amount = pos 1000; currency = "XUS"; action = "charge"; timestamp = pos 0 };
  original_payment_reference_id = none;
  recipient_signature = none;
  description = none;
}

abbrev pub sample_command : PaymentCommand
sample_command = record {
  my_actor_address = "alice";
  payment = sample_payment;
  inbound = false;
  cid = uuid;
}
