-- ===== src/Offchain/Json/Tests.antt =====
-- `to_dict` and `from_dict` at concrete data.
use client_sdk_python.Base.{◌≡◌, refl, true, false, some, [], ◌∷◌, ok, err}
use client_sdk_python.Base.Int.{pos}
use client_sdk_python.Offchain.PaymentTypes.{payment_obj}
use client_sdk_python.Offchain.Json.{
  Any, null, bool, int, str, dict, instance_of, no_members, member, to_dict, get, keys,
}
use client_sdk_python.Offchain.Json.Schema.{
  status_object_type, payment_action_object_type, payment_command_object_type, uuid_match, is_valid,
  Fields, choice, required_field, done, payment_object_type, is_one_of, literal_eq,
}
use client_sdk_python.Offchain.Json.Load.{
  from_dict, from_dict_by_object_type, field_error, missing_field, invalid_field_value,
  unknown_field, unhashable, find_object_type,
}
use client_sdk_python.Offchain.Json.Typed.{HasType, from_dict-HasType, IsJson}
use client_sdk_python.Offchain.Json.Plain.{plain, plain_members, IsPlain, is_distinct}
use client_sdk_python.Offchain.Json.RoundTrip.{from_dict-to_dict, from_dict-unknown_field}
use client_sdk_python.Offchain.Json.Payment.{IsPayment, payment_command-HasType}
use client_sdk_python.Offchain.Json.Fields.{embed-IsPlain}
use client_sdk_python.Offchain.Json.Command.{payment_command_any, payment_command_members}
use client_sdk_python.Offchain.Json.Sample.{uuid, sample_payment}

uuid_matches : uuid_match uuid ≡ true
unfolding uuid_match
uuid_matches = refl

-- `$` lets a line feed pass.
uuid_with_newline : uuid_match "4185027f-0574-6f55-2668-3a38fdb5de98\n" ≡ true
unfolding uuid_match
uuid_with_newline = refl

uuid_too_short : uuid_match "4185027f-0574-6f55-2668-3a38fdb5de9" ≡ false
unfolding uuid_match
uuid_too_short = refl

missing :
    from_dict status_object_type "command.payment.sender.status" (dict no_members)
    ≡ err (field_error missing_field (some "command.payment.sender.status.status"))
unfolding from_dict get
missing = refl

not_a_status :
    from_dict status_object_type "" (dict (member "status" (str "done") no_members))
    ≡ err (field_error invalid_field_value (some "status"))
unfolding from_dict get is_valid
not_a_status = refl

unhashable_type :
    from_dict_by_object_type ""
      (dict (member "_ObjectType" (dict (member "a" null no_members)) no_members))
    ≡ err unhashable
unfolding from_dict_by_object_type find_object_type get
unhashable_type = refl

-- `true` is an amount.
abbrev true_amount : Any
true_amount = dict (
    member "amount" (bool true) (
      member "currency" (str "XUS")
        (member "action" (str "charge") (member "timestamp" (int (pos 0)) no_members))))

abbrev true_action : Any
true_action = instance_of "PaymentActionObject" (
    member "amount" (bool true) (
      member "currency" (str "XUS")
        (member "action" (str "charge") (member "timestamp" (int (pos 0)) no_members))))

true_loaded : from_dict payment_action_object_type "" true_amount ≡ ok true_action
unfolding from_dict get is_valid keys
true_loaded = refl

from_dict-HasType_example : HasType payment_action_object_type true_action
unfolding IsJson
from_dict-HasType_example =
    from_dict-HasType payment_action_object_type "" true_amount true_action
      (tt, (tt, (tt, (tt, tt)))) true_loaded

sample-IsPayment : IsPayment sample_payment
unfolding uuid_match is_one_of literal_eq
sample-IsPayment = (refl, (refl, refl), tt, refl, tt)

abbrev command_fields : Fields
command_fields =
    choice "_ObjectType" ("PaymentCommand" ∷ []) (required_field "payment" payment_object_type done)

command-IsPlain : IsPlain (payment_command_any sample_payment)
unfolding IsPlain
command-IsPlain = (tt, (embed-IsPlain (payment_obj sample_payment), tt))

from_dict-to_dict_example :
    (to_dict (payment_command_any sample_payment) ≡ ok (plain (payment_command_any sample_payment)))
    × (from_dict payment_command_object_type "command" (plain (payment_command_any sample_payment))
        ≡ ok (payment_command_any sample_payment))
unfolding is_distinct
from_dict-to_dict_example =
    from_dict-to_dict "PaymentCommandObject" command_fields "command"
      (payment_command_any sample_payment) refl
      (payment_command-HasType sample_payment sample-IsPayment) command-IsPlain

from_dict-unknown_field_example :
    from_dict payment_command_object_type "command"
      (dict (member "extra" null (plain_members (payment_command_members sample_payment))))
    ≡ err (field_error unknown_field (some "command.extra"))
unfolding is_distinct
from_dict-unknown_field_example =
    from_dict-unknown_field "PaymentCommandObject" command_fields "command"
      (payment_command_members sample_payment) "extra" null refl
      (payment_command-HasType sample_payment sample-IsPayment) command-IsPlain refl
