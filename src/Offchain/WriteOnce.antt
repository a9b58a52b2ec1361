-- ===== src/Offchain/WriteOnce.antt =====
-- `validate_write_once_fields` of src/diem/offchain/types/__init__.py, and the field metadata that it
-- reads (src/diem/offchain/types/payment_types.py).
pub mod Respect
use client_sdk_python.Base.{
  String, str_eq, Bool, true, false, ◌&&◌, not, Option, none, some, List, [], ◌∷◌, ◌++◌,
  if◌then◌else◌, Outcome, ok, err, ◌>>=◌, ◌>>◌, raise_if,
}
use client_sdk_python.Offchain.Objects.{
  Obj, Objs, Attrs, null, str, int, list, instance_of, end, attr, get_attr, obj_eq, is_none,
}

-- What `metadata` says of a field.
pub data Mark : Type 0 where
  plain write_once immutable : Mark

-- The marks of the fields of a class, by class and field.
abbrev pub Marks : Type 0
Marks = String → String → Mark

-- The marks in payment_types.py.
abbrev pub payment_marks : Marks
payment_marks cls name =
    if str_eq cls "PaymentActorObject"
    then (if str_eq name "address"
        then write_once
        else if str_eq name "kyc_data"
        then write_once
        else if str_eq name "additional_kyc_data"
        then write_once
        else plain)
    else if str_eq cls "PaymentObject"
    then (if str_eq name "action"
        then write_once
        else if str_eq name "original_payment_reference_id"
        then immutable
        else if str_eq name "recipient_signature"
        then write_once
        else if str_eq name "description"
        then write_once
        else plain)
    else plain

-- `InvalidOverwriteError` with the path of the field; the others are Python's own.
pub data OverwriteError : Type 0 where
  invalid_overwrite : List String → OverwriteError
  type_error attribute_error : OverwriteError

-- The two tests on a field: `immutable`, and `write_once` where the prior value is set.
unfoldable pub check_mark : Mark → List String → Obj → Obj → Outcome OverwriteError (Unit {0})
check_mark plain path new prior = ok tt
check_mark write_once path new prior =
    raise_if (not (is_none prior) && not (obj_eq prior new)) (invalid_overwrite path)
check_mark immutable path new prior = raise_if (not (obj_eq prior new)) (invalid_overwrite path)

-- The steps for one field, once `getattr(prior, field.name)` has its value.
abbrev pub with_prior :
    Option Obj
    → (Obj → Outcome OverwriteError (Unit {0}))
    → (Obj → Outcome OverwriteError (Unit {0}))
    → Outcome OverwriteError (Unit {0})
    → Outcome OverwriteError (Unit {0})
with_prior none check nested rest = err attribute_error
with_prior (some old) check nested rest = check old >> nested old >> rest

-- The path is kept as the list of its names. A boolean is no `Obj`: True and False are 1 and 0.
unfoldable mutual
  pub validate_write_once_fields :
      Marks → List String → Obj → Obj → Outcome OverwriteError (Unit {0})
  validate_write_once_fields marks path null prior = ok tt
  validate_write_once_fields marks path (str a) null = ok tt
  validate_write_once_fields marks path (str a) (str b) = ok tt
  validate_write_once_fields marks path (str a) _ = err type_error
  validate_write_once_fields marks path (int a) null = ok tt
  validate_write_once_fields marks path (int a) (int b) = ok tt
  validate_write_once_fields marks path (int a) _ = err type_error
  validate_write_once_fields marks path (list a) null = ok tt
  validate_write_once_fields marks path (list a) (list b) = ok tt
  validate_write_once_fields marks path (list a) _ = err type_error
  validate_write_once_fields marks path (instance_of c a) null = ok tt
  validate_write_once_fields marks path (instance_of c a) (instance_of d b) =
      let fields = validate_fields marks path c a b in if str_eq c d then fields else err type_error
  validate_write_once_fields marks path (instance_of c a) _ = err type_error

  -- `for field in dataclasses.fields(new_type)`
  pub validate_fields :
      Marks → List String → String → Attrs → Attrs → Outcome OverwriteError (Unit {0})
  validate_fields marks path c end prior = ok tt
  validate_fields marks path c (attr name new news) prior =
      let nested = validate_write_once_fields marks (path ++ (name ∷ [])) new in
      let rest = validate_fields marks path c news prior in
      let check = check_mark (marks c name) (path ++ (name ∷ [])) new in
      with_prior (get_attr name prior) check nested rest
