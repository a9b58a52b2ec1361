-- ===== src/Offchain/Json/RoundTrip.antt =====
-- What `to_dict` writes of an instance is read back by `from_dict`.
use client_sdk_python.Base.{
  ◌≡◌, refl, sym, ap, ◌∙◌, subst, inl, inr, String, str_eq, Bool, true, not, not-true, ◌&&◌, List,
  ◌∷◌, Outcome, ok, err,
}
use client_sdk_python.Identifier.Text.{&&-true}
use client_sdk_python.Offchain.Json.{
  Any, Anys, Members, bool, int, str, list, dict, instance_of, no_items, item, no_members, member,
  get, keys, asdict, delete_none, to_dict,
}
use client_sdk_python.Offchain.Json.Schema.{
  FieldType, Fields, str_type, int_type, dict_type, list_type, dataclass, done, field_of,
  ValidValues,
}
use client_sdk_python.Offchain.Json.Load.{
  LoadError, each_item, from_dict, fields_from_dict, field_value_from_dict, join_field_path,
  field_error_at, remove, unknown_fields, least, unknown_field,
}
use client_sdk_python.Offchain.Json.Typed.{HasType, HasFields, FieldHas, AllItems}
use client_sdk_python.Offchain.Json.Plain.{
  plain, plain_items, plain_members, IsPlain, ArePlain, HoldPlain, is_fresh, is_distinct,
  are_distinct, HasFields-Lacks, Reads, Reads-member, plain_members-Reads, unknown_fields-plain,
  is_valid-plain, is_null-plain,
}

each_item-plain :
    (T : Any → Type 0) (load : Any → Outcome LoadError Any) (vs : Anys)
    → AllItems T vs
    → ArePlain vs
    → ((v : Any) → T v → IsPlain v → load (plain v) ≡ ok v)
    → each_item load (plain_items vs) ≡ ok vs
unfolding each_item IsPlain delete_none asdict
each_item-plain T load no_items h p each = refl
each_item-plain T load (item v vs) h p each =
    rw (each v h.0 p.0, each_item-plain T load vs h.1 p.1 each)

-- A field is read back from what the dict has for it.
field_value-plain :
    (valid : ValidValues) (is_optional : Bool) (T : Any → Type 0) (path : String)
    (load : Any → Outcome LoadError Any) (v : Any)
    → FieldHas valid is_optional T v
    → (T v → load (plain v) ≡ ok v)
    → field_value_from_dict valid is_optional path load (plain v) ≡ ok v
unfolding field_value_from_dict delete_none asdict
field_value-plain valid is_optional T path load v (inl (may, unset)) loads =
    subst (λ x. field_value_from_dict valid is_optional path load (plain x) ≡ ok x) (sym unset)
      (rw may)
field_value-plain valid is_optional T path load v (inr (set, fine, typed)) loads =
    rw (is_null-plain v, set, is_valid-plain valid v, fine, loads typed)

mutual
  unfolding from_dict HasType IsPlain is_distinct delete_none asdict

  pub from_dict-plain :
      (type : FieldType) (path : String) (v : Any)
      → is_distinct type ≡ true
      → HasType type v
      → IsPlain v
      → from_dict type path (plain v) ≡ ok v
  from_dict-plain str_type path (str s) d h p = refl
  from_dict-plain int_type path (int i) d h p = refl
  from_dict-plain int_type path (bool b) d h p = refl
  from_dict-plain dict_type path (dict ms) d h p = ap (λ x. ok (dict x)) p
  from_dict-plain (list_type type) path (list vs) d h p =
      let each = from_dict-plain type path in
      rw (each_item-plain (HasType type) (from_dict type path) vs h p (λ v. each v d))
  from_dict-plain (dataclass name fields) path (instance_of c ms) d h p =
      let reads = plain_members-Reads fields ms h.1 d in
      let values = fields_from_dict-plain fields path ms (plain_members ms) d h.1 p reads in
      rw (values, unknown_fields-plain fields ms h.1 d, h.0)
  from_dict-plain (list_type type) path _ d h p = absurd h
  from_dict-plain (dataclass name fields) path _ d h p = absurd h
  from_dict-plain _ path v d h p = absurd (cc)

  pub fields_from_dict-plain :
      (fields : Fields) (path : String) (ms obj : Members)
      → are_distinct fields ≡ true
      → HasFields fields ms
      → HoldPlain ms
      → Reads ms obj
      → fields_from_dict fields path obj ≡ ok ms
  fields_from_dict-plain done path no_members obj d h p r = refl
  fields_from_dict-plain (field_of name valid is_optional type fields) path (member n v ms) obj d h
        p r =
      let (fresh, rest) =
        &&-true (is_fresh name fields) (is_distinct type && are_distinct fields) d in
      let (inner, others) = &&-true (is_distinct type) (are_distinct fields) rest in
      let full_name = join_field_path path name in
      let loads = from_dict-plain type full_name v inner in
      let here =
        field_value-plain valid is_optional (HasType type) full_name (from_dict type full_name) v
          h.1 (λ t. loads t p.0) in
      let there = fields_from_dict-plain fields path ms obj others h.2 p.1 r.1 in
      let reads : get name obj ≡ plain v = ap (λ x. get x obj) (sym h.0) ∙ r.0 in
      rw (reads, here, there, h.0)
  fields_from_dict-plain done path (member n v ms) obj d h p r = absurd h
  fields_from_dict-plain (field_of name valid is_optional type fields) path no_members obj d h p r =
      absurd h

-- An instance of a class whose fields have different names at every depth, with what the descriptions
-- of the fields ask of its attributes, and in whose dicts no member is `None`, is written by
-- `to_dict`, and `from_dict` with the class reads the dict as that instance.
pub from_dict-to_dict :
    (name : String) (fields : Fields) (path : String) (v : Any)
    → is_distinct (dataclass name fields) ≡ true
    → HasType (dataclass name fields) v
    → IsPlain v
    → (to_dict v ≡ ok (plain v)) × (from_dict (dataclass name fields) path (plain v) ≡ ok v)
unfolding to_dict HasType
from_dict-to_dict name fields path (instance_of c ms) d h p =
    (refl, from_dict-plain (dataclass name fields) path (instance_of c ms) d h p)
from_dict-to_dict name fields path _ d h p = absurd h

fresh_remove :
    (fields : Fields) (k : String) (ks : List String)
    → is_fresh k fields ≡ true
    → unknown_fields fields (k ∷ ks) ≡ k ∷ unknown_fields fields ks
unfolding unknown_fields remove
fresh_remove done k ks f = refl
fresh_remove (field_of name valid is_optional type fields) k ks f =
    let (differ, rest) = &&-true (not (str_eq name k)) (is_fresh k fields) f in
    rw (not-true (str_eq name k) differ) (fresh_remove fields k (remove name ks) rest)

-- A dict that `to_dict` writes of such an instance, with one more member whose key is no field of the
-- class, is not read: the error is `unknown_field`, at the path of the key.
pub from_dict-unknown_field :
    (name : String) (fields : Fields) (path : String) (ms : Members) (key : String) (extra : Any)
    → is_distinct (dataclass name fields) ≡ true
    → HasType (dataclass name fields) (instance_of name ms)
    → IsPlain (instance_of name ms)
    → is_fresh key fields ≡ true
    → from_dict (dataclass name fields) path (dict (member key extra (plain_members ms)))
      ≡ err (field_error_at unknown_field (join_field_path path key))
unfolding from_dict HasType IsPlain is_distinct keys least
from_dict-unknown_field name fields path ms key extra d h p f =
    let reads = plain_members-Reads fields ms h.1 d in
    let obj = member key extra (plain_members ms) in
    let more =
      Reads-member ms key extra (plain_members ms) (HasFields-Lacks key fields ms h.1 f) reads in
    let values = fields_from_dict-plain fields path ms obj d h.1 p more in
    let names = fresh_remove fields key (keys (plain_members ms)) f in
    rw (values, names, unknown_fields-plain fields ms h.1 d)
