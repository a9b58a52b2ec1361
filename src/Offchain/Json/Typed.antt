-- ===== src/Offchain/Json/Typed.antt =====
-- What it means that a value is an instance of a dataclass as its fields are described, and that
-- `from_dict` gives nothing else.
use client_sdk_python.Base.{
  ◌≡◌, refl, sym, ◌∙◌, subst, ◌⊎◌, inl, inr, String, str_eq, Bool, true, false, not, Bool-cases,
  List, [], ◌∷◌, if◌then◌else◌, Outcome, ok, err, ◌>>◌, raise_if, >>=-eq-ok, ok-injective,
}
use client_sdk_python.Offchain.Json.{
  Any, Anys, Members, null, str, list, dict, instance_of, no_items, item, no_members, member, get,
  keys, is_null,
}
use client_sdk_python.Offchain.Json.Schema.{
  FieldType, Fields, str_type, int_type, dict_type, list_type, dataclass, done, field_of,
  ValidValues, any_value, one_of, pattern_of, Literal, is_valid, is_one_of, literal_eq,
}
use client_sdk_python.Offchain.Json.Load.{
  LoadError, is_str, is_int, is_dict, expect, as_list, each_item, from_dict, fields_from_dict,
  field_value_from_dict, join_field_path, field_error_at, raise_if_unknown, unknown_fields,
  missing_field, invalid_field_value,
}

abbrev pub AllItems : (Any → Type 0) → Anys → Type 0
AllItems P no_items = Unit {0}
AllItems P (item v vs) = P v × AllItems P vs

-- A field is `None` only if its type is optional; else the valid values have its value, and the
-- value has the type.
abbrev pub FieldHas : ValidValues → Bool → (Any → Type 0) → Any → Type 0
FieldHas valid is_optional T v =
    ((is_optional ≡ true) × (v ≡ null)) ⊎ ((is_null v ≡ false) × (is_valid valid v ≡ true) × T v)

unfoldable mutual
  pub HasType : FieldType → Any → Type 0
  HasType str_type v = is_str v ≡ true
  HasType int_type v = is_int v ≡ true
  HasType dict_type v = is_dict v ≡ true
  HasType (list_type type) (list vs) = AllItems (HasType type) vs
  HasType (list_type type) v = ⊥
  HasType (dataclass name fields) (instance_of c ms) = (c ≡ name) × HasFields fields ms
  HasType (dataclass name fields) v = ⊥

  pub HasFields : Fields → Members → Type 0
  HasFields done no_members = Unit {0}
  HasFields (field_of name valid is_optional type fields) (member n v ms) =
      (n ≡ name) × FieldHas valid is_optional (HasType type) v × HasFields fields ms
  HasFields done (member n v ms) = ⊥
  HasFields (field_of name valid is_optional type fields) no_members = ⊥

-- What `json.loads` gives: no instance of a class is in it.
unfoldable mutual
  pub IsJson : Any → Type 0
  IsJson (list vs) = AreJson vs
  IsJson (dict ms) = HoldJson ms
  IsJson (instance_of c ms) = ⊥
  IsJson v = Unit {0}

  pub AreJson : Anys → Type 0
  AreJson no_items = Unit {0}
  AreJson (item v vs) = IsJson v × AreJson vs

  pub HoldJson : Members → Type 0
  HoldJson no_members = Unit {0}
  HoldJson (member n v ms) = IsJson v × HoldJson ms

get-IsJson : (name : String) (ms : Members) → HoldJson ms → IsJson (get name ms)
unfolding get IsJson
get-IsJson name no_members h = tt
get-IsJson name (member n v ms) h = elim (Bool-cases (str_eq name n)) [
  | inl same ↦ rw same h.0
  | inr other ↦ rw other (get-IsJson name ms h.1)
]

expected :
    (b : Bool) (path : String) (v : Any) {w : Any} → expect b path v ≡ ok w → (b ≡ true) × (v ≡ w)
expected true path v h = (refl, ok-injective h)
expected false path v h = absurd (cc)

listed :
    (o : Outcome LoadError Anys) {w : Any}
    → as_list o ≡ ok w
    → (ws : Anys) × (o ≡ ok ws) × (list ws ≡ w)
listed (ok ws) h = (ws, refl, ok-injective h)
listed (err e) h = absurd (cc)

each_item-All :
    (P : Any → Type 0) (load : Any → Outcome LoadError Any) (vs : Anys) (ws : Anys)
    → AreJson vs
    → ((v w : Any) → IsJson v → load v ≡ ok w → P w)
    → each_item load vs ≡ ok ws
    → AllItems P ws
unfolding each_item IsJson
each_item-All P load no_items ws j each h = subst (AllItems P) (ok-injective h) tt
each_item-All P load (item v vs) ws j each h =
    let (w, got, k) = >>=-eq-ok (load v) _ h in
    let (rest, gots, k') = >>=-eq-ok (each_item load vs) _ k in
    subst (AllItems P) (ok-injective k')
      (each v w j.0 got, each_item-All P load vs rest j.1 each gots)

-- A list, a dict or an instance, which no literal equals and no pattern is tried on.
abbrev pub is_compound : Any → Bool
is_compound (list vs) = true
is_compound (dict ms) = true
is_compound (instance_of c ms) = true
is_compound _ = false

no_literal : (v : Any) (ls : List Literal) → is_compound v ≡ true → is_one_of v ls ≡ false
unfolding is_one_of literal_eq
no_literal v [] h = refl
no_literal (list vs) (l ∷ ls) h = no_literal (list vs) ls h
no_literal (dict ms) (l ∷ ls) h = no_literal (dict ms) ls h
no_literal (instance_of c ms) (l ∷ ls) h = no_literal (instance_of c ms) ls h
no_literal _ (l ∷ ls) h = absurd (cc)

pub is_valid-compound :
    (valid : ValidValues) (v w : Any)
    → is_compound v ≡ true
    → is_compound w ≡ true
    → is_valid valid v ≡ is_valid valid w
unfolding is_valid
is_valid-compound any_value v w hv hw = refl
is_valid-compound (one_of ls) v w hv hw = no_literal v ls hv ∙ sym (no_literal w ls hw)
is_valid-compound (pattern_of m) v w hv hw = no_pattern v hv ∙ sym (no_pattern w hw)
  where
    no_pattern : (x : Any) → is_compound x ≡ true → is_valid (pattern_of m) x ≡ true
    no_pattern (str s) h = absurd (cc)
    no_pattern (list vs) h = refl
    no_pattern (dict ms) h = refl
    no_pattern (instance_of c ms) h = refl
    no_pattern _ h = absurd (cc)

-- The value that is loaded is the value given, or both are compound.
IsAlike : Any → Any → Type 0
IsAlike v w = (v ≡ w) ⊎ ((is_compound v ≡ true) × (is_compound w ≡ true))

from_dict-IsAlike :
    (type : FieldType) (path : String) (v w : Any) → from_dict type path v ≡ ok w → IsAlike v w
unfolding from_dict IsAlike
from_dict-IsAlike str_type path v w h = inl (expected (is_str v) path v h).1
from_dict-IsAlike int_type path v w h = inl (expected (is_int v) path v h).1
from_dict-IsAlike dict_type path v w h = inl (expected (is_dict v) path v h).1
from_dict-IsAlike (list_type type) path (list vs) w h =
    let (ws, got, made) = listed (each_item (from_dict type path) vs) h in
    inr (refl, subst (λ x. is_compound x ≡ true) made refl)
from_dict-IsAlike (dataclass name fields) path (dict ms) w h =
    let (values, got, k) = >>=-eq-ok (fields_from_dict fields path ms) _ h in
    let (u, got', k') = >>=-eq-ok (raise_if_unknown path (unknown_fields fields (keys ms))) _ k in
    inr (refl, subst (λ x. is_compound x ≡ true) (ok-injective k') refl)
from_dict-IsAlike (dataclass name fields) path (instance_of c ms) w h =
    inl (expected (str_eq c name) path (instance_of c ms) h).1
from_dict-IsAlike _ path v w h = absurd (cc)

alike_valid :
    (valid : ValidValues) (v w : Any)
    → IsAlike v w
    → is_null v ≡ false
    → is_valid valid v ≡ true
    → (is_null w ≡ false) × (is_valid valid w ≡ true)
unfolding IsAlike
alike_valid valid v w (inl same) set fine =
    subst (λ x. (is_null x ≡ false) × (is_valid valid x ≡ true)) same (set, fine)
alike_valid valid v w (inr (cv, cw)) set fine =
    (not_null w cw, sym (is_valid-compound valid v w cv cw) ∙ fine)
  where
    not_null : (x : Any) → is_compound x ≡ true → is_null x ≡ false
    not_null null h = absurd (cc)
    not_null _ h = refl

checked :
    (fine : Bool) (e : LoadError) (o : Outcome LoadError Any) {w : Any}
    → (raise_if (not fine) e >> o) ≡ ok w
    → (fine ≡ true) × (o ≡ ok w)
checked true e o h = (refl, h)
checked false e o h = absurd (cc)

absent :
    (is_optional : Bool) (e : LoadError) {w : Any}
    → (if is_optional then ok null else err e) ≡ ok w
    → (is_optional ≡ true) × (w ≡ null)
absent true e h = (refl, sym (ok-injective h))
absent false e h = absurd (cc)

module _ (valid : ValidValues) (is_optional : Bool) (type : FieldType) (path : String)
    (v w : Any) where
  field_branch :
      (unset : Bool)
      → is_null v ≡ unset
      → ((x : Any) → from_dict type path v ≡ ok x → HasType type x)
      → (if unset
          then (if is_optional then ok null else err (field_error_at missing_field path))
          else (raise_if (not (is_valid valid v)) (field_error_at invalid_field_value path)
              >> from_dict type path v))
        ≡ ok w
      → FieldHas valid is_optional (HasType type) w
  field_branch true set typed h = inl (absent is_optional _ h)
  field_branch false set typed h =
      let (fine, got) = checked (is_valid valid v) _ (from_dict type path v) h in
      let (set', fine') = alike_valid valid v w (from_dict-IsAlike type path v w got) set fine in
      inr (set', fine', typed w got)

  -- A field that is loaded has what its description says.
  field-Has :
      ((x : Any) → from_dict type path v ≡ ok x → HasType type x)
      → field_value_from_dict valid is_optional path (from_dict type path) v ≡ ok w
      → FieldHas valid is_optional (HasType type) w
  unfolding field_value_from_dict
  field-Has typed h = field_branch (is_null v) refl typed h

mutual
  unfolding from_dict HasType IsJson

  from_dict_typed :
      (type : FieldType) (path : String) (v w : Any)
      → IsJson v
      → from_dict type path v ≡ ok w
      → HasType type w
  from_dict_typed str_type path v w j h =
      let (fine, same) = expected (is_str v) path v h in subst (λ x. is_str x ≡ true) same fine
  from_dict_typed int_type path v w j h =
      let (fine, same) = expected (is_int v) path v h in subst (λ x. is_int x ≡ true) same fine
  from_dict_typed dict_type path v w j h =
      let (fine, same) = expected (is_dict v) path v h in subst (λ x. is_dict x ≡ true) same fine
  from_dict_typed (list_type type) path (list vs) w j h =
      let (ws, got, made) = listed (each_item (from_dict type path) vs) h in
      let each = from_dict_typed type path in
      subst (HasType (list_type type)) made
        (each_item-All (HasType type) (from_dict type path) vs ws j each got)
  from_dict_typed (dataclass name fields) path (dict ms) w j h =
      let (values, got, k) = >>=-eq-ok (fields_from_dict fields path ms) _ h in
      let (u, got', k') = >>=-eq-ok (raise_if_unknown path (unknown_fields fields (keys ms))) _ k in
      subst (HasType (dataclass name fields)) (ok-injective k')
        (refl, fields_from_dict-HasFields fields path ms values j got)
  from_dict_typed (dataclass name fields) path (instance_of c ms) w j h = absurd j
  from_dict_typed _ path v w j h = absurd (cc)

  fields_from_dict-HasFields :
      (fields : Fields) (path : String) (ms ws : Members)
      → HoldJson ms
      → fields_from_dict fields path ms ≡ ok ws
      → HasFields fields ws
  fields_from_dict-HasFields done path ms ws j h = subst (HasFields done) (ok-injective h) tt
  fields_from_dict-HasFields (field_of name valid is_optional type fields) path ms ws j h =
      let full_name = join_field_path path name in
      let load = from_dict type full_name in
      let first = field_value_from_dict valid is_optional full_name load (get name ms) in
      let (v, got, k) = >>=-eq-ok first _ h in
      let (values, got', k') = >>=-eq-ok (fields_from_dict fields path ms) _ k in
      let typed = from_dict_typed type full_name (get name ms) in
      let here =
        field-Has valid is_optional type full_name (get name ms) v
          (λ x. typed x (get-IsJson name ms j)) got in
      subst (HasFields (field_of name valid is_optional type fields)) (ok-injective k')
        (refl, here, fields_from_dict-HasFields fields path ms values j got')

-- What `from_dict` makes of a value that `json.loads` gives is an instance of the class: at every
-- depth the attributes are the fields of the class in order, a required field is not `None`, and
-- the values of the fields are valid and have the types of the fields.
pub from_dict-HasType :
    (type : FieldType) (path : String) (v w : Any)
    → IsJson v
    → from_dict type path v ≡ ok w
    → HasType type w
from_dict-HasType = from_dict_typed
