-- ===== src/Offchain/Json/Plain.antt =====
-- What `to_dict` writes of an instance: the members of the dict are the attributes that are set.
use client_sdk_python.Base.{
  ◌≡◌, refl, sym, ap, ◌∙◌, subst, inl, inr, String, str_eq, eq_iff, Bool, true, false, not,
  not-true, Bool-cases, ◌&&◌, List, [], ◌∷◌,
}
use client_sdk_python.Identifier.Text.{&&-true}
use client_sdk_python.Offchain.Json.{
  Any, Anys, Members, null, bool, int, float, str, list, dict, instance_of, no_items, item,
  no_members, member, get, keys, is_null, asdict, asdict_items, asdict_members, delete_none,
  delete_none_items, delete_none_members,
}
use client_sdk_python.Offchain.Json.Schema.{
  FieldType, Fields, list_type, dataclass, done, field_of, ValidValues, is_valid,
}
use client_sdk_python.Offchain.Json.Load.{remove, unknown_fields}
use client_sdk_python.Offchain.Json.Typed.{HasType, HasFields, is_valid-compound}

-- `_delete_none` after `asdict`.
abbrev pub plain : Any → Any
plain v = delete_none (asdict v)

abbrev pub plain_items : Anys → Anys
plain_items vs = delete_none_items (asdict_items vs)

abbrev pub plain_members : Members → Members
plain_members ms = delete_none_members (asdict_members ms)

-- No dict that a field holds has a member that is `None`, or an instance in it.
unfoldable mutual
  pub IsPlain : Any → Type 0
  IsPlain (list vs) = ArePlain vs
  IsPlain (dict ms) = plain_members ms ≡ ms
  IsPlain (instance_of c ms) = HoldPlain ms
  IsPlain v = Unit {0}

  pub ArePlain : Anys → Type 0
  ArePlain no_items = Unit {0}
  ArePlain (item v vs) = IsPlain v × ArePlain vs

  pub HoldPlain : Members → Type 0
  HoldPlain no_members = Unit {0}
  HoldPlain (member n v ms) = IsPlain v × HoldPlain ms

-- No field of the name.
abbrev pub is_fresh : String → Fields → Bool
is_fresh name done = true
is_fresh name (field_of n valid is_optional type fields) =
    not (str_eq n name) && is_fresh name fields

-- The names of the fields of a class differ, at every depth.
unfoldable mutual
  pub is_distinct : FieldType → Bool
  is_distinct (list_type type) = is_distinct type
  is_distinct (dataclass name fields) = are_distinct fields
  is_distinct _ = true

  pub are_distinct : Fields → Bool
  are_distinct done = true
  are_distinct (field_of name valid is_optional type fields) =
      is_fresh name fields && (is_distinct type && are_distinct fields)

-- The members have no key of the name.
abbrev pub Lacks : String → Members → Type 0
Lacks name no_members = Unit {0}
Lacks name (member n v ms) = (str_eq n name ≡ false) × Lacks name ms

pub eq_sym_false : (a b : String) → str_eq a b ≡ false → str_eq b a ≡ false
eq_sym_false a b h = elim (Bool-cases (str_eq b a)) [
  | inr other ↦ other
  | inl same ↦ cc ((eq_iff b a).0 same, (eq_iff a a).1 refl, h)
]

pub HasFields-Lacks :
    (name : String) (fields : Fields) (ms : Members)
    → HasFields fields ms
    → is_fresh name fields ≡ true
    → Lacks name ms
unfolding HasType
HasFields-Lacks name done no_members h f = tt
HasFields-Lacks name (field_of n valid is_optional type fields) (member m v ms) h f =
    let (differ, rest) = &&-true (not (str_eq n name)) (is_fresh name fields) f in
    (rw h.0 (not-true (str_eq n name) differ), HasFields-Lacks name fields ms h.2 rest)
HasFields-Lacks name done (member m v ms) h f = absurd h
HasFields-Lacks name (field_of n valid is_optional type fields) no_members h f = absurd h

unset_member :
    (n : String) (v : Any) (ms : Members)
    → is_null v ≡ true
    → plain_members (member n v ms) ≡ plain_members ms
unfolding delete_none asdict
unset_member n null ms h = refl
unset_member n _ ms h = absurd (cc)

set_member :
    (n : String) (v : Any) (ms : Members)
    → is_null v ≡ false
    → plain_members (member n v ms) ≡ member n (plain v) (plain_members ms)
unfolding delete_none asdict
set_member n null ms h = absurd (cc)
set_member n (bool b) ms h = refl
set_member n (int i) ms h = refl
set_member n (float t) ms h = refl
set_member n (str s) ms h = refl
set_member n (list vs) ms h = refl
set_member n (dict ds) ms h = refl
set_member n (instance_of c as') ms h = refl

-- What is read of the members that are written.
pub get-other :
    (name n : String) (v : Any) (ms : Members)
    → str_eq name n ≡ false
    → get name (member n v ms) ≡ get name ms
unfolding get
get-other name n v ms h = rw h

pub get-same : (n : String) (v : Any) (ms : Members) → get n (member n v ms) ≡ v
unfolding get
get-same n v ms = rw ((eq_iff n n).1 refl)

is_null_eq : (v : Any) → is_null v ≡ true → v ≡ null
is_null_eq null h = refl
is_null_eq _ h = absurd (cc)

get-Lacks : (name : String) (ms : Members) → Lacks name ms → get name (plain_members ms) ≡ null
unfolding get delete_none asdict
get-Lacks name no_members h = refl
get-Lacks name (member n v ms) h = elim (Bool-cases (is_null v)) [
  | inl unset ↦ ap (get name) (unset_member n v ms unset) ∙ get-Lacks name ms h.1
  | inr set ↦
      ap (get name) (set_member n v ms set)
      ∙ get-other name n (plain v) (plain_members ms) (eq_sym_false n name h.0)
      ∙ get-Lacks name ms h.1
]

unset_plain : (v : Any) → is_null v ≡ true → plain v ≡ null
unfolding delete_none asdict
unset_plain null h = refl
unset_plain _ h = absurd (cc)

-- Of every member, the dict has the plain value.
abbrev pub Reads : Members → Members → Type 0
Reads no_members obj = Unit {0}
Reads (member n v ms) obj = (get n obj ≡ plain v) × Reads ms obj

pub Reads-member :
    (ms : Members) (n : String) (v : Any) (obj : Members)
    → Lacks n ms
    → Reads ms obj
    → Reads ms (member n v obj)
Reads-member no_members n v obj l r = tt
Reads-member (member m w ms) n v obj l r =
    (get-other m n v obj l.0 ∙ r.0, Reads-member ms n v obj l.1 r.1)

pub plain_members-Reads :
    (fields : Fields) (ms : Members)
    → HasFields fields ms
    → are_distinct fields ≡ true
    → Reads ms (plain_members ms)
unfolding HasType is_distinct
plain_members-Reads done no_members h d = tt
plain_members-Reads (field_of name valid is_optional type fields) (member n v ms) h d =
    let (fresh, rest) =
      &&-true (is_fresh name fields) (is_distinct type && are_distinct fields) d in
    let (inner, others) = &&-true (is_distinct type) (are_distinct fields) rest in
    let lacks : Lacks n ms = rw h.0 (HasFields-Lacks name fields ms h.2 fresh) in
    let reads = plain_members-Reads fields ms h.2 others in
    elim (Bool-cases (is_null v)) [
      | inl unset ↦
          subst (λ obj. (get n obj ≡ plain v) × Reads ms obj) (sym (unset_member n v ms unset))
            (get-Lacks n ms lacks ∙ sym (unset_plain v unset), reads)
      | inr set ↦
          subst (λ obj. (get n obj ≡ plain v) × Reads ms obj) (sym (set_member n v ms set))
            (
              get-same n (plain v) (plain_members ms),
              Reads-member ms n (plain v) (plain_members ms) lacks reads,
            )
    ]
plain_members-Reads done (member n v ms) h d = absurd h
plain_members-Reads (field_of name valid is_optional type fields) no_members h d = absurd h

-- Every name of a member is the name of a field.
remove-Lacks :
    (name : String) (ms : Members)
    → Lacks name ms
    → remove name (keys (plain_members ms)) ≡ keys (plain_members ms)
unfolding remove keys delete_none asdict
remove-Lacks name no_members h = refl
remove-Lacks name (member n v ms) h = elim (Bool-cases (is_null v)) [
  | inl unset ↦ rw (unset_member n v ms unset) (remove-Lacks name ms h.1)
  | inr set ↦ rw (set_member n v ms set, eq_sym_false n name h.0, remove-Lacks name ms h.1)
]

remove-first : (name : String) (ks : List String) → remove name (name ∷ ks) ≡ ks
unfolding remove
remove-first name ks = rw ((eq_iff name name).1 refl)

pub unknown_fields-plain :
    (fields : Fields) (ms : Members)
    → HasFields fields ms
    → are_distinct fields ≡ true
    → unknown_fields fields (keys (plain_members ms)) ≡ []
unfolding unknown_fields keys delete_none asdict HasType is_distinct
unknown_fields-plain done no_members h d = refl
unknown_fields-plain (field_of name valid is_optional type fields) (member n v ms) h d =
    let (fresh, rest) =
      &&-true (is_fresh name fields) (is_distinct type && are_distinct fields) d in
    let (inner, others) = &&-true (is_distinct type) (are_distinct fields) rest in
    let lacks = HasFields-Lacks name fields ms h.2 fresh in
    let known = unknown_fields-plain fields ms h.2 others in
    elim (Bool-cases (is_null v)) [
      | inl unset ↦
          ap (λ x. unknown_fields fields (remove name (keys x))) (unset_member n v ms unset)
          ∙ ap (unknown_fields fields) (remove-Lacks name ms lacks)
          ∙ known
      | inr set ↦
          ap (λ x. unknown_fields fields (remove name (keys x))) (set_member n v ms set)
          ∙ ap (λ x. unknown_fields fields (remove name (x ∷ keys (plain_members ms)))) h.0
          ∙ ap (unknown_fields fields) (remove-first name (keys (plain_members ms)))
          ∙ known
    ]
unknown_fields-plain done (member n v ms) h d = absurd h
unknown_fields-plain (field_of name valid is_optional type fields) no_members h d = absurd h

-- Valid values do not tell a value from what is written of it.
pub is_valid-plain : (valid : ValidValues) (v : Any) → is_valid valid (plain v) ≡ is_valid valid v
unfolding delete_none asdict
is_valid-plain valid (list vs) = is_valid-compound valid _ _ refl refl
is_valid-plain valid (dict ms) = is_valid-compound valid _ _ refl refl
is_valid-plain valid (instance_of c ms) = is_valid-compound valid _ _ refl refl
is_valid-plain valid _ = refl

pub is_null-plain : (v : Any) → is_null (plain v) ≡ is_null v
unfolding delete_none asdict
is_null-plain null = refl
is_null-plain (bool b) = refl
is_null-plain (int i) = refl
is_null-plain (float t) = refl
is_null-plain (str s) = refl
is_null-plain (list vs) = refl
is_null-plain (dict ms) = refl
is_null-plain (instance_of c ms) = refl

mutual
  unfolding delete_none asdict

  -- What is written is left as it is by writing it again.
  pub plain-plain : (v : Any) → plain (plain v) ≡ plain v
  plain-plain (list vs) = ap list (plain_items-plain vs)
  plain-plain (dict ms) = ap dict (plain_members-plain ms)
  plain-plain (instance_of c ms) = ap dict (plain_members-plain ms)
  plain-plain null = refl
  plain-plain (bool b) = refl
  plain-plain (int i) = refl
  plain-plain (float t) = refl
  plain-plain (str s) = refl

  plain_items-plain : (vs : Anys) → plain_items (plain_items vs) ≡ plain_items vs
  plain_items-plain no_items = refl
  plain_items-plain (item v vs) = rw (plain-plain v, plain_items-plain vs)

  pub plain_members-plain : (ms : Members) → plain_members (plain_members ms) ≡ plain_members ms
  plain_members-plain no_members = refl
  plain_members-plain (member n v ms) =
      let again = plain_members-plain ms in
      let value = plain-plain v in
      elim (Bool-cases (is_null v)) [
        | inl unset ↦
            ap plain_members (unset_member n v ms unset) ∙ again ∙ sym (unset_member n v ms unset)
        | inr set ↦
            ap plain_members (set_member n v ms set)
            ∙ set_member n (plain v) (plain_members ms) (is_null-plain v ∙ set)
            ∙ ap (λ x. member n x (plain_members (plain_members ms))) value
            ∙ ap (member n (plain v)) again
            ∙ sym (set_member n v ms set)
      ]
