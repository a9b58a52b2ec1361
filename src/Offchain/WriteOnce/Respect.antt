-- ===== src/Offchain/WriteOnce/Respect.antt =====
-- What the write checks mean: a relation between a new and a prior object.
use client_sdk_python.Base.{
  ◌≡◌, ◌↔◌, ◌⊎◌, inl, inr, refl, sym, String, str_eq, eq_iff, Option, none, some, List, [], ◌∷◌,
  ◌++◌, Outcome, ok, err, ◌>>◌, Bool-cases, arith, subst, some-injective,
}
use client_sdk_python.Base.Int.{ℤ}
use client_sdk_python.Offchain.Objects.{
  Obj, Objs, Attrs, null, str, int, list, instance_of, end, attr, get_attr, obj_eq, obj_eq→eq,
  obj_eq_refl,
}
use client_sdk_python.Offchain.WriteOnce.{
  Mark, Marks, plain, write_once, immutable, OverwriteError, with_prior, check_mark,
  validate_write_once_fields, validate_fields,
}

-- What a mark asks of a field: an immutable field keeps its value, a write-once field keeps it once it
-- is set.
abbrev pub Keeps : Mark → Obj → Obj → Type 0
Keeps plain new prior = Unit
Keeps write_once new prior = (prior ≡ null) ⊎ (new ≡ prior)
Keeps immutable new prior = new ≡ prior

-- `Respects marks new prior`: wherever both objects have an instance of a class, all marked fields of
-- the new one keep the prior value, and so on below.
mutual
  pub data Respects (marks : Marks) : Obj → Obj → Type 0 where
    new_absent : (prior : Obj) → Respects marks null prior
    prior_absent : (new : Obj) → Respects marks new null
    text : (a b : String) → Respects marks (str a) (str b)
    number : (a b : ℤ) → Respects marks (int a) (int b)
    items : (a b : Objs) → Respects marks (list a) (list b)
    fields :
        (c : String) (a b : Attrs)
        → RespectsFields marks c a b
        → Respects marks (instance_of c a) (instance_of c b)

  pub data RespectsFields (marks : Marks) : String → Attrs → Attrs → Type 0 where
    none_left : (c : String) (prior : Attrs) → RespectsFields marks c end prior
    one :
        (c name : String) (new old : Obj) (news prior : Attrs)
        → get_attr name prior ≡ some old
        → Keeps (marks c name) new old
        → Respects marks new old
        → RespectsFields marks c news prior
        → RespectsFields marks c (attr name new news) prior

check_mark-Keeps :
    (mark : Mark) (path : List String) (new prior : Obj) {r : Unit {0}}
    → check_mark mark path new prior ≡ ok r
    → Keeps mark new prior
unfolding check_mark
check_mark-Keeps plain path new prior e = tt
check_mark-Keeps write_once path new null e = inl refl
check_mark-Keeps write_once path new prior e = elim (Bool-cases (obj_eq prior new)) [
  | inl same ↦ inr (sym (obj_eq→eq prior new same))
  | inr other ↦ absurd (ground arith)
]
check_mark-Keeps immutable path new prior e = elim (Bool-cases (obj_eq prior new)) [
  | inl same ↦ sym (obj_eq→eq prior new same)
  | inr other ↦ absurd (ground arith)
]

Keeps-check_mark :
    (mark : Mark) (path : List String) (new prior : Obj)
    → Keeps mark new prior
    → check_mark mark path new prior ≡ ok tt
unfolding check_mark
Keeps-check_mark plain path new prior h = refl
Keeps-check_mark write_once path new prior (inl e) = rw e
Keeps-check_mark write_once path new prior (inr e) = rw (e, obj_eq_refl prior) (ground arith)
Keeps-check_mark immutable path new prior e = rw (e, obj_eq_refl prior)

abbrev Check : Type 0
Check = Outcome OverwriteError (Unit {0})

both_ok : (a b : Check) → (a >> b) ≡ ok tt → (a ≡ ok tt) × (b ≡ ok tt)
both_ok (ok tt) b e = (refl, e)
both_ok (err x) b e = absurd (cc)

-- A field that passed: the prior object has it, and each of the three checks passed.
attribute :
    (found : Option Obj) (check nested : Obj → Check) (rest : Check)
    → with_prior found check nested rest ≡ ok tt
    → (old : Obj) × (found ≡ some old) × (check old ≡ ok tt) × (nested old ≡ ok tt) × (rest ≡ ok tt)
attribute none check nested rest e = absurd (cc)
attribute (some old) check nested rest e =
    let (front, last) = both_ok (check old >> nested old) rest e in
    let (first, second) = both_ok (check old) (nested old) front in (old, refl, first, second, last)

module _ (marks : Marks) where
  mutual
    unfolding validate_write_once_fields

    validate-Respects :
        (path : List String) (new prior : Obj)
        → validate_write_once_fields marks path new prior ≡ ok tt
        → Respects marks new prior
    validate-Respects path null prior e = new_absent prior
    validate-Respects path (str a) null e = prior_absent (str a)
    validate-Respects path (str a) (str b) e = text a b
    validate-Respects path (str a) _ e = absurd (cc)
    validate-Respects path (int a) null e = prior_absent (int a)
    validate-Respects path (int a) (int b) e = number a b
    validate-Respects path (int a) _ e = absurd (cc)
    validate-Respects path (list a) null e = prior_absent (list a)
    validate-Respects path (list a) (list b) e = items a b
    validate-Respects path (list a) _ e = absurd (cc)
    validate-Respects path (instance_of c a) null e = prior_absent (instance_of c a)
    validate-Respects path (instance_of c a) (instance_of d b) e = elim (Bool-cases (str_eq c d)) [
      | inl same ↦
          rw (← (eq_iff c d).0 same)
            (fields c a b (validate-RespectsFields path c a b (rw same at e)))
      | inr other ↦ absurd (ground arith)
    ]
    validate-Respects path (instance_of c a) _ e = absurd (cc)

    validate-RespectsFields :
        (path : List String) (c : String) (new prior : Attrs)
        → validate_fields marks path c new prior ≡ ok tt
        → RespectsFields marks c new prior
    validate-RespectsFields path c end prior e = none_left c prior
    validate-RespectsFields path c (attr name new news) prior e =
        let (old, at, kept, nested, rest) =
          attribute (get_attr name prior) (check_mark (marks c name) (path ++ (name ∷ [])) new)
            (validate_write_once_fields marks (path ++ (name ∷ [])) new)
            (validate_fields marks path c news prior) e in
        one c name new old news prior at
          (check_mark-Keeps (marks c name) (path ++ (name ∷ [])) new old kept)
          (validate-Respects (path ++ (name ∷ [])) new old nested)
          (validate-RespectsFields path c news prior rest)

  mutual
    unfolding validate_write_once_fields

    Respects-validate :
        (path : List String) (new prior : Obj)
        → Respects marks new prior
        → validate_write_once_fields marks path new prior ≡ ok tt
    Respects-validate path null prior h = refl
    Respects-validate path (str a) _ (prior_absent _) = refl
    Respects-validate path (str a) _ (text _ b) = refl
    Respects-validate path (int a) _ (prior_absent _) = refl
    Respects-validate path (int a) _ (number _ b) = refl
    Respects-validate path (list a) _ (prior_absent _) = refl
    Respects-validate path (list a) _ (items _ b) = refl
    Respects-validate path (instance_of c a) _ (prior_absent _) = refl
    Respects-validate path (instance_of c a) _ (fields _ _ b h) =
        rw ((eq_iff c c).1 refl) (RespectsFields-validate path c a b h)

    RespectsFields-validate :
        (path : List String) (c : String) (new prior : Attrs)
        → RespectsFields marks c new prior
        → validate_fields marks path c new prior ≡ ok tt
    RespectsFields-validate path c end prior h = refl
    RespectsFields-validate path c (attr name new news) prior (one _ _ _ old _ _ at keeps h hs) =
        rw (
          at,
          with_prior,
          Keeps-check_mark (marks c name) (path ++ (name ∷ [])) new old keeps,
          Respects-validate (path ++ (name ∷ [])) new old h,
          RespectsFields-validate path c news prior hs,
        )

  -- The write checks pass exactly where every immutable field keeps its value, every write-once field
  -- that was set keeps its value, and no field changes its type.
  pub validate_write_once_fields_iff :
      (path : List String) (new prior : Obj)
      → (validate_write_once_fields marks path new prior ≡ ok tt) ↔ Respects marks new prior
  validate_write_once_fields_iff path new prior =
      (validate-Respects path new prior, Respects-validate path new prior)

-- What the relation says of one field.
pub RespectsFields-get_attr :
    (marks : Marks) (c name : String) {x y : Obj} (news prior : Attrs)
    → RespectsFields marks c news prior
    → get_attr name news ≡ some x
    → get_attr name prior ≡ some y
    → Keeps (marks c name) x y × Respects marks x y
unfolding get_attr
RespectsFields-get_attr marks c name end prior h ex ey = absurd (cc)
RespectsFields-get_attr marks c name {x} {y} (attr n new news) prior
      (one _ _ _ old _ _ at keeps h hs) ex ey =
    elim (Bool-cases (str_eq n name)) [
      | inl same ↦ here ((eq_iff n name).0 same) (rw same at ex)
      | inr other ↦ RespectsFields-get_attr marks c name news prior hs (rw other at ex) ey
    ]
  where
    here : n ≡ name → some new ≡ some x → Keeps (marks c name) x y × Respects marks x y
    here en e =
        let new-x : new ≡ x = some-injective _ _ e in
        let old-y : old ≡ y = some-injective _ _ (cc (at, ey, en)) in
        subst (λ b. Keeps (marks c name) x b × Respects marks x b) old-y
          (subst (λ a. Keeps (marks c name) a old × Respects marks a old) new-x
            (subst (λ m. Keeps (marks c m) new old) en keeps, h))
