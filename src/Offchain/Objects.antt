-- ===== src/Offchain/Objects.antt =====
-- The Python objects of src/diem/offchain/types: strings, integers, lists, and instances of
-- dataclasses, which the code walks by `hasattr`, `getattr` and `dataclasses.fields`.
use client_sdk_python.Base.{
  ◌≡◌, refl, ap, String, str_eq, eq_iff, Bool, true, false, ◌&&◌, Option, none, some, if◌then◌else◌,
  ◌==◌, arith,
}
use client_sdk_python.Base.Int.{ℤ, pos, negsuc}

-- The attributes of an instance are its fields, in the order of the class.
mutual
  pub data Obj : Type 0 where
    null : Obj
    str : String → Obj
    int : ℤ → Obj
    list : Objs → Obj
    instance_of : String → Attrs → Obj

  pub data Objs : Type 0 where
    nil : Objs
    cons : Obj → Objs → Objs

  pub data Attrs : Type 0 where
    end : Attrs
    attr : String → Obj → Attrs → Attrs

-- `getattr`, and `none` where `hasattr` is false.
unfoldable pub get_attr : String → Attrs → Option Obj
get_attr name end = none
get_attr name (attr n v as') = if str_eq n name then some v else get_attr name as'

-- `x is None`
abbrev pub is_none : Obj → Bool
is_none null = true
is_none _ = false

unfoldable pub int_eq : ℤ → ℤ → Bool
int_eq (pos a) (pos b) = a == b
int_eq (pos a) (negsuc b) = false
int_eq (negsuc a) (pos b) = false
int_eq (negsuc a) (negsuc b) = a == b

-- Python's `==`: a dataclass compares the class and the fields.
unfoldable mutual
  unfolding int_eq

  pub obj_eq : Obj → Obj → Bool
  obj_eq null null = true
  obj_eq (str a) (str b) = str_eq a b
  obj_eq (int a) (int b) = int_eq a b
  obj_eq (list a) (list b) = objs_eq a b
  obj_eq (instance_of c a) (instance_of d b) = str_eq c d && attrs_eq a b
  obj_eq _ _ = false

  pub objs_eq : Objs → Objs → Bool
  objs_eq nil nil = true
  objs_eq (cons a as') (cons b bs) = obj_eq a b && objs_eq as' bs
  objs_eq _ _ = false

  pub attrs_eq : Attrs → Attrs → Bool
  attrs_eq end end = true
  attrs_eq (attr m a as') (attr n b bs) = (str_eq m n && obj_eq a b) && attrs_eq as' bs
  attrs_eq _ _ = false

int_eq→eq : (a b : ℤ) → int_eq a b ≡ true → a ≡ b
unfolding int_eq
int_eq→eq (pos a) (pos b) e = ground arith
int_eq→eq (pos a) (negsuc b) e = cc
int_eq→eq (negsuc a) (pos b) e = cc
int_eq→eq (negsuc a) (negsuc b) e = ground arith

int_eq_refl : (a : ℤ) → int_eq a a ≡ true
unfolding int_eq
int_eq_refl (pos a) = ground arith
int_eq_refl (negsuc a) = ground arith

and→both : (a b : Bool) → (a && b) ≡ true → (a ≡ true) × (b ≡ true)
and→both true b e = (refl, e)
and→both false b e = cc

mutual
  unfolding obj_eq

  pub obj_eq→eq : (a b : Obj) → obj_eq a b ≡ true → a ≡ b
  obj_eq→eq null null e = refl
  obj_eq→eq (str a) (str b) e = ap str ((eq_iff a b).0 e)
  obj_eq→eq (int a) (int b) e = ap int (int_eq→eq a b e)
  obj_eq→eq (list a) (list b) e = ap list (objs_eq→eq a b e)
  obj_eq→eq (instance_of c a) (instance_of d b) e =
      let (same, rest) = and→both (str_eq c d) (attrs_eq a b) e in
      cc ((eq_iff c d).0 same, attrs_eq→eq a b rest)
  obj_eq→eq _ _ e = cc

  objs_eq→eq : (a b : Objs) → objs_eq a b ≡ true → a ≡ b
  objs_eq→eq nil nil e = refl
  objs_eq→eq (cons a as') (cons b bs) e =
      let (same, rest) = and→both (obj_eq a b) (objs_eq as' bs) e in
      cc (obj_eq→eq a b same, objs_eq→eq as' bs rest)
  objs_eq→eq _ _ e = cc

  attrs_eq→eq : (a b : Attrs) → attrs_eq a b ≡ true → a ≡ b
  attrs_eq→eq end end e = refl
  attrs_eq→eq (attr m a as') (attr n b bs) e =
      let (front, rest) = and→both (str_eq m n && obj_eq a b) (attrs_eq as' bs) e in
      let (name, value) = and→both (str_eq m n) (obj_eq a b) front in
      cc ((eq_iff m n).0 name, obj_eq→eq a b value, attrs_eq→eq as' bs rest)
  attrs_eq→eq _ _ e = cc

mutual
  unfolding obj_eq

  pub obj_eq_refl : (a : Obj) → obj_eq a a ≡ true
  obj_eq_refl null = refl
  obj_eq_refl (str a) = (eq_iff a a).1 refl
  obj_eq_refl (int a) = int_eq_refl a
  obj_eq_refl (list a) = objs_eq_refl a
  obj_eq_refl (instance_of c a) = rw ((eq_iff c c).1 refl) (attrs_eq_refl a)

  objs_eq_refl : (a : Objs) → objs_eq a a ≡ true
  objs_eq_refl nil = refl
  objs_eq_refl (cons a as') = rw (obj_eq_refl a) (objs_eq_refl as')

  attrs_eq_refl : (a : Attrs) → attrs_eq a a ≡ true
  attrs_eq_refl end = refl
  attrs_eq_refl (attr n a as') = rw ((eq_iff n n).1 refl, obj_eq_refl a) (attrs_eq_refl as')
