-- ===== src/Offchain/Json.antt =====
-- The values that `to_dict` and `from_dict` of src/diem/offchain/types/__init__.py walk: what the json
-- module gives and takes, and instances of dataclasses.
pub mod Schema
pub mod Load
pub mod Plain
pub mod Typed
pub mod RoundTrip
pub mod Command
pub mod Read
pub mod Payment
pub mod Responses
pub mod Sample
mod Tests
pub mod Fields
use client_sdk_python.Base.{
  String, str_eq, Bool, true, false, ◌&&◌, Option, none, some, List, [], ◌∷◌, if◌then◌else◌,
  Outcome, ok, err, ◌>>=◌,
}
use client_sdk_python.Base.Int.{ℤ}
use client_sdk_python.Offchain.Objects.{Obj, Objs, Attrs, nil, cons, end, attr}

-- A `float` is its `repr`. The members of a dict, and the attributes of an instance, are
-- in order; a key stands once.
mutual
  pub data Any : Type 0 where
    null : Any
    bool : Bool → Any
    int : ℤ → Any
    float : String → Any
    str : String → Any
    list : Anys → Any
    dict : Members → Any
    instance_of : String → Members → Any

  pub data Anys : Type 0 where
    no_items : Anys
    item : Any → Anys → Anys

  pub data Members : Type 0 where
    no_members : Members
    member : String → Any → Members → Members

-- `obj.get(name)`, where `None` stands for a missing key.
unfoldable pub get : String → Members → Any
get name no_members = null
get name (member n v ms) = let rest = get name ms in if str_eq name n then v else rest

-- `list(obj.keys())`
unfoldable pub keys : Members → List String
keys no_members = []
keys (member n v ms) = n ∷ keys ms

abbrev pub is_null : Any → Bool
is_null null = true
is_null _ = false

-- `dataclasses.asdict`, on a dataclass and on what is in it.
unfoldable mutual
  pub asdict : Any → Any
  asdict (list vs) = list (asdict_items vs)
  asdict (dict ms) = dict (asdict_members ms)
  asdict (instance_of c ms) = dict (asdict_members ms)
  asdict v = v

  pub asdict_items : Anys → Anys
  asdict_items no_items = no_items
  asdict_items (item v vs) = item (asdict v) (asdict_items vs)

  pub asdict_members : Members → Members
  asdict_members no_members = no_members
  asdict_members (member n v ms) = member n (asdict v) (asdict_members ms)

-- A member stays unless its value is `None`.
abbrev pub member_unless_none : String → Any → Any → Members → Members
member_unless_none n null cleaned ms = ms
member_unless_none n _ cleaned ms = member n cleaned ms

unfoldable mutual
  pub delete_none : Any → Any
  delete_none (list vs) = list (delete_none_items vs)
  delete_none (dict ms) = dict (delete_none_members ms)
  delete_none v = v

  pub delete_none_items : Anys → Anys
  delete_none_items no_items = no_items
  delete_none_items (item v vs) = item (delete_none v) (delete_none_items vs)

  pub delete_none_members : Members → Members
  delete_none_members no_members = no_members
  delete_none_members (member n v ms) =
      member_unless_none n v (delete_none v) (delete_none_members ms)

-- `dataclasses.asdict` raises a `TypeError` on what is not an instance of a dataclass.
pub data AsdictError : Type 0 where
  not_dataclass : AsdictError

unfoldable pub asdict_or_raise : Any → Outcome AsdictError Any
asdict_or_raise (instance_of c ms) = ok (asdict (instance_of c ms))
asdict_or_raise v = err not_dataclass

-- `list(map(dataclasses.asdict, obj))`
unfoldable pub asdict_each : Anys → Outcome AsdictError Anys
unfolding asdict_or_raise
asdict_each no_items = ok no_items
asdict_each (item v vs) = do d ← asdict_or_raise v; ds ← asdict_each vs; ok (item d ds)

unfoldable pub to_dict : Any → Outcome AsdictError Any
unfolding asdict_each
to_dict (instance_of c ms) = ok (delete_none (asdict (instance_of c ms)))
to_dict (list vs) = do raw ← asdict_each vs; ok (delete_none (list raw))
to_dict v = ok (delete_none v)

-- The typed objects of Offchain/Objects among these values.
unfoldable mutual
  pub embed : Obj → Any
  embed Obj.null = null
  embed (Obj.str s) = str s
  embed (Obj.int i) = int i
  embed (Obj.list vs) = list (embed_items vs)
  embed (Obj.instance_of c as') = instance_of c (embed_attrs as')

  pub embed_items : Objs → Anys
  embed_items nil = no_items
  embed_items (cons v vs) = item (embed v) (embed_items vs)

  pub embed_attrs : Attrs → Members
  embed_attrs end = no_members
  embed_attrs (attr n v as') = member n (embed v) (embed_attrs as')
