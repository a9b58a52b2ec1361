-- ===== src/Offchain/State.antt =====
-- The generic state machine of src/diem/offchain/state.py: conditions on an object, states that carry a
-- condition, and machines.
use client_sdk_python.Base.{
  String, str_eq, Bool, true, false, ◌&&◌, ◌||◌, not, Option, none, some, List, [], ◌∷◌, ◌++◌,
  if◌then◌else◌, Outcome, ok, err, ◌>>=◌,
}
use client_sdk_python.Offchain.Objects.{Obj, instance_of, get_attr, obj_eq, is_none}

-- `path.split(".")`: the names in order.
abbrev pub FieldPath : Type 0
FieldPath = List String

pub record MatchResult : Type 0 where
  pub success : Bool
  pub matched_fields : List FieldPath
  pub mismatched_fields : List FieldPath

abbrev pub create : Bool → List FieldPath → MatchResult
create success fields = record {
  success = success;
  matched_fields = if success then fields else [];
  mismatched_fields = if success then [] else fields;
}

abbrev pub merge : MatchResult → MatchResult → MatchResult
merge a b = record {
  success = a.success && b.success;
  matched_fields = a.matched_fields ++ b.matched_fields;
  mismatched_fields = a.mismatched_fields ++ b.mismatched_fields;
}

-- `Field(path, not_set)`, `Value(path, value)`, and `Require(conds, validation)` without and with a
-- validation.
mutual
  pub data Condition : Type 0 where
    field : FieldPath → Bool → Condition
    value : FieldPath → Obj → Condition
    require : Conditions → Condition
    require_valid : Conditions → Condition → Condition

  pub data Conditions : Type 0 where
    nil : Conditions
    cons : Condition → Conditions → Conditions

-- The loop of `Field.match` and `Value.match`: the value at the path, or `none` where an object on the
-- way is `None` or lacks the attribute.
unfoldable pub resolve : FieldPath → Obj → Option Obj
resolve [] val = some val
resolve (f ∷ fs) (instance_of c attrs) = elim (get_attr f attrs) [
  | none ↦ none
  | some v ↦ resolve fs v
]
resolve (f ∷ fs) _ = none

unfoldable pub match_field : FieldPath → Bool → Obj → MatchResult
match_field path not_set obj = elim (resolve path obj) [
  | none ↦ create false (path ∷ [])
  | some val ↦ create (if not_set then is_none val else not (is_none val)) (path ∷ [])
]

unfoldable pub match_value : FieldPath → Obj → Obj → MatchResult
match_value path expected obj = elim (resolve path obj) [
  | none ↦ create false (path ∷ [])
  | some val ↦ create (obj_eq val expected) (path ∷ [])
]

-- `if ret.success and self.validation`: merge the validation's result, and raise if it fails.
abbrev pub validated :
    MatchResult → Outcome MatchResult MatchResult → Outcome MatchResult MatchResult
validated ret checked =
    if ret.success
    then checked
      >>= (λ result. let both = merge ret result in if both.success then ok both else err both)
    else ok ret

-- `match`; the error is the result that `ConditionValidationError` carries.
unfoldable mutual
  pub match_condition : Condition → Obj → Outcome MatchResult MatchResult
  match_condition (field path not_set) obj = ok (match_field path not_set obj)
  match_condition (value path expected) obj = ok (match_value path expected obj)
  match_condition (require conds) obj = match_all conds (create true []) obj
  match_condition (require_valid conds validation) obj = do
    ret ← match_all conds (create true []) obj
    validated ret (match_condition validation obj)

  pub match_all : Conditions → MatchResult → Obj → Outcome MatchResult MatchResult
  match_all nil ret obj = ok ret
  match_all (cons cond conds) ret obj = do
    result ← match_condition cond obj
    match_all conds (merge ret result) obj

pub record State : Type 0 where
  pub id : String
  pub condition : Option Condition

pub record Transition : Type 0 where
  pub state : State
  pub to : State

-- States of one machine differ in their ids, so `==` on states is `==` on ids.
abbrev pub state_eq : State → State → Bool
state_eq s t = str_eq s.id t.id

unfoldable pub match_in_state : State → Obj → Outcome MatchResult MatchResult
match_in_state s obj = elim s.condition [
  | none ↦ ok (create true [])
  | some c ↦ match_condition c obj
]

pub record Machine : Type 0 where
  pub initials : List State
  pub states : List State
  pub transitions : List Transition

-- `state in states`
unfoldable pub contains : State → List State → Bool
contains s [] = false
contains s (t ∷ ts) = state_eq t s || contains s ts

unfoldable pub is_initial : Machine → State → Bool
is_initial m s = contains s m.initials

unfoldable pub has_transition : List Transition → State → State → Bool
has_transition [] s to = false
has_transition (t ∷ ts) s to = (state_eq t.state s && state_eq t.to to) || has_transition ts s to

unfoldable pub is_valid_transition : Machine → State → State → Bool
is_valid_transition m s to = has_transition m.transitions s to

-- Exceptions of `match_state`. A `ConditionValidationError` carries its result.
pub data MatchError : Type 0 where
  condition_validation_error : MatchResult → MatchError
  no_state_matched too_many_states_matched : MatchError

-- `match_states`: every state is matched, in order, before the successful ones are kept.
unfoldable pub match_states : List State → Obj → Outcome MatchResult (List State)
match_states [] obj = ok []
match_states (s ∷ ss) obj = do
  result ← match_in_state s obj
  matched ← match_states ss obj
  ok (if result.success then s ∷ matched else matched)

abbrev pub only_one : Outcome MatchResult (List State) → Outcome MatchError State
only_one (err result) = err (condition_validation_error result)
only_one (ok []) = err no_state_matched
only_one (ok (s ∷ [])) = ok s
only_one (ok (s ∷ t ∷ ss)) = err too_many_states_matched

unfoldable pub match_state : Machine → Obj → Outcome MatchError State
match_state m obj = only_one (match_states m.states obj)

-- `states[s.id] = s` on a dict, which keeps the place of a key that it has.
unfoldable pub put : State → List State → List State
put s [] = s ∷ []
put s (t ∷ ts) = if state_eq t s then s ∷ ts else t ∷ put s ts

unfoldable pub states_of : List Transition → List State → List State
states_of [] states = states
states_of (t ∷ ts) states = states_of ts (put t.to (put t.state states))

unfoldable pub targets_of : List Transition → List State → List State
targets_of [] tos = tos
targets_of (t ∷ ts) tos = targets_of ts (put t.to tos)

-- `set(states.keys()) - set(tos.keys())`; the order of a set is not specified.
unfoldable pub without : List State → List State → List State
without [] tos = []
without (s ∷ ss) tos = if contains s tos then without ss tos else s ∷ without ss tos

unfoldable pub build_machine : List Transition → Machine
unfolding put states_of targets_of contains without
build_machine transitions = record {
  initials = without (states_of transitions []) (targets_of transitions []);
  states = states_of transitions [];
  transitions = transitions;
}
