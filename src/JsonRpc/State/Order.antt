-- ===== src/JsonRpc/State/Order.antt =====
-- A state is never replaced by an older one.
use client_sdk_python.Base.{
  ◌≡◌, refl, sym, ap, ◌∙◌, subst, Bool, true, false, ◌&&◌, not, ◌⊎◌, inl, inr, Option, none, some,
  if◌then◌else◌, ==_iff, Outcome, ok, err, ok-injective, arith,
}
use client_sdk_python.Base.Int.{ℤ, pos, negsuc}
use client_sdk_python.JsonRpc.State.{
  ClientError, State, lt_int, eq_int, eq_chain, check_timestamp, check_version,
  update_last_known_state,
}

pub lt_int_trans : (a b c : ℤ) → lt_int b a ≡ false → lt_int c b ≡ false → lt_int c a ≡ false
lt_int_trans (pos a) (pos b) (pos c) h k = ground (arith, h, k)
lt_int_trans (negsuc a) (negsuc b) (negsuc c) h k = ground (arith, h, k)
lt_int_trans (pos a) (pos b) (negsuc c) h k = absurd (cc)
lt_int_trans (pos a) (negsuc b) c h k = absurd (cc)
lt_int_trans (negsuc a) b (pos c) h k = refl
lt_int_trans (negsuc a) (pos b) (negsuc c) h k = absurd (cc)

pub lt_int_refl : (a : ℤ) → lt_int a a ≡ false
lt_int_refl (pos a) = ground arith
lt_int_refl (negsuc a) = ground arith

pub eq_int_sound : (a b : ℤ) → eq_int a b ≡ true → a ≡ b
eq_int_sound (pos a) (pos b) h = ap pos ((==_iff a b).0 h)
eq_int_sound (negsuc a) (negsuc b) h = ap negsuc ((==_iff a b).0 h)
eq_int_sound (pos a) (negsuc b) h = absurd (cc)
eq_int_sound (negsuc a) (pos b) h = absurd (cc)

pub eq_chain_sound : (a b : Option ℤ) → eq_chain a b ≡ true → a ≡ b
eq_chain_sound none none h = refl
eq_chain_sound none (some b) h = absurd (cc)
eq_chain_sound (some a) none h = absurd (cc)
eq_chain_sound (some a) (some b) h = ap some (eq_int_sound a b h)

-- The second state is of the same chain, once the chain is known, and neither its version nor its
-- timestamp is before the first's.
abbrev pub IsNotOlder : State → State → Type 0
IsNotOlder s s' =
    ((s.chain_id ≡ some (negsuc 0)) ⊎ (s'.chain_id ≡ s.chain_id))
    × (lt_int s'.version s.version ≡ false)
    × (lt_int s'.timestamp_usecs s.timestamp_usecs ≡ false)

pub IsNotOlder-refl : (s : State) → IsNotOlder s s
IsNotOlder-refl s = (inr refl, lt_int_refl s.version, lt_int_refl s.timestamp_usecs)

chain_trans :
    (a b c : Option ℤ)
    → (a ≡ some (negsuc 0)) ⊎ (b ≡ a)
    → (b ≡ some (negsuc 0)) ⊎ (c ≡ b)
    → (a ≡ some (negsuc 0)) ⊎ (c ≡ a)
chain_trans a b c (inl unknown) later = inl unknown
chain_trans a b c (inr same) (inl unknown) = inl (sym same ∙ unknown)
chain_trans a b c (inr same) (inr same') = inr (same' ∙ same)

pub IsNotOlder-trans : (s s' s'' : State) → IsNotOlder s s' → IsNotOlder s' s'' → IsNotOlder s s''
IsNotOlder-trans s s' s'' h k = (
  chain_trans s.chain_id s'.chain_id s''.chain_id h.0 k.0,
  lt_int_trans s.version s'.version s''.version h.1 k.1,
  lt_int_trans s.timestamp_usecs s'.timestamp_usecs s''.timestamp_usecs h.2 k.2,
)

if_err_ok :
    {A : Type 0} (b : Bool) (e : ClientError) (o : Outcome ClientError A) {a : A}
    → (if b then err e else o) ≡ ok a
    → (b ≡ false) × (o ≡ ok a)
if_err_ok true e o h = absurd (cc)
if_err_ok false e o h = (refl, h)

either : (p q : Bool) → (not p && not q) ≡ false → (p ≡ true) ⊎ (q ≡ true)
either true q h = inl refl
either false true h = inr refl
either false false h = absurd (cc)

-- What an update that succeeds has put in the state.
abbrev pub IsUpdate : State → Option ℤ → Option ℤ → Option ℤ → State → Type 0
IsUpdate curr chain version timestamp s =
    IsNotOlder curr s
    × (s.chain_id ≡ chain)
    × (version ≡ some s.version)
    × (timestamp ≡ some s.timestamp_usecs)

timestamp_ok :
    (curr : State) (chain : Option ℤ) (version : ℤ) (timestamp : Option ℤ) (s : State)
    → (curr.chain_id ≡ some (negsuc 0)) ⊎ (chain ≡ curr.chain_id)
    → lt_int version curr.version ≡ false
    → check_timestamp curr chain version timestamp ≡ ok s
    → IsUpdate curr chain (some version) timestamp s
timestamp_ok curr chain version none s known newer h = absurd (cc)
timestamp_ok curr chain version (some t) s known newer h =
    let made : State = record { chain_id = chain; version = version; timestamp_usecs = t } in
    let (later, whole) =
      if_err_ok (lt_int t curr.timestamp_usecs) ClientError.stale_response (ok made) h in
    subst (IsUpdate curr chain (some version) (some t)) (ok-injective whole)
      ((known, newer, later), refl, refl, refl)

version_ok :
    (curr : State) (chain version timestamp : Option ℤ) (s : State)
    → (curr.chain_id ≡ some (negsuc 0)) ⊎ (chain ≡ curr.chain_id)
    → check_version curr chain version timestamp ≡ ok s
    → IsUpdate curr chain version timestamp s
version_ok curr chain none timestamp s known h = absurd (cc)
version_ok curr chain (some v) timestamp s known h =
    let (newer, rest) =
      if_err_ok (lt_int v curr.version) ClientError.stale_response
        (check_timestamp curr chain v timestamp) h in
    timestamp_ok curr chain v timestamp s known newer rest

pub update_last_known_state_ok :
    (curr : State) (chain version timestamp : Option ℤ) (s : State)
    → update_last_known_state curr chain version timestamp ≡ ok s
    → IsUpdate curr chain version timestamp s
unfolding update_last_known_state
update_last_known_state_ok curr chain version timestamp s h =
    let unknown = eq_chain curr.chain_id (some (negsuc 0)) in
    let same = eq_chain curr.chain_id chain in
    let (agree, rest) =
      if_err_ok (not unknown && not same) ClientError.invalid_server_response
        (check_version curr chain version timestamp) h in
    let known : (curr.chain_id ≡ some (negsuc 0)) ⊎ (chain ≡ curr.chain_id) =
      elim (either unknown same agree) [
        | inl first ↦ inl (eq_chain_sound curr.chain_id (some (negsuc 0)) first)
        | inr equal ↦ inr (sym (eq_chain_sound curr.chain_id chain equal))
      ] in
    version_ok curr chain version timestamp s known rest
