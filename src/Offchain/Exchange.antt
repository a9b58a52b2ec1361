-- ===== src/Offchain/Exchange.antt =====
-- Exchanges of valid commands: src/diem/offchain/payment_command.py over
-- src/diem/offchain/payment_state.py.
use client_sdk_python.Base.{ℕ, suc, ◌≤◌, ◌≡◌, sym, ◌∙◌, none, some, ok, ok-injective}
use client_sdk_python.Offchain.State.{State}
use client_sdk_python.Offchain.PaymentState.Progress.{Run, start, step, Run-bounded_from}
use client_sdk_python.Offchain.Deal.{IsSameDeal, payment_kept, IsSameDeal-refl, IsSameDeal-trans}
use client_sdk_python.Offchain.PaymentCommand.{PaymentCommand, state, validate}
use client_sdk_python.Offchain.Accepts.{validate_iff}
use client_sdk_python.Offchain.Accepts.First.{validate-none_iff}

-- A sequence of accepted commands: the first without a prior one, each other with the one before it.
pub data Exchange : PaymentCommand → ℕ → PaymentCommand → Type 0 where
  opened : (c : PaymentCommand) → validate c none ≡ ok tt → Exchange c 0 c
  updated :
      {c d e : PaymentCommand} {n : ℕ}
      → Exchange c n d
      → validate e (some d) ≡ ok tt
      → Exchange c (suc n) e

-- An exchange runs through the states of its commands.
Exchange-Run :
    {c d : PaymentCommand} {n : ℕ}
    → Exchange c n d
    → (s : State) × (t : State) × (state c ≡ ok s)
      × (state d ≡ ok t)
      × (s.id ≡ "S_INIT")
      × Run s n t
Exchange-Run (opened c h) =
    let (s, at, e, turn) = (validate-none_iff c).0 h in (s, s, at, at, e, start s)
Exchange-Run (updated {d = d} {e = e} run h) =
    let (s, t, at_s, at_t, initial, states) = Exchange-Run run in
    let (from, to, at_from, at_to, valid, turn, mine, write) = (validate_iff e d).0 h in
    let same : from ≡ t = ok-injective (sym at_from ∙ at_t) in
    (s, to, at_s, at_to, initial, step states (rw same at valid))

-- After the first accepted command of a payment at most six further ones are accepted.
pub Exchange-bounded : (c d : PaymentCommand) (n : ℕ) → Exchange c n d → n ≤ 6
Exchange-bounded c d n run =
    let (s, t, at_s, at_t, initial, states) = Exchange-Run run in
    Run-bounded_from s t n initial states

-- What comes after a command of an exchange: commands that are each accepted with the one before it.
pub data Follows : PaymentCommand → PaymentCommand → Type 0 where
  reached : (d : PaymentCommand) → Follows d d
  answered : {d e f : PaymentCommand} → Follows d e → validate f (some e) ≡ ok tt → Follows d f

Follows-IsSameDeal : {d e : PaymentCommand} → Follows d e → IsSameDeal e.payment d.payment
Follows-IsSameDeal (reached d) = IsSameDeal-refl d.payment
Follows-IsSameDeal (answered {d = d} {e = e} {f = f} run h) =
    let (from, to, at_from, at_to, valid, turn, mine, write) = (validate_iff f e).0 h in
    IsSameDeal-trans d.payment e.payment f.payment (Follows-IsSameDeal run)
      (payment_kept f.payment e.payment write)

-- The exchange goes on to every command that follows.
Exchange-Follows :
    {c d e : PaymentCommand} {n : ℕ} → Exchange c n d → Follows d e → (m : ℕ) × Exchange c m e
Exchange-Follows {n = n} run (reached d) = (n, run)
Exchange-Follows run (answered later h) =
    let (m, further) = Exchange-Follows run later in (suc m, updated further h)

-- Wherever an exchange has come to, a command that comes later, each accepted with the one before it, is
-- of the same exchange. It has the action, the original payment reference and both addresses as they were,
-- and the kyc data, additional kyc data, recipient signature and description that were set by then.
pub Exchange-IsSameDeal :
    (c d e : PaymentCommand) (n : ℕ)
    → Exchange c n d
    → Follows d e
    → (m : ℕ) × Exchange c m e × IsSameDeal e.payment d.payment
Exchange-IsSameDeal c d e n run later =
    let (m, further) = Exchange-Follows run later in (m, further, Follows-IsSameDeal later)
