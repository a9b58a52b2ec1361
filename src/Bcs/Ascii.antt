-- ===== src/Bcs/Ascii.antt =====
-- A concrete codec for the runs on concrete data: UTF-8 on the texts that are ASCII.
use client_sdk_python.Base.{
  ℕ, ◌≡◌, ◌∙◌, ap, Option, none, some, some-injective, subst, sym, true, ltb, ltb→lt, all, All,
  IsByte, List, [], ◌∷◌, Bool-cases, inl, inr, arith, if◌then◌else◌,
}
use client_sdk_python.Bcs.Types.{Utf8, Utf8Laws}

abbrev ascii_only : List ℕ → Option (List ℕ)
ascii_only s = if all (λ b. ltb b 128) s then some s else none

-- UTF-8 on the texts that are ASCII.
abbrev pub ascii : Utf8
ascii = record { encode = ascii_only; decode = ascii_only }

ascii_only-same : (s bs : List ℕ) → ascii_only s ≡ some bs → s ≡ bs
ascii_only-same s bs e = elim (Bool-cases (all (λ b. ltb b 128) s)) [
  | inl plain ↦ some-injective _ _ (rw plain at e)
  | inr other ↦ absurd (ground arith)
]

all_ascii-IsByte : (s : List ℕ) → all (λ b. ltb b 128) s ≡ true → All IsByte s
all_ascii-IsByte [] e = tt
all_ascii-IsByte (b ∷ s) e = elim (Bool-cases (ltb b 128)) [
  | inl low ↦ (omega (arith, ltb→lt b 128 low), all_ascii-IsByte s (rw low at e))
  | inr high ↦ absurd (ground arith)
]

ascii_only-IsByte : (s bs : List ℕ) → ascii_only s ≡ some bs → All IsByte bs
ascii_only-IsByte s bs e = elim (Bool-cases (all (λ b. ltb b 128) s)) [
  | inl plain ↦ subst (All IsByte) (ascii_only-same s bs e) (all_ascii-IsByte s plain)
  | inr other ↦ absurd (ground arith)
]

ascii_only-swap : (s bs : List ℕ) → ascii_only s ≡ some bs → ascii_only bs ≡ some s
ascii_only-swap s bs e =
    let same = ascii_only-same s bs e in
    subst (λ t. ascii_only t ≡ some s) same (e ∙ ap some (sym same))

pub ascii-laws : Utf8Laws ascii
ascii-laws = record {
  decode-encode = ascii_only-swap;
  encode-decode = λ s bs e. ascii_only-swap bs s e;
  encode-IsByte = ascii_only-IsByte;
}
