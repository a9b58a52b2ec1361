-- ===== src/Identifier/Bech32/Detects.antt =====
-- A decoded address with one character changed is refused.
use client_sdk_python.Base.{Outcome-cases, err}
use client_sdk_python.Base.{inl, inr}
use client_sdk_python.Base.{not-false}
use client_sdk_python.Base.{
  ℕ, ◌≡◌, ◌≢◌, refl, sym, ap, ◌∙◌, Bool, true, false, ◌&&◌, ◌||◌, not, some, List, [], ◌∷◌, ◌++◌,
  All, all, length, ◌==◌, All-append, All-append_left, All-append_right, ok, raise_if, >>=-eq-ok,
  ok-injective,
}
use client_sdk_python.Identifier.Text.{Text, text_eq, find, contains, StrCase}
use client_sdk_python.Identifier.Checksum.{bech32_verify_checksum}
use client_sdk_python.Identifier.Checksum.Detects.{verify_checksum_single}
use client_sdk_python.Identifier.Bech32.{
  Bech32Error, or_raise, bech32_charset, bech32_separator, bech32_version, values_of,
  bech32_address_decode, decode_lower,
}
use client_sdk_python.Identifier.Bech32.Charset.{
  IsLower, or_raise_ok, find-IsDigit, find_injective, values_of-split, values_of-digits,
  values_of-cons,
}
use client_sdk_python.Identifier.Bech32.RoundTrip.{
  decode_after, decode_lower_lem, All-lower, lower_ascii-hrp,
}

raise_if_ok : (b : Bool) (e : Bech32Error) {u : Unit {0}} → raise_if b e ≡ ok u → b ≡ false
raise_if_ok true e h = absurd (cc)
raise_if_ok false e h = refl

clash : (b : Bool) → b ≡ true → b ≢ false
clash true h h' = absurd (cc)
clash false h h' = absurd (cc)

-- What is decoded has a checksum that verifies.
decode_after_ok :
    (hrp after : Text) (c : ℕ) {r : ℕ × List ℕ × List ℕ}
    → decode_after hrp c after ≡ ok r
    → (values : List ℕ) × (values_of (c ∷ after) ≡ ok values)
      × (bech32_verify_checksum hrp values ≡ true)
unfolding decode_after
decode_after_ok hrp after c h =
    let (u1, h1, k1) =
      >>=-eq-ok
        (raise_if (not (all (contains bech32_charset) (c ∷ after))) Bech32Error.bad_characters) _
        h in
    let (version, h2, k2) =
      >>=-eq-ok (or_raise (find bech32_charset c) Bech32Error.version_mismatch) _ k1 in
    let (u3, h3, k3) =
      >>=-eq-ok (raise_if (not (version == bech32_version)) Bech32Error.version_mismatch) _ k2 in
    let (values, h4, k4) = >>=-eq-ok (values_of after) _ k3 in
    let (u5, h5, k5) =
      >>=-eq-ok
        (raise_if (not (bech32_verify_checksum hrp (version ∷ values))) Bech32Error.bad_checksum) _
        k4 in
    (
      version ∷ values,
      values_of-cons c after (or_raise_ok _ _ h2) h4,
      not-false _ (raise_if_ok _ Bech32Error.bad_checksum h5),
    )

decode_lower_ok :
    (hrp before after : Text) (c : ℕ) {r : ℕ × List ℕ × List ℕ}
    → decode_lower hrp (hrp ++ (bech32_separator ∷ (before ++ (c ∷ after)))) ≡ ok r
    → (values : List ℕ) × (values_of (before ++ (c ∷ after)) ≡ ok values)
      × (bech32_verify_checksum hrp values ≡ true)
decode_lower_ok hrp [] after c h =
    decode_after_ok hrp after c (sym (decode_lower_lem hrp after c) ∙ h)
decode_lower_ok hrp (b ∷ before) after c h =
    decode_after_ok hrp (before ++ (c ∷ after)) b
      (sym (decode_lower_lem hrp (before ++ (c ∷ after)) b) ∙ h)

decode_ok :
    (case : StrCase) (hrp t : Text) {r : ℕ × List ℕ × List ℕ}
    → bech32_address_decode case hrp t ≡ ok r
    → decode_lower hrp (case.lower t) ≡ ok r
unfolding bech32_address_decode
decode_ok case hrp t h =
    let sized = raise_if (not (length t == 50 || length t == 49)) Bech32Error.bech32_size in
    let cased =
      raise_if (not (text_eq t (case.lower t)) && not (text_eq t (case.upper t)))
        Bech32Error.mixed_case in
    (>>=-eq-ok cased _ (>>=-eq-ok sized _ h).2).2

no_decoding :
    (case : StrCase) (hrp before after : Text) (c d : ℕ)
    → All IsLower (hrp ++ (bech32_separator ∷ (before ++ (c ∷ after))))
    → IsLower d
    → c ≢ d
    → (r : ℕ × List ℕ × List ℕ)
    → bech32_address_decode case hrp (hrp ++ (bech32_separator ∷ (before ++ (c ∷ after)))) ≡ ok r
    → (r' : ℕ × List ℕ × List ℕ)
    → bech32_address_decode case hrp (hrp ++ (bech32_separator ∷ (before ++ (d ∷ after)))) ≢ ok r'
no_decoding case hrp before after c d low low' apart r good r' wrong =
    let hrp_low = All-append_left IsLower hrp _ low in
    let tail_low = All-append_right IsLower hrp _ low in
    let front = All-append_left IsLower before _ tail_low.1 in
    let back = All-append_right IsLower before _ tail_low.1 in
    let changed = hrp ++ (bech32_separator ∷ (before ++ (d ∷ after))) in
    let changed_low =
      All-append IsLower hrp _ hrp_low
        (tail_low.0, All-append IsLower before _ front (low', back.1)) in
    let (vs, read, sum) =
      decode_lower_ok hrp before after c
        (sym (ap (decode_lower hrp) (All-lower _ case low)) ∙ decode_ok case hrp _ good) in
    let (ws, read', sum') = decode_lower_ok hrp before after d (
      sym (ap (decode_lower hrp) (All-lower changed case changed_low))
      ∙ decode_ok case hrp changed wrong) in
    let (bs, v, rest, hb, hv, ha, hvs) = values_of-split before after c read in
    let (bs', w, rest', hb', hw, ha', hws) = values_of-split before after d read' in
    let same_front : bs' ≡ bs = ok-injective (sym hb' ∙ hb) in
    let same_back : rest' ≡ rest = ok-injective (sym ha' ∙ ha) in
    let other : v ≢ w = λ e. apart (find_injective c d v hv (hw ∙ ap some (sym e))) in
    let refused =
      verify_checksum_single hrp bs v w rest (lower_ascii-hrp hrp hrp_low)
        (values_of-digits before hb) (values_of-digits after ha) (find-IsDigit c v hv)
        (find-IsDigit d w hw) other (ap (bech32_verify_checksum hrp) (sym hvs) ∙ sum) in
    let accepted : bech32_verify_checksum hrp (bs ++ (w ∷ rest)) ≡ true =
      rw (sym same_front, sym same_back) (ap (bech32_verify_checksum hrp) (sym hws) ∙ sum') in
    clash _ accepted refused

-- A lower-case text that decodes raises when one character after the separator is another lower-case
-- ASCII one.
pub bech32_address_decode_single :
    (case : StrCase) (hrp before after : Text) (c d : ℕ)
    → All IsLower (hrp ++ (bech32_separator ∷ (before ++ (c ∷ after))))
    → IsLower d
    → c ≢ d
    → (r : ℕ × List ℕ × List ℕ)
    → bech32_address_decode case hrp (hrp ++ (bech32_separator ∷ (before ++ (c ∷ after)))) ≡ ok r
    → (e : Bech32Error) × (bech32_address_decode case hrp
          (hrp ++ (bech32_separator ∷ (before ++ (d ∷ after))))
        ≡ err e)
bech32_address_decode_single case hrp before after c d low low' apart r good =
    let changed = hrp ++ (bech32_separator ∷ (before ++ (d ∷ after))) in
    elim (Outcome-cases (bech32_address_decode case hrp changed)) [
      | inl raised ↦ raised
      | inr (r', wrong) ↦
          absurd (no_decoding case hrp before after c d low low' apart r good r' wrong)
    ]
