-- ===== src/Identifier/ConvertBits/RoundTrip.antt =====
-- Bytes cut into groups of five bits and put together again.
use client_sdk_python.Base.{
  ℕ, ◌+◌, ◌*◌, ◌/◌, ◌%◌, ◌^◌, ◌≡◌, refl, ◌∙◌, true, false, some, List, [], ◌∷◌, All, IsByte, arith,
  bit_and, length,
}
use client_sdk_python.Base.Bits.{bit_and_mask}
use client_sdk_python.Identifier.Checksum.Create.{IsDigit}
use client_sdk_python.Identifier.ConvertBits.{push, padded, convert_from, convertbits}
use client_sdk_python.Identifier.ConvertBits.Steps.{
  push_byte, push_group, group-IsDigit, one_group, two_groups, quiet, one_byte, nothing_left,
}

-- The encoder with `bits` pending and the decoder that has read its groups: the groups still to come,
-- and what the decoder makes of them.
abbrev Rejoins : ℕ → ℕ → List ℕ → ℕ → ℕ → List ℕ → Type 0
Rejoins acc bits vs accd bitsd all =
    (out : List ℕ) × (convert_from 8 5 true acc bits vs ≡ some out)
    × All IsDigit out
    × (length out ≡ (8 * length vs + bits + 4) / 5)
    × (convert_from 5 8 false accd bitsd out ≡ some all)

mutual
  unfolding convert_from

  from_0 : (acc accd : ℕ) (vs : List ℕ) → All IsByte vs → Rejoins acc 0 vs accd 0 vs
  from_0 acc accd [] b = (
    [],
    refl,
    tt,
    omega arith,
    nothing_left 0 accd (omega arith) (omega (arith, bit_and_mask 8 (accd * 2 ^ 8))),
  )
  from_0 acc accd (v ∷ vs) b =
      let q = push 8 5 acc v in
      let pushed = push_byte acc v b.0 in
      let g = bit_and (q / 2 ^ 3) 31 in
      let hg = group-IsDigit (q / 2 ^ 3) in
      let cut = bit_and_mask 5 (q / 2 ^ 3) in
      let p = push 5 8 accd g in
      let read = push_group accd g hg in
      let (out, enc, digits, size, back) =
        from_3 q p v vs b.0 (omega (arith, pushed)) (omega (arith, pushed, cut, read)) b.1 in
      (
        g ∷ out,
        one_group 0 acc v vs b.0 (omega arith) ∙ rw enc,
        (hg, digits),
        omega (arith, size),
        quiet 0 accd g out hg (omega arith) ∙ back,
      )

  -- `w` is the byte that the decoder has begun.
  from_3 :
      (acc accd w : ℕ) (vs : List ℕ)
      → IsByte w
      → acc % 8 ≡ w % 8
      → accd % 32 ≡ w / 8
      → All IsByte vs
      → Rejoins acc 3 vs accd 5 (w ∷ vs)
  from_3 acc accd w [] hw low high b =
      let g = padded 5 acc 3 in
      let hg = group-IsDigit (acc * 2 ^ 2) in
      let cut = bit_and_mask 5 (acc * 2 ^ 2) in
      let p = push_group accd g hg in
      let byte : bit_and (push 5 8 accd g / 2 ^ 2) 255 ≡ w =
        omega (arith, bit_and_mask 8 (push 5 8 accd g / 2 ^ 2), p, cut) in
      let none_left : padded 8 (push 5 8 accd g) 2 ≡ 0 =
        omega (arith, bit_and_mask 8 (push 5 8 accd g * 2 ^ 6), p, cut) in
      (
        g ∷ [],
        refl,
        (hg, tt),
        omega arith,
        one_byte 2 accd g [] hg (omega arith)
            ∙ rw (nothing_left 2 (push 5 8 accd g) (omega arith) none_left, byte),
      )
  from_3 acc accd w (v ∷ vs) hw low high b =
      let q = push 8 5 acc v in
      let pushed = push_byte acc v b.0 in
      let g = bit_and (q / 2 ^ 6) 31 in
      let g' = bit_and (q / 2 ^ 1) 31 in
      let hg = group-IsDigit (q / 2 ^ 6) in
      let hg' = group-IsDigit (q / 2 ^ 1) in
      let cut = bit_and_mask 5 (q / 2 ^ 6) in
      let cut' = bit_and_mask 5 (q / 2 ^ 1) in
      let p = push 5 8 accd g in
      let read = push_group accd g hg in
      let p' = push 5 8 p g' in
      let read' = push_group p g' hg' in
      let byte : bit_and (p / 2 ^ 2) 255 ≡ w =
        omega (arith, bit_and_mask 8 (p / 2 ^ 2), pushed, cut, read) in
      let (out, enc, digits, size, back) =
        from_1 q p' v vs b.0 (omega (arith, pushed)) (omega (arith, pushed, cut, cut', read, read'))
          b.1 in
      (
        g ∷ g' ∷ out,
        two_groups 1 acc v vs b.0 (omega arith) ∙ rw enc,
        (hg, (hg', digits)),
        omega (arith, size),
        one_byte 2 accd g (g' ∷ out) hg (omega arith)
            ∙ rw (quiet 2 p g' out hg' (omega arith), back, byte),
      )

  -- `w` is the byte that the decoder has begun.
  from_1 :
      (acc accd w : ℕ) (vs : List ℕ)
      → IsByte w
      → acc % 2 ≡ w % 2
      → accd % 128 ≡ w / 2
      → All IsByte vs
      → Rejoins acc 1 vs accd 7 (w ∷ vs)
  from_1 acc accd w [] hw low high b =
      let g = padded 5 acc 1 in
      let hg = group-IsDigit (acc * 2 ^ 4) in
      let cut = bit_and_mask 5 (acc * 2 ^ 4) in
      let p = push_group accd g hg in
      let byte : bit_and (push 5 8 accd g / 2 ^ 4) 255 ≡ w =
        omega (arith, bit_and_mask 8 (push 5 8 accd g / 2 ^ 4), p, cut) in
      let none_left : padded 8 (push 5 8 accd g) 4 ≡ 0 =
        omega (arith, bit_and_mask 8 (push 5 8 accd g * 2 ^ 4), p, cut) in
      (
        g ∷ [],
        refl,
        (hg, tt),
        omega arith,
        one_byte 4 accd g [] hg (omega arith)
            ∙ rw (nothing_left 4 (push 5 8 accd g) (omega arith) none_left, byte),
      )
  from_1 acc accd w (v ∷ vs) hw low high b =
      let q = push 8 5 acc v in
      let pushed = push_byte acc v b.0 in
      let g = bit_and (q / 2 ^ 4) 31 in
      let hg = group-IsDigit (q / 2 ^ 4) in
      let cut = bit_and_mask 5 (q / 2 ^ 4) in
      let p = push 5 8 accd g in
      let read = push_group accd g hg in
      let byte : bit_and (p / 2 ^ 4) 255 ≡ w =
        omega (arith, bit_and_mask 8 (p / 2 ^ 4), pushed, cut, read) in
      let (out, enc, digits, size, back) =
        from_4 q p v vs b.0 (omega (arith, pushed)) (omega (arith, pushed, cut, read)) b.1 in
      (
        g ∷ out,
        one_group 1 acc v vs b.0 (omega arith) ∙ rw enc,
        (hg, digits),
        omega (arith, size),
        one_byte 4 accd g out hg (omega arith) ∙ rw (back, byte),
      )

  -- `w` is the byte that the decoder has begun.
  from_4 :
      (acc accd w : ℕ) (vs : List ℕ)
      → IsByte w
      → acc % 16 ≡ w % 16
      → accd % 16 ≡ w / 16
      → All IsByte vs
      → Rejoins acc 4 vs accd 4 (w ∷ vs)
  from_4 acc accd w [] hw low high b =
      let g = padded 5 acc 4 in
      let hg = group-IsDigit (acc * 2 ^ 1) in
      let cut = bit_and_mask 5 (acc * 2 ^ 1) in
      let p = push_group accd g hg in
      let byte : bit_and (push 5 8 accd g / 2 ^ 1) 255 ≡ w =
        omega (arith, bit_and_mask 8 (push 5 8 accd g / 2 ^ 1), p, cut) in
      let none_left : padded 8 (push 5 8 accd g) 1 ≡ 0 =
        omega (arith, bit_and_mask 8 (push 5 8 accd g * 2 ^ 7), p, cut) in
      (
        g ∷ [],
        refl,
        (hg, tt),
        omega arith,
        one_byte 1 accd g [] hg (omega arith)
            ∙ rw (nothing_left 1 (push 5 8 accd g) (omega arith) none_left, byte),
      )
  from_4 acc accd w (v ∷ vs) hw low high b =
      let q = push 8 5 acc v in
      let pushed = push_byte acc v b.0 in
      let g = bit_and (q / 2 ^ 7) 31 in
      let g' = bit_and (q / 2 ^ 2) 31 in
      let hg = group-IsDigit (q / 2 ^ 7) in
      let hg' = group-IsDigit (q / 2 ^ 2) in
      let cut = bit_and_mask 5 (q / 2 ^ 7) in
      let cut' = bit_and_mask 5 (q / 2 ^ 2) in
      let p = push 5 8 accd g in
      let read = push_group accd g hg in
      let p' = push 5 8 p g' in
      let read' = push_group p g' hg' in
      let byte : bit_and (p / 2 ^ 1) 255 ≡ w =
        omega (arith, bit_and_mask 8 (p / 2 ^ 1), pushed, cut, read) in
      let (out, enc, digits, size, back) =
        from_2 q p' v vs b.0 (omega (arith, pushed)) (omega (arith, pushed, cut, cut', read, read'))
          b.1 in
      (
        g ∷ g' ∷ out,
        two_groups 2 acc v vs b.0 (omega arith) ∙ rw enc,
        (hg, (hg', digits)),
        omega (arith, size),
        one_byte 1 accd g (g' ∷ out) hg (omega arith)
            ∙ rw (quiet 1 p g' out hg' (omega arith), back, byte),
      )

  -- `w` is the byte that the decoder has begun.
  from_2 :
      (acc accd w : ℕ) (vs : List ℕ)
      → IsByte w
      → acc % 4 ≡ w % 4
      → accd % 64 ≡ w / 4
      → All IsByte vs
      → Rejoins acc 2 vs accd 6 (w ∷ vs)
  from_2 acc accd w [] hw low high b =
      let g = padded 5 acc 2 in
      let hg = group-IsDigit (acc * 2 ^ 3) in
      let cut = bit_and_mask 5 (acc * 2 ^ 3) in
      let p = push_group accd g hg in
      let byte : bit_and (push 5 8 accd g / 2 ^ 3) 255 ≡ w =
        omega (arith, bit_and_mask 8 (push 5 8 accd g / 2 ^ 3), p, cut) in
      let none_left : padded 8 (push 5 8 accd g) 3 ≡ 0 =
        omega (arith, bit_and_mask 8 (push 5 8 accd g * 2 ^ 5), p, cut) in
      (
        g ∷ [],
        refl,
        (hg, tt),
        omega arith,
        one_byte 3 accd g [] hg (omega arith)
            ∙ rw (nothing_left 3 (push 5 8 accd g) (omega arith) none_left, byte),
      )
  from_2 acc accd w (v ∷ vs) hw low high b =
      let q = push 8 5 acc v in
      let pushed = push_byte acc v b.0 in
      let g = bit_and (q / 2 ^ 5) 31 in
      let g' = bit_and (q / 2 ^ 0) 31 in
      let hg = group-IsDigit (q / 2 ^ 5) in
      let hg' = group-IsDigit (q / 2 ^ 0) in
      let cut = bit_and_mask 5 (q / 2 ^ 5) in
      let cut' = bit_and_mask 5 (q / 2 ^ 0) in
      let p = push 5 8 accd g in
      let read = push_group accd g hg in
      let p' = push 5 8 p g' in
      let read' = push_group p g' hg' in
      let byte : bit_and (p / 2 ^ 3) 255 ≡ w =
        omega (arith, bit_and_mask 8 (p / 2 ^ 3), pushed, cut, read) in
      let byte' : bit_and (p' / 2 ^ 0) 255 ≡ v =
        omega (arith, bit_and_mask 8 (p' / 2 ^ 0), pushed, cut, cut', read, read') in
      let (out, enc, digits, size, back) = from_0 q p' vs b.1 in
      (
        g ∷ g' ∷ out,
        two_groups 0 acc v vs b.0 (omega arith) ∙ rw enc,
        (hg, (hg', digits)),
        omega (arith, size),
        one_byte 3 accd g (g' ∷ out) hg (omega arith)
            ∙ rw (one_byte 0 p g' out hg' (omega arith), back, byte, byte'),
      )

-- Bytes convert to groups of five bits, one for each five bits begun, and the groups convert back to
-- the bytes.
pub convertbits_lem :
    (bytes : List ℕ)
    → All IsByte bytes
    → (groups : List ℕ) × (convertbits bytes 8 5 true ≡ some groups)
      × All IsDigit groups
      × (length groups ≡ (8 * length bytes + 4) / 5)
      × (convertbits groups 5 8 false ≡ some bytes)
unfolding convertbits
convertbits_lem bytes b =
    let (out, enc, digits, size, back) = from_0 0 0 bytes b in
    (out, enc, digits, omega (arith, size), back)
