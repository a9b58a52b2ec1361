-- ===== src/Identifier/ConvertBits/Steps.antt =====
-- One step of `_convertbits` in each direction: a byte completes one group or two, a group one byte or
-- none.
use client_sdk_python.Base.{
  ℕ, zero, suc, ◌+◌, ◌*◌, ◌/◌, ◌%◌, ◌^◌, ◌<◌, ◌≡◌, refl, true, false, Option, none, some, List, [],
  ◌∷◌, arith, bit_and, bit_or,
}
use client_sdk_python.Base.Bits.{bit_and_mask, bit_or_below}
use client_sdk_python.Identifier.Checksum.Create.{IsDigit}
use client_sdk_python.Identifier.ConvertBits.{push, padded, before, convert_from}

-- What the accumulator is after a byte, and after a group.
pub push_byte : (acc v : ℕ) → v < 256 → push 8 5 acc v ≡ (acc * 256 + v) % 4096
push_byte acc v h = omega (arith, bit_and_mask 12 (bit_or (acc * 2 ^ 8) v), bit_or_below 8 acc v h)

pub push_group : (acc g : ℕ) → g < 32 → push 5 8 acc g ≡ (acc * 32 + g) % 4096
push_group acc g h = omega (arith, bit_and_mask 12 (bit_or (acc * 2 ^ 5) g), bit_or_below 5 acc g h)

pub group-IsDigit : (x : ℕ) → IsDigit (bit_and x 31)
group-IsDigit x = omega (arith, bit_and_mask 5 x)

before-nil : (r : Option (List ℕ)) → before [] r ≡ r
before-nil none = refl
before-nil (some out) = refl

byte_fits : (v : ℕ) → v < 256 → v / 2 ^ 8 ≡ 0
byte_fits v h = omega arith

group_fits : (g : ℕ) → g < 32 → g / 2 ^ 5 ≡ 0
group_fits g h = omega arith

-- A byte completes one group, and `left` bits are left, or two.
pub one_group :
    (left acc v : ℕ) (vs : List ℕ)
    → v < 256
    → left < 2
    → convert_from 8 5 true acc left (v ∷ vs)
      ≡ before
          (bit_and (push 8 5 acc v / 2 ^ (left + 3)) 31 ∷ [])
          (convert_from 8 5 true (push 8 5 acc v) (left + 3) vs)
unfolding convert_from
one_group zero acc v vs h k = rw (byte_fits v h)
one_group (suc zero) acc v vs h k = rw (byte_fits v h)
one_group (suc (suc n)) acc v vs h k = absurd (omega arith)

pub two_groups :
    (left acc v : ℕ) (vs : List ℕ)
    → v < 256
    → left < 3
    → convert_from 8 5 true acc (suc (suc left)) (v ∷ vs)
      ≡ before
          (bit_and (push 8 5 acc v / 2 ^ (left + 5)) 31
            ∷ bit_and (push 8 5 acc v / 2 ^ left) 31
            ∷ [])
          (convert_from 8 5 true (push 8 5 acc v) left vs)
unfolding convert_from
two_groups zero acc v vs h k = rw (byte_fits v h)
two_groups (suc zero) acc v vs h k = rw (byte_fits v h)
two_groups (suc (suc zero)) acc v vs h k = rw (byte_fits v h)
two_groups (suc (suc (suc n))) acc v vs h k = absurd (omega arith)

-- A group completes no byte, or one, with `left` bits left.
pub quiet :
    (bits acc g : ℕ) (gs : List ℕ)
    → g < 32
    → bits < 3
    → convert_from 5 8 false acc bits (g ∷ gs)
      ≡ convert_from 5 8 false (push 5 8 acc g) (bits + 5) gs
unfolding convert_from
quiet zero acc g gs h k = rw (group_fits g h) (before-nil _)
quiet (suc zero) acc g gs h k = rw (group_fits g h) (before-nil _)
quiet (suc (suc zero)) acc g gs h k = rw (group_fits g h) (before-nil _)
quiet (suc (suc (suc n))) acc g gs h k = absurd (omega arith)

pub one_byte :
    (left acc g : ℕ) (gs : List ℕ)
    → g < 32
    → left < 5
    → convert_from 5 8 false acc (suc (suc (suc left))) (g ∷ gs)
      ≡ before
          (bit_and (push 5 8 acc g / 2 ^ left) 255 ∷ [])
          (convert_from 5 8 false (push 5 8 acc g) left gs)
unfolding convert_from
one_byte zero acc g gs h k = rw (group_fits g h)
one_byte (suc zero) acc g gs h k = rw (group_fits g h)
one_byte (suc (suc zero)) acc g gs h k = rw (group_fits g h)
one_byte (suc (suc (suc zero))) acc g gs h k = rw (group_fits g h)
one_byte (suc (suc (suc (suc zero)))) acc g gs h k = rw (group_fits g h)
one_byte (suc (suc (suc (suc (suc n))))) acc g gs h k = absurd (omega arith)

-- At the end the bits that are left over are zero.
pub nothing_left :
    (left acc : ℕ) → left < 5 → padded 8 acc left ≡ 0 → convert_from 5 8 false acc left [] ≡ some []
unfolding convert_from
nothing_left zero acc h e = rw e
nothing_left (suc zero) acc h e = rw e
nothing_left (suc (suc zero)) acc h e = rw e
nothing_left (suc (suc (suc zero))) acc h e = rw e
nothing_left (suc (suc (suc (suc zero)))) acc h e = rw e
nothing_left (suc (suc (suc (suc (suc n))))) acc h e = absurd (omega arith)
