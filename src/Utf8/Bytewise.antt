-- ===== src/Utf8/Bytewise.antt =====
-- One UTF-8 sequence in arithmetic: what the decoder step makes of two, three and four bytes.
use beagle.Base.{
  ℕ, zero, suc, ◌+◌, ◌-◌, ◌*◌, ◌%◌, ◌^◌, ◌≤◌, ◌<◌, ◌≡◌, refl, arith, bit_and, bit_or, Bool, true,
  false, not, ◌||◌, ◌&&◌, none, some, [], ◌∷◌, ltb, ◌==◌, if◌then◌else◌, All, ◌⊎◌, ap,
}
use beagle.Base.Bits.{bit_and_mask, bit_or_fields}
use beagle.Text.{Bytes}
use beagle.Utf8.{byte_at, between, lead, continue_value, refused, utf8_next}

-- A test on the numbers from `start` on, `count` of them.
tested : (ℕ → Bool) → ℕ → ℕ → Bool
tested test start zero = true
tested test start (suc count) = let further = tested test (start + 1) count in test start && further

tested_lem :
    (test : ℕ → Bool) (start count i : ℕ)
    → tested test start count ≡ true
    → i < count
    → test (start + i) ≡ true
unfolding tested
tested_lem test start zero i h inside = absurd (omega arith)
tested_lem test start (suc count) zero h inside =
    let e : start + 0 ≡ start = omega arith in rw e (ground (arith, h))
tested_lem test start (suc count) (suc i) h inside =
    let e : start + suc i ≡ start + 1 + i = omega arith in
    rw e (tested_lem test (start + 1) count i (ground (arith, h)) (omega arith))

abbrev same : Bool → Bool → Bool
same true b = b
same false b = not b

same→eq : (a b : Bool) → same a b ≡ true → a ≡ b
same→eq true true h = refl
same→eq true false h = cc
same→eq false true h = cc
same→eq false false h = refl

continuation_table : tested (λ b. same (bit_and b 0xc0 == 0x80) (between 0x80 0xbf b)) 0 256 ≡ true
unfolding tested
continuation_table = refl

-- The test on the two top bits is a test on a range.
pub continuation_bits : (b : ℕ) → b < 256 → bit_and b 0xc0 == 0x80 ≡ between 0x80 0xbf b
continuation_bits b h =
    let e : 0 + b ≡ b = omega arith in
    same→eq _ _ (rw e at (tested_lem _ 0 256 b continuation_table h))

-- Six more bits.
pub append_bits :
    (value b : ℕ)
    → value < 2 ^ 26
    → bit_or (value * 2 ^ 6 % 2 ^ 32) (bit_and b 0x3f) ≡ value * 64 + b % 64
append_bits value b h =
    let wide : value * 2 ^ 6 % 2 ^ 32 ≡ value * 2 ^ 6 = omega arith in
    rw (wide, bit_and_mask 6 b) (bit_or_fields 6 value (b % 64) (omega arith))

pub continue_value_step :
    (n at : ℕ) (bytes : Bytes) (value : ℕ)
    → value < 2 ^ 26
    → byte_at bytes at < 256
    → continue_value (suc n) at bytes value ≡ (
        if between 0x80 0xbf (byte_at bytes at)
        then continue_value n (at + 1) bytes (value * 64 + byte_at bytes at % 64)
        else none)
unfolding continue_value
continue_value_step n at bytes value small byte =
    rw (continuation_bits (byte_at bytes at) byte, append_bits value (byte_at bytes at) small) refl

pub continue_value-zero :
    (at : ℕ) (bytes : Bytes) (value : ℕ) → continue_value 0 at bytes value ≡ some value
unfolding continue_value
continue_value-zero at bytes value = refl

-- `lead` as ranges and remainders.
pub lead_lem :
    (b : ℕ)
    → lead b ≡ (
        if between 0xc2 0xdf b
        then some (b % 32, 1)
        else if between 0xe0 0xef b
        then some (b % 16, 2)
        else if between 0xf0 0xf4 b
        then some (b % 8, 3)
        else none)
unfolding lead
lead_lem b = rw (bit_and_mask 5 b, bit_and_mask 4 b, bit_and_mask 3 b) refl

abbrev pub IsBytes : Bytes → Type 0
IsBytes = All (λ b. b < 256)

pub byte_at-lt : (bytes : Bytes) (i : ℕ) → IsBytes bytes → byte_at bytes i < 256
byte_at-lt [] i h = omega arith
byte_at-lt (b ∷ bs) zero h = h.0
byte_at-lt (b ∷ bs) (suc i) h = byte_at-lt bs i h.1

-- The values of two, three and four bytes.
abbrev pub value2 : ℕ → ℕ → ℕ
value2 b c = b % 32 * 64 + c % 64

abbrev pub value3 : ℕ → ℕ → ℕ → ℕ
value3 b c d = (b % 16 * 64 + c % 64) * 64 + d % 64

abbrev pub value4 : ℕ → ℕ → ℕ → ℕ → ℕ
value4 b c d e = ((b % 8 * 64 + c % 64) * 64 + d % 64) * 64 + e % 64

module _ (bytes : Bytes) (is_bytes : IsBytes bytes) where
  continue_one :
      (at value : ℕ)
      → value < 2 ^ 26
      → continue_value 1 at bytes value ≡ (
          if between 0x80 0xbf (byte_at bytes at)
          then some (value * 64 + byte_at bytes at % 64)
          else none)
  continue_one at value small =
      rw
        (
          continue_value_step 0 at bytes value small (byte_at-lt bytes at is_bytes),
          continue_value-zero,
        )
        refl

  continue_two :
      (at value : ℕ)
      → value < 2 ^ 20
      → continue_value 2 at bytes value ≡ (
          if between 0x80 0xbf (byte_at bytes at) && between 0x80 0xbf (byte_at bytes (at + 1))
          then some ((value * 64 + byte_at bytes at % 64) * 64 + byte_at bytes (at + 1) % 64)
          else none)
  continue_two at value small =
      rw (continue_value_step 1 at bytes value (omega arith) (byte_at-lt bytes at is_bytes)) (
        rw (continue_one (at + 1) (value * 64 + byte_at bytes at % 64) (omega arith))
          (ground arith))

  continue_three :
      (at value : ℕ)
      → value < 2 ^ 14
      → continue_value 3 at bytes value ≡ (
          if between 0x80 0xbf (byte_at bytes at)
            && between 0x80 0xbf (byte_at bytes (at + 1))
            && between 0x80 0xbf (byte_at bytes (at + 1 + 1))
          then some (
              ((value * 64 + byte_at bytes at % 64) * 64 + byte_at bytes (at + 1) % 64) * 64
              + byte_at bytes (at + 1 + 1) % 64)
          else none)
  continue_three at value small =
      rw (continue_value_step 2 at bytes value (omega arith) (byte_at-lt bytes at is_bytes)) (
        rw (continue_two (at + 1) (value * 64 + byte_at bytes at % 64) (omega arith))
          (ground arith))

  module _ (count offset : ℕ) (inside : offset < count) where
    pub next_of_one :
        byte_at bytes offset < 0x80
        → utf8_next bytes count offset ≡ some (byte_at bytes offset, offset + 1)
    unfolding utf8_next
    next_of_one low = ground arith

    -- A leading byte that no sequence starts with.
    pub next_of_none :
        ((byte_at bytes offset < 0xc2) × (0x80 ≤ byte_at bytes offset))
          ⊎ (0xf4 < byte_at bytes offset)
        → utf8_next bytes count offset ≡ none
    unfolding utf8_next
    next_of_none bad = ground (arith, lead_lem (byte_at bytes offset))

    pub next_of_two :
        between 0xc2 0xdf (byte_at bytes offset) ≡ true
        → utf8_next bytes count offset ≡ (
            if (ltb (count - offset - 1) 1 || not (between 0x80 0xbf (byte_at bytes (offset + 1))))
            then none
            else some (value2 (byte_at bytes offset) (byte_at bytes (offset + 1)), offset + 2))
    unfolding utf8_next refused
    next_of_two h = ground (
      arith,
      lead_lem (byte_at bytes offset),
      continue_one (offset + 1) (byte_at bytes offset % 32) (omega arith),
    )

    at_two : byte_at bytes (offset + 1 + 1) ≡ byte_at bytes (offset + 2)
    at_two = ap (byte_at bytes) (omega arith)

    at_three : byte_at bytes (offset + 1 + 1 + 1) ≡ byte_at bytes (offset + 3)
    at_three = ap (byte_at bytes) (omega arith)

    pub next_of_three :
        between 0xe0 0xef (byte_at bytes offset) ≡ true
        → let v =
            value3
              (byte_at bytes offset)
              (byte_at bytes (offset + 1))
              (byte_at bytes (offset + 2)) in
          utf8_next bytes count offset ≡ (
            if (ltb (count - offset - 1) 2
              || not (between 0x80 0xbf (byte_at bytes (offset + 1)))
              || not (between 0x80 0xbf (byte_at bytes (offset + 2)))
              || ltb v 0x800
              || between 0xd800 0xdfff v)
            then none
            else some (v, offset + 3))
    unfolding utf8_next refused
    next_of_three h = ground (
      arith,
      lead_lem (byte_at bytes offset),
      at_two,
      continue_two (offset + 1) (byte_at bytes offset % 16) (omega arith),
    )

    pub next_of_four :
        between 0xf0 0xf4 (byte_at bytes offset) ≡ true
        → let v =
            value4
              (byte_at bytes offset)
              (byte_at bytes (offset + 1))
              (byte_at bytes (offset + 2))
              (byte_at bytes (offset + 3)) in
          utf8_next bytes count offset ≡ (
            if (ltb (count - offset - 1) 3
              || not (between 0x80 0xbf (byte_at bytes (offset + 1)))
              || not (between 0x80 0xbf (byte_at bytes (offset + 2)))
              || not (between 0x80 0xbf (byte_at bytes (offset + 3)))
              || ltb v 0x10000
              || ltb 0x10ffff v)
            then none
            else some (v, offset + 4))
    unfolding utf8_next refused
    next_of_four h = ground (
      arith,
      lead_lem (byte_at bytes offset),
      at_two,
      at_three,
      continue_three (offset + 1) (byte_at bytes offset % 8) (omega arith),
    )
