-- ===== src/Utf8/Valid.antt =====
-- `native_utf8_valid` against the decoder step: two routines of the program that share no code.
use beagle.Base.{ℕ, ◌+◌, ◌≤◌, ◌<◌, ◌≡◌, ◌⊎◌, inl, inr, arith, true, Option, none, some, dec_lt}
use beagle.Text.{Bytes}
use beagle.Utf8.{byte_at, between, utf8_next, sequence_length, continuation}
use beagle.Utf8.Bytewise.{
  IsBytes, next_of_one, next_of_two, next_of_three, next_of_four, next_of_none,
}

-- How far the decoder step and the validator go.
abbrev pub decoded_to : Option (ℕ × ℕ) → Option ℕ
decoded_to none = none
decoded_to (some (c, offset)) = some offset

abbrev pub taken_to : ℕ → Option ℕ → Option ℕ
taken_to i none = none
taken_to i (some n) = some (i + n)

module _ (bytes : Bytes) (is_bytes : IsBytes bytes) (count i : ℕ) (inside : i < count) where
  agree_two :
      between 0xc2 0xdf (byte_at bytes i) ≡ true
      → decoded_to (utf8_next bytes count i) ≡ taken_to i (sequence_length bytes count i)
  unfolding sequence_length continuation
  agree_two h = rw (next_of_two bytes is_bytes count i inside h) (ground arith)

  agree_three :
      between 0xe0 0xef (byte_at bytes i) ≡ true
      → decoded_to (utf8_next bytes count i) ≡ taken_to i (sequence_length bytes count i)
  unfolding sequence_length continuation
  agree_three h = rw (next_of_three bytes is_bytes count i inside h) (ground arith)

  agree_four :
      between 0xf0 0xf4 (byte_at bytes i) ≡ true
      → decoded_to (utf8_next bytes count i) ≡ taken_to i (sequence_length bytes count i)
  unfolding sequence_length continuation
  agree_four h = rw (next_of_four bytes is_bytes count i inside h) (ground arith)

  agree_one :
      byte_at bytes i < 0x80
      → decoded_to (utf8_next bytes count i) ≡ taken_to i (sequence_length bytes count i)
  unfolding sequence_length
  agree_one h = rw (next_of_one bytes is_bytes count i inside h) (ground arith)

  agree_none :
      ((byte_at bytes i < 0xc2) × (0x80 ≤ byte_at bytes i)) ⊎ (0xf4 < byte_at bytes i)
      → decoded_to (utf8_next bytes count i) ≡ taken_to i (sequence_length bytes count i)
  unfolding sequence_length
  agree_none h = rw (next_of_none bytes is_bytes count i inside h) (ground arith)

  -- Inside a text the decoder step and the validator take the same bytes, and refuse the same ones.
  pub decoded-sequence_length :
      decoded_to (utf8_next bytes count i) ≡ taken_to i (sequence_length bytes count i)
  decoded-sequence_length = elim (dec_lt (byte_at bytes i) 0x80) [
    | yes ascii ↦ agree_one ascii
    | no above ↦ elim (dec_lt (byte_at bytes i) 0xc2) [
      | yes low ↦ agree_none (inl (low, omega arith))
      | no above₂ ↦ elim (dec_lt (byte_at bytes i) 0xe0) [
        | yes two ↦ agree_two (ground arith)
        | no above₃ ↦ elim (dec_lt (byte_at bytes i) 0xf0) [
          | yes three ↦ agree_three (ground arith)
          | no above₄ ↦ elim (dec_lt 0xf4 (byte_at bytes i)) [
            | yes high ↦ agree_none (inr high)
            | no four ↦ agree_four (ground arith)
          ]
        ]
      ]
    ]
  ]
