-- ===== src/Collection/Examples.antt =====
-- Hashes with known values, and texts as keys.
use beagle.Base.{ℕ, ◌≡◌, refl, [], ◌∷◌, true, false, arith}
use beagle.Text.{Bytes, blob}
use beagle.Collection.{of_keyword}
use beagle.Collection.Keys.{Memory, hash_offset, hash_byte, hash_bytes, f64_equal}
use beagle.Collection.Keys.Laws.{ByBytes, textual-ByBytes}
use beagle.Collection.Samples.{nothing}

-- FNV-1a of "a"
hash_of_a : hash_bytes hash_offset (b'a' ∷ []) ≡ 0xaf63dc4c8601ec8c
unfolding hash_bytes hash_byte
hash_of_a = refl

-- The zeros are equal, and NaN differs from itself.
zeros_are_equal : f64_equal 0 0x8000000000000000 ≡ true
unfolding f64_equal
zeros_are_equal = refl

nan_differs : f64_equal 0x7ff8000000000000 0x7ff8000000000000 ≡ false
unfolding f64_equal
nan_differs = refl

-- Two blobs with the bytes "hi", at 8 and at 16.
abbrev greetings : ℕ → Bytes
greetings p = b'h' ∷ b'i' ∷ []

abbrev handles : Memory ℕ
handles = record { bool_of = λ a. false; word_of = λ a. a; text_of = λ a. blob a (greetings a) }

textual-ByBytes_example : ByBytes handles nothing greetings of_keyword 8 16
textual-ByBytes_example =
    textual-ByBytes handles nothing greetings of_keyword 8 16 refl
      (8, λ e. absurd (omega (arith, e)), refl) (16, λ e. absurd (omega (arith, e)), refl)
