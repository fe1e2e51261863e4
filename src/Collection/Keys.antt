-- ===== src/Collection/Keys.antt =====
-- native-core/shim/native_shim.c, the equality of maps and sets by its kind, and the hash of a key.
-- A key is memory, read as its kind says. Structural comparison and validation, by descriptors, are
-- operations that a caller supplies. A double is its 64 bits.
pub mod Laws
use beagle.Base.{
  ℕ, zero, suc, ◌+◌, ◌-◌, ◌*◌, ◌/◌, ◌%◌, ◌^◌, bit_xor, Bool, true, false, not, ◌||◌, ◌&&◌, Option,
  none, some, List, [], ◌∷◌, ltb, leb, ◌==◌, if◌then◌else◌, Run, ok, trap, trap_if, ◌>>=◌, ◌>>◌,
  invalid_argument, length,
}
use beagle.Text.{Bytes, Text, handle, text_eq, text_length, text_bytes}
use beagle.Collection.{
  Kind, Equality, is_none, of_bool, of_i64, of_f64, of_text, of_keyword, of_structural,
  of_dynamic_structural,
}

-- NATIVE_VALUE_HASH_OFFSET and NATIVE_VALUE_HASH_PRIME
abbrev pub hash_offset : ℕ
hash_offset = 14695981039346656037

abbrev pub hash_prime : ℕ
hash_prime = 1099511628211

unfoldable pub hash_byte : ℕ → ℕ → ℕ
hash_byte state value = bit_xor state value * hash_prime % 2 ^ 64

-- The loop of `native_value_hash_u64`: so many bytes, the lowest first.
unfoldable pub hash_low_bytes : ℕ → ℕ → ℕ → ℕ
hash_low_bytes zero state value = state
hash_low_bytes (suc rounds) state value =
    hash_low_bytes rounds (hash_byte state (value % 256)) (value / 256)

unfoldable pub hash_u64 : ℕ → ℕ → ℕ
unfolding hash_byte hash_low_bytes
hash_u64 state value = hash_low_bytes 8 state value

unfoldable pub hash_bytes : ℕ → Bytes → ℕ
hash_bytes state [] = state
hash_bytes state (byte ∷ bytes) = hash_bytes (hash_byte state byte) bytes

unfoldable pub hash_mix : ℕ → ℕ
hash_mix hash =
    let h₁ : ℕ = bit_xor hash (hash / 2 ^ 33) * 0xff51afd7ed558ccd % 2 ^ 64 in
    let h₂ : ℕ = bit_xor h₁ (h₁ / 2 ^ 29) * 0xc4ceb9fe1a85ec53 % 2 ^ 64 in bit_xor h₂ (h₂ / 2 ^ 32)

-- `value != value` and `value == 0.0` of a double with these bits.
abbrev pub is_nan : ℕ → Bool
is_nan bits = ltb 0x7ff0000000000000 (bits % 2 ^ 63)

abbrev pub is_zero : ℕ → Bool
is_zero bits = bits % 2 ^ 63 == 0

-- `==` of two doubles.
unfoldable pub f64_equal : ℕ → ℕ → Bool
f64_equal a b = not (is_nan a) && not (is_nan b) && (a == b || (is_zero a && is_zero b))

-- The bits that stand for all doubles equal to one.
unfoldable pub canonical_bits : ℕ → ℕ
canonical_bits bits = if is_zero bits then 0 else if is_nan bits then 0x7ff8000000000000 else bits

unfoldable pub hashed_text : Text → Run (Option ℕ)
hashed_text text = do
  count ← text_length text
  bytes ← text_bytes text
  ok (some (hash_mix (hash_bytes (hash_u64 hash_offset count) bytes)))

-- The null text has no hash.
unfoldable pub hash_text : Text → Run (Option ℕ)
unfolding hashed_text
hash_text text = if handle text == 0 then ok none else hashed_text text

-- `memcpy` from a key, to a bool, to eight bytes and to the handle of a text.
pub record Memory {ℓ} (K : Type ℓ) : Type ℓ where
  pub bool_of : K → Bool
  pub word_of : K → ℕ
  pub text_of : K → Text

-- `native_value_equal` and `native_dynamic_value_validate`
pub record Structural {ℓ κ} (K : Type ℓ) (D : Type κ) : Type (ℓ ⊔ κ) where
  pub value_equal : D → K → K → Run Bool
  pub validate : D → K → Run (Unit {0})

abbrev pub is_structural : Kind → Bool
is_structural of_structural = true
is_structural of_dynamic_structural = true
is_structural _ = false

module _ {ℓ κ} {K : Type ℓ} {D : Type κ} (memory : Memory K) (structural : Structural K D) where
  unfoldable pub check_equality : Kind → Option D → Run (Unit {0})
  check_equality kind descriptor =
      trap_if (if is_structural kind then is_none descriptor else not (is_none descriptor))
        invalid_argument

  unfoldable pub validate_candidate : Kind → Option D → K → Run (Unit {0})
  validate_candidate of_dynamic_structural none key = check_equality of_dynamic_structural none
  validate_candidate of_dynamic_structural (some descriptor) key = do
    check_equality of_dynamic_structural (some descriptor)
    structural.validate descriptor key
  validate_candidate kind descriptor key = check_equality kind descriptor

  unfoldable pub by_descriptor : Option D → K → K → Run Bool
  by_descriptor none left right = trap invalid_argument
  by_descriptor (some descriptor) left right = structural.value_equal descriptor left right

  unfoldable pub equal_by : Kind → Option D → K → K → Run Bool
  equal_by of_bool descriptor left right =
      ok (if memory.bool_of left then memory.bool_of right else not (memory.bool_of right))
  equal_by of_i64 descriptor left right = ok (memory.word_of left == memory.word_of right)
  equal_by of_f64 descriptor left right =
      ok (f64_equal (memory.word_of left) (memory.word_of right))
  equal_by of_text descriptor left right = text_eq (memory.text_of left) (memory.text_of right)
  equal_by of_keyword descriptor left right = text_eq (memory.text_of left) (memory.text_of right)
  equal_by of_structural descriptor left right = by_descriptor descriptor left right
  equal_by of_dynamic_structural descriptor left right = by_descriptor descriptor left right

  unfoldable pub collection_equal : Kind → Option D → K → K → Run Bool
  collection_equal kind descriptor left right = do
    check_equality kind descriptor
    equal_by kind descriptor left right

  unfoldable pub hash_by : Kind → K → Run (Option ℕ)
  hash_by of_bool key =
      ok (some (hash_mix (hash_u64 hash_offset (if memory.bool_of key then 1 else 0))))
  hash_by of_i64 key = ok (some (hash_mix (hash_u64 hash_offset (memory.word_of key))))
  hash_by of_f64 key =
      ok (some (hash_mix (hash_u64 hash_offset (canonical_bits (memory.word_of key)))))
  hash_by of_text key = hash_text (memory.text_of key)
  hash_by of_keyword key = hash_text (memory.text_of key)
  hash_by of_structural key = ok none
  hash_by of_dynamic_structural key = ok none

  unfoldable pub hash_key : Kind → Option D → K → Run (Option ℕ)
  hash_key kind descriptor key = do check_equality kind descriptor; hash_by kind key

  -- What a `native_collection_equality` of this kind does.
  abbrev pub collection_equality : Kind → Option D → Equality K
  collection_equality kind descriptor = record {
    kind = kind;
    check = check_equality kind descriptor;
    validate = validate_candidate kind descriptor;
    equal = collection_equal kind descriptor;
    hash = hash_key kind descriptor;
  }
