-- ===== src/Vec/Bulk.antt =====
-- native-core/shim/native_shim.c, the vector operations that copy: concatenation, slices, reversal.
pub mod Contents
pub mod Reversed
use beagle.Base.{
  ℕ, zero, suc, ◌+◌, ◌-◌, ◌*◌, ◌/◌, Bool, true, false, not, ◌||◌, ◌&&◌, Option, none, some, List,
  [], ◌∷◌, ltb, leb, ◌==◌, if◌then◌else◌, Run, ok, trap, trap_if, ◌>>=◌, ◌>>◌, invalid_argument,
  overflow, out_of_range, length, get_or, take, drop,
}
use beagle.Base.Int.{ℤ, pos, negsuc, int_max}
use beagle.Buffer.{dense_bytes, not_power_of_two}
use beagle.Vec.{
  Machine, Vec, slots, contents, copy_slots, not_positive, malformed, is_null, new, set_length,
  reserve, new_storage, new_mark, header, min_capacity, grown_capacity, word_alignment,
}

module _ {ℓ} {A : Type ℓ} where
  unfoldable pub concat : Machine A → Vec → Vec → ℤ → ℕ → Run (Vec × Machine A)
  concat m left right stride alignment = do
    trap_if
        (not_positive stride || ltb left.capacity left.length || ltb right.capacity right.length)
        invalid_argument
    trap_if (ltb (int_max - right.length) left.length) overflow
    let total = left.length + right.length
    (result, m₁) ← new m total stride alignment
    let m₂ = if ltb 0 left.length then copy_slots m₁ result.elements 0 (contents m left) else m₁
    let m₃ =
        if ltb 0 right.length
        then copy_slots m₂ result.elements left.length (contents m right)
        else m₂
    ok (set_length m₃ result total)

  -- The part of a source that a slice copies.
  unfoldable pub slice_copy : Machine A → Vec → ℕ → ℕ → ℤ → ℕ → Run (Vec × Machine A)
  slice_copy m source start end stride alignment = do
    let count = end - start
    source_offset ← dense_bytes (pos start) stride
    byte_count ← dense_bytes (pos count) stride
    (result, m₁) ← new m count stride alignment
    let part = take count (drop start (slots m source.elements))
    let m₂ = if byte_count == 0 then m₁ else copy_slots m₁ result.elements 0 part
    ok (set_length m₂ result count)

  unfoldable pub slice : Machine A → Vec → ℤ → ℤ → ℤ → ℕ → Run (Vec × Machine A)
  slice m source (negsuc n) end stride alignment = do
    trap_if (not_positive stride || ltb source.capacity source.length) invalid_argument
    trap out_of_range
  slice m source (pos start) (negsuc n) stride alignment = do
    trap_if (not_positive stride || ltb source.capacity source.length) invalid_argument
    trap out_of_range
  slice m source (pos start) (pos end) stride alignment = do
    trap_if (not_positive stride || ltb source.capacity source.length) invalid_argument
    trap_if (ltb end start || ltb source.length end) out_of_range
    slice_copy m source start end stride alignment

  -- The loop of `native_vec_reverse`, with `rounds` positions left.
  unfoldable pub reverse_from : ℕ → ℕ → Machine A → Vec → Vec → Machine A
  reverse_from zero position m source result = m
  reverse_from (suc rounds) position m source result =
      let source_position = source.length - position - 1 in
      let element = get_or (slots m source.elements) source_position none in
      reverse_from rounds (position + 1) (copy_slots m result.elements position (element ∷ []))
        source result

  unfoldable pub reverse : Machine A → Vec → ℤ → ℕ → Run (Vec × Machine A)
  reverse m source stride alignment = do
    trap_if (not_positive stride || ltb source.capacity source.length) invalid_argument
    (result, m₁) ← new m source.length stride alignment
    ok (set_length (reverse_from source.length 0 m₁ source result) result source.length)
