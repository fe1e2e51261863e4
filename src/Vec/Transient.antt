-- ===== src/Vec/Transient.antt =====
-- native-core/shim/native_shim.c, the transient builder of a vector.
pub mod Contents
use beagle.Base.{
  ℕ, ◌+◌, ◌/◌, Bool, true, false, ◌||◌, ◌&&◌, Option, none, some, List, [], ◌∷◌, ltb, ◌==◌,
  if◌then◌else◌, Run, ok, trap_if, ◌>>=◌, ◌>>◌, invalid_argument, overflow, take,
}
use beagle.Base.Int.{ℤ, pos, int_max}
use beagle.Buffer.{dense_bytes, not_power_of_two}
use beagle.Vec.{
  Machine, Vec, slots, contents, copy_slots, not_positive, malformed, is_null, reserve, new_storage,
  new_mark, header, grown_capacity, word_alignment,
}

-- `struct native_transient_vec`
pub record TransientVec : Type 0 where
  pub elements : Option ℕ
  pub length : ℕ
  pub capacity : ℕ
  pub stride : ℤ
  pub alignment : ℕ
  pub frozen : Bool

abbrev pub transient_size : ℕ
transient_size = 56

unfoldable pub bad_builder : TransientVec → Bool
bad_builder b =
    b.frozen
    || not_positive b.stride
    || ltb b.capacity b.length
    || (ltb 0 b.length && is_null b.elements)

module _ {ℓ} {A : Type ℓ} where
  abbrev pub builder_contents : Machine A → TransientVec → List (Option A)
  builder_contents m b = take b.length (slots m b.elements)

  abbrev some_first : Run (ℕ × Machine A) → Run (Option ℕ × Machine A)
  some_first r = r >>= λ t. ok (some t.0, t.1)

  -- The storage of a builder: none for a size of 0.
  pub storage_for : Machine A → ℕ → ℕ → ℕ → Run (Option ℕ × Machine A)
  storage_for m capacity bytes alignment =
      let stored = some_first (new_storage m capacity bytes alignment) in
      if bytes == 0 then ok (none, m) else stored

  unfoldable pub transient_new : Machine A → Vec → ℤ → ℕ → Run (TransientVec × Machine A)
  transient_new m source stride alignment = do
    trap_if (malformed source stride || alignment == 0 || not_power_of_two alignment)
        invalid_argument
    bytes ← dense_bytes (pos source.length) stride
    m₁ ← reserve m transient_size word_alignment
    (e, m₂) ← storage_for m₁ source.length bytes alignment
    ok (
      record {
        elements = e;
        length = source.length;
        capacity = source.length;
        stride = stride;
        alignment = alignment;
        frozen = false;
      },
      copy_slots m₂ e 0 (contents m source),
    )

  -- A full builder moves to storage of twice its capacity.
  unfoldable pub make_room : Machine A → TransientVec → Run (TransientVec × Machine A)
  make_room m b = do
    trap_if (ltb (int_max / 2) b.capacity) overflow
    let grown = grown_capacity b.capacity
    existing_bytes ← dense_bytes (pos b.length) b.stride
    grown_bytes ← dense_bytes (pos grown) b.stride
    (e, m₁) ← new_storage m grown grown_bytes b.alignment
    let m₂ = if existing_bytes == 0 then m₁ else copy_slots m₁ (some e) 0 (builder_contents m b)
    ok (record b { elements = some e; capacity = grown }, m₂)

  unfoldable pub transient_push : Machine A → TransientVec → A → Run (TransientVec × Machine A)
  transient_push m b value = do
    trap_if (bad_builder b || b.alignment == 0 || not_power_of_two b.alignment) invalid_argument
    let roomy = make_room m b
    (b', m') ← if b.length == b.capacity then roomy else ok (b, m)
    ok (record b' { length = b'.length + 1 }, copy_slots m' b'.elements b'.length (some value ∷ []))

  -- The watermark of a frozen builder, at its length.
  unfoldable pub freeze_mark : Machine A → TransientVec → Run (Option ℕ × Machine A)
  freeze_mark m b =
      let marked = some_first (new_mark m b.length) in
      if ltb 0 b.capacity then marked else ok (none, m)

  unfoldable pub transient_freeze : Machine A → TransientVec → Run (Vec × TransientVec × Machine A)
  transient_freeze m b = do
    trap_if (bad_builder b) invalid_argument
    (watermark, m₁) ← freeze_mark m b
    (v, m₂) ← header m₁ b.elements b.length b.capacity watermark
    ok (v, record b { frozen = true }, m₂)
