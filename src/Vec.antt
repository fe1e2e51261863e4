-- ===== src/Vec.antt =====
-- native-core/shim/native_shim.c, the vectors: persistent headers over shared element storage, and
-- the transient builder. A block of elements and a watermark cell are named by their numbers in
-- the machine (two live allocations never overlap: Arena/Disjoint.antt); a slot that nothing has
-- written yet is `none`. Header pointers and value pointers are not NULL here, and the lengths and
-- capacities of a header are not negative.
pub mod Storage
pub mod Push
pub mod Live
pub mod Built
pub mod Copied
pub mod Bulk
pub mod History
pub mod Transient
mod Examples
use beagle.Base.{
  ℕ, zero, suc, ◌+◌, ◌-◌, ◌*◌, ◌/◌, ◌%◌, ◌^◌, bit_and, Bool, true, false, not, ◌||◌, ◌&&◌, Option,
  none, some, List, [], ◌∷◌, ◌++◌, ltb, leb, ◌==◌, if◌then◌else◌, Run, ok, trap, trap_if, ◌>>=◌,
  ◌>>◌, invalid_argument, overflow, out_of_range, length, get_or, set, take, drop, replicate,
  copy_into,
}
use beagle.Base.Int.{ℤ, pos, negsuc, int_max}
use beagle.Arena.{Arena, alloc, word_max}
use beagle.Buffer.{dense_bytes, not_power_of_two}

-- The arena, the blocks of elements, the watermark cells, and `native_vec_storage_allocations`.
pub record Machine {ℓ} (A : Type ℓ) : Type ℓ where
  pub arena : Arena
  pub blocks : List (List (Option A))
  pub marks : List ℕ
  pub storage_allocations : ℕ

-- `native_vec`
pub record Vec : Type 0 where
  pub elements : Option ℕ
  pub length : ℕ
  pub capacity : ℕ
  pub watermark : Option ℕ

-- NATIVE_VEC_MIN_CAPACITY, and the sizes of the two structures and of a watermark.
abbrev pub min_capacity : ℕ
min_capacity = 4

abbrev pub vec_size : ℕ
vec_size = 32

abbrev pub mark_size : ℕ
mark_size = 8

abbrev pub word_alignment : ℕ
word_alignment = 8

abbrev pub not_positive : ℤ → Bool
not_positive (pos n) = n == 0
not_positive (negsuc n) = true

abbrev pub is_null {ℓ} : {A : Type ℓ} → Option A → Bool
is_null none = true
is_null (some x) = false

-- The guard of `native_vec_assoc` and `native_vec_push`.
abbrev pub malformed : Vec → ℤ → Bool
malformed v stride =
    not_positive stride || ltb v.capacity v.length || (ltb 0 v.length && is_null v.elements)

abbrev pub grown_capacity : ℕ → ℕ
grown_capacity n = if ltb (n * 2) min_capacity then min_capacity else n * 2

module _ {ℓ} {A : Type ℓ} where
  -- The slots that a pointer to elements reaches.
  abbrev pub slots : Machine A → Option ℕ → List (Option A)
  slots m none = []
  slots m (some e) = get_or m.blocks e []

  -- What a header or a builder of this length holds.
  abbrev pub contents : Machine A → Vec → List (Option A)
  contents m v = take v.length (slots m v.elements)

  abbrev pub put_slots : Machine A → Option ℕ → List (Option A) → Machine A
  put_slots m none from = m
  put_slots m (some e) from = record m { blocks = set m.blocks e from }

  -- `memcpy` of whole elements to the slot at `index`.
  abbrev pub copy_slots : Machine A → Option ℕ → ℕ → List (Option A) → Machine A
  copy_slots m e index from = put_slots m e (copy_into (slots m e) index from)

  abbrev pub put_mark : Machine A → Option ℕ → ℕ → Machine A
  put_mark m none n = m
  put_mark m (some w) n = record m { marks = set m.marks w n }

  -- `native_arena_alloc` for its effect on the arena.
  unfoldable pub reserve : Machine A → ℕ → ℕ → Run (Machine A)
  reserve m size alignment = do (_, a) ← alloc m.arena size alignment; ok (record m { arena = a })

  -- Fresh element storage: the new block has the next number.
  unfoldable pub new_storage : Machine A → ℕ → ℕ → ℕ → Run (ℕ × Machine A)
  new_storage m capacity bytes alignment = do
    m' ← reserve m bytes alignment
    ok (
      length m'.blocks,
      record m' {
        blocks = m'.blocks ++ replicate capacity none ∷ [];
        storage_allocations = (m'.storage_allocations + 1) % 2 ^ 64;
      },
    )

  -- A fresh watermark cell.
  unfoldable pub new_mark : Machine A → ℕ → Run (ℕ × Machine A)
  new_mark m n = do
    m' ← reserve m mark_size word_alignment
    ok (length m'.marks, record m' { marks = m'.marks ++ n ∷ [] })

  unfoldable pub header : Machine A → Option ℕ → ℕ → ℕ → Option ℕ → Run (Vec × Machine A)
  header m elements count capacity watermark = do
    m' ← reserve m vec_size word_alignment
    ok (
      record { elements = elements; length = count; capacity = capacity; watermark = watermark },
      m',
    )

  pub set_length : Machine A → Vec → ℕ → Vec × Machine A
  set_length m v n = (record v { length = n }, put_mark m v.watermark n)

  -- The two allocations of `native_vec_new` behind its header.
  new_backed : Machine A → ℕ → ℕ → ℕ → Run (Vec × Machine A)
  new_backed m capacity bytes alignment = do
    (e, m₁) ← new_storage m capacity bytes alignment
    (w, m₂) ← new_mark m₁ 0
    ok (record { elements = some e; length = 0; capacity = capacity; watermark = some w }, m₂)

  pub new : Machine A → ℕ → ℤ → ℕ → Run (Vec × Machine A)
  new m capacity stride alignment = do
    m₁ ← reserve m vec_size word_alignment
    bytes ← dense_bytes (pos capacity) stride
    let backed = new_backed m₁ capacity bytes alignment
    if bytes == 0
        then ok (record { elements = none; length = 0; capacity = capacity; watermark = none }, m₁)
        else backed

  -- The element at an index, as it is read through the address that `native_vec_at` returns.
  pub at : Machine A → Vec → ℤ → ℤ → Run (Option A)
  at m v index stride = do
    trap_if (not_positive stride) invalid_argument
    elim index [
      | negsuc n ↦ trap out_of_range
      | pos i ↦ do trap_if (leb v.length i) out_of_range; ok (get_or (slots m v.elements) i none)
    ]

  pub assoc : Machine A → Vec → ℤ → A → ℤ → ℕ → Run (Vec × Machine A)
  assoc m v index value stride alignment = do
    trap_if (malformed v stride) invalid_argument
    elim index [
      | negsuc n ↦ trap out_of_range
      | pos i ↦ do
        trap_if (leb v.length i) out_of_range
        (result, m₁) ← new m v.length stride alignment
        let m₂ = copy_slots m₁ result.elements 0 (contents m v)
        let m₃ = copy_slots m₂ result.elements i (some value ∷ [])
        ok (set_length m₃ result v.length)
    ]

  -- The slot at the length is the next one of the storage, and nobody has taken it.
  pub tip_is_free : Machine A → Vec → Bool
  tip_is_free m v = elim v.watermark [
    | none ↦ false
    | some w ↦ ltb v.length v.capacity && (get_or m.marks w 0 == v.length)
  ]

  push_in_place : Machine A → Vec → A → Run (Vec × Machine A)
  push_in_place m v value =
      let m₁ = copy_slots m v.elements v.length (some value ∷ []) in
      let m₂ = put_mark m₁ v.watermark (v.length + 1) in
      header m₂ v.elements (v.length + 1) v.capacity v.watermark

  push_copy : Machine A → Vec → A → ℤ → ℕ → Run (Vec × Machine A)
  push_copy m v value stride alignment = do
    trap_if (ltb (int_max / 2) v.length) overflow
    (fresh, m₁) ← new m (grown_capacity v.length) stride alignment
    let m₂ = if ltb 0 v.length then copy_slots m₁ fresh.elements 0 (contents m v) else m₁
    let m₃ = copy_slots m₂ fresh.elements v.length (some value ∷ [])
    ok (set_length m₃ fresh (v.length + 1))

  pub push : Machine A → Vec → A → ℤ → ℕ → Run (Vec × Machine A)
  push m v value stride alignment = do
    trap_if (malformed v stride) invalid_argument
    if tip_is_free m v then push_in_place m v value else push_copy m v value stride alignment
