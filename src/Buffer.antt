-- ===== src/Buffer.antt =====
-- native-core/shim/native_shim.c, the buffers: fixed arrays in an arena, reached through handles
-- that are checked against their registration at every access.
pub mod Require
pub mod Access
pub mod Stale
pub mod Registered
mod Examples
use beagle.Base.{
  ℕ, zero, suc, ◌+◌, ◌-◌, ◌*◌, ◌/◌, ◌%◌, bit_and, Bool, true, false, not, ◌||◌, ◌&&◌, Option, none,
  some, List, [], ◌∷◌, ltb, leb, ◌==◌, if◌then◌else◌, Run, ok, trap, trap_if, ◌>>=◌, ◌>>◌,
  invalid_argument, overflow, arena_exhausted, out_of_range, length,
}
use beagle.Base.Int.{ℤ, pos, negsuc, int_max, is_negative, eq_int, le_int, lt_int}
use beagle.Arena.{Arena, Heap, Registry, Registration, Buffer, word_max, malloc, alloc}

-- A `native_capability` by its address and token; a NULL pointer is `none`.
pub record Capability : Type 0 where
  pub address : ℕ
  pub token : ℕ

-- The bytes of the address space.
abbrev pub Memory : Type 0
Memory = ℕ → ℕ

-- `native_parallel_access_v0`; buffers are their addresses, and of the shadow buffer its elements
-- are read.
pub record ParallelAccess : Type 0 where
  pub current : ℕ
  pub next : ℕ
  pub shadow : Option ℕ
  pub generation : ℕ
  pub partition_id : ℕ
  pub read_lo_0 : ℤ
  pub read_hi_0 : ℤ
  pub read_lo_1 : ℤ
  pub read_hi_1 : ℤ
  pub write_lo : ℤ
  pub write_hi : ℤ
  pub write_coverage : ℕ
  pub permissions : ℕ

unfoldable pub dense_bytes : ℤ → ℤ → Run ℕ
dense_bytes (pos capacity) (pos stride) = do
  trap_if (stride == 0) invalid_argument
  trap_if (ltb (int_max / stride) capacity) overflow
  trap_if (ltb (word_max / stride) capacity) overflow
  ok (capacity * stride)
dense_bytes _ _ = trap invalid_argument

-- An alignment that is neither left open by 0 nor a power of two.
abbrev pub not_power_of_two : ℕ → Bool
not_power_of_two alignment = not (bit_and alignment (alignment - 1) == 0)

-- The walk along the registrations to the one whose handle is `buffer`.
pub find_registration : ℕ → List Registration → Option Registration
find_registration buffer [] = none
find_registration buffer (r ∷ rs) =
    let rest = find_registration buffer rs in if r.address == buffer then some r else rest

-- The tests of `native_buffer_require` on the registration that was found.
pub check_registration : Registry → Registration → Capability → ℤ → ℕ → Run Registration
check_registration registry r capability stride alignment = do
  trap_if
      (not (r.generation == registry.generation)
        || not (r.owner_capability == capability.address)
        || not (r.owner_capability_token == capability.token))
      invalid_argument
  trap_if
      (not (r.handle.elements == r.elements)
        || not (eq_int r.handle.length (pos r.length))
        || not (eq_int r.handle.stride (pos r.stride))
        || not (r.handle.alignment == r.alignment)
        || not (r.handle.owner_capability_token == r.owner_capability_token)
        || (not (eq_int stride (pos 0)) && not (eq_int stride (pos r.stride)))
        || (not (alignment == 0) && not (alignment == r.alignment)))
      invalid_argument
  bytes ← dense_bytes (pos r.length) (pos r.stride)
  trap_if
      (not (bytes == r.byte_length)
        || ((bytes == 0) && not (r.elements == 0))
        || (not (bytes == 0) && (r.elements == 0))
        || (not (r.elements == 0) && not (bit_and r.elements (r.alignment - 1) == 0)))
      invalid_argument
  ok r

pub require : Arena → ℕ → Option Capability → ℤ → ℕ → Run Registration
require a buffer capability stride alignment = elim a.buffer_registry [
  | none ↦ trap invalid_argument
  | some registry ↦ elim capability [
    | none ↦ trap invalid_argument
    | some c ↦ do
      trap_if
          (buffer == 0
            || c.token == 0
            || is_negative stride
            || (not (alignment == 0) && not_power_of_two alignment))
          invalid_argument
      elim (find_registration buffer registry.registrations) [
        | none ↦ trap invalid_argument
        | some r ↦ check_registration registry r c stride alignment
      ]
  ]
]

pub checked_offset : Registration → ℤ → Run ℕ
checked_offset r (negsuc n) = trap out_of_range
checked_offset r (pos index) = do
  trap_if (leb r.length index) out_of_range
  let offset = index * r.stride
  trap_if (ltb r.byte_length offset || ltb (r.byte_length - offset) r.stride) invalid_argument
  ok offset

unfoldable pub parallel_read_allowed : ParallelAccess → ℕ → ℤ → Bool
parallel_read_allowed access buffer index =
    access.current == buffer
    && not (bit_and access.permissions 1 == 0)
    && ((le_int access.read_lo_0 index && lt_int index access.read_hi_0)
        || (le_int access.read_lo_1 index && lt_int index access.read_hi_1))

unfoldable pub parallel_write_allowed : ParallelAccess → ℕ → ℤ → Bool
parallel_write_allowed access buffer index =
    access.next == buffer
    && elim access.shadow [ none ↦ false | some _ ↦ true ]
    && not (bit_and access.permissions 2 == 0)
    && le_int access.write_lo index
    && lt_int index access.write_hi

-- `native_arena_buffer_registration_count` along the list.
pub count_live : ℕ → List Registration → ℕ
count_live generation [] = 0
count_live generation (r ∷ rs) =
    (if r.generation == generation then 1 else 0) + count_live generation rs

pub registration_count : Arena → ℕ
registration_count a = elim a.buffer_registry [
  | none ↦ 0
  | some r ↦ count_live r.generation r.registrations
]

-- The live registration that is `remaining`-th from the newest on.
nth_live : ℕ → List Registration → ℕ → Option Registration
nth_live generation [] remaining = none
nth_live generation (r ∷ rs) remaining =
    let counted = nth_live generation rs (remaining - 1) in
    let passed = nth_live generation rs remaining in
    if r.generation == generation then if remaining == 1 then some r else counted else passed

-- Live registrations by their index, the oldest first.
pub registration_at : Arena → ℤ → Option Registration
registration_at a (negsuc n) = none
registration_at a (pos index) = elim a.buffer_registry [
  | none ↦ none
  | some registry ↦
      let found =
        nth_live registry.generation registry.registrations (registration_count a - index) in
      if leb (registration_count a) index then none else found
]

-- `memset` and `memcpy` over the address space.
pub fill_zero : ℕ → ℕ → Memory → Memory
fill_zero from size m q = if leb from q && ltb q (from + size) then 0 else m q

pub store_bytes : ℕ → List ℕ → Memory → Memory
store_bytes at [] m = m
store_bytes at (b ∷ bs) m =
    let rest = store_bytes (at + 1) bs m in λ q. if q == at then b else rest q

-- The registry of the arena, made on the first use.
ensure_registry : Arena → Run (Registry × Arena)
ensure_registry a = elim a.buffer_registry [
  | some r ↦ ok (r, a)
  | none ↦
      let (block, h) = malloc a.heap in
      elim block [
        | none ↦ trap arena_exhausted
        | some p ↦
            let r : Registry = record { address = p; generation = 1; registrations = [] } in
            ok (r, record a { buffer_registry = some r; heap = h })
      ]
]

-- The elements of a new buffer: none for a size of 0.
new_elements : Arena → ℕ → ℕ → Run (ℕ × Arena)
new_elements a bytes alignment =
    let taken = alloc a bytes alignment in if bytes == 0 then ok (0, a) else taken

-- The new registration in front, and the counters of the arena.
enter : Arena → Registry → Registration → ℕ → Arena
enter a registry r bytes =
    let live_bytes = a.buffer_storage_current_bytes + bytes in
    let registered = record a {
      buffer_registry = some (record registry { registrations = r ∷ registry.registrations });
    } in
    if bytes == 0 then registered else record registered {
      buffer_storage_allocation_count = a.buffer_storage_allocation_count + 1;
      buffer_storage_current_bytes = live_bytes;
      buffer_storage_high_water_bytes =
          if ltb a.buffer_storage_high_water_bytes live_bytes
          then live_bytes
          else a.buffer_storage_high_water_bytes;
    }

-- The registration that `native_buffer_new` fills in, with the header that mirrors it.
describe : ℕ → Registry → Capability → ℕ → ℕ → ℕ → ℕ → ℕ → Registration
describe address registry c elements count stride alignment bytes = record {
  address = address;
  handle = record {
    elements = elements;
    length = pos count;
    stride = pos stride;
    alignment = alignment;
    owner_capability_token = c.token;
  };
  generation = registry.generation;
  owner_capability = c.address;
  owner_capability_token = c.token;
  elements = elements;
  length = count;
  stride = stride;
  alignment = alignment;
  byte_length = bytes;
}

-- The arguments are checked; the rest of `native_buffer_new`.
create : Arena → Memory → Capability → ℕ → ℕ → ℕ → ℕ → Run (ℕ × Arena × Memory)
create a m c count stride alignment bytes = do
  (registry, a₁) ← ensure_registry a
  let (block, h) = malloc a₁.heap
  elim block [
    | none ↦ trap arena_exhausted
    | some address ↦ do
      (elements, a₂) ← new_elements (record a₁ { heap = h }) bytes alignment
      let r = describe address registry c elements count stride alignment bytes
      ok (address, enter a₂ registry r bytes, fill_zero elements bytes m)
  ]

pub new : Arena → Memory → Option Capability → ℤ → ℤ → ℕ → Run (ℕ × Arena × Memory)
new a m none count stride alignment = trap invalid_argument
new a m (some c) count (negsuc n) alignment = trap invalid_argument
new a m (some c) count (pos stride) alignment = do
  trap_if
      (c.token == 0
        || alignment == 0
        || not_power_of_two alignment
        || stride == 0
        || not (stride % alignment == 0))
      invalid_argument
  bytes ← dense_bytes count (pos stride)
  trap_if
      (not (bytes == 0)
        && (a.buffer_storage_allocation_count == word_max
            || ltb (word_max - bytes) a.buffer_storage_current_bytes))
      overflow
  elim count [ negsuc n ↦ trap invalid_argument | pos k ↦ create a m c k stride alignment bytes ]

-- Outside a parallel tile `native_parallel_access_current` is NULL, here `none`.
pub buffer_length : Arena → Option ParallelAccess → ℕ → Option Capability → Run ℕ
buffer_length a access buffer capability = do
  r ← require a buffer capability (pos 0) 0
  elim access [
    | none ↦ ok r.length
    | some t ↦ do
      trap_if (not (buffer == t.current) && not (buffer == t.next)) invalid_argument
      ok r.length
  ]

-- The address of the element at `index`.
pub at : Arena → Option ParallelAccess → ℕ → Option Capability → ℤ → ℤ → ℕ → Run ℕ
at a access buffer capability index stride alignment = do
  r ← require a buffer capability stride alignment
  offset ← checked_offset r index
  elim access [
    | none ↦ ok (r.elements + offset)
    | some t ↦ do
      trap_if (not (parallel_read_allowed t buffer index)) invalid_argument
      ok (r.elements + offset)
  ]

-- The write through a tile goes to the shadow buffer, and marks the index where coverage is kept.
shadow_write : ParallelAccess → ℤ → ℕ → List ℕ → Memory → Memory
shadow_write t index offset bytes m =
    let elements : ℕ = elim t.shadow [ none ↦ 0 | some e ↦ e ] in
    let position : ℕ = elim index [ pos i ↦ i | negsuc _ ↦ 0 ] in
    let written = store_bytes (elements + offset) bytes m in
    if t.write_coverage == 0
    then written
    else store_bytes (t.write_coverage + position) (1 ∷ []) written

-- `value` is the bytes of one element; NULL is `none`.
pub set_element :
    Arena
    → Option ParallelAccess
    → Memory
    → ℕ
    → Option Capability
    → ℤ
    → Option (List ℕ)
    → ℤ
    → ℕ
    → Run Memory
set_element a access m buffer capability index value stride alignment = do
  r ← require a buffer capability stride alignment
  elim value [
    | none ↦ trap invalid_argument
    | some bytes ↦ do
      offset ← checked_offset r index
      elim access [
        | none ↦ ok (store_bytes (r.elements + offset) bytes m)
        | some t ↦ do
          trap_if (not (parallel_write_allowed t buffer index)) invalid_argument
          ok (shadow_write t index offset bytes m)
      ]
  ]
