-- ===== src/Arena.antt =====
-- native-core/shim/native_shim.c, the arena: a bump allocator over a fixed block, or over chunks
-- that it takes from `malloc`. Addresses are numbers, and NULL is 0. The C heap is the list of the
-- answers that `malloc` still has, with what it gave and what was freed.
pub mod Widen
pub mod Align
pub mod Alloc
pub mod Disjoint
pub mod Reset
pub mod Balance
mod Examples
use beagle.Base.Int.{ℤ}
use beagle.Base.{
  ℕ, zero, suc, ◌+◌, ◌-◌, ◌*◌, ◌/◌, ◌^◌, bit_and, Bool, true, false, not, ◌||◌, ◌&&◌, Option, none,
  some, List, [], ◌∷◌, ltb, leb, ◌==◌, if◌then◌else◌, Run, ok, trap, Trap, trap_if, ◌>>=◌, ◌>>◌,
  invalid_argument, overflow, arena_exhausted, length,
}

-- SIZE_MAX, UINTPTR_MAX and UINT64_MAX of the 64-bit hosts.
abbrev pub word_max : ℕ
word_max = 2 ^ 64 - 1

pub record Heap : Type 0 where
  pub answers : List (Option ℕ)
  pub given : List ℕ
  pub freed : List ℕ

-- A heap with no answer left is out of memory.
unfoldable pub malloc : Heap → Option ℕ × Heap
malloc h = elim h.answers [
  | [] ↦ (none, h)
  | answer ∷ rest ↦ elim answer [
    | none ↦ (none, record h { answers = rest })
    | some p ↦ (some p, record h { answers = rest; given = p ∷ h.given })
  ]
]

unfoldable pub free : ℕ → Heap → Heap
free p h = record h { freed = p ∷ h.freed }

-- `struct native_arena_chunk`; `address` is the chunk's own, `storage` that of its bytes.
pub record Chunk : Type 0 where
  pub address : ℕ
  pub storage : ℕ
  pub capacity : ℕ

-- `native_buffer`, the header that a program sees.
pub record Buffer : Type 0 where
  pub elements : ℕ
  pub length : ℤ
  pub stride : ℤ
  pub alignment : ℕ
  pub owner_capability_token : ℕ

-- `struct native_buffer_registration`; `address` is that of its handle.
pub record Registration : Type 0 where
  pub address : ℕ
  pub handle : Buffer
  pub generation : ℕ
  pub owner_capability : ℕ
  pub owner_capability_token : ℕ
  pub elements : ℕ
  pub length : ℕ
  pub stride : ℕ
  pub alignment : ℕ
  pub byte_length : ℕ

-- `struct native_buffer_registry`, its registrations newest first.
pub record Registry : Type 0 where
  pub address : ℕ
  pub generation : ℕ
  pub registrations : List Registration

pub record Arena : Type 0 where
  pub bytes : ℕ
  pub capacity : ℕ
  pub offset : ℕ
  pub chunks : List Chunk
  pub buffer_registry : Option Registry
  pub growth_floor : ℕ
  pub growable : Bool
  pub allocation_count : ℕ
  pub buffer_storage_allocation_count : ℕ
  pub buffer_storage_current_bytes : ℕ
  pub buffer_storage_high_water_bytes : ℕ
  pub heap : Heap

pub clear : Arena → Arena
clear a = record {
  bytes = 0;
  capacity = 0;
  offset = 0;
  chunks = [];
  buffer_registry = none;
  growth_floor = 0;
  growable = false;
  allocation_count = 0;
  buffer_storage_allocation_count = 0;
  buffer_storage_current_bytes = 0;
  buffer_storage_high_water_bytes = 0;
  heap = a.heap;
}

-- The loop of `native_arena_add_chunk`; it doubles at most 64 times.
unfoldable pub widen : ℕ → ℕ → ℕ → ℕ
widen zero capacity required = capacity
widen (suc fuel) capacity required =
    let rest = widen fuel (capacity * 2) required in
    if ltb capacity required
    then if ltb (word_max / 2) capacity then required else rest
    else capacity

unfoldable pub chunk_capacity : Arena → ℕ → ℕ
chunk_capacity a required =
    let floor = if ltb a.capacity a.growth_floor then a.growth_floor else a.capacity in
    widen 64 (if floor == 0 then 4096 else floor) required

-- The two calls of `malloc`, for the chunk and for its bytes; the second's failure frees the first.
unfoldable pub take_chunk : Heap → Option (ℕ × ℕ) × Heap
take_chunk h =
    let (first, h₁) = malloc h in
    elim first [
      | none ↦ (none, h₁)
      | some chunk ↦
          let (second, h₂) = malloc h₁ in
          elim second [ none ↦ (none, free chunk h₂) | some storage ↦ (some (chunk, storage), h₂) ]
    ]

-- The assignments of `native_arena_add_chunk`.
unfoldable pub link_chunk : Arena → ℕ → ℕ → ℕ → Heap → Arena
link_chunk a capacity chunk storage h = record a {
  bytes = storage;
  capacity = capacity;
  offset = 0;
  chunks = record { address = chunk; storage = storage; capacity = capacity } ∷ a.chunks;
  heap = h;
}

unfoldable pub add_chunk : Arena → ℕ → Bool × Arena
add_chunk a required =
    let (taken, h) = take_chunk a.heap in
    elim taken [
      | none ↦ (false, record a { heap = h })
      | some (chunk, storage) ↦ (true, link_chunk a (chunk_capacity a required) chunk storage h)
    ]

pub init : Arena → ℕ → ℕ → Run Arena
init a storage capacity = do
  trap_if (storage == 0 && not (capacity == 0)) invalid_argument
  ok (record (clear a) { bytes = storage; capacity = capacity })

pub init_growable : Arena → ℕ → Bool × Arena
init_growable a growth_floor =
    let fresh = record (clear a) { growth_floor = growth_floor; growable = true } in
    let (added, a') = add_chunk fresh growth_floor in
    if growth_floor == 0 then (true, fresh) else if added then (true, a') else (false, clear a')

-- A mask that clears the bits below a power of two.
abbrev pub align_up : ℕ → ℕ → ℕ
align_up current padding_mask = bit_and (current + padding_mask) (word_max - padding_mask)

-- The last three statements of `native_arena_alloc`.
unfoldable pub bump : Arena → ℕ → ℕ → ℕ × Arena
bump a aligned_offset size = (
  a.bytes + aligned_offset,
  record a { offset = aligned_offset + size; allocation_count = a.allocation_count + 1 },
)

-- The branch that a full arena takes.
unfoldable pub alloc_grown : Arena → ℕ → ℕ → Run (ℕ × Arena)
alloc_grown a size alignment = do
  trap_if (not a.growable || ltb (word_max - (alignment - 1)) size) arena_exhausted
  let (added, a') = add_chunk a (size + alignment - 1)
  trap_if (not added) arena_exhausted
  let padding_mask = alignment - 1
  trap_if (ltb (word_max - padding_mask) a'.bytes) overflow
  ok (bump a' (align_up a'.bytes padding_mask - a'.bytes) size)

unfoldable pub alloc : Arena → ℕ → ℕ → Run (ℕ × Arena)
alloc a size alignment = do
  trap_if (alignment == 0 || not (bit_and alignment (alignment - 1) == 0)) invalid_argument
  trap_if (a.allocation_count == word_max) overflow
  trap_if (ltb a.capacity a.offset || ltb (word_max - size) a.offset) arena_exhausted
  trap_if (ltb (word_max - a.offset) a.bytes) overflow
  let current = a.bytes + a.offset
  let padding_mask = alignment - 1
  trap_if (ltb (word_max - padding_mask) current) overflow
  let aligned = align_up current padding_mask
  trap_if (ltb aligned a.bytes) overflow
  let aligned_offset = aligned - a.bytes
  if (ltb a.capacity aligned_offset || ltb (a.capacity - aligned_offset) size)
      then alloc_grown a size alignment
      else ok (bump a aligned_offset size)

-- `free(chunk->storage); free(chunk);` along the list
pub free_chunks : List Chunk → Heap → Heap
free_chunks [] h = h
free_chunks (c ∷ cs) h = free_chunks cs (free c.address (free c.storage h))

-- The next allocation generation, at which every earlier registration is stale.
unfoldable pub next_generation : Option Registry → Run (Option Registry)
next_generation none = ok none
next_generation (some r) = do
  trap_if (r.generation == word_max) overflow
  ok (some (record r { generation = r.generation + 1 }))

unfoldable pub reset : Arena → Run Arena
reset a = do
  registry ← next_generation a.buffer_registry
  let emptied =
      if a.growable
      then record a { heap = free_chunks a.chunks a.heap; bytes = 0; capacity = 0; chunks = [] }
      else a
  ok (record emptied {
    buffer_registry = registry;
    offset = 0;
    allocation_count = 0;
    buffer_storage_allocation_count = 0;
    buffer_storage_current_bytes = 0;
  })

free_registrations : List Registration → Heap → Heap
free_registrations [] h = h
free_registrations (r ∷ rs) h = free_registrations rs (free r.address h)

free_registry : Option Registry → Heap → Heap
free_registry none h = h
free_registry (some r) h = free r.address (free_registrations r.registrations h)

pub destroy : Arena → Run Arena
destroy a = do
  a' ← reset a
  ok (clear (record a' { heap = free_registry a'.buffer_registry a'.heap }))

sum_capacities : ℕ → List Chunk → Run ℕ
sum_capacities total [] = ok total
sum_capacities total (c ∷ cs) =
    let rest = sum_capacities (total + c.capacity) cs in
    if ltb (word_max - c.capacity) total then trap overflow else rest

pub reserved_bytes : Arena → Run ℕ
reserved_bytes a = if a.growable then sum_capacities 0 a.chunks else ok a.capacity
