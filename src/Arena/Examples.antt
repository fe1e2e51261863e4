-- ===== src/Arena/Examples.antt =====
-- An arena of 64 fixed bytes that grows once, and the tests on it.
use beagle.Base.{◌≡◌, refl, arith, true, false, none, some, [], ◌∷◌, ok, inr}
use beagle.Arena.{
  Arena, Chunk, Heap, malloc, take_chunk, link_chunk, add_chunk, chunk_capacity, widen, bump, alloc,
  alloc_grown, free, free_chunks, free_registry, next_generation, reset, destroy, clear,
  sum_capacities, reserved_bytes,
}
use beagle.Arena.Alloc.{IsValid, Placed, alloc-Placed}
use beagle.Arena.Disjoint.{Allocated, fresh, next, AllDisjoint, Allocated-Disjoint}
use beagle.Arena.Balance.{
  times, times_chunks, times_registry, Balanced, destroy-Balanced, alloc-Balanced,
}

abbrev two_answers : Heap
two_answers = record { answers = some 8192 ∷ some 65536 ∷ []; given = []; freed = [] }

abbrev start : Arena
start = record {
  bytes = 4100;
  capacity = 64;
  offset = 0;
  chunks = [];
  buffer_registry = none;
  growth_floor = 0;
  growable = true;
  allocation_count = 0;
  buffer_storage_allocation_count = 0;
  buffer_storage_current_bytes = 0;
  buffer_storage_high_water_bytes = 0;
  heap = two_answers;
}

-- After ten bytes, which alignment moves up by four.
abbrev once : Arena
once = record start { offset = 14; allocation_count = 1 }

abbrev new_chunk : Chunk
new_chunk = record { address = 8192; storage = 65536; capacity = 128 }

-- After a hundred bytes more, from a chunk of their own.
abbrev twice : Arena
twice = record once {
  bytes = 65536;
  capacity = 128;
  offset = 100;
  chunks = new_chunk ∷ [];
  allocation_count = 2;
  heap = record { answers = []; given = 65536 ∷ 8192 ∷ []; freed = [] };
}

alloc-once : alloc start 10 8 ≡ ok (4104, once)
unfolding alloc alloc_grown bump
alloc-once = refl

alloc-twice : alloc once 100 8 ≡ ok (65536, twice)
unfolding alloc alloc_grown bump add_chunk link_chunk chunk_capacity widen take_chunk malloc
alloc-twice = refl

reserved_bytes-twice : reserved_bytes twice ≡ ok 128
unfolding reserved_bytes sum_capacities
reserved_bytes-twice = refl

start-IsValid : IsValid start
start-IsValid = record {
  used = omega arith;
  addressable = omega arith;
  floor_fits = omega arith;
  count_fits = omega arith;
}

alloc-Placed_example : Placed start once 10 8 4104
alloc-Placed_example = alloc-Placed start 10 8 4104 once start-IsValid (omega arith) alloc-once

both_calls : Allocated start twice ((65536, 100) ∷ (4104, 10) ∷ [])
both_calls =
    next 100 8 65536
      (next 10 8 4104 fresh (omega arith) alloc-once
        record { addressable = omega arith; apart = λ _. tt })
      (omega arith) alloc-twice
      record { addressable = omega arith; apart = λ _. (inr (omega arith), tt) }

Allocated-Disjoint_example : AllDisjoint ((65536, 100) ∷ (4104, 10) ∷ [])
Allocated-Disjoint_example = Allocated-Disjoint start-IsValid both_calls

once-Balanced : Balanced once
unfolding times times_chunks times_registry
once-Balanced q = omega arith

abbrev destroyed : Arena
destroyed = record start {
  bytes = 0;
  capacity = 0;
  growable = false;
  heap = record { answers = []; given = 65536 ∷ 8192 ∷ []; freed = 8192 ∷ 65536 ∷ [] };
}

destroy-twice : destroy twice ≡ ok destroyed
unfolding destroy reset next_generation free_chunks free free_registry clear
destroy-twice = refl

twice-Balanced : Balanced twice
twice-Balanced = alloc-Balanced once 100 8 65536 twice once-Balanced alloc-twice

twice-growable : twice.growable ≡ false → twice.chunks ≡ []
twice-growable e = absurd (cc)

destroy-Balanced_example : times 8192 destroyed.heap.given ≡ times 8192 destroyed.heap.freed
destroy-Balanced_example =
    destroy-Balanced twice destroyed twice-Balanced twice-growable destroy-twice 8192
