-- ===== src/Arena/Alloc.antt =====
-- What `native_arena_alloc` returns.
use beagle.Base.{
  ℕ, ◌+◌, ◌-◌, ◌%◌, ◌≤◌, ◌<◌, ◌≡◌, ◌⊎◌, inl, inr, arith, refl, true, false, not, ◌||◌, ◌==◌, ok,
  bit_and, Option-cases, ◌∷◌,
}
use mathlib.Core.Path.{subst}
use beagle.Arena.{
  Arena, Chunk, word_max, add_chunk, take_chunk, link_chunk, chunk_capacity, align_up, bump, alloc,
  alloc_grown,
}
use beagle.Arena.Widen.{chunk_capacity_bounds}
use beagle.Arena.Align.{align_up_lem}

-- The block lies in the address space, and the fields fit their C types.
pub record IsValid (a : Arena) : Type 0 where
  pub used : a.offset ≤ a.capacity
  pub addressable : a.bytes + a.capacity ≤ word_max
  pub floor_fits : a.growth_floor ≤ word_max
  pub count_fits : a.allocation_count ≤ word_max

-- The block that is served from is the same one, and the new bytes lie behind the used ones.
pub record SameBlock (a a' : Arena) (p : ℕ) : Type 0 where
  pub same_bytes : a'.bytes ≡ a.bytes
  pub same_capacity : a'.capacity ≡ a.capacity
  pub same_chunks : a'.chunks ≡ a.chunks
  pub behind : a.bytes + a.offset ≤ p

-- One chunk was linked, and the new bytes are the first in it.
pub record NewChunk (a a' : Arena) : Type 0 where
  pub allowed : a.growable ≡ true
  pub chunk : Chunk
  pub linked : a'.chunks ≡ chunk ∷ a.chunks
  pub its_bytes : a'.bytes ≡ chunk.storage
  pub its_capacity : a'.capacity ≡ chunk.capacity

pub record Placed (a a' : Arena) (size alignment p : ℕ) : Type 0 where
  pub aligned : p % alignment ≡ 0
  pub above : a'.bytes ≤ p
  pub to_offset : p + size ≡ a'.bytes + a'.offset
  pub within : a'.offset ≤ a'.capacity
  pub counted : a'.allocation_count ≡ a.allocation_count + 1
  pub count_fits : a'.allocation_count ≤ word_max
  pub floor_kept : a'.growth_floor ≡ a.growth_floor
  pub place : SameBlock a a' p ⊎ NewChunk a a'

-- What a successful `native_arena_add_chunk` leaves.
record Added (a a' : Arena) (required : ℕ) : Type 0 where
  chunk : Chunk
  linked : a'.chunks ≡ chunk ∷ a.chunks
  its_bytes : a'.bytes ≡ chunk.storage
  its_capacity : a'.capacity ≡ chunk.capacity
  sized : a'.capacity ≡ chunk_capacity a required
  empty : a'.offset ≡ 0
  same_count : a'.allocation_count ≡ a.allocation_count
  same_floor : a'.growth_floor ≡ a.growth_floor

add_chunk-Added :
    (a : Arena) (required : ℕ)
    → (add_chunk a required).0 ≡ true
    → Added a (add_chunk a required).1 required
unfolding add_chunk link_chunk
add_chunk-Added a required h = elim (Option-cases (take_chunk a.heap).0) [
  | inl e ↦ absurd (ground arith)
  | inr ((c, s), e) ↦ record {
    chunk = record { address = c; storage = s; capacity = chunk_capacity a required };
    linked = rw (e, add_chunk, link_chunk);
    its_bytes = rw (e, add_chunk);
    its_capacity = rw (e, add_chunk);
    sized = rw (e, add_chunk);
    empty = rw (e, add_chunk);
    same_count = rw (e, add_chunk);
    same_floor = rw (e, add_chunk);
  }
]

bump-grown :
    (a a' : Arena) (size alignment : ℕ)
    → IsValid a
    → Added a a' (size + alignment - 1)
    → a.growable ≡ true
    → (alignment == 0 || not (bit_and alignment (alignment - 1) == 0)) ≡ false
    → a.allocation_count < word_max
    → size + alignment - 1 ≤ word_max
    → a'.bytes + (alignment - 1) ≤ word_max
    → Placed a
        (bump a' (align_up a'.bytes (alignment - 1) - a'.bytes) size).1
        size
        alignment
        (bump a' (align_up a'.bytes (alignment - 1) - a'.bytes) size).0
unfolding bump
bump-grown a a' size alignment v d g guard room fits low =
    let (mult, lo, hi) = align_up_lem a'.bytes alignment guard low in
    let (covers, _) =
      chunk_capacity_bounds a (size + alignment - 1) (omega arith) v.floor_fits fits in
    let address : a'.bytes + (align_up a'.bytes (alignment - 1) - a'.bytes)
        ≡ align_up a'.bytes (alignment - 1) =
      omega arith in
    record {
      aligned = rw address mult;
      above = omega arith;
      to_offset = omega arith;
      within = ground arith;
      counted = omega arith;
      count_fits = omega arith;
      floor_kept = d.same_floor;
      place = inr (record {
        allowed = g;
        chunk = d.chunk;
        linked = d.linked;
        its_bytes = d.its_bytes;
        its_capacity = d.its_capacity;
      });
    }

bump-same :
    (a : Arena) (size alignment : ℕ)
    → IsValid a
    → (alignment == 0 || not (bit_and alignment (alignment - 1) == 0)) ≡ false
    → a.allocation_count < word_max
    → a.bytes + a.offset + (alignment - 1) ≤ word_max
    → align_up (a.bytes + a.offset) (alignment - 1) - a.bytes + size ≤ a.capacity
    → Placed a
        (bump a (align_up (a.bytes + a.offset) (alignment - 1) - a.bytes) size).1
        size
        alignment
        (bump a (align_up (a.bytes + a.offset) (alignment - 1) - a.bytes) size).0
unfolding bump
bump-same a size alignment v guard room low fits =
    let (mult, lo, hi) = align_up_lem (a.bytes + a.offset) alignment guard low in
    let address : a.bytes + (align_up (a.bytes + a.offset) (alignment - 1) - a.bytes)
        ≡ align_up (a.bytes + a.offset) (alignment - 1) =
      omega arith in
    record {
      aligned = rw address mult;
      above = omega arith;
      to_offset = omega arith;
      within = omega arith;
      counted = omega arith;
      count_fits = omega arith;
      floor_kept = refl;
      place = inl (record {
        same_bytes = refl;
        same_capacity = refl;
        same_chunks = refl;
        behind = omega arith;
      });
    }

-- What the tests of the growing branch leave.
alloc_grown_passed :
    (a : Arena) (size alignment p : ℕ) (a' : Arena)
    → alignment ≤ word_max
    → alloc_grown a size alignment ≡ ok (p, a')
    → (a.growable ≡ true)
      × (size + (alignment - 1) ≤ word_max)
      × ((add_chunk a (size + alignment - 1)).0 ≡ true)
      × ((add_chunk a (size + alignment - 1)).1.bytes + (alignment - 1) ≤ word_max)
      × (bump
            (add_chunk a (size + alignment - 1)).1
            (align_up (add_chunk a (size + alignment - 1)).1.bytes (alignment - 1)
              - (add_chunk a (size + alignment - 1)).1.bytes)
            size
          ≡ (p, a'))
unfolding alloc_grown
alloc_grown_passed a size alignment p a' w h = ground arith

-- What the tests of `native_arena_alloc` leave.
alloc_passed :
    (a : Arena) (size alignment p : ℕ) (a' : Arena)
    → IsValid a
    → alignment ≤ word_max
    → alloc a size alignment ≡ ok (p, a')
    → ((alignment == 0 || not (bit_and alignment (alignment - 1) == 0)) ≡ false)
      × (a.allocation_count < word_max)
      × (a.bytes + a.offset + (alignment - 1) ≤ word_max)
      × (((align_up (a.bytes + a.offset) (alignment - 1) - a.bytes + size ≤ a.capacity)
            × (bump a (align_up (a.bytes + a.offset) (alignment - 1) - a.bytes) size ≡ (p, a')))
          ⊎ (alloc_grown a size alignment ≡ ok (p, a')))
unfolding alloc
alloc_passed a size alignment p a' v w h = ground arith

-- A call of `native_arena_alloc` that returns hands out `size` bytes at a multiple of `alignment`,
-- inside the block that the arena then serves from and behind all that was served from it before.
pub alloc-Placed :
    (a : Arena) (size alignment p : ℕ) (a' : Arena)
    → IsValid a
    → alignment ≤ word_max
    → alloc a size alignment ≡ ok (p, a')
    → Placed a a' size alignment p
alloc-Placed a size alignment p a' v w h =
    let (guard, room, low, branches) = alloc_passed a size alignment p a' v w h in
    elim branches [
      | inl (fits, e) ↦
          subst (λ (r : ℕ × Arena). Placed a r.1 size alignment r.0) e
            (bump-same a size alignment v guard room low fits)
      | inr grown ↦
          let (may, fits, added, low', e) = alloc_grown_passed a size alignment p a' w grown in
          subst (λ (r : ℕ × Arena). Placed a r.1 size alignment r.0) e
            (bump-grown a (add_chunk a (size + alignment - 1)).1 size alignment v
              (add_chunk-Added a (size + alignment - 1) added) may guard room (omega arith) low')
    ]

-- The fields still fit, if `malloc` returns blocks inside the address space.
pub Placed-IsValid :
    {a a' : Arena} {size alignment p : ℕ}
    → IsValid a
    → Placed a a' size alignment p
    → a'.bytes + a'.capacity ≤ word_max
    → IsValid a'
Placed-IsValid v placed fits = record {
  used = placed.within;
  addressable = fits;
  floor_fits = omega arith;
  count_fits = placed.count_fits;
}
