-- ===== src/Parallel/Released.antt =====
-- native-core/shim/native_parallel.c, the scratch of the runtime from `native_parallel_runtime_create`
-- to `native_parallel_runtime_destroy`, on the heap.
use beagle.Base.{
  ℕ, ◌+◌, ◌/◌, ◌-◌, ◌^◌, ◌≡◌, refl, arith, Bool, true, false, ◌||◌, Option, none, some, List, [],
  ◌∷◌, ◌==◌, ltb, if◌then◌else◌, Bool-cases, inl, inr,
}
use beagle.Base.Int.{pos}
use beagle.Arena.{Heap, malloc, free}
use beagle.Arena.Balance.{times}
use beagle.Parallel.Scratch.{
  Scratch, u64, missing, free_present, take_pair, grow_elements, grow_partitions, settle,
  reserve_within, reserve, release_scratch, IsSound, Untaken, take_pair-Untaken, reserve-IsReserved,
}

-- `native_parallel_runtime_create`: no array, whatever the counts of other runtimes
abbrev pub no_scratch : ℕ → Heap → Scratch
no_scratch count h = record {
  shadow_elements = none;
  coverage = none;
  partials = none;
  statuses = none;
  element_capacity = 0;
  partition_capacity = 0;
  allocations = count;
  frees = count;
  heap = h;
}

-- Reservations one after another, each with `active` and the two sizes
unfoldable pub reserve_all : Scratch → List (Bool × ℕ × ℕ) → Scratch
reserve_all s [] = s
reserve_all s ((active, elements, partitions) ∷ rest) =
    reserve_all (reserve active s (pos elements) (pos partitions)).1 rest

reserve_all-IsSound :
    (s : Scratch) (requests : List (Bool × ℕ × ℕ)) → IsSound s → IsSound (reserve_all s requests)
unfolding reserve_all
reserve_all-IsSound s [] sound = sound
reserve_all-IsSound s ((active, elements, partitions) ∷ rest) sound =
    reserve_all-IsSound (reserve active s (pos elements) (pos partitions)).1 rest
      (reserve-IsReserved active s elements partitions sound).sound

-- Whether an array is at this address
abbrev at_block : ℕ → Option ℕ → ℕ
at_block q none = 0
at_block q (some address) = if q == address then 1 else 0

-- A heap after some arrays were taken, and none was given back.
record Taken (q : ℕ) (h h' : Heap) (arrays : ℕ) : Type 0 where
  given : times q h'.given ≡ times q h.given + arrays
  freed : times q h'.freed ≡ times q h.freed

malloc-Taken : (q : ℕ) (h : Heap) → Taken q h (malloc h).1 (at_block q (malloc h).0)
unfolding malloc times
malloc-Taken q h = record { given = ground arith; freed = ground arith }

take_pair-Taken :
    (q : ℕ) (more : Bool) (h : Heap)
    → Taken q h
        (take_pair more h).1.1
        (at_block q (take_pair more h).0 + at_block q (take_pair more h).1.0)
take_pair-Taken q false h = record { given = omega arith; freed = refl }
take_pair-Taken q true h =
    let first = malloc-Taken q h in
    let second = malloc-Taken q (malloc h).1 in
    record {
      given = omega (arith, first.given, second.given);
      freed = omega (arith, first.freed, second.freed);
    }

free_present_heap :
    (q : ℕ) (o : Option ℕ) (h : Heap)
    → (times q (free_present o h).freed ≡ times q h.freed + at_block q o)
      × (times q (free_present o h).given ≡ times q h.given)
unfolding free times
free_present_heap q none h = (omega arith, refl)
free_present_heap q (some address) h = (omega arith, refl)

free_four :
    (q : ℕ) (a b c d : Option ℕ) (h : Heap)
    → let h' = free_present d (free_present c (free_present b (free_present a h))) in
      (times q h'.freed
        ≡ times q h.freed + (at_block q a + at_block q b + at_block q c + at_block q d))
      × (times q h'.given ≡ times q h.given)
free_four q a b c d h =
    let (f, g) = free_present_heap q a h in
    let (f', g') = free_present_heap q b (free_present a h) in
    let (f'', g'') = free_present_heap q c (free_present b (free_present a h)) in
    let (f₃, g₃) = free_present_heap q d (free_present c (free_present b (free_present a h))) in
    (omega (arith, f, f', f'', f₃), omega (arith, g, g', g'', g₃))

abbrev held : ℕ → Scratch → ℕ
held q s =
    at_block q s.shadow_elements
    + at_block q s.coverage
    + at_block q s.partials
    + at_block q s.statuses

-- What `malloc` gave is what was freed, with the arrays that are there.
abbrev Balanced : ℕ → Scratch → Type 0
Balanced q s = times q s.heap.given ≡ times q s.heap.freed + held q s

module _ (q : ℕ) (s : Scratch) (a b c d : Option ℕ) (h : Heap) (elements partitions : ℕ)
    (balanced : Balanced q s)
    (taken : Taken q s.heap h (at_block q a + at_block q b + (at_block q c + at_block q d))) where
  refused-balanced :
      let h' = free_present d (free_present c (free_present b (free_present a h))) in
      times q h'.given ≡ times q h'.freed + held q s
  refused-balanced =
      let (f, g) = free_four q a b c d h in omega (arith, f, g, balanced, taken.given, taken.freed)

  settle-Balanced :
      (more_elements more_partitions : Bool)
      → Untaken more_elements a b
      → Untaken more_partitions c d
      → Balanced q (settle s more_elements more_partitions a b c d h elements partitions).1
  unfolding settle grow_elements grow_partitions
  settle-Balanced false false ab cd =
      ground (arith, balanced, taken.given, taken.freed, ab refl, cd refl)
  settle-Balanced true false ab cd = elim (Bool-cases (missing a || missing b)) [
    | inl short ↦ ground (arith, short, refused-balanced)
    | inr full ↦
        let (f, g) = free_present_heap q s.shadow_elements h in
        let (f', g') = free_present_heap q s.coverage (free_present s.shadow_elements h) in
        ground (arith, full, f, g, f', g', balanced, taken.given, taken.freed, cd refl)
  ]
  settle-Balanced false true ab cd = elim (Bool-cases (missing c || missing d)) [
    | inl short ↦ ground (arith, short, refused-balanced)
    | inr full ↦
        let (f, g) = free_present_heap q s.partials h in
        let (f', g') = free_present_heap q s.statuses (free_present s.partials h) in
        ground (arith, full, f, g, f', g', balanced, taken.given, taken.freed, ab refl)
  ]
  settle-Balanced true true ab cd =
      elim (Bool-cases ((missing a || missing b) || (missing c || missing d))) [
        | inl short ↦ ground (arith, short, refused-balanced)
        | inr full ↦
            let (f, g) = free_four q s.shadow_elements s.coverage s.partials s.statuses h in
            ground (arith, full, f, g, balanced, taken.given, taken.freed)
      ]

reserve-Balanced :
    (q : ℕ) (active : Bool) (s : Scratch) (elements partitions : ℕ)
    → Balanced q s
    → Balanced q (reserve active s (pos elements) (pos partitions)).1
unfolding reserve reserve_within
reserve-Balanced q active s elements partitions balanced = elim (Bool-cases too_much) [
  | inl refused ↦ rw refused balanced
  | inr asked ↦
      let more = ltb s.element_capacity elements in
      let first = take_pair more s.heap in
      let more' = ltb s.partition_capacity partitions in
      let second = take_pair more' first.1.1 in
      let one = take_pair-Taken q more s.heap in
      let two = take_pair-Taken q more' first.1.1 in
      rw asked (
        settle-Balanced q s first.0 first.1.0 second.0 second.1.0 second.1.1 elements partitions
          balanced
          record {
            given = omega (arith, one.given, two.given);
            freed = omega (arith, one.freed, two.freed);
          }
          more more' (take_pair-Untaken more s.heap) (take_pair-Untaken more' first.1.1))
]
  where
    too_much : Bool
    too_much = ltb ((2 ^ 64 - 1) / 8) elements || ltb ((2 ^ 64 - 1) / 8) partitions || active

reserve_all-Balanced :
    (q : ℕ) (s : Scratch) (requests : List (Bool × ℕ × ℕ))
    → Balanced q s
    → Balanced q (reserve_all s requests)
unfolding reserve_all
reserve_all-Balanced q s [] balanced = balanced
reserve_all-Balanced q s ((active, elements, partitions) ∷ rest) balanced =
    reserve_all-Balanced q (reserve active s (pos elements) (pos partitions)).1 rest
      (reserve-Balanced q active s elements partitions balanced)

-- Nothing is left of the scratch: each block was freed as often as `malloc` gave it, and the two
-- counts are the same.
pub record IsReleased (s : Scratch) : Type 0 where
  pub all_freed : (q : ℕ) → times q s.heap.given ≡ times q s.heap.freed
  pub counted : u64 s.allocations ≡ u64 s.frees

-- Every array of scratch is freed exactly as often as `malloc` gave it: if each block of the heap
-- was, and the two counts were equal, before the creation of the runtime, so it is after any
-- reservations, granted or not, and the destruction of the runtime; the counts are equal modulo
-- 2 ^ 64.
pub release_scratch-IsReleased :
    (count : ℕ) (h : Heap) (requests : List (Bool × ℕ × ℕ))
    → ((q : ℕ) → times q h.given ≡ times q h.freed)
    → IsReleased (release_scratch (reserve_all (no_scratch count h) requests))
unfolding release_scratch
release_scratch-IsReleased count h requests before = record {
  all_freed = λ q.
      let balanced =
        reserve_all-Balanced q (no_scratch count h) requests (omega (arith, before q)) in
      let (f, g) =
        free_four q after.shadow_elements after.coverage after.partials after.statuses after.heap in
      omega (arith, f, g, balanced);
  counted = omega (arith, sound.counted);
}
  where
    after : Scratch
    after = reserve_all (no_scratch count h) requests

    sound : IsSound after
    sound = reserve_all-IsSound (no_scratch count h) requests record {
      elements_held = λ o. absurd (omega arith);
      partitions_held = λ o. absurd (omega arith);
      counted = ground arith;
    }
