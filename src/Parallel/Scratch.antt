-- ===== src/Parallel/Scratch.antt =====
-- native-core/shim/native_parallel.c, `native_parallel_runtime_reserve` and the frees of
-- `native_parallel_runtime_destroy`: the scratch memory of the runtime and the counts of it.
use beagle.Base.{
  ℕ, ◌+◌, ◌-◌, ◌/◌, ◌%◌, ◌^◌, ◌≤◌, ◌<◌, ◌≡◌, refl, Bool, true, false, ◌&&◌, ◌||◌, Option, none,
  some, arith, ltb, if◌then◌else◌, Bool-cases, inl, inr,
}
use beagle.Base.Int.{ℤ, pos}
use beagle.Arena.{Heap, malloc, free}

-- The fields of `struct native_parallel_runtime` for the scratch, the two counts that the file
-- keeps of it, and the heap. `none` is NULL.
pub record Scratch : Type 0 where
  pub shadow_elements : Option ℕ
  pub coverage : Option ℕ
  pub partials : Option ℕ
  pub statuses : Option ℕ
  pub element_capacity : ℕ
  pub partition_capacity : ℕ
  pub allocations : ℕ  -- native_parallel_scratch_allocations
  pub frees : ℕ  -- native_parallel_scratch_frees
  pub heap : Heap

-- `(p == NULL ? UINT64_C(0) : UINT64_C(1))`
abbrev pub present : Option ℕ → ℕ
present none = 0
present (some address) = 1

abbrev pub missing : Option ℕ → Bool
missing none = true
missing (some address) = false

abbrev pub free_present : Option ℕ → Heap → Heap
free_present none h = h
free_present (some address) h = free address h

abbrev pub u64 : ℕ → ℕ
u64 n = n % 2 ^ 64

-- The two `malloc` of a pair of arrays that has to grow. What `malloc` answers does not depend on
-- the size here.
abbrev pub take_pair : Bool → Heap → Option ℕ × (Option ℕ × Heap)
take_pair false h = (none, (none, h))
take_pair true h =
    let (first, h₁) = malloc h in let (second, h₂) = malloc h₁ in (first, (second, h₂))

-- The two arrays for the elements, replaced where they grow
unfoldable pub grow_elements : Bool → Option ℕ → Option ℕ → ℕ → Scratch → Scratch
grow_elements grows shadow coverage elements s =
    if grows
    then record s {
      shadow_elements = shadow;
      coverage = coverage;
      element_capacity = elements;
      frees = u64 (s.frees + (present s.shadow_elements + present s.coverage));
      heap = free_present s.coverage (free_present s.shadow_elements s.heap);
    }
    else s

unfoldable pub grow_partitions : Bool → Option ℕ → Option ℕ → ℕ → Scratch → Scratch
grow_partitions grows partials statuses partitions s =
    if grows
    then record s {
      partials = partials;
      statuses = statuses;
      partition_capacity = partitions;
      frees = u64 (s.frees + (present s.partials + present s.statuses));
      heap = free_present s.statuses (free_present s.partials s.heap);
    }
    else s

-- What the arrays that `malloc` gave, or did not, lead to.
unfoldable pub settle :
    Scratch
    → (more_elements more_partitions : Bool) → (shadow coverage partials statuses : Option ℕ) → Heap
    → (elements partitions : ℕ) → Bool × Scratch
settle s more_elements more_partitions shadow coverage partials statuses h elements partitions =
    let taken = present shadow + present coverage + present partials + present statuses in
    let counted = record s { allocations = u64 (s.allocations + taken); heap = h } in
    if ((more_elements && (missing shadow || missing coverage))
      || (more_partitions && (missing partials || missing statuses)))
    then (
      false,
      record counted {
        frees = u64 (s.frees + taken);
        heap =
            free_present statuses
              (free_present partials (free_present coverage (free_present shadow h)));
      },
    )
    else (
      true,
      grow_partitions more_partitions partials statuses partitions
          (grow_elements more_elements shadow coverage elements counted),
    )

unfoldable pub reserve_within : Scratch → ℕ → ℕ → Bool × Scratch
reserve_within s elements partitions =
    let more_elements = ltb s.element_capacity elements in
    let more_partitions = ltb s.partition_capacity partitions in
    let (shadow, (coverage, h₁)) = take_pair more_elements s.heap in
    let (partials, (statuses, h₂)) = take_pair more_partitions h₁ in
    settle s more_elements more_partitions shadow coverage partials statuses h₂ elements partitions

-- `native_parallel_runtime_reserve` on a runtime, with its `active`
-- The tests against SIZE_MAX by the sizes 1 and 4 follow from those by 8.
unfoldable pub reserve : Bool → Scratch → ℤ → ℤ → Bool × Scratch
reserve active s (pos elements) (pos partitions) =
    if (ltb ((2 ^ 64 - 1) / 8) elements || ltb ((2 ^ 64 - 1) / 8) partitions || active)
    then (false, s)
    else reserve_within s elements partitions
reserve active s _ _ = (false, s)

-- The frees of `native_parallel_runtime_destroy`
unfoldable pub release_scratch : Scratch → Scratch
release_scratch s = record s {
  shadow_elements = none;
  coverage = none;
  partials = none;
  statuses = none;
  frees = u64 (
      s.frees
      + (present s.shadow_elements + present s.coverage + present s.partials + present s.statuses));
  heap =
      free_present s.statuses
        (free_present s.partials (free_present s.coverage (free_present s.shadow_elements s.heap)));
}

-- The arrays that the capacities promise are there, and the counts tell how many arrays there are.
pub record IsSound (s : Scratch) : Type 0 where
  pub elements_held :
      0 < s.element_capacity → (present s.shadow_elements ≡ 1) × (present s.coverage ≡ 1)
  pub partitions_held :
      0 < s.partition_capacity → (present s.partials ≡ 1) × (present s.statuses ≡ 1)
  pub counted :
      u64 s.allocations
      ≡ u64 (
          s.frees
          + (present s.shadow_elements
              + present s.coverage
              + present s.partials
              + present s.statuses))

-- No array was asked for.
abbrev pub Untaken : Bool → Option ℕ → Option ℕ → Type 0
Untaken more first second = more ≡ false → (first ≡ none) × (second ≡ none)

pub take_pair-Untaken :
    (more : Bool) (h : Heap) → Untaken more (take_pair more h).0 (take_pair more h).1.0
take_pair-Untaken true h e = cc
take_pair-Untaken false h e = (refl, refl)

-- What a reservation leaves: sound scratch, and room where it succeeds
pub record IsReserved (elements partitions : ℕ) (answer : Bool × Scratch) : Type 0 where
  pub sound : IsSound answer.1
  pub roomy :
      answer.0 ≡ true
      → (elements ≤ answer.1.element_capacity) × (partitions ≤ answer.1.partition_capacity)

failed-IsReserved :
    (s : Scratch) (taken : ℕ) (h : Heap) (elements partitions : ℕ)
    → IsSound s
    → IsReserved elements partitions (
      false,
      record s {
        allocations = u64 (s.allocations + taken);
        frees = u64 (s.frees + taken);
        heap = h;
      },
    )
failed-IsReserved s taken h e p sound = record {
  sound = record {
    elements_held = sound.elements_held;
    partitions_held = sound.partitions_held;
    counted = omega (arith, sound.counted);
  };
  roomy = λ o. cc;
}

settle-IsReserved :
    (s : Scratch) (more_elements more_partitions : Bool)
    (shadow coverage partials statuses : Option ℕ) (h : Heap) (elements partitions : ℕ)
    → IsSound s
    → Untaken more_elements shadow coverage
    → Untaken more_partitions partials statuses
    → (more_elements ≡ false → elements ≤ s.element_capacity)
    → (more_partitions ≡ false → partitions ≤ s.partition_capacity)
    → IsReserved elements partitions (
        settle s more_elements more_partitions shadow coverage partials statuses h elements
          partitions)
unfolding settle grow_elements grow_partitions
settle-IsReserved s false false a b c d h e p sound ab cd le lp = record {
  sound = record {
    elements_held = λ o. ground (arith, sound.elements_held);
    partitions_held = λ o. ground (arith, sound.partitions_held);
    counted = ground (arith, sound.counted);
  };
  roomy = λ o. (le refl, lp refl);
}
settle-IsReserved s true more none b c d h e p sound ab cd le lp = failed-IsReserved s _ _ e p sound
settle-IsReserved s true more (some a) none c d h e p sound ab cd le lp =
    failed-IsReserved s _ _ e p sound
settle-IsReserved s true true (some a) (some b) none d h e p sound ab cd le lp =
    failed-IsReserved s _ _ e p sound
settle-IsReserved s true true (some a) (some b) (some c) none h e p sound ab cd le lp =
    failed-IsReserved s _ _ e p sound
settle-IsReserved s true true (some a) (some b) (some c) (some d) h e p sound ab cd le lp = record {
  sound = record {
    elements_held = λ o. (refl, refl);
    partitions_held = λ o. (refl, refl);
    counted = omega (arith, sound.counted);
  };
  roomy = λ o. (omega arith, omega arith);
}
settle-IsReserved s true false (some a) (some b) c d h e p sound ab cd le lp = record {
  sound = record {
    elements_held = λ o. (refl, refl);
    partitions_held = sound.partitions_held;
    counted = ground (arith, sound.counted, cd refl);
  };
  roomy = λ o. (omega arith, lp refl);
}
settle-IsReserved s false true a b none d h e p sound ab cd le lp =
    failed-IsReserved s _ _ e p sound
settle-IsReserved s false true a b (some c) none h e p sound ab cd le lp =
    failed-IsReserved s _ _ e p sound
settle-IsReserved s false true a b (some c) (some d) h e p sound ab cd le lp = record {
  sound = record {
    elements_held = sound.elements_held;
    partitions_held = λ o. (refl, refl);
    counted = ground (arith, sound.counted, ab refl);
  };
  roomy = λ o. (le refl, omega arith);
}

-- A reservation, granted or not, leaves the scratch of the runtime sound: the arrays that its
-- capacities promise are there, and the count of allocations exceeds that of frees by the arrays
-- there are, modulo 2 ^ 64. A granted one leaves room for what was asked.
pub reserve-IsReserved :
    (active : Bool) (s : Scratch) (elements partitions : ℕ)
    → IsSound s
    → IsReserved elements partitions (reserve active s (pos elements) (pos partitions))
unfolding reserve reserve_within
reserve-IsReserved active s elements partitions sound = elim (Bool-cases too_much) [
  | inl refused ↦ rw refused record { sound = sound; roomy = λ o. cc }
  | inr asked ↦
      let first = take_pair (ltb s.element_capacity elements) s.heap in
      let second = take_pair (ltb s.partition_capacity partitions) first.1.1 in
      rw asked (
        settle-IsReserved s (ltb s.element_capacity elements) (ltb s.partition_capacity partitions)
          first.0 first.1.0 second.0 second.1.0 second.1.1 elements partitions sound
          (take_pair-Untaken (ltb s.element_capacity elements) s.heap)
          (take_pair-Untaken (ltb s.partition_capacity partitions) first.1.1) (λ n. ground arith)
          (λ n. ground arith))
]
  where
    too_much : Bool
    too_much = ltb ((2 ^ 64 - 1) / 8) elements || ltb ((2 ^ 64 - 1) / 8) partitions || active
