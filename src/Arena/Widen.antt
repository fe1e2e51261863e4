-- ===== src/Arena/Widen.antt =====
-- The doubling loop of `native_arena_add_chunk`.
use beagle.Base.{ℕ, zero, suc, ◌*◌, ◌^◌, ◌≤◌, arith, ltb, ◌==◌, if◌then◌else◌, ap}
use native.Mathlib.Nat.{pow-suc}
use beagle.Arena.{Arena, word_max, widen, chunk_capacity}

-- With `2 ^ 64 ≤ capacity * 2 ^ fuel` the loop has ended by its own test.
widen-covers :
    (fuel capacity required : ℕ)
    → 2 ^ 64 ≤ capacity * 2 ^ fuel
    → required ≤ word_max
    → required ≤ widen fuel capacity required
unfolding widen
widen-covers zero capacity required big fits = omega arith
widen-covers (suc fuel) capacity required big fits =
    let doubled : 2 ^ 64 ≤ capacity * 2 * 2 ^ fuel =
      omega (arith, ap (λ (t : ℕ). capacity * t) (pow-suc 2 fuel)) in
    let rest = widen-covers fuel (capacity * 2) required doubled fits in ground (arith, rest)

widen-le :
    (fuel capacity required : ℕ)
    → capacity ≤ word_max
    → required ≤ word_max
    → widen fuel capacity required ≤ word_max
unfolding widen
widen-le zero capacity required h fits = h
widen-le (suc fuel) capacity required h fits = ground (arith, widen-le fuel (capacity * 2) required)

-- A new chunk holds what was asked for, and its size is a `size_t`.
pub chunk_capacity_bounds :
    (a : Arena) (required : ℕ)
    → a.capacity ≤ word_max
    → a.growth_floor ≤ word_max
    → required ≤ word_max
    → (required ≤ chunk_capacity a required) × (chunk_capacity a required ≤ word_max)
unfolding chunk_capacity
chunk_capacity_bounds a required hc hf fits =
    let floor = if ltb a.capacity a.growth_floor then a.growth_floor else a.capacity in
    let start = if floor == 0 then 4096 else floor in
    let at_least : 1 ≤ start = ground arith in
    let at_most : start ≤ word_max = ground arith in
    (widen-covers 64 start required (omega arith) fits, widen-le 64 start required at_most fits)
