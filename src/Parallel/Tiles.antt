-- ===== src/Parallel/Tiles.antt =====
-- native-core/shim/native_parallel.c, `native_parallel_partition_count` and the range of a tile in
-- `native_parallel_execute_partition`.
use beagle.Base.{
  ℕ, ◌+◌, ◌-◌, ◌*◌, ◌/◌, ◌≤◌, ◌<◌, ◌≡◌, refl, sym, ◌∙◌, false, some, arith, ltb, if◌then◌else◌,
}
use beagle.Base.Int.{pos, int_max}
use native.Mathlib.Nat.{le-div_iff_mul-le, div-mul-le_self, lt-div-mul-add, div-eq_of_lt-le}
use beagle.Parallel.{partition_count, tile}

-- The tiles cut `[0, length)` into pieces: none is empty or reaches past the end, and each element
-- lies in exactly one.
pub record IsCut (length width count : ℕ) : Type 0 where
  pub bounds :
      (p : ℕ)
      → p < count
      → (lo : ℕ) × (hi : ℕ) × (tile length width p ≡ some (lo, hi)) × (lo < hi) × (hi ≤ length)
  pub covering :
      (i : ℕ)
      → i < length
      → (p : ℕ) × (p < count)
        × ((lo : ℕ) × (hi : ℕ) × (tile length width p ≡ some (lo, hi)) × (lo ≤ i) × (i < hi))
  pub apart :
      (p q : ℕ) {lo hi lo' hi' : ℕ} (i : ℕ)
      → tile length width p ≡ some (lo, hi)
      → tile length width q ≡ some (lo', hi')
      → lo ≤ i
      → i < hi
      → lo' ≤ i
      → i < hi'
      → p ≡ q

abbrev end : (length width p : ℕ) → ℕ
end length width p = if ltb (length - p * width) width then length else p * width + width

tile-some :
    (length width p : ℕ)
    → 0 < width
    → length ≤ int_max
    → p * width < length
    → tile length width p ≡ some (p * width, end length width p)
tile-some length width p h l b =
    let fits : p ≤ int_max / width = (le-div_iff_mul-le h).1 (omega (arith, l, b)) in
    let e : ltb (int_max / width) p ≡ false = ground (arith, fits) in rw e refl

-- The range of a tile that has one.
pub tile-range :
    (length width p lo hi : ℕ)
    → tile length width p ≡ some (lo, hi)
    → (p * width ≡ lo) × (end length width p ≡ hi)
tile-range length width p lo hi h = ground arith

quotient : (width p i : ℕ) → 0 < width → p * width ≤ i → i < p * width + width → i / width ≡ p
quotient width p i h l b = div-eq_of_lt-le width l (omega (arith, l, b))

-- The tiles that `native_parallel_partition_count` counts cut the buffer into pieces: none is
-- empty or reaches past the end, each element lies in one of them, and in one only.
pub partition_count-IsCut :
    (length width count : ℕ)
    → length ≤ int_max
    → partition_count (pos length) (pos width) ≡ some count
    → IsCut length width count
partition_count-IsCut length width count small counted = record {
  bounds = λ p b.
      let l = before p b in
      (
        p * width,
        end length width p,
        tile-some length width p wide small l,
        ground (arith, l, wide),
        ground (arith, l, wide),
      );
  covering = λ i b.
      let p = i / width in
      let low : p * width ≤ i = div-mul-le_self i width in
      let high : i < p * width + width = lt-div-mul-add wide in
      let l : p * width < length = omega arith in
      (
        p,
        counts p l,
        (
          p * width,
          end length width p,
          tile-some length width p wide small l,
          low,
          ground (arith, high, b),
        ),
      );
  apart = λ p q i t u a b c d. sym (in_tile p i t a b) ∙ in_tile q i u c d;
}
  where
    wide : 0 < width
    wide = ground arith

    before : (p : ℕ) → p < count → p * width < length
    before p b =
        let some_element : 0 < length = ground arith in
        let l : p ≤ (length - 1) / width = ground arith in
        let m : p * width ≤ length - 1 = (le-div_iff_mul-le wide).0 l in omega arith

    counts : (p : ℕ) → p * width < length → p < count
    counts p l =
        let m : p ≤ (length - 1) / width = (le-div_iff_mul-le wide).1 (omega arith) in
        ground (arith, m, l)

    in_tile :
        (p i : ℕ) {lo hi : ℕ}
        → tile length width p ≡ some (lo, hi)
        → lo ≤ i
        → i < hi
        → i / width ≡ p
    in_tile p i {lo} {hi} t a b =
        let (e, f) = tile-range length width p lo hi t in
        quotient width p i wide (omega (arith, e)) (ground (arith, f, a, b, e))
