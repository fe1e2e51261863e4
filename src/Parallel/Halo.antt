-- ===== src/Parallel/Halo.antt =====
-- native-core/shim/native_parallel.c, `native_parallel_partition_access`: the elements that a tile
-- may read and write.
use beagle.Base.{
  ℕ, ◌+◌, ◌-◌, ◌/◌, ◌^◌, ◌≤◌, ◌<◌, ◌≡◌, ◌⊎◌, ◌↔◌, inl, inr, Bool, true, false, some, arith, leb,
  ◌||◌, Bool-cases, dec_lt,
}
use beagle.Base.Int.{pos, int_max}
use beagle.Buffer.{ParallelAccess, parallel_read_allowed, parallel_write_allowed}
use beagle.Parallel.Tiles.{partition_count-IsCut}
use beagle.Parallel.{tile, partition_count, Boundary, bounded, periodic, partition_access}

-- A tile and its halo, as the checks of the step leave them
pub record IsTile (length left right lo hi : ℕ) : Type 0 where
  pub few : length ≤ (2 ^ 64 - 1) / 8
  pub small : left + right ≤ int_max
  pub ordered : lo < hi
  pub inside : hi ≤ length

module _ {length left right lo hi : ℕ} (tile : IsTile length left right lo hi)
    (current next shadow generation partition coverage : ℕ) where
  open tile use {few, small, ordered, inside}

  abbrev access : Boundary → ParallelAccess
  access boundary =
      partition_access current next (some shadow) generation partition coverage boundary length left
        right lo hi

  bounded-reads :
      (i : ℕ)
      → (parallel_read_allowed (access bounded) current (pos i) ≡ true)
        ↔ ((i < length) × ((lo ≤ i + left) × (i < hi + right)))
  unfolding partition_access parallel_read_allowed
  bounded-reads i = (λ h. ground arith, λ h. ground (arith, h))

  abbrev MayRead : ℕ → Type 0
  MayRead i = parallel_read_allowed (access periodic) current (pos i) ≡ true

  -- The halo reaches around the whole buffer.
  abbrev is_wide : Bool
  is_wide = leb length left || leb length right || leb (length - (hi - lo)) (left + right)

  -- Within the halo, where the buffer stands beside itself on both sides
  abbrev pub Around : ℕ → Type 0
  Around i =
      ((lo ≤ i + left) × (i < hi + right)) ⊎ ((length + lo ≤ i + left) ⊎ (i + length < hi + right))

  wide-reads : is_wide ≡ true → (i : ℕ) → MayRead i ↔ (i < length)
  unfolding partition_access parallel_read_allowed
  wide-reads w i = (λ h. ground arith, λ l. ground arith)

  wide-Around : is_wide ≡ true → (i : ℕ) → i < length → Around i
  wide-Around w i l = ground arith

  low-reads :
      is_wide ≡ false
      → lo < left
      → (i : ℕ) → MayRead i ↔ ((i < hi + right) ⊎ ((length + lo ≤ i + left) × (i < length)))
  unfolding partition_access parallel_read_allowed
  low-reads w e i = (λ h. ground arith, λ l. ground arith)

  high-reads :
      is_wide ≡ false
      → left ≤ lo
      → length < hi + right
      → (i : ℕ) → MayRead i ↔ (((lo ≤ i + left) × (i < length)) ⊎ (i + length < hi + right))
  unfolding partition_access parallel_read_allowed
  high-reads w e f i = (λ h. ground arith, λ l. ground arith)

  middle-reads :
      is_wide ≡ false
      → left ≤ lo
      → hi + right ≤ length
      → (i : ℕ) → MayRead i ↔ ((lo ≤ i + left) × (i < hi + right))
  unfolding partition_access parallel_read_allowed
  middle-reads w e f i = (λ h. ground arith, λ l. ground arith)

  low-Around :
      is_wide ≡ false
      → lo < left
      → (i : ℕ)
      → ((i < hi + right) ⊎ ((length + lo ≤ i + left) × (i < length))) ↔ ((i < length) × Around i)
  low-Around w e i = (λ h. ground arith, λ l. ground arith)

  high-Around :
      is_wide ≡ false
      → left ≤ lo
      → length < hi + right
      → (i : ℕ)
      → (((lo ≤ i + left) × (i < length)) ⊎ (i + length < hi + right)) ↔ ((i < length) × Around i)
  high-Around w e f i = (λ h. ground arith, λ l. ground arith)

  middle-Around :
      is_wide ≡ false
      → left ≤ lo
      → hi + right ≤ length
      → (i : ℕ) → ((lo ≤ i + left) × (i < hi + right)) ↔ ((i < length) × Around i)
  middle-Around w e f i = (λ h. ground arith, λ l. ground arith)

  both : {P Q R : Type 0} → P ↔ Q → Q ↔ R → P ↔ R
  both f g = (λ p. g.0 (f.0 p), λ r. f.1 (g.1 r))

  periodic-reads : (i : ℕ) → MayRead i ↔ ((i < length) × Around i)
  periodic-reads i = elim (Bool-cases is_wide) [
    | inl w ↦
        let reads = wide-reads w i in
        (λ h. let l = reads.0 h in (l, wide-Around w i l), λ r. reads.1 r.0)
    | inr w ↦ elim (dec_lt lo left) [
      | yes e ↦ both (low-reads w e i) (low-Around w e i)
      | no e ↦ elim (dec_lt length (hi + right)) [
        | yes f ↦ both (high-reads w (omega arith) f i) (high-Around w (omega arith) f i)
        | no f ↦
            both (middle-reads w (omega arith) (omega arith) i)
              (middle-Around w (omega arith) (omega arith) i)
      ]
    ]
  ]

  abbrev pub Within : Boundary → ℕ → Type 0
  Within bounded i = (lo ≤ i + left) × (i < hi + right)
  Within periodic i = Around i

  -- A tile may read exactly the elements of the buffer that lie within its halo: from `left_halo`
  -- before its first element to `right_halo` behind its last one. With a periodic edge the halo
  -- goes on at the other end of the buffer.
  pub access-reads :
      (boundary : Boundary) (i : ℕ)
      → (parallel_read_allowed (access boundary) current (pos i) ≡ true)
        ↔ ((i < length) × Within boundary i)
  access-reads bounded = bounded-reads
  access-reads periodic = periodic-reads

module _ (length left right lo hi current next shadow generation partition coverage : ℕ)
    (boundary : Boundary) where
  abbrev granted : ParallelAccess
  granted =
      partition_access current next (some shadow) generation partition coverage boundary length left
        right lo hi

  written_range : (granted.next ≡ next) × (granted.write_lo ≡ pos lo) × (granted.write_hi ≡ pos hi)
  unfolding partition_access
  written_range = by_edge boundary
    where
      by_edge :
          (b : Boundary)
          → let t =
              partition_access current next
                (some shadow)
                generation
                partition
                coverage
                b
                length
                left
                right
                lo
                hi in
            (t.next ≡ next) × (t.write_lo ≡ pos lo) × (t.write_hi ≡ pos hi)
      by_edge bounded = ground arith
      by_edge periodic = ground arith

  -- A tile may write its own elements only.
  pub access-writes :
      (i : ℕ) → parallel_write_allowed granted next (pos i) ≡ true → (lo ≤ i) × (i < hi)
  unfolding parallel_write_allowed
  access-writes i h = let (n, l, u) = written_range in ground (arith, h, n, l, u)

-- Two tiles of a step never may write the same element, whatever their halos.
pub writes-apart :
    (length width : ℕ) {left right count : ℕ} (current next shadow generation coverage : ℕ)
    (boundary : Boundary)
    → partition_count (pos length) (pos width) ≡ some count
    → (p q : ℕ) {lo hi lo' hi' : ℕ} → tile length width p ≡ some (lo, hi)
    → tile length width q ≡ some (lo', hi')
    → IsTile length left right lo hi
    → IsTile length left right lo' hi'
    → (i : ℕ)
    → parallel_write_allowed
        (partition_access current next
          (some shadow)
          generation
          p
          coverage
          boundary
          length
          left
          right
          lo
          hi)
        next
        (pos i)
      ≡ true
    → parallel_write_allowed
        (partition_access current next
          (some shadow)
          generation
          q
          coverage
          boundary
          length
          left
          right
          lo'
          hi')
        next
        (pos i)
      ≡ true
    → p ≡ q
writes-apart length width {left} {right} {count} current next shadow generation coverage boundary
      counted p q {lo} {hi} {lo'} {hi'} t u a b i h k =
    let (l, m) =
      access-writes length left right lo hi current next shadow generation p coverage boundary i
        h in
    let (n, o) =
      access-writes length left right lo' hi' current next shadow generation q coverage boundary i
        k in
    (partition_count-IsCut length width count (omega (arith, a.few)) counted).apart p q i t u l m n
      o
