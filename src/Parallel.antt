-- ===== src/Parallel.antt =====
-- native-core/shim/native_parallel.c: the tiles of a buffer, what a tile may read, and the pool of
-- workers that run the tiles.
mod Family
mod Pool
mod Pooled
mod Tiles
mod Halo
mod Scratch
mod Released
mod Commit
mod Stepped
mod Examples
use beagle.Base.{
  ℕ, suc, ◌+◌, ◌-◌, ◌*◌, ◌/◌, ◌≤◌, ◌<◌, ◌≡◌, Bool, true, false, ◌&&◌, ◌||◌, Option, none, some, ltb,
  leb, ◌==◌, if◌then◌else◌,
}
use beagle.Base.Int.{ℤ, pos, negsuc, int_max}
use beagle.Buffer.{ParallelAccess}

abbrev pub max_workers : ℕ
max_workers = 64

pub data Boundary : Type 0 where
  bounded periodic : Boundary

pub valid_workers : ℤ → Bool
valid_workers (pos workers) = leb 1 workers && leb workers max_workers
valid_workers (negsuc _) = false

-- `native_parallel_add_clamped`; the arguments of every call are not negative.
abbrev pub add_clamped : ℕ → ℕ → ℕ → Option ℕ
add_clamped value amount limit =
    if ltb limit value
    then none
    else (if ltb (limit - value) amount then some limit else some (value + amount))

abbrev pub partition_count : ℤ → ℤ → Option ℕ
partition_count (pos length) (pos width) =
    if width == 0 then none else (if length == 0 then some 0 else some (1 + (length - 1) / width))
partition_count _ _ = none

-- The elements `[lo, hi)` of a partition; `none` is EOVERFLOW.
abbrev pub tile : (length width partition : ℕ) → Option (ℕ × ℕ)
tile length width partition =
    if ltb (int_max / width) partition
    then none
    else (let lo = partition * width in
        some (lo, if ltb (length - lo) width then length else lo + width))

-- `(void)native_parallel_add_clamped(..., &result)`: a call that fails leaves the result alone.
abbrev pub clamped : ℕ → Option ℕ → ℕ
clamped before none = before
clamped before (some n) = n

-- `native_parallel_partition_access`, with the range of the tile. A field that the code leaves at
-- 0 is 0 here. `lo - left_halo` is negative where `lo < left_halo`.
unfoldable pub partition_access :
    (current next : ℕ) (shadow : Option ℕ) (generation partition coverage : ℕ)
    → Boundary
    → (length left_halo right_halo lo hi : ℕ) → ParallelAccess
partition_access current next shadow generation partition coverage boundary length left_halo
      right_halo lo hi =
    let access : ParallelAccess = record {
      current = current;
      next = next;
      shadow = shadow;
      generation = generation;
      partition_id = partition;
      read_lo_0 = pos 0;
      read_hi_0 = pos 0;
      read_lo_1 = pos 0;
      read_hi_1 = pos 0;
      write_lo = pos lo;
      write_hi = pos hi;
      write_coverage = coverage;
      permissions = 3;
    } in
    let span_hi = clamped hi (add_clamped hi right_halo int_max) in
    if (is_bounded boundary || length == 0)
    then record access {
      read_lo_0 = pos (if ltb lo left_halo then 0 else lo - left_halo);
      read_hi_0 = pos (clamped 0 (add_clamped hi right_halo length));
    }
    else (if (leb length left_halo
          || leb length right_halo
          || leb (length - (hi - lo)) (left_halo + right_halo))
        then record access { read_hi_0 = pos length }
        else (if ltb lo left_halo
            then record access {
              read_hi_0 = pos span_hi;
              read_lo_1 = pos (length + lo - left_halo);
              read_hi_1 = pos length;
            }
            else (if ltb length span_hi
                then record access {
                  read_lo_0 = pos (lo - left_halo);
                  read_hi_0 = pos length;
                  read_hi_1 = pos (span_hi - length);
                }
                else record access { read_lo_0 = pos (lo - left_halo); read_hi_0 = pos span_hi })))
  where
    is_bounded : Boundary → Bool
    is_bounded bounded = true
    is_bounded periodic = false
