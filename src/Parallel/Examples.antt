-- ===== src/Parallel/Examples.antt =====
-- A buffer of ten elements in tiles of four, and a pool of two workers on it.
use beagle.Base.{ℕ, ◌<◌, ◌≡◌, ◌↔◌, refl, arith, true, false, none, some, [], ◌∷◌}
use beagle.Base.Int.{pos}
use beagle.Buffer.{parallel_read_allowed, parallel_write_allowed}
use beagle.Parallel.{tile, bounded, periodic, partition_access}
use beagle.Parallel.Pool.{
  Runtime, claim, finish, start_job, running, end_job, inside, System, Step, claims, finishes,
  Reach, start, later,
}
use beagle.Arena.{Heap}
use beagle.Parallel.Scratch.{reserve, IsReserved, reserve-IsReserved, release_scratch}
use beagle.Parallel.Released.{no_scratch, reserve_all, IsReleased, release_scratch-IsReleased}
use beagle.Parallel.Commit.{uncovered, commit, settle_outcome, settle_covered}
use beagle.Parallel.Stepped.{Geometry, State, Reaches, begins, moves, writes, result}
use beagle.Parallel.Pooled.{IsComplete, job_done-IsComplete}
use beagle.Parallel.Tiles.{IsCut, partition_count-IsCut}
use beagle.Parallel.Halo.{IsTile, Within, access-reads, writes-apart}

ten_in_fours : tile 10 4 2 ≡ some (8, 10)
ten_in_fours = refl

partition_count-IsCut_example : IsCut 10 4 3
partition_count-IsCut_example = partition_count-IsCut 10 4 3 (omega arith) refl

last_tile : IsTile 10 1 1 8 10
last_tile = record {
  few = omega arith;
  small = omega arith;
  ordered = omega arith;
  inside = omega arith;
}

access-reads_example :
    (parallel_read_allowed
        (partition_access 100 200 (some 300) 7 2 400 periodic 10 1 1 8 10)
        100
        (pos 0)
      ≡ true)
    ↔ ((0 < 10) × Within last_tile 100 200 300 7 2 400 periodic 0)
access-reads_example = access-reads last_tile 100 200 300 7 2 400 periodic 0

first_reads :
    parallel_read_allowed
      (partition_access 100 200 (some 300) 7 2 400 periodic 10 1 1 8 10)
      100
      (pos 0)
    ≡ true
unfolding partition_access parallel_read_allowed
first_reads = refl

may_write_9 :
    parallel_write_allowed
      (partition_access 100 200 (some 300) 7 2 400 periodic 10 1 1 8 10)
      200
      (pos 9)
    ≡ true
unfolding partition_access parallel_write_allowed
may_write_9 = refl

writes-apart_example : ◌≡◌ {A = ℕ} 2 2
writes-apart_example =
    writes-apart 10 4 100 200 300 7 400 periodic refl 2 2 ten_in_fours ten_in_fours last_tile
      last_tile 9 may_write_9 may_write_9

abbrev pool : Runtime
pool = record {
  workers = 2;
  active = false;
  cancel_next = false;
  stop_claims = false;
  generation = 6;
  partition_count = 0;
  next_partition = 0;
  claimed = 0;
  completed = 0;
  lowest_failure = none;
  statuses = 0 ∷ 0 ∷ 0 ∷ [];
}

abbrev job : Runtime
job = record pool { active = true; generation = 7; partition_count = 3 }

pool-job : start_job pool 3 ≡ running job
unfolding start_job
pool-job = refl

record Trace : Type 0 where
  state : System
  reach : Reach 2 job state

abbrev go : (t : Trace) {s : System} → Step 2 t.state s → Trace
go t st = record { state = _; reach = later t.reach st }

-- Worker 1 fails in tile 1 while worker 0 is still in tile 0; tile 2 is not claimed.
stopped : Trace
unfolding claim finish
stopped =
    let t₀ : Trace = record { state = _; reach = start } in
    let t₁ = go t₀ (claims 0 0 _ (omega arith) refl refl) in
    let t₂ = go t₁ (claims 1 1 _ (omega arith) refl refl) in
    let t₃ = go t₂ (finishes 1 1 22 (omega arith) refl) in go t₃ (finishes 0 0 0 (omega arith) refl)

stopped_runs : stopped.state.runs ≡ (0, 0) ∷ (1, 22) ∷ []
unfolding stopped
stopped_runs = refl

stopped_report : (end_job stopped.state.runtime).0.failing_partition ≡ some 1
unfolding stopped claim finish end_job
stopped_report = refl

job_done-IsComplete_example : IsComplete 3 stopped.state
unfolding stopped claim finish
job_done-IsComplete_example = job_done-IsComplete pool pool-job stopped.reach refl

-- The first `malloc` of a reservation is answered, the second is not.
abbrev short_heap : Heap
short_heap = record { answers = some 64 ∷ none ∷ some 96 ∷ some 128 ∷ []; given = []; freed = [] }

reserve-IsReserved_example :
    IsReserved 8 2 (reserve false (no_scratch 5 short_heap) (pos 8) (pos 2))
reserve-IsReserved_example = reserve-IsReserved false (no_scratch 5 short_heap) 8 2 record {
  elements_held = λ o. absurd (omega arith);
  partitions_held = λ o. absurd (omega arith);
  counted = refl;
}

release_scratch-IsReleased_example :
    IsReleased
      (release_scratch (reserve_all (no_scratch 5 short_heap) ((false, 8, 0) ∷ (false, 0, 2) ∷ [])))
release_scratch-IsReleased_example =
    release_scratch-IsReleased 5 short_heap ((false, 8, 0) ∷ (false, 0, 2) ∷ []) (λ q. refl)

-- Three elements in two tiles of two.
abbrev three : Geometry
three = record {
  length = 3;
  tile_width = 2;
  left_halo = 1;
  right_halo = 1;
  boundary = bounded;
  current = 100;
  next = 200;
  shadow = 300;
  coverage = 400;
}

abbrev two_tiles : Runtime
two_tiles = record pool { active = true; generation = 7; partition_count = 2 }

record Progress : Type 0 where
  state : State ℕ
  reached : Reaches three 2 two_tiles (0 ∷ 0 ∷ 0 ∷ []) (9 ∷ 9 ∷ 9 ∷ []) state

abbrev move : (t : Progress) {next : System} → Step 2 t.state.pool next → Progress
move t st = record { state = _; reached = moves t.reached st }

abbrev write :
    (t : Progress) (worker partition lo hi index value : ℕ)
    → t.state.pool.pc worker ≡ inside partition
    → tile 3 2 partition ≡ some (lo, hi)
    → parallel_write_allowed
        (partition_access 100 200
          (some 300)
          t.state.pool.runtime.generation
          partition
          400
          bounded
          3
          1
          1
          lo
          hi)
        200
        (pos index)
      ≡ true
    → Progress
write t worker partition lo hi index value p q r = record {
  state = _;
  reached = writes worker partition lo hi index value t.reached p q r;
}

-- Worker 0 runs the first tile, worker 1 the second, and each writes within its own.
stepped : Progress
unfolding claim finish partition_access parallel_write_allowed
stepped =
    let t₀ : Progress = record { state = _; reached = begins } in
    let t₁ = move t₀ (claims 0 0 _ (omega arith) refl refl) in
    let t₂ = write t₁ 0 0 0 2 1 6 refl refl refl in
    let t₃ = move t₂ (claims 1 1 _ (omega arith) refl refl) in
    let t₄ = write t₃ 1 1 2 3 2 7 refl refl refl in
    let t₅ = write t₄ 0 0 0 2 0 5 refl refl refl in
    let t₆ = move t₅ (finishes 1 1 0 (omega arith) refl) in
    move t₆ (finishes 0 0 0 (omega arith) refl)

stepped_next : (result three stepped.state).1 ≡ 5 ∷ 6 ∷ 7 ∷ []
unfolding stepped claim finish end_job commit settle_outcome settle_covered uncovered
stepped_next = refl
