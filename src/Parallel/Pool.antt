-- ===== src/Parallel/Pool.antt =====
-- native-core/shim/native_parallel.c, `native_parallel_worker_main` and `native_parallel_run`: a
-- job of the pool, as the moves of its workers in any order. The mutex makes what a worker does
-- between two runs of a tile one move: it records the run, or it claims the next tile.
use beagle.Base.{
  ℕ, ◌+◌, ◌%◌, ◌^◌, ◌<◌, ◌≡◌, Bool, true, false, ◌||◌, Option, none, some, List, [], ◌∷◌, ltb, leb,
  ◌==◌, if◌then◌else◌, update, set,
}

-- The fields of `struct native_parallel_runtime` that a job changes or reports. `none` is a lowest failure
-- of -1. A status of 0 is success.
pub record Runtime : Type 0 where
  pub workers : ℕ
  pub active : Bool
  pub cancel_next : Bool
  pub stop_claims : Bool
  pub generation : ℕ
  pub partition_count : ℕ
  pub next_partition : ℕ
  pub claimed : ℕ
  pub completed : ℕ
  pub lowest_failure : Option ℕ
  pub statuses : List ℕ

pub data Outcome : Type 0 where
  succeeded cancelled invalid worker_failed runtime_failed : Outcome

pub record Report : Type 0 where
  pub outcome : Outcome
  pub configured_workers : ℕ
  pub logical_partitions : ℕ
  pub completed_partitions : ℕ
  pub failing_partition : Option ℕ
  pub generation : ℕ

abbrev pub job_done : Runtime → Bool
job_done r = if r.stop_claims then r.completed == r.claimed else r.completed == r.partition_count

-- The head of the inner loop; `none` is its `break`.
unfoldable pub claim : Runtime → Option (ℕ × Runtime)
claim r =
    if (r.stop_claims || leb r.partition_count r.next_partition)
    then none
    else some (
      r.next_partition,
      record r { next_partition = r.next_partition + 1; claimed = r.claimed + 1 },
    )

abbrev pub lower_failure : ℕ → Option ℕ → Option ℕ
lower_failure partition none = some partition
lower_failure partition (some lowest) = if ltb partition lowest then some partition else some lowest

-- The rest of the inner loop.
unfoldable pub finish : ℕ → ℕ → Runtime → Runtime
finish partition status r =
    let r₁ = record r { statuses = set r.statuses partition status; completed = r.completed + 1 } in
    if status == 0
    then r₁
    else record r₁ { stop_claims = true; lowest_failure = lower_failure partition r.lowest_failure }

-- `native_parallel_run` up to the workers: a report ends the call there, a runtime is the job.
pub data Started : Type 0 where
  refused : Report → Runtime → Started
  running : Runtime → Started

unfoldable pub start_job : Runtime → ℕ → Started
start_job r partition_count =
    if r.active
    then refused (report runtime_failed partition_count r.generation) r
    else (let generation = (r.generation + 1) % 2 ^ 64 in
        if r.cancel_next
        then refused (report cancelled partition_count generation)
            (record r { generation = generation; cancel_next = false })
        else (let job = record r {
          generation = generation;
          active = true;
          stop_claims = false;
          partition_count = partition_count;
          next_partition = 0;
          claimed = 0;
          completed = 0;
          lowest_failure = none;
        } in
            if partition_count == 0
            then refused (report succeeded 0 generation) (record job { active = false })
            else running job))
  where
    report : Outcome → ℕ → ℕ → Report
    report outcome partitions generation = record {
      outcome = outcome;
      configured_workers = r.workers;
      logical_partitions = partitions;
      completed_partitions = 0;
      failing_partition = none;
      generation = generation;
    }

-- The end of `native_parallel_run`, which waits for `job_done`.
abbrev pub outcome_of : Option ℕ → Outcome
outcome_of none = succeeded
outcome_of (some partition) = worker_failed

unfoldable pub end_job : Runtime → Report × Runtime
end_job r = (
  record {
    outcome = outcome_of r.lowest_failure;
    configured_workers = r.workers;
    logical_partitions = r.partition_count;
    completed_partitions = r.completed;
    failing_partition = r.lowest_failure;
    generation = r.generation;
  },
  record r { active = false },
)

-- A worker outside of the tiles waits, or is about to claim.
pub data Pc : Type 0 where
  outside : Pc
  inside : (partition : ℕ) → Pc

abbrev pub is_inside : Pc → Bool
is_inside outside = false
is_inside (inside _) = true

-- The pool, and the runs of tiles that are over: partition and status, the last one first. The
-- code keeps no such list.
pub record System : Type 0 where
  pub runtime : Runtime
  pub pc : ℕ → Pc
  pub runs : List (ℕ × ℕ)

-- One of `n` workers moves. A run of a tile ends with any status.
pub data Step (n : ℕ) (s : System) : System → Type 0 where
  claims :
      (i partition : ℕ) (r : Runtime)
      → i < n
      → s.pc i ≡ outside
      → claim s.runtime ≡ some (partition, r)
      → Step n s (record s { runtime = r; pc = update s.pc i (inside partition) })
  finishes :
      (i partition status : ℕ)
      → i < n
      → s.pc i ≡ inside partition
      → Step n s (record {
        runtime = finish partition status s.runtime;
        pc = update s.pc i outside;
        runs = (partition, status) ∷ s.runs;
      })

pub data Reach (n : ℕ) (job : Runtime) : System → Type 0 where
  start : Reach n job (record { runtime = job; pc = λ _. outside; runs = [] })
  later : {s t : System} → Reach n job s → Step n s t → Reach n job t
