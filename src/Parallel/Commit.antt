-- ===== src/Parallel/Commit.antt =====
-- native-core/shim/native_parallel.c, `native_parallel_tiled_step_f64_v0`: what a step does with the
-- report of its job. The tiles wrote to the shadow array and marked the elements that they wrote.
use beagle.Base.{
  ℕ, zero, suc, ◌+◌, ◌/◌, ◌<◌, ◌≡◌, ◌≢◌, refl, Option, none, some, List, [], ◌∷◌, ◌==◌,
  if◌then◌else◌, arith, length, get_or,
}
use beagle.Parallel.Pool.{
  Outcome, succeeded, cancelled, invalid, worker_failed, runtime_failed, Report,
}

-- The loop over the marks, from an index on
unfoldable pub uncovered : ℕ → List ℕ → Option ℕ
uncovered index [] = none
uncovered index (mark ∷ marks) =
    let rest = uncovered (index + 1) marks in if mark == 0 then some index else rest

-- The end of the step: the report, and the elements of the next buffer.
module _ {ℓ} {A : Type ℓ} where
  unfoldable pub settle_covered :
      Option ℕ → Report → (tile_width : ℕ) → (shadow next : List A) → Report × List A
  settle_covered none report tile_width shadow next = (report, shadow)
  settle_covered (some index) report tile_width shadow next = (
    record report { outcome = worker_failed; failing_partition = some (index / tile_width) },
    next,
  )

  unfoldable pub settle_outcome :
      Outcome
      → Report
      → (coverage : List ℕ) → (tile_width : ℕ) → (shadow next : List A) → Report × List A
  settle_outcome succeeded report coverage tile_width shadow next =
      settle_covered (uncovered 0 coverage) report tile_width shadow next
  settle_outcome _ report coverage tile_width shadow next = (report, next)

  unfoldable pub commit :
      Report → (coverage : List ℕ) → (tile_width : ℕ) → (shadow next : List A) → Report × List A
  commit report coverage tile_width shadow next =
      settle_outcome report.outcome report coverage tile_width shadow next

uncovered-none :
    (index : ℕ) (marks : List ℕ)
    → uncovered index marks ≡ none
    → (i : ℕ) → i < length marks
    → get_or marks i 0 ≢ 0
unfolding uncovered
uncovered-none index [] h i l = absurd (omega arith)
uncovered-none index (mark ∷ marks) h zero l = ground arith
uncovered-none index (mark ∷ marks) h (suc i) l =
    uncovered-none (index + 1) marks (ground arith) i (omega arith)

-- The shadow array is taken over for a job that succeeded and marked every element, and only then.
pub record IsAtomic {ℓ} {A : Type ℓ} (report : Report) (coverage : List ℕ) (shadow next : List A)
    (after : Report × List A) : Type ℓ where
  pub success :
      after.0.outcome ≡ succeeded
      → (report.outcome ≡ succeeded)
        × ((i : ℕ) → i < length coverage → get_or coverage i 0 ≢ 0)
        × (after.1 ≡ shadow)
  pub failure : after.0.outcome ≢ succeeded → after.1 ≡ next

module _ {ℓ} {A : Type ℓ} (report : Report) (coverage : List ℕ) (width : ℕ)
    (shadow next : List A) where
  by_marks :
      report.outcome ≡ succeeded
      → (found : Option ℕ) → uncovered 0 coverage ≡ found
      → IsAtomic report coverage shadow next (settle_covered found report width shadow next)
  unfolding settle_covered
  by_marks good none e = record {
    success = λ o. (good, uncovered-none 0 coverage e, refl);
    failure = λ o. absurd (o good);
  }
  by_marks good (some index) e = record { success = λ o. cc; failure = λ o. refl }

  by_outcome :
      (outcome : Outcome)
      → report.outcome ≡ outcome
      → IsAtomic report coverage shadow next
          (settle_outcome outcome report coverage width shadow next)
  unfolding settle_outcome
  by_outcome succeeded e = by_marks e (uncovered 0 coverage) refl
  by_outcome cancelled e = record { success = λ o. cc; failure = λ o. refl }
  by_outcome invalid e = record { success = λ o. cc; failure = λ o. refl }
  by_outcome worker_failed e = record { success = λ o. cc; failure = λ o. refl }
  by_outcome runtime_failed e = record { success = λ o. cc; failure = λ o. refl }

-- What the report of a job and the marks make of the shadow array and of the next buffer.
pub commit-IsAtomic {ℓ} :
    {A : Type ℓ} (report : Report) (coverage : List ℕ) (tile_width : ℕ) (shadow next : List A)
    → IsAtomic report coverage shadow next (commit report coverage tile_width shadow next)
unfolding commit
commit-IsAtomic report coverage tile_width shadow next =
    by_outcome report coverage tile_width shadow next report.outcome refl
