-- ===== src/Parallel/Pooled.antt =====
-- native-core/shim/native_parallel.c, `native_parallel_worker_main` and `native_parallel_run`: what
-- holds when a job of the pool is done.
use beagle.Base.{
  ℕ, ◌+◌, ◌≤◌, ◌<◌, ◌≡◌, refl, sym, ap, ◌∙◌, Bool, true, false, not, ◌&&◌, ◌||◌, ◌⊎◌, inl, inr,
  Option, none, some, List, [], ◌∷◌, ◌==◌, if◌then◌else◌, update, arith, dec_lt, Option-cases,
  Bool-cases, ℕ_discrete, ◌↔◌,
}
use beagle.Parallel.Family.{count, count-update, count-none, count-eq-zero}
use beagle.Parallel.Pool.{
  Runtime, claim, finish, lower_failure, job_done, running, start_job, end_job, succeeded, outside,
  inside, is_inside, System, claims, finishes, Reach, start, later,
}

-- Tests of the runs of tiles: one of this tile, one of it that failed, no tile twice.
abbrev pub ran : ℕ → List (ℕ × ℕ) → Bool
ran p [] = false
ran p ((q, status) ∷ rest) = p == q || ran p rest

abbrev pub failed : ℕ → List (ℕ × ℕ) → Bool
failed p [] = false
failed p ((q, status) ∷ rest) = (p == q && not (status == 0)) || failed p rest

abbrev pub once : List (ℕ × ℕ) → Bool
once [] = true
once ((q, status) ∷ rest) = not (ran q rest) && once rest

abbrev pub lowest_of : List (ℕ × ℕ) → Option ℕ
lowest_of [] = none
lowest_of ((q, status) ∷ rest) =
    let lower = lowest_of rest in if status == 0 then lower else lower_failure q lower

abbrev is_some : Option ℕ → Bool
is_some none = false
is_some (some _) = true

lowest_of-none : (runs : List (ℕ × ℕ)) → lowest_of runs ≡ none → (q : ℕ) → failed q runs ≡ false
lowest_of-none [] h q = refl
lowest_of-none ((p, status) ∷ rest) h q =
    let lower : lowest_of rest ≡ none = ground arith in ground (arith, lowest_of-none rest lower q)

-- The lowest failure is a failure, and no tile before it failed.
abbrev pub IsLowest : ℕ → List (ℕ × ℕ) → Type 0
IsLowest p runs = (failed p runs ≡ true) × ((q : ℕ) → failed q runs ≡ true → p ≤ q)

lowest_of-IsLowest : (runs : List (ℕ × ℕ)) (p : ℕ) → lowest_of runs ≡ some p → IsLowest p runs
lowest_of-IsLowest [] p h = cc
lowest_of-IsLowest ((r, status) ∷ rest) p h = elim (Option-cases (lowest_of rest)) [
  | inl lower ↦ (ground arith, λ q f. ground (arith, lowest_of-none rest lower q))
  | inr (l, lower) ↦
      let (fails, least) = lowest_of-IsLowest rest l lower in
      (ground (arith, fails), λ q f. ground (arith, least q))
]

record Inv (n parts : ℕ) (s : System) : Type 0 where
  counted : s.runtime.partition_count ≡ parts
  numbered : s.runtime.next_partition ≡ s.runtime.claimed
  within : s.runtime.claimed ≤ parts
  total : s.runtime.completed + count is_inside n s.pc ≡ s.runtime.claimed
  beyond : (i : ℕ) → n ≤ i → s.pc i ≡ outside
  below : (i p : ℕ) → s.pc i ≡ inside p → p < s.runtime.claimed
  run_below : (p : ℕ) → ran p s.runs ≡ true → p < s.runtime.claimed
  unique : (i j p : ℕ) → s.pc i ≡ inside p → s.pc j ≡ inside p → i ≡ j
  fresh : (i p : ℕ) → s.pc i ≡ inside p → ran p s.runs ≡ false
  single : once s.runs ≡ true
  covered :
      (p : ℕ)
      → p < s.runtime.claimed
      → (ran p s.runs ≡ true) ⊎ ((i : ℕ) × (i < n) × (s.pc i ≡ inside p))
  lowest : s.runtime.lowest_failure ≡ lowest_of s.runs
  stopped : s.runtime.stop_claims ≡ is_some s.runtime.lowest_failure

Inv-start :
    (n parts : ℕ) (r : Runtime) {job : Runtime}
    → start_job r parts ≡ running job
    → Inv n parts (record { runtime = job; pc = λ _. outside; runs = [] })
unfolding start_job
Inv-start n parts r {job} h = record {
  counted = ground arith;
  numbered = ground arith;
  within = ground arith;
  total = ground (arith, count-none is_inside n (λ _. outside) (λ _. refl));
  beyond = λ i l. refl;
  below = λ i p e. cc;
  run_below = λ p e. cc;
  unique = λ i j p e f. cc;
  fresh = λ i p e. refl;
  single = refl;
  covered = λ p l. absurd (ground arith);
  lowest = ground arith;
  stopped = ground arith;
}

record Claimed (r r' : Runtime) (p : ℕ) : Type 0 where
  at_next : p ≡ r.next_partition
  below_count : p < r.partition_count
  after : r' ≡ record r { next_partition = r.next_partition + 1; claimed = r.claimed + 1 }

claim-Claimed : (r r' : Runtime) (p : ℕ) → claim r ≡ some (p, r') → Claimed r r' p
unfolding claim
claim-Claimed r r' p h = record {
  at_next = ground arith;
  below_count = ground arith;
  after = ground arith;
}

module _ {n parts : ℕ} {s : System} (inv : Inv n parts s) (i : ℕ) (below_n : i < n) where
  open inv use {
    counted, numbered, within, total, beyond, below, run_below, unique, fresh, single, covered,
    lowest, stopped,
  }

  abbrev r : Runtime
  r = s.runtime

  claims-Inv :
      (p : ℕ)
      → s.pc i ≡ outside
      → p ≡ r.next_partition
      → p < r.partition_count
      → Inv n parts (record s {
        runtime = record r { next_partition = r.next_partition + 1; claimed = r.claimed + 1 };
        pc = update s.pc i (inside p);
      })
  claims-Inv p out e l = record {
    counted = counted;
    numbered = omega (arith, numbered);
    within = omega (arith, numbered, counted);
    total =
        ground (arith, count-update is_inside n s.pc i (inside p) below_n, total, ap is_inside out);
    beyond = λ j b. ground (arith, beyond j b);
    below = λ j q h. ground (arith, below j q, numbered);
    run_below = λ q h. omega (arith, run_below q h);
    unique = λ j k q a b. ground (arith, unique j k q, below j q, below k q, numbered);
    fresh = λ j q h. elim (Bool-cases (ran q s.runs)) [
      | inr new ↦ new
      | inl old ↦ absurd (ground (arith, run_below q old, fresh j q, numbered))
    ];
    single = single;
    covered = λ q b. elim (dec_lt q r.claimed) [
      | yes earlier ↦ elim (covered q earlier) [
        | inl over ↦ inl over
        | inr (k, few, at) ↦ inr (k, few, ground (arith, at, out))
      ]
      | no last ↦ let here : q ≡ p = omega (arith, numbered) in inr (i, below_n, ground arith)
    ];
    lowest = lowest;
    stopped = stopped;
  }

  finishes-Inv :
      (p status : ℕ)
      → s.pc i ≡ inside p
      → Inv n parts (record {
        runtime = finish p status r;
        pc = update s.pc i outside;
        runs = (p, status) ∷ s.runs;
      })
  unfolding finish
  finishes-Inv p status at_p = record {
    counted = ground (arith, counted);
    numbered = ground (arith, numbered);
    within = ground (arith, within);
    total =
        ground (arith, count-update is_inside n s.pc i outside below_n, total, ap is_inside at_p);
    beyond = λ j b. ground (arith, beyond j b);
    below = λ j q h. ground (arith, below j q);
    run_below = λ q h. ground (arith, run_below q, below i p at_p);
    unique = λ j k q a b. ground (arith, unique j k q);
    fresh = λ j q h. ground (arith, fresh j q, unique i j q);
    single = ground (arith, single, fresh i p at_p);
    covered = λ q b. elim (ℕ_discrete q p) [
      | yes here ↦ inl (ground arith)
      | no other ↦
          let earlier : q < r.claimed = ground arith in
          elim (covered q earlier) [
            | inl over ↦ inl (ground arith)
            | inr (k, few, at) ↦ inr (k, few, ground (arith, at, at_p))
          ]
    ];
    lowest = ground (arith, lowest);
    stopped = ground (arith, stopped);
  }

Reach-Inv :
    {n parts : ℕ} {job : Runtime} {s : System} (r : Runtime)
    → start_job r parts ≡ running job
    → Reach n job s
    → Inv n parts s
Reach-Inv {n} {parts} r started start = Inv-start n parts r started
Reach-Inv r started (later {s} reached (claims i p r' few out took)) =
    let inv = Reach-Inv r started reached in
    let c = claim-Claimed s.runtime r' p took in
    rw c.after (claims-Inv inv i few p out c.at_next c.below_count)
Reach-Inv r started (later reached (finishes i p status few at_p)) =
    finishes-Inv (Reach-Inv r started reached) i few p status at_p

-- No worker is in a tile, no tile was run twice, and those that were run are the first `claimed`.
-- The report is a success only if every tile was run and none failed, and else it names the
-- first tile that failed.
pub record IsComplete (parts : ℕ) (s : System) : Type 0 where
  pub quiet : (i : ℕ) → s.pc i ≡ outside
  pub single : once s.runs ≡ true
  pub prefix : (p : ℕ) → (p < s.runtime.claimed) ↔ (ran p s.runs ≡ true)
  pub success :
      (end_job s.runtime).0.outcome ≡ succeeded
      → (s.runtime.claimed ≡ parts) × ((p : ℕ) → failed p s.runs ≡ false)
  pub failure : (p : ℕ) → (end_job s.runtime).0.failing_partition ≡ some p → IsLowest p s.runs

-- Whatever the order in which the workers of a job claim and finish its tiles, and whatever
-- statuses the tiles end with: once `native_parallel_job_done` holds, no worker is in a tile, no
-- tile was run twice, and the tiles that were run are those below `claimed`. The report of the
-- job is a success only if all tiles were run and none failed, and it names a failing tile only if
-- that tile failed and none before it did.
pub job_done-IsComplete :
    {n parts : ℕ} {job : Runtime} {s : System} (r : Runtime)
    → start_job r parts ≡ running job
    → Reach n job s
    → job_done s.runtime ≡ true
    → IsComplete parts s
unfolding end_job
job_done-IsComplete {n} {parts} {s} r started reached over = record {
  quiet = quiet;
  single = inv.single;
  prefix = λ p. (
    λ l. elim (inv.covered p l) [
      | inl done ↦ done
      | inr (i, few, at) ↦ absurd (ground (arith, quiet i, at))
    ],
    inv.run_below p,
  );
  success = λ good.
      let unfailed : s.runtime.lowest_failure ≡ none = ground arith in
      (
        ground (arith, inv.total, inv.stopped, inv.counted, over, all_out, unfailed),
        lowest_of-none s.runs (sym inv.lowest ∙ unfailed),
      );
  failure = λ p e. lowest_of-IsLowest s.runs p (sym inv.lowest ∙ e);
}
  where
    inv : Inv n parts s
    inv = Reach-Inv r started reached

    all_out : count is_inside n s.pc ≡ 0
    all_out = ground (arith, inv.total, inv.within, inv.counted, over)

    quiet : (i : ℕ) → s.pc i ≡ outside
    quiet i = elim (dec_lt i n) [
      | yes few ↦ ground (arith, count-eq-zero is_inside n s.pc all_out i few)
      | no many ↦ inv.beyond i (omega arith)
    ]
