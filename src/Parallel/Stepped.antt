-- ===== src/Parallel/Stepped.antt =====
-- native-core/shim/native_parallel.c, `native_parallel_tiled_step_f64_v0`: a step from the start of
-- its job to the next buffer, with the writes of the tiles. Inside a tile `native_buffer_set` puts
-- what goes to the next buffer into the shadow array, and marks the element.
use beagle.Base.{
  ℕ, ◌≤◌, ◌<◌, ◌≡◌, ◌≢◌, true, false, Option, none, some, List, [], ◌∷◌, ◌==◌, if◌then◌else◌,
  length, get_or, get_elem?, set, replicate,
}
use beagle.Base.Int.{pos}
use beagle.Buffer.{parallel_write_allowed}
use beagle.Parallel.{Boundary, tile, partition_access}
use beagle.Parallel.Pool.{Runtime, System, Step, outside, inside, end_job, Report, succeeded}
use beagle.Parallel.Pooled.{ran, failed}
use beagle.Parallel.Commit.{commit}

-- The arguments of a step that its tiles depend on; the buffers and arrays by their addresses.
pub record Geometry : Type 0 where
  pub length : ℕ
  pub tile_width : ℕ
  pub left_halo : ℕ
  pub right_halo : ℕ
  pub boundary : Boundary
  pub current : ℕ
  pub next : ℕ
  pub shadow : ℕ
  pub coverage : ℕ

-- The elements of the next buffer, of the shadow array, and the marks
pub record Store {ℓ} (A : Type ℓ) : Type ℓ where
  pub next : List A
  pub shadow : List A
  pub marks : List ℕ

-- A write that a tile has made
pub record Write {ℓ} (A : Type ℓ) : Type ℓ where
  pub partition : ℕ
  pub index : ℕ
  pub value : A

-- The pool, the store, and the writes so far, the last one first. The code keeps no such list.
pub record State {ℓ} (A : Type ℓ) : Type ℓ where
  pub pool : System
  pub store : Store A
  pub writes : List (Write A)

abbrev pub put {ℓ} : {A : Type ℓ} → ℕ → A → Store A → Store A
put index value s = record s { shadow = set s.shadow index value; marks = set s.marks index 1 }

-- A worker claims or finishes a tile, or writes an element from within one. `stale` is what the
-- shadow array holds from steps before, and the marks are cleared.
module _ {ℓ} {A : Type ℓ} (g : Geometry) (n : ℕ) (job : Runtime) (next stale : List A) where
  abbrev pub first_state : State A
  first_state = record {
    pool = record { runtime = job; pc = λ _. outside; runs = [] };
    store = record { next = next; shadow = stale; marks = replicate g.length 0 };
    writes = [];
  }

  pub data Reaches : State A → Type ℓ where
    begins : Reaches first_state
    moves :
        {s : State A} {pool : System}
        → Reaches s
        → Step n s.pool pool
        → Reaches (record s { pool = pool })
    writes :
        {s : State A} (worker partition lo hi index : ℕ) (value : A)
        → Reaches s
        → s.pool.pc worker ≡ inside partition
        → tile g.length g.tile_width partition ≡ some (lo, hi)
        → parallel_write_allowed
            (partition_access g.current g.next
              (some g.shadow)
              s.pool.runtime.generation
              partition
              g.coverage
              g.boundary
              g.length
              g.left_halo
              g.right_halo
              lo
              hi)
            g.next
            (pos index)
          ≡ true
        → Reaches (record s {
          store = put index value s.store;
          writes = record { partition = partition; index = index; value = value } ∷ s.writes;
        })

abbrev pub last_write {ℓ} : {A : Type ℓ} → ℕ → List (Write A) → Option (Write A)
last_write i [] = none
last_write i (w ∷ ws) = let rest = last_write i ws in if w.index == i then some w else rest

-- An element holds what a tile wrote last to it, and it lies in that tile.
pub record IsWritten {ℓ} {A : Type ℓ} (g : Geometry) (ws : List (Write A)) (xs : List A) (i : ℕ)
    : Type ℓ where
  pub write : Write A
  pub lo : ℕ
  pub hi : ℕ
  pub is_last : last_write i ws ≡ some write
  pub holds : get_elem? xs i ≡ some write.value
  pub its_tile : tile g.length g.tile_width write.partition ≡ some (lo, hi)
  pub inside_tile : (lo ≤ i) × (i < hi)

module _ {ℓ} {A : Type ℓ} (g : Geometry) (next : List A) where
  record Holds (s : State A) : Type ℓ where
    kept : s.store.next ≡ next
    shadow_size : length s.store.shadow ≡ g.length
    marks_size : length s.store.marks ≡ g.length
    marked : (i : ℕ) → get_or s.store.marks i 0 ≢ 0 → IsWritten g s.writes s.store.shadow i

-- The report of a step, and the next buffer after it
abbrev pub result {ℓ} : {A : Type ℓ} → Geometry → State A → Report × List A
result g s =
    commit (end_job s.pool.runtime).0 s.store.marks g.tile_width s.store.shadow s.store.next

-- A step is all or nothing.
pub record IsAllOrNothing {ℓ} {A : Type ℓ} (g : Geometry) (parts : ℕ) (next : List A) (s : State A)
    : Type ℓ where
  pub all_ran :
      (result g s).0.outcome ≡ succeeded
      → (p : ℕ) → p < parts
      → (ran p s.pool.runs ≡ true) × (failed p s.pool.runs ≡ false)
  pub all_written :
      (result g s).0.outcome ≡ succeeded
      → (length (result g s).1 ≡ g.length)
        × ((i : ℕ) → i < g.length → IsWritten g s.writes (result g s).1 i)
  pub untouched : (result g s).0.outcome ≢ succeeded → (result g s).1 ≡ next
