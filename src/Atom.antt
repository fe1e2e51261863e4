-- ===== src/Atom.antt =====
-- native-core/shim/native_shim.c, `native_atom_*`: a cell that threads share behind a spin lock.
-- Here are the cell, the checks of each call, and the moves of one thread. A byte of the value is
-- read or written in a move of its own, so that threads can interleave within a `memcpy`.
mod Threads
mod Lock
mod Fresh
mod Serial
mod Release
mod Examples
use beagle.Base.{
  ℕ, ◌+◌, ◌%◌, ◌^◌, ◌≡◌, ◌≢◌, Bool, true, false, not, ◌&&◌, ◌||◌, Option, none, some, List, [], ◌∷◌,
  ◌++◌, ◌==◌, Run, ok, trap_if, ◌>>=◌, ◌>>◌, invalid_argument, length, get_elem?, set, take, ◌≤◌,
  replicate, copy_into,
}
use beagle.Text.{Bytes}
use beagle.Arena.{Arena, alloc}

-- `struct native_atom`; `value` holds the bytes behind the pointer.
pub record Atom : Type 0 where
  pub locked : Bool
  pub value : Bytes
  pub size : ℕ

-- `none` is a NULL capability, `some token` the token of another.
abbrev pub no_token : Option ℕ → Bool
no_token none = true
no_token (some token) = token % 2 ^ 64 == 0

abbrev pub another_size : Option Atom → ℕ → Bool
another_size none size = true
another_size (some atom) size = not (size == atom.size)

abbrev pub is_null : Option Bytes → Bool
is_null none = true
is_null (some bytes) = false

abbrev pub require : Option Atom → Option ℕ → Bool → ℕ → Run (Unit {0})
require atom capability null_value size =
    trap_if (no_token capability || null_value || size == 0 || another_size atom size)
      invalid_argument

-- `atomic_exchange_explicit(&atom->locked, true, ...)`: what stood there, and the atom after it.
abbrev pub exchange_locked : Atom → Bool × Atom
exchange_locked atom = (atom.locked, record atom { locked = true })

abbrev pub release : Atom → Atom
release atom = record atom { locked = false }

-- The first `size` bytes behind a pointer
abbrev pub pointed : ℕ → Option Bytes → Bytes
pointed size none = []
pointed size (some bytes) = take size bytes

-- The bytes of a block of `size` bytes from `malloc` are not known before the `memcpy`.
unfoldable pub new :
    Arena → Option ℕ → Option Bytes → ℕ → ℕ → (uninitialised : Bytes) → Run (Atom × Arena)
new arena capability initial size alignment uninitialised = do
  trap_if (no_token capability || is_null initial || size == 0) invalid_argument
  (atom_address, arena) ← alloc arena 24 8
  (value_address, arena) ← alloc arena size alignment
  ok (
    record {
      locked = false;
      value = copy_into (take size uninitialised) 0 (pointed size initial);
      size = size;
    },
    arena,
  )

-- The calls, with their pointers. A pointer to write through counts only by being NULL or not.
pub data Call : Type 0 where
  deref : (null_out : Bool) → Call
  lock : (null_out : Bool) → Call
  compare_exchange : (expected replacement : Option Bytes) → Call

-- What a call that passed its checks has left to do.
pub data Job : Type 0 where
  reading : Job
  locking : Job
  exchanging : (expected replacement : Bytes) → Job

abbrev pub check_call : Option Atom → Option ℕ → Call → ℕ → Run Job
check_call atom capability (deref null_out) size =
    require atom capability null_out size >> ok reading
check_call atom capability (lock null_out) size =
    require atom capability null_out size >> ok locking
check_call atom capability (compare_exchange expected replacement) size = do
  require atom capability (is_null expected) size
  require atom capability (is_null replacement) size
  ok (exchanging (pointed size expected) (pointed size replacement))

-- A pointer that is not NULL points to `size` bytes at least.
abbrev pub Provides : ℕ → Option Bytes → Type 0
Provides size none = Unit
Provides size (some bytes) = size ≤ length bytes

abbrev pub IsProvided : ℕ → Call → Type 0
IsProvided size (compare_exchange expected replacement) =
    Provides size expected × Provides size replacement
IsProvided size _ = Unit

-- What a completed call did: a read, a read with a later write under the same lock, a comparison.
pub data Event : Type 0 where
  seen : (bytes : Bytes) → Event
  swapped : (before after : Bytes) → Event
  exchanged : (expected replacement : Bytes) → Event
  refused : (expected : Bytes) → Event

-- Where a thread stands in a call, with its local variables.
pub data Pc : Type 0 where
  idle : Pc
  spinning : (job : Job) → Pc  -- the loop of `native_atom_acquire`
  entered : (job : Job) → Pc
  loading : (keep : Bool) (got : Bytes) → Pc  -- in the `memcpy` out of the cell
  holding : (got : Bytes) → Pc  -- between `native_atom_lock` and `native_atom_store_unlock`
  comparing : (expected replacement same rest : Bytes) → Pc  -- in the `memcmp`
  storing : (event : Event) (written rest : Bytes) → Pc  -- in the `memcpy` into the cell
  leaving : (event : Event) → Pc  -- before `native_atom_release`

-- The cell, and the events so far, the last one first. The code keeps no such log.
pub record Shared : Type 0 where
  pub atom : Atom
  pub log : List Event

-- One move of one thread. The generated code calls `native_atom_store_unlock` after
-- `native_atom_lock` in the same thread.
pub data Move (m : Shared) : Pc → Shared → Pc → Type 0 where
  begin :
      {job : Job} (capability : Option ℕ) (size : ℕ) (call : Call)
      → check_call (some m.atom) capability call size ≡ ok job
      → IsProvided size call
      → Move m idle m (spinning job)
  miss :
      {job : Job}
      → (exchange_locked m.atom).0 ≡ true
      → Move m (spinning job) (record m { atom = (exchange_locked m.atom).1 }) (spinning job)
  enter :
      {job : Job}
      → (exchange_locked m.atom).0 ≡ false
      → Move m (spinning job) (record m { atom = (exchange_locked m.atom).1 }) (entered job)
  read : Move m (entered reading) m (loading false [])
  take_lock : Move m (entered locking) m (loading true [])
  compare :
      {expected replacement : Bytes}
      → Move m
          (entered (exchanging expected replacement))
          m
          (comparing expected replacement [] expected)
  load :
      {keep : Bool} {got : Bytes} {b : ℕ}
      → get_elem? m.atom.value (length got) ≡ some b
      → Move m (loading keep got) m (loading keep (got ++ (b ∷ [])))
  read_done :
      {got : Bytes} → length got ≡ m.atom.size → Move m (loading false got) m (leaving (seen got))
  lock_done : {got : Bytes} → length got ≡ m.atom.size → Move m (loading true got) m (holding got)
  store_unlock :
      {got : Bytes} (capability : Option ℕ) (size : ℕ) (value : Option Bytes)
      → require (some m.atom) capability (is_null value) size ≡ ok tt
      → Provides size value
      → Move m (holding got) m (storing (swapped got (pointed size value)) [] (pointed size value))
  same_byte :
      {expected replacement same rest : Bytes} {b : ℕ}
      → get_elem? m.atom.value (length same) ≡ some b
      → Move m
          (comparing expected replacement same (b ∷ rest))
          m
          (comparing expected replacement (same ++ (b ∷ [])) rest)
  other_byte :
      {expected replacement same rest : Bytes} {b c : ℕ}
      → get_elem? m.atom.value (length same) ≡ some c
      → c ≢ b
      → Move m (comparing expected replacement same (b ∷ rest)) m (leaving (refused expected))
  matches :
      {expected replacement same : Bytes}
      → Move m
          (comparing expected replacement same [])
          m
          (storing (exchanged expected replacement) [] replacement)
  store :
      {event : Event} {written rest : Bytes} {b : ℕ}
      → Move m
          (storing event written (b ∷ rest))
          (record m { atom = record m.atom { value = set m.atom.value (length written) b } })
          (storing event (written ++ (b ∷ [])) rest)
  stored : {event : Event} {written : Bytes} → Move m (storing event written []) m (leaving event)
  leave :
      {event : Event}
      → Move m (leaving event) (record { atom = release m.atom; log = event ∷ m.log }) idle

-- Between the exchange that found the lock free and the release.
abbrev pub critical : Pc → Bool
critical idle = false
critical (spinning _) = false
critical _ = true
