-- ===== src/Arena/Balance.antt =====
-- The blocks of the C heap that an arena holds, over its operations.
use beagle.Base.{
  ℕ, ◌+◌, ◌-◌, ◌≡◌, refl, arith, false, Option, none, some, List, [], ◌∷◌, ok, ◌==◌, if◌then◌else◌,
  Option-cases, Bool-cases, inl, inr, >>=-eq-ok,
}
use beagle.Arena.{
  Arena, Heap, Chunk, Registry, Registration, malloc, free, take_chunk, link_chunk, add_chunk,
  alloc, alloc_grown, bump, clear, reset, destroy, free_chunks, free_registrations, free_registry,
  next_generation,
}

-- How often a block is in a list of blocks.
unfoldable pub times : ℕ → List ℕ → ℕ
times q [] = 0
times q (x ∷ xs) = (if q == x then 1 else 0) + times q xs

unfoldable pub times_chunks : ℕ → List Chunk → ℕ
times_chunks q [] = 0
times_chunks q (c ∷ cs) =
    (if q == c.address then 1 else 0) + (if q == c.storage then 1 else 0) + times_chunks q cs

unfoldable pub times_registrations : ℕ → List Registration → ℕ
times_registrations q [] = 0
times_registrations q (r ∷ rs) = (if q == r.address then 1 else 0) + times_registrations q rs

unfoldable pub times_registry : ℕ → Option Registry → ℕ
times_registry q none = 0
times_registry q (some r) =
    (if q == r.address then 1 else 0) + times_registrations q r.registrations

-- What `malloc` gave is what was freed, with the chunks and the registrations of the arena.
abbrev pub Balanced : Arena → Type 0
Balanced a =
    (q : ℕ)
    → times q a.heap.given
      ≡ times q a.heap.freed + times_chunks q a.chunks + times_registry q a.buffer_registry

freed_chunks :
    (q : ℕ) (cs : List Chunk) (h : Heap)
    → (times q (free_chunks cs h).freed ≡ times q h.freed + times_chunks q cs)
      × ((free_chunks cs h).given ≡ h.given)
unfolding free_chunks free times times_chunks
freed_chunks q [] h = (omega arith, refl)
freed_chunks q (c ∷ cs) h = ground (arith, freed_chunks q cs (free c.address (free c.storage h)))

freed_registrations :
    (q : ℕ) (rs : List Registration) (h : Heap)
    → (times q (free_registrations rs h).freed ≡ times q h.freed + times_registrations q rs)
      × ((free_registrations rs h).given ≡ h.given)
unfolding free_registrations free times times_registrations
freed_registrations q [] h = (omega arith, refl)
freed_registrations q (r ∷ rs) h = ground (arith, freed_registrations q rs (free r.address h))

freed_registry :
    (q : ℕ) (r : Option Registry) (h : Heap)
    → (times q (free_registry r h).freed ≡ times q h.freed + times_registry q r)
      × ((free_registry r h).given ≡ h.given)
unfolding free_registry free times times_registry
freed_registry q none h = (omega arith, refl)
freed_registry q (some r) h = ground (arith, freed_registrations q r.registrations h)

times_registry-next :
    (q : ℕ) (o o' : Option Registry)
    → next_generation o ≡ ok o'
    → times_registry q o' ≡ times_registry q o
unfolding next_generation times_registry
times_registry-next q none o' h = ground arith
times_registry-next q (some r) o' h = ground arith

-- What a reset of a growable arena, or of a fixed one with no chunks, does to the heap.
reset_heap :
    (q : ℕ) (a a' : Arena)
    → reset a ≡ ok a'
    → (a.growable ≡ false → a.chunks ≡ [])
    → (times q a'.heap.freed ≡ times q a.heap.freed + times_chunks q a.chunks)
      × (a'.heap.given ≡ a.heap.given)
      × (a'.chunks ≡ [])
      × (times_registry q a'.buffer_registry ≡ times_registry q a.buffer_registry)
unfolding reset times_chunks
reset_heap q a a' h fixed = elim (Bool-cases a.growable) [
  | inl yes' ↦ ground (
    arith,
    freed_chunks q a.chunks a.heap,
    times_registry-next q a.buffer_registry a'.buffer_registry,
  )
  | inr no' ↦ ground (arith, fixed no', times_registry-next q a.buffer_registry a'.buffer_registry)
]

-- `native_arena_destroy` gives back to `free` every block that `malloc` gave this arena, exactly as
-- often as it was given, if that was so with the blocks that the arena still held; a fixed arena
-- has no chunks.
pub destroy-Balanced :
    (a d : Arena)
    → Balanced a
    → (a.growable ≡ false → a.chunks ≡ [])
    → destroy a ≡ ok d
    → (q : ℕ) → times q d.heap.given ≡ times q d.heap.freed
unfolding destroy clear
destroy-Balanced a d balanced fixed h q =
    let (a', r, e) = >>=-eq-ok (reset a) _ h in
    let (freed, given, _, registry) = reset_heap q a a' r fixed in
    let (freed', given') = freed_registry q a'.buffer_registry a'.heap in ground (arith, balanced q)

times_pair : ℕ → Option (ℕ × ℕ) → ℕ
times_pair q none = 0
times_pair q (some (chunk, storage)) =
    (if q == chunk then 1 else 0) + (if q == storage then 1 else 0)

-- What the two calls of `malloc` change.
take_chunk_heap :
    (q : ℕ) (h : Heap)
    → times q (take_chunk h).1.given + times q h.freed
      ≡ times q h.given + times q (take_chunk h).1.freed + times_pair q (take_chunk h).0
unfolding take_chunk malloc free times times_pair
take_chunk_heap q h = ground arith

pub add_chunk-Balanced : (a : Arena) (required : ℕ) → Balanced a → Balanced (add_chunk a required).1
unfolding add_chunk link_chunk times_chunks times_pair
add_chunk-Balanced a required balanced q = elim (Option-cases (take_chunk a.heap).0) [
  | inl e ↦ ground (arith, balanced q, take_chunk_heap q a.heap)
  | inr ((chunk, storage), e) ↦ ground (arith, balanced q, take_chunk_heap q a.heap)
]

-- `native_arena_alloc` leaves the account of the heap's blocks balanced.
pub alloc-Balanced :
    (a : Arena) (size alignment p : ℕ) (a' : Arena)
    → Balanced a
    → alloc a size alignment ≡ ok (p, a')
    → Balanced a'
unfolding alloc alloc_grown bump
alloc-Balanced a size alignment p a' balanced h q =
    ground (arith, balanced q, add_chunk-Balanced a (size + alignment - 1) balanced q)
