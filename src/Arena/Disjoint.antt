-- ===== src/Arena/Disjoint.antt =====
-- Memory safety of the bump allocator over any sequence of calls of `native_arena_alloc`.
use beagle.Base.{ℕ, ◌+◌, ◌≤◌, ◌≡◌, ◌⊎◌, inl, inr, arith, List, [], ◌∷◌, ok, All, All-map}
use beagle.Arena.{Arena, word_max, alloc}
use beagle.Arena.Alloc.{IsValid, SameBlock, NewChunk, Placed, alloc-Placed, Placed-IsValid}

-- The address and the size of what one call returned.
abbrev pub Block : Type 0
Block = ℕ × ℕ

abbrev pub Disjoint : Block → Block → Type 0
Disjoint b c = (b.0 + b.1 ≤ c.0) ⊎ (c.0 + c.1 ≤ b.0)

abbrev pub AllDisjoint : List Block → Type 0
AllDisjoint [] = Unit
AllDisjoint (b ∷ bs) = All (Disjoint b) bs × AllDisjoint bs

-- What C promises of `malloc`: a new chunk lies in the address space, apart from all live blocks.
pub record MallocGives (a a' : Arena) (live : List Block) : Type 0 where
  pub addressable : a'.bytes + a'.capacity ≤ word_max
  pub apart : NewChunk a a' → All (Disjoint (a'.bytes, a'.capacity)) live

-- The states after calls of `native_arena_alloc` that returned, with the blocks handed out.
pub data Allocated (start : Arena) : Arena → List Block → Type 0 where
  fresh : Allocated start start []
  next :
      {a a' : Arena} {live : List Block} (size alignment p : ℕ)
      → Allocated start a live
      → alignment ≤ word_max
      → alloc a size alignment ≡ ok (p, a')
      → MallocGives a a' live
      → Allocated start a' ((p, size) ∷ live)

-- A live block is among the used bytes of the current block, or apart from that block.
abbrev pub InUse : Arena → Block → Type 0
InUse a b = ((a.bytes ≤ b.0) × (b.0 + b.1 ≤ a.bytes + a.offset)) ⊎ Disjoint (a.bytes, a.capacity) b

beside_same :
    {a a' : Arena} {size alignment p : ℕ} (b : Block)
    → IsValid a
    → Placed a a' size alignment p
    → SameBlock a a' p
    → InUse a b
    → Disjoint (p, size) b × InUse a' b
beside_same b v placed same (inl low) = (inr (omega arith), inl (omega arith, omega arith))
beside_same b v placed same (inr (inl behind)) = (inl (omega arith), inr (inl (omega arith)))
beside_same b v placed same (inr (inr before)) = (inr (omega arith), inr (inr (omega arith)))

beside_new :
    {a a' : Arena} {size alignment p : ℕ} (b : Block)
    → Placed a a' size alignment p
    → Disjoint (a'.bytes, a'.capacity) b
    → Disjoint (p, size) b × InUse a' b
beside_new b placed (inl behind) = (inl (omega arith), inr (inl behind))
beside_new b placed (inr before) = (inr (omega arith), inr (inr before))

module _ {ℓ} {A : Type ℓ} (P Q : A → Type 0) where
  All-unzip : (xs : List A) → All (λ x. P x × Q x) xs → All P xs × All Q xs
  All-unzip [] h = (tt, tt)
  All-unzip (x ∷ xs) ((p, q), h) = let (ps, qs) = All-unzip xs h in ((p, ps), (q, qs))

record Safe (a : Arena) (live : List Block) : Type 0 where
  valid : IsValid a
  in_use : All (InUse a) live
  disjoint : AllDisjoint live

beside_each :
    {a a' : Arena} {size alignment p : ℕ} (live : List Block)
    → Safe a live
    → Placed a a' size alignment p
    → MallocGives a a' live
    → All (Disjoint (p, size)) live × All (InUse a') live
beside_each {a} {a'} {size} {alignment} {p} live s placed gives =
    All-unzip (Disjoint (p, size)) (InUse a') live (elim placed.place [
      | inl same ↦ All-map (λ b. beside_same b s.valid placed same) live s.in_use
      | inr new ↦ All-map (λ b. beside_new b placed) live (gives.apart new)
    ])

Allocated-Safe :
    {start a : Arena} {live : List Block} → IsValid start → Allocated start a live → Safe a live
Allocated-Safe v fresh = record { valid = v; in_use = tt; disjoint = tt }
Allocated-Safe v (next {a} {a'} {live} size alignment p r w e gives) =
    let s = Allocated-Safe v r in
    let placed = alloc-Placed a size alignment p a' s.valid w e in
    let (apart, kept) = beside_each live s placed gives in
    record {
      valid = Placed-IsValid s.valid placed gives.addressable;
      in_use = (inl (placed.above, omega arith), kept);
      disjoint = (apart, s.disjoint);
    }

-- From an arena with its fields in range, the blocks that any calls of `native_arena_alloc` hand
-- out never overlap, however many chunks were taken on the way.
pub Allocated-Disjoint :
    {start a : Arena} {live : List Block}
    → IsValid start
    → Allocated start a live
    → AllDisjoint live
Allocated-Disjoint v r = (Allocated-Safe v r).disjoint
