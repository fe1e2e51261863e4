-- ===== src/Vec/Storage.antt =====
-- What the allocations of a vector leave: fresh storage, a fresh watermark, all else as it was.
use beagle.Base.{
  ℕ, zero, suc, ◌≡◌, arith, Option, none, some, [], ◌∷◌, ◌++◌, ◌==◌, ok, length, replicate, ◌⊎◌,
  inl, inr, Bool-cases, >>=-eq-ok,
}
use beagle.Base.Int.{ℤ, pos, negsuc}
use beagle.Arena.{alloc}
use beagle.Buffer.{dense_bytes}
use beagle.Buffer.Require.{dense_bytes-eq-ok, dense_bytes-no_stride, dense_bytes-negative}
use beagle.Vec.{Machine, Vec, reserve, new_storage, new_mark, header, new, new_backed}

pub dense_bytes-zero :
    (capacity : ℕ) (stride : ℤ) (bytes : ℕ)
    → dense_bytes (pos capacity) stride ≡ ok bytes
    → bytes ≡ 0
    → capacity ≡ 0
dense_bytes-zero capacity (pos zero) bytes h e = absurd (dense_bytes-no_stride capacity h)
dense_bytes-zero capacity (pos (suc s)) bytes h e =
    grind (arith, dense_bytes-eq-ok capacity (suc s) bytes h)
dense_bytes-zero capacity (negsuc n) bytes h e = absurd (dense_bytes-negative capacity n h)

module _ {ℓ} {A : Type ℓ} where
  -- The machine has the same elements and watermarks.
  pub record SameStore (m m' : Machine A) : Type ℓ where
    pub blocks : m'.blocks ≡ m.blocks
    pub marks : m'.marks ≡ m.marks

  pub reserve-SameStore :
      (m : Machine A) (size alignment : ℕ) (m' : Machine A)
      → reserve m size alignment ≡ ok m'
      → SameStore m m'
  unfolding reserve
  reserve-SameStore m size alignment m' h =
      let (r, _, e) = >>=-eq-ok (alloc m.arena size alignment) _ h in
      record { blocks = ground arith; marks = ground arith }

  pub new_storage_lem :
      (m : Machine A) (capacity bytes alignment e : ℕ) (m' : Machine A)
      → new_storage m capacity bytes alignment ≡ ok (e, m')
      → (e ≡ length m.blocks)
        × (m'.blocks ≡ m.blocks ++ (replicate capacity none ∷ []))
        × (m'.marks ≡ m.marks)
  unfolding new_storage
  new_storage_lem m capacity bytes alignment e m' h =
      let (m₁, r, k) = >>=-eq-ok (reserve m bytes alignment) _ h in
      let s = reserve-SameStore m bytes alignment m₁ r in (ground arith, ground arith, ground arith)

  pub new_mark_lem :
      (m : Machine A) (n w : ℕ) (m' : Machine A)
      → new_mark m n ≡ ok (w, m')
      → (w ≡ length m.marks) × (m'.marks ≡ m.marks ++ (n ∷ [])) × (m'.blocks ≡ m.blocks)
  unfolding new_mark
  new_mark_lem m n w m' h =
      let (m₁, r, k) = >>=-eq-ok (reserve m _ _) _ h in
      let s = reserve-SameStore m _ _ m₁ r in (ground arith, ground arith, ground arith)

  pub header_lem :
      (m : Machine A) (e : Option ℕ) (count capacity : ℕ) (w : Option ℕ) (v : Vec) (m' : Machine A)
      → header m e count capacity w ≡ ok (v, m')
      → SameStore m m'
        × (v ≡ record { elements = e; length = count; capacity = capacity; watermark = w })
  unfolding header
  header_lem m e count capacity w v m' h =
      let (m₁, r, k) = >>=-eq-ok (reserve m _ _) _ h in
      let s = reserve-SameStore m _ _ m₁ r in
      (record { blocks = ground arith; marks = ground arith }, ground arith)

  -- What `native_vec_new` returns: an empty header over storage and a watermark that no other has.
  pub record IsFresh (m m' : Machine A) (v : Vec) (capacity : ℕ) : Type ℓ where
    pub empty : v.length ≡ 0
    pub sized : v.capacity ≡ capacity
    pub backed :
        ((capacity ≡ 0)
          × (v.elements ≡ none)
          × (v.watermark ≡ none)
          × (m'.blocks ≡ m.blocks)
          × (m'.marks ≡ m.marks))
        ⊎ ((v.elements ≡ some (length m.blocks))
            × (v.watermark ≡ some (length m.marks))
            × (m'.blocks ≡ m.blocks ++ (replicate capacity none ∷ []))
            × (m'.marks ≡ m.marks ++ (0 ∷ [])))

  new_backed_lem :
      (m : Machine A) (capacity bytes alignment : ℕ) (v : Vec) (m' : Machine A)
      → new_backed m capacity bytes alignment ≡ ok (v, m')
      → (v.length ≡ 0)
        × (v.capacity ≡ capacity)
        × (v.elements ≡ some (length m.blocks))
        × (v.watermark ≡ some (length m.marks))
        × (m'.blocks ≡ m.blocks ++ (replicate capacity none ∷ []))
        × (m'.marks ≡ m.marks ++ (0 ∷ []))
  unfolding new_backed
  new_backed_lem m capacity bytes alignment v m' h =
      let ((e, m₁), r, k) = >>=-eq-ok (new_storage m capacity bytes alignment) _ h in
      let ((w, m₂), r', k') = >>=-eq-ok (new_mark m₁ 0) _ k in
      let (he, hb, hm) = new_storage_lem m capacity bytes alignment e m₁ r in
      let (hw, hm', hb') = new_mark_lem m₁ 0 w m₂ r' in
      (ground arith, ground arith, ground arith, ground arith, ground arith, ground arith)

  pub new-IsFresh :
      (m : Machine A) (capacity : ℕ) (stride : ℤ) (alignment : ℕ) (v : Vec) (m' : Machine A)
      → new m capacity stride alignment ≡ ok (v, m')
      → IsFresh m m' v capacity
  unfolding new
  new-IsFresh m capacity stride alignment v m' h =
      let (m₁, r₁, k₁) = >>=-eq-ok (reserve m _ _) _ h in
      let s = reserve-SameStore m _ _ m₁ r₁ in
      let (bytes, r₂, k₂) = >>=-eq-ok (dense_bytes (pos capacity) stride) _ k₁ in
      elim (Bool-cases (bytes == 0)) [
        | inl none' ↦
            let nothing = dense_bytes-zero capacity stride bytes r₂ (ground arith) in
            record {
              empty = ground arith;
              sized = ground arith;
              backed = inl (nothing, ground arith, ground arith, ground arith, ground arith);
            }
        | inr some' ↦
            let k₃ : new_backed m₁ capacity bytes alignment ≡ ok (v, m') = rw some' at k₂ in
            let (l, c, e, w, b, k) = new_backed_lem m₁ capacity bytes alignment v m' k₃ in
            record {
              empty = l;
              sized = c;
              backed = inr (ground arith, ground arith, ground arith, ground arith);
            }
      ]
