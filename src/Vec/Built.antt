-- ===== src/Vec/Built.antt =====
-- A header that an operation has just built over storage of its own.
use beagle.Base.{
  ℕ, ◌≤◌, ◌≡◌, ◌≢◌, ◌⊎◌, inl, inr, refl, arith, Option, none, some, List, [], ◌∷◌, ◌++◌, length,
  take, copy_into, replicate, length-append, append-nil, get_or-length_append, set-length_append,
  ap, sym, ◌∙◌,
}
use beagle.Vec.{Machine, Vec, contents, copy_slots, set_length}
use beagle.Vec.Storage.{IsFresh}
use beagle.Vec.Live.{IsGood, Keeps, append-Keeps, Shares}

module _ {ℓ} {A : Type ℓ} where
  -- The storage of `r` is `block`, with the watermark `mark`, and the rest is as in `m`; a header
  -- of capacity 0 has no storage.
  pub record Built (m m' : Machine A) (r : Vec) (block : List (Option A)) (mark : ℕ) : Type ℓ where
    pub store :
        ((r.elements ≡ none)
          × (r.watermark ≡ none)
          × (block ≡ [])
          × (m'.blocks ≡ m.blocks)
          × (m'.marks ≡ m.marks))
        ⊎ ((r.elements ≡ some (length m.blocks))
            × (r.watermark ≡ some (length m.marks))
            × (m'.blocks ≡ m.blocks ++ (block ∷ []))
            × (m'.marks ≡ m.marks ++ (mark ∷ [])))

  pub IsFresh-Built :
      {m m' : Machine A} {r : Vec} {capacity : ℕ}
      → IsFresh m m' r capacity
      → Built m m' r (replicate capacity none) 0
  IsFresh-Built f = record {
    store = elim f.backed [
      | inl (c, e, w, b, k) ↦ inl (e, w, ap (λ n. replicate n none) c, b, k)
      | inr h ↦ inr h
    ];
  }

  copy_store :
      (m m' : Machine A) (block : List (Option A)) (i : ℕ) (from : List (Option A)) (e : Option ℕ)
      → e ≡ some (length m.blocks)
      → m'.blocks ≡ m.blocks ++ (block ∷ [])
      → ((copy_slots m' e i from).blocks ≡ m.blocks ++ (copy_into block i from ∷ []))
        × ((copy_slots m' e i from).marks ≡ m'.marks)
  copy_store m m' block i from e he hb = rw he (
    rw hb (rw (get_or-length_append m.blocks block [] []) (set-length_append m.blocks block _)),
    refl,
  )

  pub Built-copy :
      {m m' : Machine A} {r : Vec} {block : List (Option A)} {mark : ℕ} (i : ℕ)
      (from : List (Option A))
      → Built m m' r block mark
      → Built m (copy_slots m' r.elements i from) r (copy_into block i from) mark
  Built-copy {m} {m'} {r} {block} i from b = record {
    store = elim b.store [
      | inl (e, w, n, hb, hm) ↦ inl (e, w, rw n, rw e hb, rw e hm)
      | inr (e, w, hb, hm) ↦
          let (hb', hm') = copy_store m m' block i from r.elements e hb in inr (e, w, hb', hm' ∙ hm)
    ];
  }

  pub Built-set_length :
      {m m' : Machine A} {r : Vec} {block : List (Option A)} {mark : ℕ} (n : ℕ)
      → Built m m' r block mark
      → Built m (set_length m' r n).1 (set_length m' r n).0 block n
  unfolding set_length
  Built-set_length {m} {m'} {r} {block} {mark} n b = record {
    store = elim b.store [
      | inl (e, w, h, hb, hm) ↦ inl (e, w, h, rw w hb, rw w hm)
      | inr (e, w, hb, hm) ↦ inr (e, w, rw w hb, rw w (rw hm (set-length_append m.marks mark n)))
    ];
  }

  pub Built-contents :
      {m m' : Machine A} {r : Vec} {block : List (Option A)} {mark : ℕ}
      → Built m m' r block mark
      → contents m' r ≡ take r.length block
  Built-contents {m} {m'} {r} {block} b = elim b.store [
    | inl (e, w, h, hb, hm) ↦ rw (e, h)
    | inr (e, w, hb, hm) ↦ rw (e, hb, get_or-length_append m.blocks block [] [])
  ]

  pub Built-IsGood :
      {m m' : Machine A} {r : Vec} {block : List (Option A)} {mark : ℕ}
      → Built m m' r block mark
      → r.length ≤ mark
      → r.length ≤ r.capacity
      → length block ≡ r.capacity
      → IsGood m' r
  Built-IsGood {m} {m'} {r} {block} {mark} b below fits sized = record {
    fits = fits;
    backed = elim b.store [
      | inl (e, w, h, hb, hm) ↦ inl (e, sym sized ∙ ap length h)
      | inr (e, w, hb, hm) ↦ inr (
        length m.blocks,
        e,
        omega (arith, ap length hb, length-append m.blocks (block ∷ [])),
        rw (hb, get_or-length_append m.blocks block [] []) sized,
      )
    ];
    marked = elim b.store [
      | inl (e, w, h, hb, hm) ↦ inl w
      | inr (e, w, hb, hm) ↦ inr (
        length m.marks,
        w,
        omega (arith, ap length hm, length-append m.marks (mark ∷ [])),
        rw (hm, get_or-length_append m.marks mark [] 0) below,
      )
    ];
  }

  pub Built-Keeps :
      {m m' : Machine A} {r : Vec} {block : List (Option A)} {mark : ℕ} (u : Vec)
      → IsGood m u
      → Built m m' r block mark
      → Keeps m m' u
  Built-Keeps {m} {m'} {r} {block} {mark} u g b = elim b.store [
    | inl (e, w, h, hb, hm) ↦
        append-Keeps m m' u [] [] g (hb ∙ sym (append-nil m.blocks)) (hm ∙ sym (append-nil m.marks))
    | inr (e, w, hb, hm) ↦ append-Keeps m m' u (block ∷ []) (mark ∷ []) g hb hm
  ]

  -- The storage of the header is that of no good header there was.
  pub Built-separate :
      {m m' : Machine A} {r : Vec} {block : List (Option A)} {mark : ℕ} (u : Vec)
      → IsGood m u
      → Built m m' r block mark
      → (e : ℕ) → r.elements ≡ some e
      → u.elements ≢ some e
  Built-separate u g b e hr hu = elim b.store [
    | inl (n, _, _, _, _) ↦ cc
    | inr (s, _, _, _) ↦ elim g.backed [ inl (n, _) ↦ cc | inr (e', eu, l, _) ↦ ground arith ]
  ]

  pub Built-Shares :
      {m m' : Machine A} {r : Vec} {block : List (Option A)} {mark : ℕ} (u : Vec)
      → IsGood m u
      → Built m m' r block mark
      → Shares r u × Shares u r
  Built-Shares u g b = (
    λ e hr hu. absurd (Built-separate u g b e hr hu),
    λ e hu hr. absurd (Built-separate u g b e hr hu),
  )
