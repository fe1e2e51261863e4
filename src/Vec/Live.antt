-- ===== src/Vec/Live.antt =====
-- When headers over shared storage are safe to use side by side.
use beagle.Base.{
  ℕ, ◌≤◌, ◌<◌, ◌≡◌, ◌⊎◌, inl, inr, arith, Option, none, some, List, [], ◌++◌, length, get_or, set,
  take, copy_into, length-append, length-copy_into, length-set, get_or-set_self, get_or-set_ne,
  get_or-append, ap, sym, ◌∙◌, ℕ_discrete, take-copy_into_behind,
}
use beagle.Vec.{Machine, Vec, contents}

-- Two headers over one storage have one watermark.
abbrev pub Shares : Vec → Vec → Type 0
Shares v u = (e : ℕ) → v.elements ≡ some e → u.elements ≡ some e → v.watermark ≡ u.watermark

module _ {ℓ} {A : Type ℓ} where
  -- A header whose storage has its capacity, and whose elements all lie below the watermark.
  pub record IsGood (m : Machine A) (v : Vec) : Type ℓ where
    pub fits : v.length ≤ v.capacity
    pub backed :
        ((v.elements ≡ none) × (v.capacity ≡ 0))
        ⊎ ((e : ℕ) × (v.elements ≡ some e)
            × (e < length m.blocks)
            × (length (get_or m.blocks e []) ≡ v.capacity))
    pub marked :
        (v.watermark ≡ none)
        ⊎ ((w : ℕ) × (v.watermark ≡ some w)
            × (w < length m.marks)
            × (v.length ≤ get_or m.marks w 0))

  -- The header is still good, and shows the same elements.
  pub record Keeps (m m' : Machine A) (u : Vec) : Type ℓ where
    pub same_contents : contents m' u ≡ contents m u
    pub still_good : IsGood m' u

  -- What a change of the store has to leave of a block and of a watermark.
  SameBlock : Machine A → Machine A → ℕ → ℕ → Type ℓ
  SameBlock m m' n e =
      (e < length m'.blocks)
      × (length (get_or m'.blocks e []) ≡ length (get_or m.blocks e []))
      × (take n (get_or m'.blocks e []) ≡ take n (get_or m.blocks e []))

  SameMark : Machine A → Machine A → ℕ → ℕ → Type 0
  SameMark m m' n w = (w < length m'.marks) × (n ≤ get_or m'.marks w 0)

  same-Keeps :
      (m m' : Machine A) (u : Vec)
      → IsGood m u
      → ((e : ℕ) → u.elements ≡ some e → e < length m.blocks → SameBlock m m' u.length e)
      → ((w : ℕ)
          → u.watermark ≡ some w
          → w < length m.marks
          → u.length ≤ get_or m.marks w 0
          → SameMark m m' u.length w)
      → Keeps m m' u
  unfolding SameBlock SameMark
  same-Keeps m m' u g block mark = record {
    same_contents = elim g.backed [ inl (e, _) ↦ rw e | inr (n, e, l, _) ↦ rw e ((block n e l).2) ];
    still_good = record {
      fits = g.fits;
      backed = elim g.backed [
        | inl h ↦ inl h
        | inr (n, e, l, c) ↦ inr (n, e, (block n e l).0, (block n e l).1 ∙ c)
      ];
      marked = elim g.marked [
        | inl h ↦ inl h
        | inr (w, e, l, c) ↦ inr (w, e, (mark w e l c).0, (mark w e l c).1)
      ];
    };
  }

  -- Added blocks and watermarks are out of every good header's sight.
  pub append-Keeps :
      (m m' : Machine A) (u : Vec) (more : List (List (Option A))) (more_marks : List ℕ)
      → IsGood m u
      → m'.blocks ≡ m.blocks ++ more
      → m'.marks ≡ m.marks ++ more_marks
      → Keeps m m' u
  unfolding SameBlock SameMark
  append-Keeps m m' u more more_marks g hb hm =
      same-Keeps m m' u g
        (λ e _ l.
          let same : get_or m'.blocks e [] ≡ get_or m.blocks e [] =
            rw hb (get_or-append m.blocks more e [] l) in
          (
            omega (arith, ap length hb, length-append m.blocks more),
            ap length same,
            ap (take u.length) same,
          ))
        (λ w _ l c. (
          omega (arith, ap length hm, length-append m.marks more_marks),
          rw (hm, get_or-append m.marks more_marks w 0 l) c,
        ))

  -- Writing behind the elements of a header, and raising a watermark, keeps it.
  pub write-Keeps :
      (m m' : Machine A) (u : Vec) (e i : ℕ) (from : List (Option A)) (w n : ℕ)
      → IsGood m u
      → (u.elements ≡ some e → u.length ≤ i)
      → (u.watermark ≡ some w → u.length ≤ n)
      → m'.blocks ≡ set m.blocks e (copy_into (get_or m.blocks e []) i from)
      → m'.marks ≡ set m.marks w n
      → Keeps m m' u
  unfolding SameBlock SameMark
  write-Keeps m m' u e i from w n g behind below hb hm =
      same-Keeps m m' u g
        (λ e' eu l. (
          omega (
            arith,
            ap length hb,
            length-set m.blocks e (copy_into (get_or m.blocks e []) i from),
          ),
          rw hb (set_block_length e' l),
          rw hb (set_block_prefix e' eu l),
        ))
        (λ w' eu l c.
          (omega (arith, ap length hm, length-set m.marks w n), rw hm (set_mark w' eu l c)))
    where
      set_block_length :
          (e' : ℕ)
          → e' < length m.blocks
          → length (get_or (set m.blocks e (copy_into (get_or m.blocks e []) i from)) e' [])
            ≡ length (get_or m.blocks e' [])
      set_block_length e' l = elim (ℕ_discrete e e') [
        | yes same ↦
            rw
              (
                ← same,
                get_or-set_self m.blocks e (copy_into (get_or m.blocks e []) i from) []
                    (rw (← same) at l),
              )
              (length-copy_into (get_or m.blocks e []) i from)
        | no ne ↦ ap length (get_or-set_ne m.blocks e e' _ [] ne)
      ]

      set_block_prefix :
          (e' : ℕ)
          → u.elements ≡ some e'
          → e' < length m.blocks
          → take u.length (get_or (set m.blocks e (copy_into (get_or m.blocks e []) i from)) e' [])
            ≡ take u.length (get_or m.blocks e' [])
      set_block_prefix e' eu l = elim (ℕ_discrete e e') [
        | yes same ↦
            rw
              (
                ← same,
                get_or-set_self m.blocks e (copy_into (get_or m.blocks e []) i from) []
                    (rw (← same) at l),
              )
              (take-copy_into_behind u.length i (get_or m.blocks e []) from
                (behind (eu ∙ ap some (sym same))))
        | no ne ↦ ap (take u.length) (get_or-set_ne m.blocks e e' _ [] ne)
      ]

      set_mark :
          (w' : ℕ)
          → u.watermark ≡ some w'
          → w' < length m.marks
          → u.length ≤ get_or m.marks w' 0
          → u.length ≤ get_or (set m.marks w n) w' 0
      set_mark w' eu l c = elim (ℕ_discrete w w') [
        | yes same ↦
            rw (← same, get_or-set_self m.marks w n 0 (rw (← same) at l))
              (below (eu ∙ ap some (sym same)))
        | no ne ↦ rw (get_or-set_ne m.marks w w' n 0 ne) c
      ]
