-- ===== src/Vec/Transient/Contents.antt =====
-- What a builder holds after a push, and what its frozen vector shows.
use beagle.Base.{
  ℕ, ◌+◌, ◌/◌, ◌≤◌, ◌<◌, ◌≡◌, ◌⊎◌, inl, inr, refl, arith, true, false, ◌||◌, Option, none, some,
  List, [], ◌∷◌, ◌++◌, ltb, ◌==◌, if◌then◌else◌, Bool-cases, ok, trap, >>=-eq-ok, >>-eq-ok,
  ok-injective, length, get_or, set, take, copy_into, replicate, length-append, length-set,
  length-replicate, length-copy_into, length-take, get_or-length_append, set-length_append,
  get_or-set_self, take-copy_into_extend, take-copy_into_front, copy_into-nil, take-nil, ap, sym,
  ◌∙◌, invalid_argument, overflow,
}
use mathlib.Core.Path.{subst}
use beagle.Base.Int.{pos, int_max}
use beagle.Buffer.{dense_bytes, not_power_of_two}
use beagle.Vec.{
  Machine, Vec, slots, contents, copy_slots, new_storage, new_mark, header, grown_capacity,
}
use beagle.Vec.Storage.{dense_bytes-zero, new_storage_lem, new_mark_lem, header_lem}
use beagle.Vec.Live.{IsGood}
use beagle.Vec.Transient.{
  TransientVec, bad_builder, builder_contents, make_room, transient_push, freeze_mark,
  transient_freeze,
}

-- A watermark that is there, over a list of watermarks, is at the length or above.
abbrev MarkedAt : TransientVec → Option ℕ → List ℕ → Type 0
MarkedAt b w marks =
    (w ≡ none) ⊎ ((n : ℕ) × (w ≡ some n) × (n < length marks) × (b.length ≤ get_or marks n 0))

module _ {ℓ} {A : Type ℓ} where
  -- The builder's storage has its capacity.
  pub record IsOpen (m : Machine A) (b : TransientVec) : Type ℓ where
    pub fits : b.length ≤ b.capacity
    pub backed :
        ((b.elements ≡ none) × (b.capacity ≡ 0))
        ⊎ ((e : ℕ) × (b.elements ≡ some e)
            × (e < length m.blocks)
            × (length (get_or m.blocks e []) ≡ b.capacity))

  length-builder_contents :
      (m : Machine A) (b : TransientVec) → IsOpen m b → length (builder_contents m b) ≡ b.length
  length-builder_contents m b o = elim o.backed [
    | inl (e, c) ↦ rw (e, take-nil) (omega (arith, o.fits))
    | inr (n, e, l, c) ↦ rw e (length-take b.length (get_or m.blocks n []) (omega (arith, o.fits)))
  ]

  -- A builder with room for one more element, which holds the same elements.
  record Roomy (m m' : Machine A) (b b' : TransientVec) : Type ℓ where
    open' : IsOpen m' b'
    same_length : b'.length ≡ b.length
    room : b.length < b'.capacity
    same : builder_contents m' b' ≡ builder_contents m b
    thawed : b'.frozen ≡ b.frozen

  copied_block :
      (bytes count : ℕ) (m m₁ : Machine A) (e : ℕ) (block from : List (Option A))
      → m₁.blocks ≡ m.blocks ++ (block ∷ [])
      → e ≡ length m.blocks
      → (bytes ≡ 0 → from ≡ [])
      → (if bytes == 0 then m₁ else copy_slots m₁ (some e) 0 from).blocks
        ≡ m.blocks ++ (copy_into block 0 from ∷ [])
  copied_block bytes count m m₁ e block from hb he nothing = elim (Bool-cases (bytes == 0)) [
    | inl empty ↦ let gone = nothing (ground arith) in rw (empty, gone, copy_into-nil block) hb
    | inr filled ↦
        rw (filled, he, hb, get_or-length_append m.blocks block [] [])
          (set-length_append m.blocks block _)
  ]

  make_room-Roomy :
      (m : Machine A) (b b' : TransientVec) (m' : Machine A)
      → IsOpen m b
      → b.length ≡ b.capacity
      → make_room m b ≡ ok (b', m')
      → Roomy m m' b b'
  unfolding make_room
  make_room-Roomy m b b' m' o full h =
      let grown = grown_capacity b.capacity in
      let (small, h₁) = >>-eq-ok (ltb (int_max / 2) b.capacity) overflow _ h in
      let (existing, he, h₂) = >>=-eq-ok (dense_bytes (pos b.length) b.stride) _ h₁ in
      let (bytes, hg, h₃) = >>=-eq-ok (dense_bytes (pos grown) b.stride) _ h₂ in
      let ((e, m₁), hs, h₄) = >>=-eq-ok (new_storage m grown bytes b.alignment) _ h₃ in
      let (new, blocks, _) = new_storage_lem m grown bytes b.alignment e m₁ hs in
      let block : List (Option A) = replicate grown none in
      let from = builder_contents m b in
      let sized : length block ≡ grown = length-replicate grown none in
      let m₂ = if existing == 0 then m₁ else copy_slots m₁ (some e) 0 from in
      let held : m₂.blocks ≡ m.blocks ++ (copy_into block 0 from ∷ []) =
        copied_block existing b.length m m₁ e block from blocks new (λ none_left.
          ap (λ n. take n (slots m b.elements))
            (dense_bytes-zero b.length b.stride existing he none_left)) in
      let here : get_or m₂.blocks e [] ≡ copy_into block 0 from =
        rw (held, new) (get_or-length_append m.blocks (copy_into block 0 from) [] []) in
      let space : b.length < grown = ground (arith, full) in
      subst (λ (t : TransientVec × Machine A). Roomy m t.1 b t.0) (ok-injective h₄)
        record {
          open' = record {
            fits = omega arith;
            backed = inr (
              e,
              refl,
              omega (
                arith,
                new,
                ap length held,
                length-append m.blocks (copy_into block 0 from ∷ []),
              ),
              ap length here ∙ (length-copy_into block 0 from ∙ sized),
            );
          };
          same_length = refl;
          room = space;
          same =
              ap (take b.length) here
              ∙ take-copy_into_front b.length block from (length-builder_contents m b o)
                  (omega (arith, sized));
          thawed = refl;
        }

  place_element :
      (m : Machine A) (b : TransientVec) (x : A)
      → IsOpen m b
      → b.length < b.capacity
      → let m' = copy_slots m b.elements b.length (some x ∷ []) in
        let b' = record b { length = b.length + 1 } in
        IsOpen m' b' × (builder_contents m' b' ≡ builder_contents m b ++ (some x ∷ []))
  place_element m b x o room = elim o.backed [
    | inl (e, c) ↦ absurd (omega (arith, c))
    | inr (e, he, le, ce) ↦
        let block = get_or m.blocks e [] in
        let block' = copy_into block b.length (some x ∷ []) in
        let here : get_or (set m.blocks e block') e [] ≡ block' =
          get_or-set_self m.blocks e block' [] le in
        (
          record {
            fits = omega arith;
            backed = inr (
              e,
              he,
              rw he (omega (arith, length-set m.blocks e block')),
              rw he (ap length here ∙ (length-copy_into block b.length (some x ∷ []) ∙ ce)),
            );
          },
          rw he (
              ap (take (b.length + 1)) here
              ∙ take-copy_into_extend b.length block (some x ∷ []) (omega (arith, ce))),
        )
  ]

  enough_room :
      (m : Machine A) (b b' : TransientVec) (m' : Machine A)
      → IsOpen m b
      → (if b.length == b.capacity then make_room m b else ok (b, m)) ≡ ok (b', m')
      → Roomy m m' b b'
  enough_room m b b' m' o h = elim (Bool-cases (b.length == b.capacity)) [
    | inl full ↦ make_room-Roomy m b b' m' o (ground arith) (rw full at h)
    | inr spare ↦
        let same = ok-injective (rw spare at h) in
        subst (λ (t : TransientVec × Machine A). Roomy m t.1 b t.0) same
          record {
            open' = o;
            same_length = refl;
            room = ground (arith, o.fits, spare);
            same = refl;
            thawed = refl;
          }
  ]

  -- A successful `native_transient_vec_push` onto a builder over storage of its capacity leaves such a
  -- builder, with the value behind the elements it held, and the builder is not frozen.
  pub transient_push-appends :
      (m : Machine A) (b : TransientVec) (x : A) (b' : TransientVec) (m' : Machine A)
      → IsOpen m b
      → transient_push m b x ≡ ok (b', m')
      → IsOpen m' b'
        × (builder_contents m' b' ≡ builder_contents m b ++ (some x ∷ []))
        × (b'.frozen ≡ false)
  unfolding transient_push bad_builder
  transient_push-appends m b x b' m' o h =
      let (sound, h₁) =
        >>-eq-ok (bad_builder b || b.alignment == 0 || not_power_of_two b.alignment)
          invalid_argument _ h in
      let ((grown, m₁), r, e) =
        >>=-eq-ok (if b.length == b.capacity then make_room m b else ok (b, m)) _ h₁ in
      let roomy = enough_room m b grown m₁ o r in
      let (opened, shown) =
        place_element m₁ grown x roomy.open' (omega (arith, roomy.room, roomy.same_length)) in
      let thawed : b.frozen ≡ false = ground (arith, sound) in
      subst
        (λ (t : TransientVec × Machine A).
          IsOpen t.1 t.0
          × (builder_contents t.1 t.0 ≡ builder_contents m b ++ (some x ∷ []))
          × (t.0.frozen ≡ false))
        (ok-injective e)
        (opened, shown ∙ ap (λ t. t ++ (some x ∷ [])) roomy.same, roomy.thawed ∙ thawed)

  -- What a freeze leaves: a good header over the builder's storage that shows what the builder held,
  -- and a builder that takes no push any more.
  pub record Frozen (m m' : Machine A) (b b' : TransientVec) (v : Vec) : Type ℓ where
    pub shows : contents m' v ≡ builder_contents m b
    pub good : IsGood m' v
    pub closed : (later : Machine A) (x : A) → transient_push later b' x ≡ trap invalid_argument

  freeze_mark_lem :
      (m : Machine A) (b : TransientVec) (w : Option ℕ) (m' : Machine A)
      → freeze_mark m b ≡ ok (w, m')
      → (m'.blocks ≡ m.blocks) × MarkedAt b w m'.marks
  unfolding freeze_mark
  freeze_mark_lem m b w m' h = elim (Bool-cases (ltb 0 b.capacity)) [
    | inr none_left ↦
        let same = ok-injective (rw none_left at h) in
        (
          sym (ap (λ (t : Option ℕ × Machine A). t.1.blocks) same),
          inl (sym (ap (λ (t : Option ℕ × Machine A). t.0) same)),
        )
    | inl filled ↦
        let ((n, m₁), r, e) = >>=-eq-ok (new_mark m b.length) _ (rw filled at h) in
        let (new, marks, blocks) = new_mark_lem m b.length n m₁ r in
        subst
          (λ (t : Option ℕ × Machine A).
            (t.1.blocks ≡ m.blocks)
            × ((t.0 ≡ none)
                ⊎ ((k : ℕ) × (t.0 ≡ some k)
                    × (k < length t.1.marks)
                    × (b.length ≤ get_or t.1.marks k 0))))
          (ok-injective e)
          (
            blocks,
            inr (
              n,
              refl,
              omega (arith, new, ap length marks, length-append m.marks (b.length ∷ [])),
              rw (marks, new, get_or-length_append m.marks b.length [] 0) (omega arith),
            ),
          )
  ]

  frozen_closed :
      (m : Machine A) (b : TransientVec) (x : A)
      → b.frozen ≡ true
      → transient_push m b x ≡ trap invalid_argument
  unfolding transient_push bad_builder
  frozen_closed m b x h = rw h refl

  frozen_built :
      (m m' : Machine A) (b : TransientVec) (w : Option ℕ)
      → IsOpen m b
      → m'.blocks ≡ m.blocks
      → MarkedAt b w m'.marks
      → Frozen m m' b
          (record b { frozen = true })
          (record {
            elements = b.elements;
            length = b.length;
            capacity = b.capacity;
            watermark = w;
          })
  frozen_built m m' b w o same marked = record {
    shows = elim o.backed [ inl (e, c) ↦ rw e refl | inr (n, e, l, c) ↦ rw (e, same) refl ];
    good = record {
      fits = o.fits;
      backed = elim o.backed [
        | inl (e, c) ↦ inl (e, c)
        | inr (n, e, l, c) ↦ inr (n, e, omega (arith, ap length same), rw same c)
      ];
      marked = marked;
    };
    closed = λ later x. frozen_closed later (record b { frozen = true }) x refl;
  }

  -- A successful `native_transient_vec_freeze` of a builder over storage of its capacity returns a
  -- good header that shows what the builder held, and a push onto the
  -- builder as the freeze leaves it traps, whatever the machine has become by then.
  pub transient_freeze-Frozen :
      (m : Machine A) (b : TransientVec) (v : Vec) (b' : TransientVec) (m' : Machine A)
      → IsOpen m b
      → transient_freeze m b ≡ ok (v, b', m')
      → Frozen m m' b b' v
  unfolding transient_freeze
  transient_freeze-Frozen m b v b' m' o h =
      let (sound, h₁) = >>-eq-ok (bad_builder b) invalid_argument _ h in
      let ((w, m₁), r, h₂) = >>=-eq-ok (freeze_mark m b) _ h₁ in
      let (blocks, marked) = freeze_mark_lem m b w m₁ r in
      let ((v₁, m₂), made, e) = >>=-eq-ok (header m₁ b.elements b.length b.capacity w) _ h₂ in
      let (store, hv) = header_lem m₁ b.elements b.length b.capacity w v₁ m₂ made in
      let same : m₂.blocks ≡ m.blocks = store.blocks ∙ blocks in
      let marked' = subst (MarkedAt b w) (sym store.marks) marked in
      subst (λ (t : Vec × TransientVec × Machine A). Frozen m t.2 b t.1 t.0) (ok-injective e)
        (subst (λ (u : Vec). Frozen m m₂ b (record b { frozen = true }) u) (sym hv)
          (frozen_built m m₂ b w o (store.blocks ∙ blocks) marked'))
