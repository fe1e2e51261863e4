-- ===== src/Vec/Push.antt =====
-- `native_vec_push`: the append, in place or on a copy, and what other headers see of it.
use beagle.Base.{
  ℕ, ◌+◌, ◌/◌, ◌≤◌, ◌<◌, ◌≡◌, inl, inr, refl, arith, true, Option, none, some, List, [], ◌∷◌, ◌++◌,
  ltb, if◌then◌else◌, ok, >>=-eq-ok, >>-eq-ok, length, get_or, set, take, copy_into, replicate,
  length-take, length-replicate, length-copy_into, take-copy_into_extend, get_or-set_self,
  length-set, ap, sym, ◌∙◌, Bool-cases, Option-cases, invalid_argument,
}
use beagle.Base.{ok-injective, take-nil, copy_into-nil, take-copy_into_front}
use mathlib.Core.Path.{subst}
use beagle.Base.Int.{ℤ, int_max}
use beagle.Vec.{
  Machine, Vec, slots, contents, copy_slots, put_mark, set_length, malformed, tip_is_free,
  push_in_place, push_copy, push, grown_capacity, new,
}
use beagle.Vec.Storage.{new-IsFresh, header_lem}
use beagle.Vec.Live.{IsGood, Keeps, write-Keeps, Shares}
use beagle.Vec.Built.{
  Built, IsFresh-Built, Built-copy, Built-set_length, Built-contents, Built-IsGood, Built-Keeps,
  Built-Shares,
}

-- The header that an append in place returns.
abbrev grown : Vec → Vec
grown v = record v { length = v.length + 1 }

module _ {ℓ} {A : Type ℓ} where
  pub length-contents : (m : Machine A) (v : Vec) → IsGood m v → length (contents m v) ≡ v.length
  length-contents m v g = elim g.backed [
    | inl (e, c) ↦ rw (e, take-nil) (omega (arith, g.fits))
    | inr (n, e, l, c) ↦ rw e (length-take v.length (get_or m.blocks n []) (omega arith))
  ]

  -- What a push leaves: the appended header, next to any other good one.
  pub record Pushed (m m' : Machine A) (v v' : Vec) (x : A) : Type ℓ where
    pub appended : contents m' v' ≡ contents m v ++ (some x ∷ [])
    pub longer : v'.length ≡ v.length + 1
    pub good : IsGood m' v'
    pub keeps : (u : Vec) → IsGood m u → Shares v u → Keeps m m' u
    pub shares : (u : Vec) → IsGood m u → Shares v u → Shares u v → Shares v' u × Shares u v'

  -- The append on storage of its own.
  Built-Pushed :
      (m m' : Machine A) (v fresh : Vec) (x : A) (room : List (Option A)) (mark : ℕ)
      → IsGood m v
      → Built m m' fresh (copy_into room 0 (contents m v)) mark
      → length room ≡ fresh.capacity
      → v.length + 1 ≤ length room
      → Pushed m
          (set_length (copy_slots m' fresh.elements v.length (some x ∷ [])) fresh (v.length + 1)).1
          v
          (set_length (copy_slots m' fresh.elements v.length (some x ∷ [])) fresh (v.length + 1)).0
          x
  unfolding set_length
  Built-Pushed m m' v fresh x room mark g b sized space =
      let front = copy_into room 0 (contents m v) in
      let b' = Built-set_length (v.length + 1) (Built-copy v.length (some x ∷ []) b) in
      let long : v.length + 1 ≤ length front = rw (length-copy_into room 0 (contents m v)) space in
      record {
        appended =
            Built-contents b'
            ∙ take-copy_into_extend v.length front (some x ∷ []) long
            ∙ ap (λ t. t ++ (some x ∷ []))
                (take-copy_into_front v.length room (contents m v) (length-contents m v g)
                  (omega arith));
        longer = refl;
        good = Built-IsGood b' (omega arith) (omega arith) (
            length-copy_into front v.length (some x ∷ [])
            ∙ length-copy_into room 0 (contents m v)
            ∙ sized);
        keeps = λ u gu _. Built-Keeps u gu b';
        shares = λ u gu _ _. Built-Shares u gu b';
      }

  pub Built-prefix :
      (m m₁ : Machine A) (v fresh : Vec) (room : List (Option A))
      → Built m m₁ fresh room 0
      → Built m
          (if ltb 0 v.length then copy_slots m₁ fresh.elements 0 (contents m v) else m₁)
          fresh
          (copy_into room 0 (contents m v))
          0
  Built-prefix m m₁ v fresh room b = elim (Bool-cases (ltb 0 v.length)) [
    | inl some' ↦ rw some' (Built-copy 0 (contents m v) b)
    | inr none' ↦
        let nothing : v.length ≡ 0 = ground arith in
        let empty : contents m v ≡ [] = ap (λ n. take n (slots m v.elements)) nothing in
        rw none' (rw (empty, copy_into-nil room) b)
  ]

  push_copy-Pushed :
      (m : Machine A) (v : Vec) (x : A) (stride : ℤ) (alignment : ℕ) (v' : Vec) (m' : Machine A)
      → IsGood m v
      → push_copy m v x stride alignment ≡ ok (v', m')
      → Pushed m m' v v' x
  unfolding push_copy
  push_copy-Pushed m v x stride alignment v' m' g h =
      let (small, h₁) = >>-eq-ok (ltb (int_max / 2) v.length) _ _ h in
      let ((fresh, m₁), r, e) = >>=-eq-ok (new m (grown_capacity v.length) stride alignment) _ h₁ in
      let f = new-IsFresh m (grown_capacity v.length) stride alignment fresh m₁ r in
      let room : List (Option A) = replicate (grown_capacity v.length) none in
      let sized : length room ≡ grown_capacity v.length =
        length-replicate (grown_capacity v.length) none in
      let space : v.length + 1 ≤ grown_capacity v.length = ground arith in
      subst (λ (t : Vec × Machine A). Pushed m t.1 v t.0 x) (ok-injective e)
        (Built-Pushed m _ v fresh x room 0 g (Built-prefix m m₁ v fresh room (IsFresh-Built f))
          (sized ∙ sym f.sized) (rw sized space))

  tip_lem :
      (m : Machine A) (v : Vec)
      → tip_is_free m v ≡ true
      → (w : ℕ) × (v.watermark ≡ some w) × (v.length < v.capacity) × (get_or m.marks w 0 ≡ v.length)
  unfolding tip_is_free
  tip_lem m v h = elim (Option-cases v.watermark) [
    | inl e ↦ absurd (ground arith)
    | inr (w, e) ↦ (w, e, ground arith, ground arith)
  ]

  below_mark :
      (m : Machine A) (u : Vec) (w : ℕ)
      → IsGood m u
      → u.watermark ≡ some w
      → (w < length m.marks) × (u.length ≤ get_or m.marks w 0)
  below_mark m u w g e = elim g.marked [
    | inl n ↦ cc
    | inr (w', e', l, c) ↦ let same : w' ≡ w = ground arith in (rw same at l, rw same at c)
  ]

  in_place-Pushed :
      (m m' : Machine A) (v : Vec) (x : A) (e w : ℕ)
      → IsGood m v
      → v.elements ≡ some e
      → v.watermark ≡ some w
      → e < length m.blocks
      → length (get_or m.blocks e []) ≡ v.capacity
      → v.length < v.capacity
      → get_or m.marks w 0 ≡ v.length
      → m'.blocks ≡ set m.blocks e (copy_into (get_or m.blocks e []) v.length (some x ∷ []))
      → m'.marks ≡ set m.marks w (v.length + 1)
      → Pushed m m' v (grown v) x
  in_place-Pushed m m' v x e w g he hw le ce room top hb hm =
      let block = get_or m.blocks e [] in
      let (lw, _) = below_mark m v w g hw in
      record {
        appended =
            rw (he, hb, get_or-set_self m.blocks e (copy_into block v.length (some x ∷ [])) [] le)
              (take-copy_into_extend v.length block (some x ∷ []) (omega arith));
        longer = refl;
        good = record {
          fits = omega arith;
          backed = inr (
            e,
            he,
            omega (
              arith,
              ap length hb,
              length-set m.blocks e (copy_into block v.length (some x ∷ [])),
            ),
            rw (hb, get_or-set_self m.blocks e (copy_into block v.length (some x ∷ [])) [] le)
                (length-copy_into block v.length (some x ∷ []) ∙ ce),
          );
          marked = inr (
            w,
            hw,
            omega (arith, ap length hm, length-set m.marks w (v.length + 1)),
            rw (hm, get_or-set_self m.marks w (v.length + 1) 0 lw) (omega arith),
          );
        };
        keeps = λ u gu s.
            write-Keeps m m' u e v.length (some x ∷ []) w (v.length + 1) gu
              (λ eu. omega (arith, top, (below_mark m u w gu (sym (s e he eu) ∙ hw)).1))
              (λ eu. omega (arith, top, (below_mark m u w gu eu).1)) hb hm;
        shares = λ u gu s s'. (s, s');
      }

  push_in_place-Pushed :
      (m : Machine A) (v : Vec) (x : A) (v' : Vec) (m' : Machine A)
      → IsGood m v
      → tip_is_free m v ≡ true
      → push_in_place m v x ≡ ok (v', m')
      → Pushed m m' v v' x
  unfolding push_in_place
  push_in_place-Pushed m v x v' m' g tip h =
      let (w, hw, room, top) = tip_lem m v tip in
      let m₁ = copy_slots m v.elements v.length (some x ∷ []) in
      let m₂ = put_mark m₁ v.watermark (v.length + 1) in
      let (same, hv) = header_lem m₂ v.elements (v.length + 1) v.capacity v.watermark v' m' h in
      elim g.backed [
        | inl (_, c) ↦ absurd (omega arith)
        | inr (e, he, le, ce) ↦
            let hb : m'.blocks
                ≡ set m.blocks e (copy_into (get_or m.blocks e []) v.length (some x ∷ [])) =
              rw same.blocks (rw (he, hw) refl) in
            let hm : m'.marks ≡ set m.marks w (v.length + 1) = rw same.marks (rw (he, hw) refl) in
            subst (λ (t : Vec). Pushed m m' v t x) (sym hv)
              (in_place-Pushed m m' v x e w g he hw le ce room top hb hm)
      ]

  -- A successful `native_vec_push` onto a good header appends the value and gives a good header. A
  -- good header over other storage, or over the same storage with the same watermark, is still
  -- good and shows the same elements; where the header that was pushed onto and another good one
  -- had one watermark if they had one storage, so have the appended header and that other one.
  pub push-Pushed :
      (m : Machine A) (v : Vec) (x : A) (stride : ℤ) (alignment : ℕ) (v' : Vec) (m' : Machine A)
      → IsGood m v
      → push m v x stride alignment ≡ ok (v', m')
      → Pushed m m' v v' x
  unfolding push
  push-Pushed m v x stride alignment v' m' g h =
      let (formed, h₁) = >>-eq-ok (malformed v stride) invalid_argument _ h in
      elim (Bool-cases (tip_is_free m v)) [
        | inl tip ↦ push_in_place-Pushed m v x v' m' g tip (rw tip at h₁)
        | inr taken ↦ push_copy-Pushed m v x stride alignment v' m' g (rw taken at h₁)
      ]
