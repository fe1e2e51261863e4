-- ===== src/Vec/Bulk/Reversed.antt =====
-- What `native_vec_reverse` returns.
use beagle.Base.{
  ℕ, zero, suc, ◌+◌, ◌-◌, ◌≤◌, ◌<◌, ◌≡◌, refl, arith, ◌||◌, Option, none, List, [], ◌∷◌, ◌++◌, ltb,
  ok, >>=-eq-ok, >>-eq-ok, ok-injective, length, get_or, take, copy_into, replicate,
  length-replicate, length-copy_into, take-copy_into_extend, ap, sym, ◌∙◌, invalid_argument,
  append-nil,
}
use mathlib.Core.Path.{subst}
use beagle.Base.Int.{ℤ}
use beagle.Vec.{Machine, Vec, slots, contents, copy_slots, not_positive, new}
use beagle.Vec.Storage.{new-IsFresh}
use beagle.Vec.Live.{IsGood}
use beagle.Vec.Built.{Built, IsFresh-Built, Built-copy, Built-Keeps}
use beagle.Vec.Push.{length-contents}
use beagle.Vec.Copied.{Copied, Built-Copied}
use beagle.Vec.Bulk.{reverse_from, reverse}

module _ {ℓ} {A : Type ℓ} where
  -- The list read from its end.
  abbrev pub backward : List A → List A
  backward [] = []
  backward (x ∷ xs) = backward xs ++ (x ∷ [])

  -- The last elements of the first `n`, last one first.
  from_end : ℕ → List A → A → List A
  from_end zero xs d = []
  from_end (suc n) xs d = get_or xs n d ∷ from_end n xs d

  from_end-cons :
      (n : ℕ) (x : A) (xs : List A) (d : A)
      → from_end (suc n) (x ∷ xs) d ≡ from_end n xs d ++ (x ∷ [])
  unfolding from_end
  from_end-cons zero x xs d = refl
  from_end-cons (suc n) x xs d = ap (λ t. get_or xs n d ∷ t) (from_end-cons n x xs d)

  from_end-backward : (xs : List A) (d : A) → from_end (length xs) xs d ≡ backward xs
  unfolding from_end
  from_end-backward [] d = refl
  from_end-backward (x ∷ xs) d =
      from_end-cons (length xs) x xs d ∙ ap (λ t. t ++ (x ∷ [])) (from_end-backward xs d)

  get_or-take : (n i : ℕ) (xs : List A) (d : A) → i < n → get_or (take n xs) i d ≡ get_or xs i d
  get_or-take zero i xs d h = absurd (omega arith)
  get_or-take (suc n) i [] d h = refl
  get_or-take (suc n) zero (x ∷ xs) d h = refl
  get_or-take (suc n) (suc i) (x ∷ xs) d h = get_or-take n i xs d (omega arith)

  append-cons : (xs : List A) (y : A) (ys : List A) → (xs ++ (y ∷ [])) ++ ys ≡ xs ++ (y ∷ ys)
  append-cons [] y ys = refl
  append-cons (x ∷ xs) y ys = ap (λ t. x ∷ t) (append-cons xs y ys)

module _ {ℓ} {A : Type ℓ} (m : Machine A) (source result : Vec) (good : IsGood m source) where
  -- The storage behind the loop: what was there before `position`, and then the rest of the source
  -- from its end.
  Filled : Machine A → List (Option A) → ℕ → ℕ → Type ℓ
  Filled m' block position rounds =
      (block' : List (Option A)) × Built m m' result block' 0
      × (length block' ≡ length block)
      × (take (position + rounds) block'
          ≡ take position block ++ from_end rounds (contents m source) none)

  reverse_from-Filled :
      (rounds position : ℕ) (m₁ : Machine A) (block : List (Option A))
      → position + rounds ≡ source.length
      → source.length ≤ length block
      → Built m m₁ result block 0
      → Filled (reverse_from rounds position m₁ source result) block position rounds
  unfolding Filled reverse_from from_end
  reverse_from-Filled zero position m₁ block ends room b =
      let e : position + 0 ≡ position = omega arith in
      (block, b, refl, rw e (sym (append-nil (take position block))))
  reverse_from-Filled (suc rounds) position m₁ block ends room b =
      let kept = Built-Keeps source good b in
      let back : source.length - position - 1 ≡ rounds = omega arith in
      let element = get_or (slots m₁ source.elements) (source.length - position - 1) none in
      let seen : element ≡ get_or (contents m source) rounds none =
        ap (λ n. get_or (slots m₁ source.elements) n none) back
        ∙ (sym (get_or-take source.length rounds (slots m₁ source.elements) none (omega arith))
            ∙ ap (λ xs. get_or xs rounds none) kept.same_contents) in
      let block₁ = copy_into block position (element ∷ []) in
      let long = length-copy_into block position (element ∷ []) in
      let (block', b', same, shown) =
        reverse_from-Filled rounds (position + 1)
          (copy_slots m₁ result.elements position (element ∷ [])) block₁ (omega arith)
          (omega (arith, long)) (Built-copy position (element ∷ []) b) in
      let next : position + 1 + rounds ≡ position + suc rounds = omega arith in
      (
        block',
        b',
        same ∙ long,
        (rw next at shown)
            ∙ (ap (λ t. t ++ from_end rounds (contents m source) none)
                  (take-copy_into_extend position block (element ∷ []) (omega arith)
                    ∙ ap (λ x. take position block ++ (x ∷ [])) seen)
                ∙ append-cons (take position block) (get_or (contents m source) rounds none)
                    (from_end rounds (contents m source) none)),
      )

module _ {ℓ} {A : Type ℓ} where
  -- A successful `native_vec_reverse` of a good header shows its elements from the last to the first,
  -- on storage that no good header had, and every good header stays good with the same elements.
  pub reverse-Copied :
      (m : Machine A) (source : Vec) (stride : ℤ) (alignment : ℕ) (r : Vec) (m' : Machine A)
      → IsGood m source
      → reverse m source stride alignment ≡ ok (r, m')
      → Copied m m' r (backward (contents m source))
  unfolding reverse Filled
  reverse-Copied m source stride alignment r m' g h =
      let (fit, h₁) =
        >>-eq-ok (not_positive stride || ltb source.capacity source.length) invalid_argument _ h in
      let ((fresh, m₁), made, e) = >>=-eq-ok (new m source.length stride alignment) _ h₁ in
      let f = new-IsFresh m source.length stride alignment fresh m₁ made in
      let room : List (Option A) = replicate source.length none in
      let sized : length room ≡ source.length = length-replicate source.length none in
      let (block, b, long, shown) =
        reverse_from-Filled m source fresh g source.length 0 m₁ room (omega arith)
          (omega (arith, sized)) (IsFresh-Built f) in
      let start : 0 + source.length ≡ source.length = omega arith in
      let all : take source.length block ≡ backward (contents m source) =
        (rw start at shown)
        ∙ (ap (λ n. from_end n (contents m source) none) (sym (length-contents m source g))
            ∙ from_end-backward (contents m source) none) in
      subst (λ (t : Vec × Machine A). Copied m t.1 t.0 (backward (contents m source)))
        (ok-injective e)
        (Built-Copied m _ fresh block (backward (contents m source)) source.length b
          (omega (arith, f.sized)) (long ∙ (sized ∙ sym f.sized)) all)
