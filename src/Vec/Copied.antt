-- ===== src/Vec/Copied.antt =====
-- `native_vec_assoc`, and what an operation that copies into storage of its own leaves.
use beagle.Base.{
  ℕ, ◌≤◌, ◌<◌, ◌≡◌, ◌≢◌, refl, arith, Option, none, some, List, [], ◌∷◌, leb, Run, ok, ◌>>=◌,
  >>=-eq-ok, >>-eq-ok, ok-injective, length, set, take, copy_into, replicate, length-replicate,
  length-copy_into, take-set, take-copy_into_front, ap, sym, ◌∙◌, invalid_argument, out_of_range,
}
use mathlib.Core.Path.{subst}
use beagle.Base.Int.{ℤ, pos, negsuc}
use beagle.Vec.{Machine, Vec, contents, copy_slots, set_length, malformed, new, assoc}
use beagle.Vec.Storage.{new-IsFresh}
use beagle.Vec.Live.{IsGood, Keeps, Shares}
use beagle.Vec.Built.{
  Built, IsFresh-Built, Built-copy, Built-set_length, Built-contents, Built-IsGood, Built-Keeps,
  Built-Shares, Built-separate,
}
use beagle.Vec.Push.{length-contents}

module _ {ℓ} {A : Type ℓ} where
  -- A good header that shows these elements, apart from every good header there was.
  pub record Copied (m m' : Machine A) (v : Vec) (elements : List (Option A)) : Type ℓ where
    pub shows : contents m' v ≡ elements
    pub good : IsGood m' v
    pub keeps : (u : Vec) → IsGood m u → Keeps m m' u
    pub apart : (u : Vec) → IsGood m u → Shares v u × Shares u v
    pub separate : (u : Vec) → IsGood m u → (e : ℕ) → v.elements ≡ some e → u.elements ≢ some e

  pub Built-Copied :
      (m m' : Machine A) (fresh : Vec) (block elements : List (Option A)) (n : ℕ)
      → Built m m' fresh block 0
      → n ≤ fresh.capacity
      → length block ≡ fresh.capacity
      → take n block ≡ elements
      → Copied m (set_length m' fresh n).1 (set_length m' fresh n).0 elements
  unfolding set_length
  Built-Copied m m' fresh block elements n b room sized same =
      let b' = Built-set_length n b in
      record {
        shows = Built-contents b' ∙ same;
        good = Built-IsGood b' (omega arith) room sized;
        keeps = λ u gu. Built-Keeps u gu b';
        apart = λ u gu. Built-Shares u gu b';
        separate = λ u gu. Built-separate u gu b';
      }

  assoc_new : Machine A → Vec → ℕ → A → ℤ → ℕ → Run (Vec × Machine A)
  assoc_new m v i value stride alignment = do
    (result, m₁) ← new m v.length stride alignment
    let m₂ = copy_slots m₁ result.elements 0 (contents m v)
    let m₃ = copy_slots m₂ result.elements i (some value ∷ [])
    ok (set_length m₃ result v.length)

  assoc_new-Copied :
      (m : Machine A) (v : Vec) (i : ℕ) (value : A) (stride : ℤ) (alignment : ℕ) (r : Vec)
      (m' : Machine A)
      → IsGood m v
      → assoc_new m v i value stride alignment ≡ ok (r, m')
      → Copied m m' r (set (contents m v) i (some value))
  unfolding assoc_new
  assoc_new-Copied m v i value stride alignment r m' g h =
      let ((fresh, m₁), made, e) = >>=-eq-ok (new m v.length stride alignment) _ h in
      let f = new-IsFresh m v.length stride alignment fresh m₁ made in
      let room : List (Option A) = replicate v.length none in
      let sized : length room ≡ v.length = length-replicate v.length none in
      let front = copy_into room 0 (contents m v) in
      let b = Built-copy i (some value ∷ []) (Built-copy 0 (contents m v) (IsFresh-Built f)) in
      let whole : length (copy_into front i (some value ∷ [])) ≡ fresh.capacity =
        length-copy_into front i (some value ∷ [])
        ∙ (length-copy_into room 0 (contents m v) ∙ (sized ∙ sym f.sized)) in
      let same : take v.length (copy_into front i (some value ∷ []))
          ≡ set (contents m v) i (some value) =
        take-set v.length i front (some value)
        ∙ ap (λ xs. set xs i (some value))
            (take-copy_into_front v.length room (contents m v) (length-contents m v g)
              (omega (arith, sized))) in
      subst (λ (t : Vec × Machine A). Copied m t.1 t.0 (set (contents m v) i (some value)))
        (ok-injective e)
        (Built-Copied m _ fresh _ (set (contents m v) i (some value)) v.length b
          (omega (arith, f.sized)) whole same)

  -- A successful `native_vec_assoc` on a good header was at an index below the length. It shows the
  -- elements with the one at the index replaced, on storage that no good header had, and every good
  -- header stays good with the same elements.
  pub assoc-Copied :
      (m : Machine A) (v : Vec) (index : ℤ) (value : A) (stride : ℤ) (alignment : ℕ) (r : Vec)
      (m' : Machine A)
      → IsGood m v
      → assoc m v index value stride alignment ≡ ok (r, m')
      → (i : ℕ) × (index ≡ pos i)
        × (i < v.length)
        × Copied m m' r (set (contents m v) i (some value))
  unfolding assoc assoc_new
  assoc-Copied m v (negsuc n) value stride alignment r m' g h =
      let (formed, e) = >>-eq-ok (malformed v stride) invalid_argument _ h in absurd (cc)
  assoc-Copied m v (pos i) value stride alignment r m' g h =
      let (formed, h₁) = >>-eq-ok (malformed v stride) invalid_argument _ h in
      let (below, h₂) = >>-eq-ok (leb v.length i) out_of_range _ h₁ in
      (i, refl, ground arith, assoc_new-Copied m v i value stride alignment r m' g h₂)
