-- ===== src/Vec/Bulk/Contents.antt =====
-- What the vector operations that copy return.
use beagle.Base.{
  ℕ, zero, suc, ◌+◌, ◌-◌, ◌≤◌, ◌≡◌, refl, arith, Bool, true, false, ◌||◌, Option, none, List, [],
  ◌∷◌, ◌++◌, ltb, ◌==◌, if◌then◌else◌, ok, >>=-eq-ok, >>-eq-ok, ok-injective, length, take, drop,
  copy_into, replicate, length-replicate, length-copy_into, length-take, length-drop,
  take-copy_into_extend, take-copy_into_front, ap, sym, ◌∙◌, invalid_argument, out_of_range,
  overflow,
}
use mathlib.Core.Path.{subst}
use beagle.Base.Int.{ℤ, pos, negsuc, int_max}
use beagle.Buffer.{dense_bytes}
use beagle.Vec.{Machine, Vec, slots, contents, copy_slots, not_positive, new}
use beagle.Vec.Storage.{new-IsFresh, dense_bytes-zero}
use beagle.Vec.Live.{IsGood}
use beagle.Vec.Built.{Built, IsFresh-Built, Built-copy}
use beagle.Vec.Push.{length-contents, Built-prefix}
use beagle.Vec.Copied.{Copied, Built-Copied}
use beagle.Vec.Bulk.{concat, slice_copy, slice}

module _ {ℓ} {A : Type ℓ} where
  Built-if :
      (b : Bool) (m m' : Machine A) (fresh : Vec) (i : ℕ) (room from : List (Option A))
      → Built m m' fresh room 0
      → (b ≡ false → copy_into room i from ≡ room)
      → Built m
          (if b then copy_slots m' fresh.elements i from else m')
          fresh
          (copy_into room i from)
          0
  Built-if true m m' fresh i room from b nothing = Built-copy i from b
  Built-if false m m' fresh i room from b nothing = rw (nothing refl) b

  copy_into-nothing : (xs : List (Option A)) (i : ℕ) → copy_into xs i [] ≡ xs
  copy_into-nothing [] i = refl
  copy_into-nothing (x ∷ xs) zero = refl
  copy_into-nothing (x ∷ xs) (suc i) = ap (λ t. x ∷ t) (copy_into-nothing xs i)

  Built-unless :
      (b : Bool) (m m' : Machine A) (fresh : Vec) (i : ℕ) (room from : List (Option A))
      → Built m m' fresh room 0
      → (b ≡ true → copy_into room i from ≡ room)
      → Built m
          (if b then m' else copy_slots m' fresh.elements i from)
          fresh
          (copy_into room i from)
          0
  Built-unless false m m' fresh i room from b nothing = Built-copy i from b
  Built-unless true m m' fresh i room from b nothing = rw (nothing refl) b

  take-drop-take :
      (count start n : ℕ) (xs : List (Option A))
      → start + count ≤ n
      → take count (drop start xs) ≡ take count (drop start (take n xs))
  take-drop-take count (suc start) zero xs h = absurd (omega arith)
  take-drop-take zero zero n xs h = refl
  take-drop-take (suc count) zero zero xs h = absurd (omega arith)
  take-drop-take (suc count) zero (suc n) [] h = refl
  take-drop-take (suc count) zero (suc n) (x ∷ xs) h =
      ap (λ t. x ∷ t) (take-drop-take count zero n xs (omega arith))
  take-drop-take count (suc start) (suc n) [] h = refl
  take-drop-take count (suc start) (suc n) (x ∷ xs) h =
      take-drop-take count start n xs (omega arith)

  part_contents :
      (m : Machine A) (source : Vec) (start count : ℕ)
      → start + count ≤ source.length
      → take count (drop start (slots m source.elements))
        ≡ take count (drop start (contents m source))
  part_contents m source start count h =
      take-drop-take count start source.length (slots m source.elements) h

  part_length :
      (m : Machine A) (source : Vec) (start count : ℕ)
      → IsGood m source
      → start + count ≤ source.length
      → length (take count (drop start (slots m source.elements))) ≡ count
  part_length m source start count g h =
      ap length (part_contents m source start count h)
      ∙ length-take count (drop start (contents m source))
          (omega (arith, length-drop start (contents m source), length-contents m source g))

  -- A successful `native_vec_concat` of two good headers shows the elements of the first and then
  -- those of the second, on storage that no good header had, and every good header stays good with
  -- the same elements.
  pub concat-Copied :
      (m : Machine A) (left right : Vec) (stride : ℤ) (alignment : ℕ) (r : Vec) (m' : Machine A)
      → IsGood m left
      → IsGood m right
      → concat m left right stride alignment ≡ ok (r, m')
      → Copied m m' r (contents m left ++ contents m right)
  unfolding concat
  concat-Copied m left right stride alignment r m' gl gr h =
      let (fit, h₁) =
        >>-eq-ok
          (not_positive stride || ltb left.capacity left.length || ltb right.capacity right.length)
          invalid_argument _ h in
      let (small, h₂) = >>-eq-ok (ltb (int_max - right.length) left.length) overflow _ h₁ in
      let total = left.length + right.length in
      let ((fresh, m₁), made, e) = >>=-eq-ok (new m total stride alignment) _ h₂ in
      let f = new-IsFresh m total stride alignment fresh m₁ made in
      let room : List (Option A) = replicate total none in
      let sized : length room ≡ total = length-replicate total none in
      let ll = length-contents m left gl in
      let lr = length-contents m right gr in
      let front = copy_into room 0 (contents m left) in
      let b₁ = Built-prefix m m₁ left fresh room (IsFresh-Built f) in
      let b₂ =
        Built-if (ltb 0 right.length) m _ fresh left.length front (contents m right) b₁
          (λ none_left.
            let empty : right.length ≡ 0 = ground arith in
            let gone : contents m right ≡ [] = ap (λ n. take n (slots m right.elements)) empty in
            rw gone (copy_into-nothing front left.length)) in
      let long : length front ≡ total = length-copy_into room 0 (contents m left) ∙ sized in
      let whole = length-copy_into front left.length (contents m right) ∙ (long ∙ sym f.sized) in
      let joined : left.length + length (contents m right) ≡ total = ap (λ n. left.length + n) lr in
      let shown : take total (copy_into front left.length (contents m right))
          ≡ contents m left ++ contents m right =
        (rw joined at
          (take-copy_into_extend left.length front (contents m right) (omega (arith, lr, long))))
        ∙ ap (λ t. t ++ contents m right)
            (take-copy_into_front left.length room (contents m left) ll (omega (arith, sized))) in
      subst (λ (t : Vec × Machine A). Copied m t.1 t.0 (contents m left ++ contents m right))
        (ok-injective e)
        (Built-Copied m _ fresh _ (contents m left ++ contents m right) total b₂
          (omega (arith, f.sized)) whole shown)

  slice_copy-Copied :
      (m : Machine A) (source : Vec) (start end : ℕ) (stride : ℤ) (alignment : ℕ) (r : Vec)
      (m' : Machine A)
      → IsGood m source
      → start ≤ end
      → end ≤ source.length
      → slice_copy m source start end stride alignment ≡ ok (r, m')
      → Copied m m' r (take (end - start) (drop start (slots m source.elements)))
  unfolding slice_copy
  slice_copy-Copied m source start end stride alignment r m' g low high h =
      let count = end - start in
      let (at, offset, h₁) = >>=-eq-ok (dense_bytes (pos start) stride) _ h in
      let (bytes, counted, h₂) = >>=-eq-ok (dense_bytes (pos count) stride) _ h₁ in
      let ((fresh, m₁), made, e) = >>=-eq-ok (new m count stride alignment) _ h₂ in
      let f = new-IsFresh m count stride alignment fresh m₁ made in
      let room : List (Option A) = replicate count none in
      let sized : length room ≡ count = length-replicate count none in
      let part = take count (drop start (slots m source.elements)) in
      let long : length part ≡ count = part_length m source start count g (omega arith) in
      let b : Built m (if bytes == 0 then m₁ else copy_slots m₁ fresh.elements 0 part) fresh
          (copy_into room 0 part) 0 =
        Built-unless (bytes == 0) m m₁ fresh 0 room part (IsFresh-Built f) (λ none_left.
          let empty : count ≡ 0 = dense_bytes-zero count stride bytes counted (ground arith) in
          let gone : part ≡ [] = ap (λ n. take n (drop start (slots m source.elements))) empty in
          rw gone (copy_into-nothing room 0)) in
      subst (λ (t : Vec × Machine A). Copied m t.1 t.0 part) (ok-injective e)
        (Built-Copied m _ fresh _ part count b (omega (arith, f.sized))
          (length-copy_into room 0 part ∙ (sized ∙ sym f.sized))
          (take-copy_into_front count room part long (omega (arith, sized))))

  -- A successful `native_vec_slice` of a good header had bounds in order and within the length. It
  -- shows the elements from the first bound to the second, on storage that no good header had, and
  -- every good header stays good with the same elements.
  pub slice-Copied :
      (m : Machine A) (source : Vec) (start end : ℤ) (stride : ℤ) (alignment : ℕ) (r : Vec)
      (m' : Machine A)
      → IsGood m source
      → slice m source start end stride alignment ≡ ok (r, m')
      → (i j : ℕ) × (start ≡ pos i)
        × (end ≡ pos j)
        × (i ≤ j)
        × (j ≤ source.length)
        × Copied m m' r (take (j - i) (drop i (contents m source)))
  unfolding slice
  slice-Copied m source (negsuc n) end stride alignment r m' g h =
      let (fit, e) =
        >>-eq-ok (not_positive stride || ltb source.capacity source.length) invalid_argument _ h in
      absurd (cc)
  slice-Copied m source (pos i) (negsuc n) stride alignment r m' g h =
      let (fit, e) =
        >>-eq-ok (not_positive stride || ltb source.capacity source.length) invalid_argument _ h in
      absurd (cc)
  slice-Copied m source (pos i) (pos j) stride alignment r m' g h =
      let (fit, h₁) =
        >>-eq-ok (not_positive stride || ltb source.capacity source.length) invalid_argument _ h in
      let (within, h₂) = >>-eq-ok (ltb j i || ltb source.length j) out_of_range _ h₁ in
      let low : i ≤ j = ground arith in
      let high : j ≤ source.length = ground arith in
      let seen = part_contents m source i (j - i) (omega arith) in
      (
        i,
        j,
        refl,
        refl,
        low,
        high,
        subst (Copied m m' r) seen
            (slice_copy-Copied m source i j stride alignment r m' g low high h₂),
      )
