-- ===== src/Set/Session.antt =====
-- Any sequence of additions and removals, on persistent sets.
use beagle.Base.{ℕ, ◌≡◌, refl, List, [], ◌∷◌, Bool, ok, Run, ◌>>=◌, >>=-eq-ok, ok-injective, All}
use mathlib.Core.Path.{subst}
use beagle.Base.Int.{ℤ}
use beagle.Arena.{Arena}
use beagle.Collection.{Equality}
use beagle.Collection.Lawful.{Lawful}
use beagle.Set.{Set, live, conj, disj}
use beagle.Set.Valid.{IsValid, Means, include, exclude}
use beagle.Set.Changed.{conj-include, disj-exclude}

pub data Request {ℓ} (A : Type ℓ) : Type ℓ where
  add : A → Request A
  remove : A → Request A

abbrev pub element {ℓ} : {A : Type ℓ} → Request A → A
element (add x) = x
element (remove x) = x

-- What the requests make of a list of elements.
abbrev pub apply {ℓ} : {A : Type ℓ} → (A → A → Bool) → List A → List (Request A) → List A
apply same xs [] = xs
apply same xs (add x ∷ rest) = apply same (include same x xs) rest
apply same xs (remove x ∷ rest) = apply same (exclude same x xs) rest

module _ {ℓ} {A : Type ℓ} (e : Equality A) (stride : ℤ) (alignment : ℕ) where
  unfoldable pub serve : Arena → Set A → Request A → Run (Set A × Arena)
  serve a s (add x) = conj e a s x stride alignment
  serve a s (remove x) = disj e a s x stride alignment

  unfoldable pub session : Arena → Set A → List (Request A) → Run (Set A × Arena)
  session a s [] = ok (s, a)
  session a s (request ∷ rest) = serve a s request >>= λ t. session t.1 t.0 rest

module _ {ℓ} {A : Type ℓ} {e : Equality A} (lawful : Lawful e) (stride : ℤ) (alignment : ℕ) where
  open lawful use {IsReadable, same}

  -- Any calls of `native_set_conj` and `native_set_disj`, each on the result of the one before,
  -- leave a set in order with the elements that the same changes make of the list of elements.
  pub session-Means :
      (requests : List (Request A)) (a : Arena) (s : Set A) {r : Set A × Arena}
      → IsValid lawful s
      → All (λ (q : Request A). IsReadable (element q)) requests
      → session e stride alignment a s requests ≡ ok r
      → Means lawful r.0 (apply same (live s) requests)
  unfolding session serve
  session-Means [] a s {r} v readable done =
      subst (λ t. Means lawful t.0 (live s)) (ok-injective done) (v, refl)
  session-Means (add x ∷ rest) a s {r} v readable done =
      let ((t, a'), changed, d) = >>=-eq-ok (conj e a s x stride alignment) _ done in
      let w = conj-include lawful a s x stride alignment v readable.0 changed in
      subst (λ xs. Means lawful r.0 (apply same xs rest)) w.1
        (session-Means rest a' t w.0 readable.1 d)
  session-Means (remove x ∷ rest) a s {r} v readable done =
      let ((t, a'), changed, d) = >>=-eq-ok (disj e a s x stride alignment) _ done in
      let w = disj-exclude lawful a s x stride alignment v readable.0 changed in
      subst (λ xs. Means lawful r.0 (apply same xs rest)) w.1
        (session-Means rest a' t w.0 readable.1 d)
