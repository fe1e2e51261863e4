-- ===== src/Base/Arrays.antt =====
-- Writes into arrays, seen through a prefix.
use Prim.Native.Nat.{ℕ, zero, suc, ◌+◌, ◌≤◌, ◌<◌}
use mathlib.Core.List.{List, [], ◌∷◌, ◌++◌}
use mathlib.Core.Logic.{◌≢◌}
use mathlib.Core.Path.{◌≡◌, refl, ap}
use native.Mathlib.Omega.{arith}
use beagle.Base.Lists.{length, get_or, set, take, copy_into}

module _ {ℓ} {A : Type ℓ} where
  pub get_or-set_self :
      (xs : List A) (i : ℕ) (v d : A) → i < length xs → get_or (set xs i v) i d ≡ v
  get_or-set_self [] i v d h = absurd (omega arith)
  get_or-set_self (x ∷ xs) zero v d h = refl
  get_or-set_self (x ∷ xs) (suc i) v d h = get_or-set_self xs i v d (omega arith)

  pub get_or-set_ne :
      (xs : List A) (i j : ℕ) (v d : A) → i ≢ j → get_or (set xs i v) j d ≡ get_or xs j d
  get_or-set_ne [] i j v d h = refl
  get_or-set_ne (x ∷ xs) zero zero v d h = absurd (h refl)
  get_or-set_ne (x ∷ xs) zero (suc j) v d h = refl
  get_or-set_ne (x ∷ xs) (suc i) zero v d h = refl
  get_or-set_ne (x ∷ xs) (suc i) (suc j) v d h = get_or-set_ne xs i j v d (λ e. h (ap suc e))

  -- A write at or behind a prefix leaves it alone.
  pub take-copy_into_behind :
      (n i : ℕ) (xs from : List A) → n ≤ i → take n (copy_into xs i from) ≡ take n xs
  take-copy_into_behind zero i xs from h = refl
  take-copy_into_behind (suc n) zero xs from h = absurd (omega arith)
  take-copy_into_behind (suc n) (suc i) [] from h = refl
  take-copy_into_behind (suc n) (suc i) (x ∷ xs) from h =
      ap (λ t. x ∷ t) (take-copy_into_behind n i xs from (omega arith))

  -- A write of whole elements right behind a prefix extends it by them.
  pub take-copy_into_extend :
      (n : ℕ) (xs from : List A)
      → n + length from ≤ length xs
      → take (n + length from) (copy_into xs n from) ≡ take n xs ++ from
  take-copy_into_extend zero xs [] h = refl
  take-copy_into_extend zero [] (y ∷ from) h = absurd (omega arith)
  take-copy_into_extend zero (x ∷ xs) (y ∷ from) h =
      let e : 0 + suc (length from) ≡ suc (0 + length from) = omega arith in
      rw e (ap (λ t. y ∷ t) (take-copy_into_extend zero xs from (omega arith)))
  take-copy_into_extend (suc n) [] from h = absurd (omega arith)
  take-copy_into_extend (suc n) (x ∷ xs) from h =
      let e : suc n + length from ≡ suc (n + length from) = omega arith in
      rw e (ap (λ t. x ∷ t) (take-copy_into_extend n xs from (omega arith)))

  pub take-set :
      (n i : ℕ) (xs : List A) (v : A) → take n (copy_into xs i (v ∷ [])) ≡ set (take n xs) i v
  take-set zero i xs v = refl
  take-set (suc n) zero [] v = refl
  take-set (suc n) (suc i) [] v = refl
  take-set (suc n) zero (x ∷ xs) v = ap (λ t. v ∷ take n t) (copy_into_nothing xs)
    where
      copy_into_nothing : (xs : List A) → copy_into xs zero [] ≡ xs
      copy_into_nothing [] = refl
      copy_into_nothing (x ∷ xs) = refl
  take-set (suc n) (suc i) (x ∷ xs) v = ap (λ t. x ∷ t) (take-set n i xs v)

  pub set-length_append :
      (xs : List A) (y z : A) → set (xs ++ (y ∷ [])) (length xs) z ≡ xs ++ (z ∷ [])
  set-length_append [] y z = refl
  set-length_append (x ∷ xs) y z = ap (λ t. x ∷ t) (set-length_append xs y z)

  pub copy_into-nil : (xs : List A) → copy_into xs 0 [] ≡ xs
  copy_into-nil [] = refl
  copy_into-nil (x ∷ xs) = refl

  pub take-nil : (n : ℕ) → take n (let e : List A = [] in e) ≡ []
  take-nil zero = refl
  take-nil (suc n) = refl

  -- Copied to the front of storage that has room, a list is what stands there.
  pub take-copy_into_front :
      (n : ℕ) (xs from : List A)
      → length from ≡ n
      → n ≤ length xs
      → take n (copy_into xs 0 from) ≡ from
  take-copy_into_front n xs from e h =
      let e' : 0 + length from ≡ n = omega arith in
      rw e' at (take-copy_into_extend zero xs from (omega arith))
