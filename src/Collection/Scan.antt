-- ===== src/Collection/Scan.antt =====
-- The scan of a collection under a lawful equality: what number it gives, and why an index may
-- give the same one.
use beagle.Base.{
  ℕ, zero, suc, ◌+◌, ◌≡◌, refl, ◌∙◌, ap, arith, true, false, Option, none, some, List, [], ◌∷◌,
  ◌++◌, ok, if◌then◌else◌, get_elem?, All, Bool-cases, ◌⊎◌, inl, inr,
}
use beagle.Collection.{Equality, scan}
use beagle.Collection.Lawful.{Lawful}

module _ {ℓ} {K : Type ℓ} {e : Equality K} (lawful : Lawful e) where
  open lawful use {IsReadable, same, equal_ok, same_symm, same_trans}

  -- The number of the first key that is the same.
  abbrev pub first : List K → ℕ → K → Option ℕ
  first [] index key = none
  first (k ∷ ks) index key = if same k key then some index else first ks (index + 1) key

  pub scan-first :
      (ks : List K) (index : ℕ) (key : K)
      → All IsReadable ks
      → IsReadable key
      → scan e ks index key ≡ ok (first ks index key)
  unfolding scan
  scan-first [] index key read readable = refl
  scan-first (k ∷ ks) index key (r, rs) readable =
      rw (equal_ok k key r readable, scan-first ks (index + 1) key rs readable)
        (elim (Bool-cases (same k key)) [ inl yes' ↦ rw yes' refl | inr no' ↦ rw no' refl ])

  -- No key is the same as a later one.
  abbrev pub Apart : K → List K → Type 0
  Apart k [] = Unit {0}
  Apart k (j ∷ js) = (same k j ≡ false) × Apart k js

  abbrev pub Distinct : List K → Type 0
  Distinct [] = Unit {0}
  Distinct (k ∷ ks) = Apart k ks × Distinct ks

  Apart-same :
      (k key : K) (ks : List K) (i : ℕ) (j : K)
      → Apart k ks
      → get_elem? ks i ≡ some j
      → same k key ≡ true
      → same j key ≡ true
      → ⊥
  Apart-same k key [] i j apart at p q = cc
  Apart-same k key (l ∷ ls) zero j apart at p q =
      let e₁ : l ≡ j = ground arith in
      let e₂ : same k j ≡ true = same_trans k key j p (same_symm j key q) in
      let e₃ : same k l ≡ false = apart.0 in cc (e₁, e₂, e₃)
  Apart-same k key (l ∷ ls) (suc i) j apart at p q = Apart-same k key ls i j apart.1 at p q

  -- Among keys that are all apart, an index that finds a same key finds the first.
  pub first_unique :
      (ks : List K) (n i : ℕ) (k key : K)
      → Distinct ks
      → get_elem? ks i ≡ some k
      → same k key ≡ true
      → first ks n key ≡ some (n + i)
  first_unique [] n i k key distinct at same' = cc
  first_unique (j ∷ js) n zero k key distinct at same' =
      let e : j ≡ k = ground arith in
      let s : same j key ≡ true = rw e same' in rw s (ap some (omega arith))
  first_unique (j ∷ js) n (suc i) k key distinct at same' = elim (Bool-cases (same j key)) [
    | inl yes' ↦ absurd (Apart-same j key js i k distinct.0 at yes' same')
    | inr no' ↦ rw no' (first_unique js (n + 1) i k key distinct.1 at same' ∙ ap some (omega arith))
  ]

  pub first-absent :
      (ks : List K) (n : ℕ) (key : K)
      → ((i : ℕ) (k : K) → get_elem? ks i ≡ some k → same k key ≡ true → ⊥)
      → first ks n key ≡ none
  first-absent [] n key absent = refl
  first-absent (j ∷ js) n key absent = elim (Bool-cases (same j key)) [
    | inl yes' ↦ absurd (absent 0 j refl yes')
    | inr no' ↦ rw no' (first-absent js (n + 1) key (λ i k. absent (suc i) k))
  ]

  pub first-some :
      (ks : List K) (n j : ℕ) (key : K)
      → first ks n key ≡ some j
      → (i : ℕ) × (k : K) × (j ≡ n + i) × (get_elem? ks i ≡ some k) × (same k key ≡ true)
  first-some [] n j key found = cc
  first-some (k ∷ ks) n j key found = elim (Bool-cases (same k key)) [
    | inl yes' ↦ let f : some n ≡ some j = rw yes' at found in (0, k, ground arith, refl, yes')
    | inr no' ↦
        let f : first ks (n + 1) key ≡ some j = rw no' at found in
        let (i, k', e, at, s) = first-some ks (n + 1) j key f in (suc i, k', omega arith, at, s)
  ]

  -- The first same key is the head, or the first one of the rest.
  pub first-cons :
      (k : K) (ks : List K) (n i : ℕ) (key : K)
      → first (k ∷ ks) n key ≡ some (n + i)
      → ((same k key ≡ true) × (i ≡ 0))
        ⊎ ((same k key ≡ false) × (j : ℕ) × (i ≡ suc j) × (first ks (n + 1) key ≡ some (n + 1 + j)))
  first-cons k ks n i key found = elim (Bool-cases (same k key)) [
    | inl yes' ↦ let f : some n ≡ some (n + i) = rw yes' at found in inl (yes', ground arith)
    | inr no' ↦
        let f : first ks (n + 1) key ≡ some (n + i) = rw no' at found in
        let (j, k', e', _, _) = first-some ks (n + 1) (n + i) key f in
        inr (no', j, omega arith, f ∙ ap some e')
  ]

  -- A new key joins keys that are apart.
  pub Distinct-append :
      (ks : List K) (n : ℕ) (key : K)
      → Distinct ks
      → first ks n key ≡ none
      → Distinct (ks ++ key ∷ [])
  Distinct-append [] n key distinct absent = (tt, tt)
  Distinct-append (k ∷ ks) n key distinct absent = elim (Bool-cases (same k key)) [
    | inl yes' ↦ let f : some n ≡ none = rw yes' at absent in absurd (cc)
    | inr no' ↦
        let f : first ks (n + 1) key ≡ none = rw no' at absent in
        (Apart-append k ks key distinct.0 no', Distinct-append ks (n + 1) key distinct.1 f)
  ]
    where
      Apart-append :
          (k : K) (ks : List K) (key : K)
          → Apart k ks
          → same k key ≡ false
          → Apart k (ks ++ key ∷ [])
      Apart-append k [] key apart no' = (no', tt)
      Apart-append k (j ∷ js) key apart no' = (apart.0, Apart-append k js key apart.1 no')

  pub All-append :
      (ks : List K) (key : K) → All IsReadable ks → IsReadable key → All IsReadable (ks ++ key ∷ [])
  All-append [] key rs r = (r, tt)
  All-append (k ∷ ks) key rs r = (rs.0, All-append ks key rs.1 r)

  pub All-get_elem? :
      (ks : List K) (i : ℕ) (k : K) → All IsReadable ks → get_elem? ks i ≡ some k → IsReadable k
  All-get_elem? [] i k rs at = cc
  All-get_elem? (j ∷ js) zero k rs at = let e : j ≡ k = ground arith in rw e at rs.0
  All-get_elem? (j ∷ js) (suc i) k rs at = All-get_elem? js i k rs.1 at
