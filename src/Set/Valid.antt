-- ===== src/Set/Valid.antt =====
-- Sets that are in order, what they mean, and what the read operations give on them.
use beagle.Base.{
  ℕ, ◌+◌, ◌≤◌, ◌≡◌, refl, ap, arith, Bool, true, false, not, none, some, List, [], ◌∷◌, ◌++◌, ok,
  if◌then◌else◌, ◌==◌, length, take_whole, inl, inr, All, Bool-cases,
}
use beagle.Collection.{Equality, is_none}
use beagle.Collection.Lawful.{Lawful}
use beagle.Collection.Scan.{first, first-cons, scan-first, Distinct}
use beagle.Map.Change.{all_but}
use beagle.Map.Entries.{all_but-past}
use beagle.Set.{Set, broken, check, live, find, contains}

module _ {ℓ} {A : Type ℓ} (same : A → A → Bool) where
  abbrev pub member : A → List A → Bool
  member x [] = false
  member x (y ∷ ys) = if same y x then true else member x ys

  -- A new element goes last.
  abbrev pub include : A → List A → List A
  include x [] = x ∷ []
  include x (y ∷ ys) = if same y x then y ∷ ys else y ∷ include x ys

  abbrev pub include_all : List A → List A → List A
  include_all xs [] = xs
  include_all xs (y ∷ ys) = include_all (include y xs) ys

  abbrev pub exclude : A → List A → List A
  exclude x [] = []
  exclude x (y ∷ ys) = if same y x then ys else y ∷ exclude x ys

module _ {ℓ} {A : Type ℓ} {e : Equality A} (lawful : Lawful e) where
  open lawful use {IsReadable, same, validate_ok}

  -- A set in order passes its checks and holds as many elements as its length says, all of them
  -- readable and no two the same.
  pub record IsValid (s : Set A) : Type ℓ where
    pub sound : broken s ≡ false
    pub counted : length s.elements.items ≡ s.length
    pub readable : All IsReadable s.elements.items
    pub distinct : Distinct lawful s.elements.items
    pub roomy : s.length ≤ s.capacity

  -- A set in order with these elements, in the order of insertion.
  abbrev pub Means : Set A → List A → Type ℓ
  Means s xs = IsValid s × (live s ≡ xs)

  pub live-items : (s : Set A) → IsValid s → live s ≡ s.elements.items
  live-items s v = take_whole s.length s.elements.items v.counted

  pub include-present :
      (xs : List A) (n i : ℕ) (x : A) → first lawful xs n x ≡ some i → include same x xs ≡ xs
  include-present [] n i x found = cc
  include-present (y ∷ ys) n i x found = elim (Bool-cases (same y x)) [
    | inl yes' ↦ rw yes' refl
    | inr no' ↦
        let f : first lawful ys (n + 1) x ≡ some i = rw no' at found in
        rw no' (ap (λ t. y ∷ t) (include-present ys (n + 1) i x f))
  ]

  pub include-absent :
      (xs : List A) (n : ℕ) (x : A) → first lawful xs n x ≡ none → include same x xs ≡ xs ++ x ∷ []
  include-absent [] n x absent = refl
  include-absent (y ∷ ys) n x absent = elim (Bool-cases (same y x)) [
    | inl yes' ↦ let f : some n ≡ none = rw yes' at absent in absurd (cc)
    | inr no' ↦
        let f : first lawful ys (n + 1) x ≡ none = rw no' at absent in
        rw no' (ap (λ t. y ∷ t) (include-absent ys (n + 1) x f))
  ]

  pub exclude-absent :
      (xs : List A) (n : ℕ) (x : A) → first lawful xs n x ≡ none → exclude same x xs ≡ xs
  exclude-absent [] n x absent = refl
  exclude-absent (y ∷ ys) n x absent = elim (Bool-cases (same y x)) [
    | inl yes' ↦ let f : some n ≡ none = rw yes' at absent in absurd (cc)
    | inr no' ↦
        let f : first lawful ys (n + 1) x ≡ none = rw no' at absent in
        rw no' (ap (λ t. y ∷ t) (exclude-absent ys (n + 1) x f))
  ]

  pub exclude-all_but :
      (xs : List A) (n i r : ℕ) (x : A)
      → r ≡ n + i
      → first lawful xs n x ≡ some (n + i)
      → all_but r n xs ≡ exclude same x xs
  unfolding all_but
  exclude-all_but [] n i r x place found = cc
  exclude-all_but (y ∷ ys) n i r x place found = elim (first-cons lawful y ys n i x found) [
    | inl (yes', z) ↦
        let test : (n == r) ≡ true = ground arith in
        rw (test, yes') (all_but-past r (n + 1) ys (omega arith))
    | inr (no', j, z, f) ↦
        let test : (n == r) ≡ false = ground arith in
        let rest = exclude-all_but ys (n + 1) j r x (omega arith) f in
        rw (test, no') (ap (λ t. y ∷ t) rest)
  ]

  member-first :
      (xs : List A) (n : ℕ) (x : A) → not (is_none (first lawful xs n x)) ≡ member same x xs
  member-first [] n x = refl
  member-first (y ∷ ys) n x = elim (Bool-cases (same y x)) [
    | inl yes' ↦ rw yes' refl
    | inr no' ↦ rw no' (member-first ys (n + 1) x)
  ]

  module _ (s : Set A) (x : A) (v : IsValid s) (r : IsReadable x) where
    pub find-first : find e s x ≡ ok (first lawful s.elements.items 0 x)
    unfolding find check
    find-first =
        rw (v.sound, validate_ok x r, live-items s v)
          (scan-first lawful s.elements.items 0 x v.readable r)

    -- On a set in order `native_set_contains` returns whether some element is the same.
    pub contains-member : contains e s x ≡ ok (member same x (live s))
    unfolding contains
    contains-member = rw (find-first, live-items s v) (ap ok (member-first s.elements.items 0 x))
