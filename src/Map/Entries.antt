-- ===== src/Map/Entries.antt =====
-- What a map means: its entries in the order of insertion, with lookup, insertion and removal by
-- key; and how keys and values in two arrays follow them.
use beagle.Base.{
  ℕ, zero, suc, ◌+◌, ◌≤◌, ◌<◌, ◌≡◌, refl, ap, ap₂, arith, Bool, true, false, Option, none, some,
  List, [], ◌∷◌, ◌++◌, if◌then◌else◌, length, get_elem?, Bool-cases, inl, inr, ◌==◌, ℕ_discrete,
  All,
}
use beagle.Collection.{Equality, write}
use beagle.Collection.Lawful.{Lawful}
use beagle.Collection.Scan.{first, first-cons, Apart, Distinct}
use beagle.Map.Change.{all_but}

abbrev pub zip {ℓ κ} : {K : Type ℓ} {V : Type κ} → List K → List V → List (K × V)
zip [] vs = []
zip (k ∷ ks) [] = []
zip (k ∷ ks) (v ∷ vs) = (k, v) ∷ zip ks vs

module _ {ℓ κ} {K : Type ℓ} {V : Type κ} (same : K → K → Bool) where
  -- The value of the first entry with the same key.
  abbrev pub lookup : K → List (K × V) → Option V
  lookup key [] = none
  lookup key ((k, v) ∷ es) = if same k key then some v else lookup key es

  -- The value of the first entry with the same key replaced, or a new last entry.
  abbrev pub put : K → V → List (K × V) → List (K × V)
  put key value [] = (key, value) ∷ []
  put key value ((k, v) ∷ es) = if same k key then (k, value) ∷ es else (k, v) ∷ put key value es

  abbrev pub put_all : List (K × V) → List (K × V) → List (K × V)
  put_all es [] = es
  put_all es ((k, v) ∷ more) = put_all (put k v es) more

  -- The first entry with the same key removed.
  abbrev pub erase : K → List (K × V) → List (K × V)
  erase key [] = []
  erase key ((k, v) ∷ es) = if same k key then es else (k, v) ∷ erase key es

pub write-length {ℓ} : {A : Type ℓ} (xs : List A) (x : A) → write xs (length xs) x ≡ xs ++ x ∷ []
unfolding write
write-length [] x = refl
write-length (y ∷ ys) x = ap (λ t. y ∷ t) (write-length ys x)

pub length-write {ℓ} :
    {A : Type ℓ} (xs : List A) (i : ℕ) (x : A) → i < length xs → length (write xs i x) ≡ length xs
unfolding write
length-write [] i x within = absurd (omega arith)
length-write (y ∷ ys) zero x within = refl
length-write (y ∷ ys) (suc i) x within = ap suc (length-write ys i x (omega arith))

pub all_but-past {ℓ} : {A : Type ℓ} (i n : ℕ) (xs : List A) → i < n → all_but i n xs ≡ xs
unfolding all_but
all_but-past i n [] past = refl
all_but-past i n (x ∷ xs) past =
    let test : (n == i) ≡ false = ground arith in
    rw (test, all_but-past i (n + 1) xs (omega arith)) refl

module _ {ℓ κ} {K : Type ℓ} {V : Type κ} {e : Equality K} (lawful : Lawful e) where
  open lawful use {same}

  pub zip-append :
      (ks : List K) (vs : List V) (k : K) (v : V)
      → length ks ≡ length vs
      → zip (ks ++ k ∷ []) (vs ++ v ∷ []) ≡ zip ks vs ++ (k, v) ∷ []
  zip-append [] [] k v size = refl
  zip-append [] (w ∷ ws) k v size = absurd (omega arith)
  zip-append (j ∷ js) [] k v size = absurd (omega arith)
  zip-append (j ∷ js) (w ∷ ws) k v size = ap (λ t. (j, w) ∷ t) (zip-append js ws k v (omega arith))

  -- A write to the value of the first key that is the same.
  pub zip-write :
      (ks : List K) (vs : List V) (n i : ℕ) (key : K) (v : V)
      → length ks ≡ length vs
      → first lawful ks n key ≡ some (n + i)
      → zip ks (write vs i v) ≡ put same key v (zip ks vs)
  unfolding write
  zip-write [] vs n i key v size found = cc
  zip-write (k ∷ ks) [] n i key v size found = absurd (omega arith)
  zip-write (k ∷ ks) (w ∷ ws) n i key v size found = elim (first-cons lawful k ks n i key found) [
    | inl (yes', z) ↦ rw (z, yes') refl
    | inr (no', j, z, f) ↦
        rw (z, no') (ap (λ t. (k, w) ∷ t) (zip-write ks ws (n + 1) j key v (omega arith) f))
  ]

  pub put-absent :
      (ks : List K) (vs : List V) (n : ℕ) (key : K) (v : V)
      → length ks ≡ length vs
      → first lawful ks n key ≡ none
      → put same key v (zip ks vs) ≡ zip ks vs ++ (key, v) ∷ []
  put-absent [] vs n key v size absent = refl
  put-absent (k ∷ ks) [] n key v size absent = absurd (omega arith)
  put-absent (k ∷ ks) (w ∷ ws) n key v size absent = elim (Bool-cases (same k key)) [
    | inl yes' ↦ let f : some n ≡ none = rw yes' at absent in absurd (cc)
    | inr no' ↦
        let f : first lawful ks (n + 1) key ≡ none = rw no' at absent in
        rw no' (ap (λ t. (k, w) ∷ t) (put-absent ks ws (n + 1) key v (omega arith) f))
  ]

  -- The value that a lookup gives stands at the number of the key.
  pub lookup-first :
      (ks : List K) (vs : List V) (n i : ℕ) (key : K)
      → length ks ≡ length vs
      → first lawful ks n key ≡ some (n + i)
      → get_elem? vs i ≡ lookup same key (zip ks vs)
  lookup-first [] vs n i key size found = cc
  lookup-first (k ∷ ks) [] n i key size found = absurd (omega arith)
  lookup-first (k ∷ ks) (w ∷ ws) n i key size found = elim (first-cons lawful k ks n i key found) [
    | inl (yes', z) ↦ rw (z, yes') refl
    | inr (no', j, z, f) ↦ rw (z, no') (lookup-first ks ws (n + 1) j key (omega arith) f)
  ]

  pub lookup-absent :
      (ks : List K) (vs : List V) (n : ℕ) (key : K)
      → first lawful ks n key ≡ none
      → lookup same key (zip ks vs) ≡ none
  lookup-absent [] vs n key absent = refl
  lookup-absent (k ∷ ks) [] n key absent = refl
  lookup-absent (k ∷ ks) (w ∷ ws) n key absent = elim (Bool-cases (same k key)) [
    | inl yes' ↦ let f : some n ≡ none = rw yes' at absent in absurd (cc)
    | inr no' ↦
        let f : first lawful ks (n + 1) key ≡ none = rw no' at absent in
        rw no' (lookup-absent ks ws (n + 1) key f)
  ]

  pub erase-absent :
      (ks : List K) (vs : List V) (n : ℕ) (key : K)
      → first lawful ks n key ≡ none
      → erase same key (zip ks vs) ≡ zip ks vs
  erase-absent [] vs n key absent = refl
  erase-absent (k ∷ ks) [] n key absent = refl
  erase-absent (k ∷ ks) (w ∷ ws) n key absent = elim (Bool-cases (same k key)) [
    | inl yes' ↦ let f : some n ≡ none = rw yes' at absent in absurd (cc)
    | inr no' ↦
        let f : first lawful ks (n + 1) key ≡ none = rw no' at absent in
        rw no' (ap (λ t. (k, w) ∷ t) (erase-absent ks ws (n + 1) key f))
  ]

  pub zip-all_but :
      (ks : List K) (vs : List V) (n i r : ℕ) (key : K)
      → r ≡ n + i
      → length ks ≡ length vs
      → first lawful ks n key ≡ some (n + i)
      → zip (all_but r n ks) (all_but r n vs) ≡ erase same key (zip ks vs)
  unfolding all_but
  zip-all_but [] vs n i r key place size found = cc
  zip-all_but (k ∷ ks) [] n i r key place size found = absurd (omega arith)
  zip-all_but (k ∷ ks) (w ∷ ws) n i r key place size found =
      elim (first-cons lawful k ks n i key found) [
        | inl (yes', z) ↦
            let test : (n == r) ≡ true = ground arith in
            rw (test, yes')
              (ap₂ zip (all_but-past r (n + 1) ks (omega arith))
                (all_but-past r (n + 1) ws (omega arith)))
        | inr (no', j, z, f) ↦
            let test : (n == r) ≡ false = ground arith in
            let rest = zip-all_but ks ws (n + 1) j r key (omega arith) (omega arith) f in
            rw (test, no') (ap (λ t. (k, w) ∷ t) rest)
      ]

-- One element less, where the number is one of the list.
pub length-all_but {ℓ} :
    {A : Type ℓ} (xs : List A) (n r : ℕ)
    → n ≤ r
    → r < n + length xs
    → suc (length (all_but r n xs)) ≡ length xs
unfolding all_but
length-all_but [] n r from below = absurd (omega arith)
length-all_but (x ∷ xs) n r from below = elim (ℕ_discrete n r) [
  | yes e ↦
      let test : (n == r) ≡ true = ground arith in
      rw (test, all_but-past r (n + 1) xs (omega arith)) refl
  | no ne ↦
      let test : (n == r) ≡ false = ground arith in
      rw test (ap suc (length-all_but xs (n + 1) r (omega arith) (omega arith)))
]

module _ {ℓ} {K : Type ℓ} {e : Equality K} (lawful : Lawful e) where
  open lawful use {IsReadable, same}

  pub All-all_but : (ks : List K) (n r : ℕ) → All IsReadable ks → All IsReadable (all_but r n ks)
  unfolding all_but
  All-all_but [] n r readable = tt
  All-all_but (k ∷ ks) n r readable = elim (Bool-cases (n == r)) [
    | inl t ↦ rw t (All-all_but ks (n + 1) r readable.1)
    | inr f ↦ rw f (readable.0, All-all_but ks (n + 1) r readable.1)
  ]

  Apart-all_but :
      (k : K) (ks : List K) (n r : ℕ) → Apart lawful k ks → Apart lawful k (all_but r n ks)
  unfolding all_but
  Apart-all_but k [] n r apart = tt
  Apart-all_but k (j ∷ js) n r apart = elim (Bool-cases (n == r)) [
    | inl t ↦ rw t (Apart-all_but k js (n + 1) r apart.1)
    | inr f ↦ rw f (apart.0, Apart-all_but k js (n + 1) r apart.1)
  ]

  pub Distinct-all_but :
      (ks : List K) (n r : ℕ) → Distinct lawful ks → Distinct lawful (all_but r n ks)
  unfolding all_but
  Distinct-all_but [] n r distinct = tt
  Distinct-all_but (k ∷ ks) n r distinct = elim (Bool-cases (n == r)) [
    | inl t ↦ rw t (Distinct-all_but ks (n + 1) r distinct.1)
    | inr f ↦
        rw f (Apart-all_but k ks (n + 1) r distinct.0, Distinct-all_but ks (n + 1) r distinct.1)
  ]
