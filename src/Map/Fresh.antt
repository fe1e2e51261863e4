-- ===== src/Map/Fresh.antt =====
-- New maps, and the maps that copies of entries fill.
use beagle.Base.{
  ℕ, zero, suc, ◌+◌, ◌*◌, ◌/◌, ◌≤◌, ◌≡◌, refl, sym, ◌∙◌, ap, ap₂, arith, false, none, List, [], ok,
  ltb, length, >>=-eq-ok, >>-eq-ok, ok-injective, inl, inr, All, Bool-cases, ◌==◌,
}
use mathlib.Core.Path.{subst}
use beagle.Base.Int.{ℤ, pos, negsuc}
use beagle.Arena.{Arena, word_max}
use beagle.Vec.{not_positive}
use beagle.Collection.{Equality, Storage, persistent, collection_bytes, take_bytes, new_storage}
use beagle.Collection.Lawful.{Lawful}
use beagle.Collection.Scan.{Distinct}
use beagle.Map.{Map, new, broken, map_size, pointer_alignment}
use beagle.Map.Valid.{IsFilled}

-- A stride that counts bytes is positive, and there are none only for nothing.
pub collection_bytes-counts :
    (count : ℕ) (stride : ℤ) (bytes : ℕ)
    → collection_bytes (pos count) stride ≡ ok bytes
    → (not_positive stride ≡ false) × ((bytes == 0) ≡ (count == 0))
unfolding collection_bytes
collection_bytes-counts count (negsuc n) bytes fits = cc
collection_bytes-counts count (pos zero) bytes fits = absurd (cc)
collection_bytes-counts count (pos (suc s)) bytes fits =
    let (_, fits₁) = >>-eq-ok (suc s == 0) _ _ fits in
    let (small, fits₂) = >>-eq-ok (ltb (word_max / suc s) count) _ _ fits₁ in
    let product : count * suc s ≡ bytes = ok-injective fits₂ in
    (ground arith, rw (← product) (zero_product count))
  where
    zero_product : (count : ℕ) → (count * suc s == 0) ≡ (count == 0)
    zero_product zero = let e : 0 * suc s ≡ 0 = omega arith in rw e refl
    zero_product (suc n) =
        let e : suc n * suc s ≡ suc (n * suc s + s) = grind arith in rw e (ground arith)

pub new_storage-fresh {ℓ} :
    {A : Type ℓ} (a : Arena) (bytes alignment : ℕ) {r : Storage A × Arena}
    → new_storage a bytes alignment ≡ ok r
    → r.0 ≡ record { null = bytes == 0; items = [] }
unfolding new_storage
new_storage-fresh a bytes alignment {r} made = elim (Bool-cases (bytes == 0)) [
  | inl none' ↦ rw none' (ap (λ p. p.0) (sym (ok-injective (rw none' at made))))
  | inr some' ↦
      let made₁ = rw some' at made in
      let (a', _, made₂) = >>=-eq-ok (take_bytes a bytes alignment) _ made₁ in
      rw some' (ap (λ p. p.0) (sym (ok-injective made₂)))
]

module _ {ℓ κ} {K : Type ℓ} {V : Type κ} where
  -- A map that is new, with room for so many entries.
  pub record IsNew (capacity : ℕ) (key_stride value_stride : ℤ) (m : Map K V) : Type (ℓ ⊔ κ) where
    pub is_new : m ≡ record {
      keys = record { null = capacity == 0; items = [] };
      values = record { null = capacity == 0; items = [] };
      length = 0;
      capacity = capacity;
      key_stride = key_stride;
      value_stride = value_stride;
      state = persistent;
      edit_arena = none;
      index = none;
    }
    pub keys_positive : not_positive key_stride ≡ false
    pub values_positive : not_positive value_stride ≡ false
    pub value_bytes : ℕ
    pub values_fit : collection_bytes (pos capacity) value_stride ≡ ok value_bytes

  pub new-IsNew :
      (a : Arena) (capacity : ℕ) (key_stride : ℤ) (key_alignment : ℕ) (value_stride : ℤ)
      (value_alignment : ℕ) {r : Map K V × Arena}
      → new a capacity key_stride key_alignment value_stride value_alignment ≡ ok r
      → IsNew capacity key_stride value_stride r.0
  unfolding new
  new-IsNew a capacity key_stride key_alignment value_stride value_alignment {r} made =
      let (kb, keys_fit, made₁) = >>=-eq-ok (collection_bytes (pos capacity) key_stride) _ made in
      let (vb, values_fit, made₂) =
        >>=-eq-ok (collection_bytes (pos capacity) value_stride) _ made₁ in
      let (a₁, _, made₃) = >>=-eq-ok (take_bytes a map_size pointer_alignment) _ made₂ in
      let ((ks, a₂), stored, made₄) = >>=-eq-ok (new_storage a₁ kb key_alignment) _ made₃ in
      let ((vs, a₃), stored', made₅) = >>=-eq-ok (new_storage a₂ vb value_alignment) _ made₄ in
      let (kp, kz) = collection_bytes-counts capacity key_stride kb keys_fit in
      let (vp, vz) = collection_bytes-counts capacity value_stride vb values_fit in
      let ke : ks ≡ record { null = capacity == 0; items = [] } =
        new_storage-fresh a₁ kb key_alignment stored
        ∙ ap (λ b. record { null = b; items = [] }) kz in
      let ve : vs ≡ record { null = capacity == 0; items = [] } =
        new_storage-fresh a₂ vb value_alignment stored'
        ∙ ap (λ b. record { null = b; items = [] }) vz in
      record {
        is_new =
            ap (λ p. p.0) (sym (ok-injective made₅))
            ∙ ap₂
                (λ k v. record {
                  keys = k;
                  values = v;
                  length = 0;
                  capacity = capacity;
                  key_stride = key_stride;
                  value_stride = value_stride;
                  state = persistent;
                  edit_arena = none;
                  index = none;
                })
                ke ve;
        keys_positive = kp;
        values_positive = vp;
        value_bytes = vb;
        values_fit = values_fit;
      }

module _ {ℓ κ} {K : Type ℓ} {V : Type κ} {e : Equality K} (lawful : Lawful e) where
  open lawful use {IsReadable}

  -- A new map with so many entries copied into it.
  abbrev pub holding : Map K V → List K → List V → ℕ → Map K V
  holding m ks vs count = record m {
    keys = record m.keys { items = ks };
    values = record m.values { items = vs };
    length = count;
  }

  pub new-IsFilled :
      (m : Map K V) (capacity : ℕ) (key_stride value_stride : ℤ) (ks : List K) (vs : List V)
      (count : ℕ)
      → IsNew capacity key_stride value_stride m
      → length ks ≡ count
      → length vs ≡ count
      → count ≤ capacity
      → All IsReadable ks
      → Distinct lawful ks
      → IsFilled lawful (holding m ks vs count)
  unfolding broken
  new-IsFilled m capacity key_stride value_stride ks vs count n kn vn fits readable distinct =
      subst (λ x. IsFilled lawful (holding x ks vs count)) (sym n.is_new)
        (record {
          sound = ground (arith, n.keys_positive, n.values_positive);
          key_count = kn;
          value_count = vn;
          readable = readable;
          distinct = distinct;
          roomy = fits;
          value_bytes = n.value_bytes;
          values_fit = n.values_fit;
        })
