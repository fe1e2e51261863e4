-- ===== src/Set/Changed.antt =====
-- What the operations that make and change sets return.
use beagle.Base.{
  ℕ, ◌+◌, ◌-◌, ◌≤◌, ◌<◌, ◌≡◌, sym, ◌∙◌, ap, arith, false, Option, none, some, List, [], ◌∷◌, ◌++◌,
  ok, Run, trap_if, length, length-append, ◌>>=◌, ◌>>◌, >>=-eq-ok, >>-eq-ok, ok-injective, All,
  ◌==◌, overflow, take_whole,
}
use mathlib.Core.Path.{subst}
use beagle.Base.Int.{ℤ, pos, int_max}
use beagle.Arena.{Arena}
use beagle.Vec.{not_positive}
use beagle.Collection.{Equality, persistent, write, collection_bytes, take_bytes, new_storage}
use beagle.Collection.Lawful.{Lawful}
use beagle.Collection.Scan.{first, first-some, Distinct, Distinct-append, All-append}
use beagle.Map.{pointer_alignment}
use beagle.Map.Change.{all_but}
use beagle.Map.Placed.{get_elem?-lt}
use beagle.Map.Entries.{write-length, length-all_but, All-all_but, Distinct-all_but}
use beagle.Map.Fresh.{collection_bytes-counts, new_storage-fresh}
use beagle.Set.{
  Set, set_size, new, broken, check_persistent_shape, live, put_last, find, conj, disj, extended,
}
use beagle.Set.Valid.{
  IsValid, Means, include, exclude, live-items, include-present, include-absent, exclude-absent,
  exclude-all_but, find-first,
}

-- A set that is new, with room for so many elements.
pub record IsNew {ℓ} {A : Type ℓ} (capacity : ℕ) (stride : ℤ) (s : Set A) : Type ℓ where
  pub is_new : s ≡ record {
    elements = record { null = capacity == 0; items = [] };
    length = 0;
    capacity = capacity;
    stride = stride;
    state = persistent;
    edit_arena = none;
  }
  pub positive : not_positive stride ≡ false

pub new-IsNew {ℓ} :
    {A : Type ℓ} (a : Arena) (capacity : ℕ) (stride : ℤ) (alignment : ℕ) {r : Set A × Arena}
    → new a capacity stride alignment ≡ ok r
    → IsNew capacity stride r.0
unfolding new
new-IsNew a capacity stride alignment {r} made =
    let (bytes, fit, made₁) = >>=-eq-ok (collection_bytes (pos capacity) stride) _ made in
    let (a₁, _, made₂) = >>=-eq-ok (take_bytes a set_size pointer_alignment) _ made₁ in
    let ((xs, a₂), stored, made₃) = >>=-eq-ok (new_storage a₁ bytes alignment) _ made₂ in
    let (p, z) = collection_bytes-counts capacity stride bytes fit in
    let e : xs ≡ record { null = capacity == 0; items = [] } =
      new_storage-fresh a₁ bytes alignment stored ∙ ap (λ b. record { null = b; items = [] }) z in
    record {
      is_new =
          ap (λ t. t.0) (sym (ok-injective made₃))
          ∙ ap
              (λ t. record {
                elements = t;
                length = 0;
                capacity = capacity;
                stride = stride;
                state = persistent;
                edit_arena = none;
              })
              e;
      positive = p;
    }

module _ {ℓ} {A : Type ℓ} {e : Equality A} (lawful : Lawful e) where
  open lawful use {IsReadable, same}

  -- A set with these elements copied into it.
  abbrev pub holding : Set A → List A → ℕ → Set A
  holding s xs count = record s { elements = record s.elements { items = xs }; length = count }

  pub holding-Means :
      (s : Set A) (capacity : ℕ) (stride : ℤ) (xs : List A) (count : ℕ)
      → IsNew capacity stride s
      → length xs ≡ count
      → count ≤ capacity
      → All IsReadable xs
      → Distinct lawful xs
      → Means lawful (holding s xs count) xs
  unfolding broken
  holding-Means s capacity stride xs count n counted fits readable distinct = (
    subst (λ t. IsValid lawful (holding t xs count)) (sym n.is_new)
        (record {
          sound = ground (arith, n.positive);
          counted = counted;
          readable = readable;
          distinct = distinct;
          roomy = fits;
        }),
    take_whole count xs counted,
  )

  -- An element behind the others, where there is room.
  pub put_last-Means :
      (s : Set A) (x : A)
      → IsValid lawful s
      → IsReadable x
      → first lawful s.elements.items 0 x ≡ none
      → s.length < s.capacity
      → Means lawful (put_last s x) (include same x (live s))
  unfolding broken
  put_last-Means s x v r absent room =
      let written : write s.elements.items s.length x ≡ s.elements.items ++ x ∷ [] =
        ap (λ n. write s.elements.items n x) (sym v.counted) ∙ write-length s.elements.items x in
      let counted : length (write s.elements.items s.length x) ≡ s.length + 1 =
        ap length written ∙ omega (arith, length-append s.elements.items (x ∷ []), v.counted) in
      (
        record {
          sound = ground (arith, v.sound);
          counted = counted;
          readable =
              subst (All IsReadable) (sym written)
                (All-append lawful s.elements.items x v.readable r);
          distinct =
              subst (Distinct lawful) (sym written)
                (Distinct-append lawful s.elements.items 0 x v.distinct absent);
          roomy = omega arith;
        },
        take_whole (s.length + 1) (write s.elements.items s.length x) counted
            ∙ written
            ∙ sym (include-absent lawful s.elements.items 0 x absent)
            ∙ ap (include same x) (sym (live-items lawful s v)),
      )

  pub present-Means :
      (s : Set A) (x : A) (i : ℕ)
      → IsValid lawful s
      → first lawful s.elements.items 0 x ≡ some i
      → Means lawful s (include same x (live s))
  present-Means s x i v present = (
    v,
    live-items lawful s v
        ∙ sym (include-present lawful s.elements.items 0 i x present)
        ∙ ap (include same x) (sym (live-items lawful s v)),
  )

  -- A successful `native_set_conj` on a set in order returns a set in order, with the element
  -- behind the others if none of them was the same.
  pub conj-include :
      (a : Arena) (s : Set A) (x : A) (stride : ℤ) (alignment : ℕ) {r : Set A × Arena}
      → IsValid lawful s
      → IsReadable x
      → conj e a s x stride alignment ≡ ok r
      → Means lawful r.0 (include same x (live s))
  unfolding conj
  conj-include a s x stride alignment {r} v readable done =
      let (_, _, d₁) = >>=-eq-ok (check_persistent_shape s stride) _ done in
      let (found, f, d₂) = >>=-eq-ok (find e s x) _ d₁ in
      by_found found (ok-injective (sym (find-first lawful s x v readable) ∙ f)) d₂
    where
      by_found :
          (found : Option ℕ)
          → first lawful s.elements.items 0 x ≡ found
          → (elim found as (λ _. Run (Set A × Arena)) [
            | some i ↦ ok (s, a)
            | none ↦
                trap_if (s.length == int_max) overflow
                >> (new a (s.length + 1) stride alignment >>= λ made.
                    ok (extended e made.0 s x, made.1))
          ])
            ≡ ok r
          → Means lawful r.0 (include same x (live s))
      by_found (some i) present done =
          subst (λ t. Means lawful t.0 (include same x (live s))) (ok-injective done)
            (present-Means s x i v present)
      by_found none absent done =
          let (_, d) = >>-eq-ok (s.length == int_max) overflow _ done in
          let ((fresh, a'), made, d') = >>=-eq-ok (new a (s.length + 1) stride alignment) _ d in
          let n = new-IsNew a (s.length + 1) stride alignment made in
          let items = live-items lawful s v in
          let h =
            holding-Means fresh (s.length + 1) stride (live s) s.length n
              (ap length items ∙ v.counted) (omega arith)
              (subst (All IsReadable) (sym items) v.readable)
              (subst (Distinct lawful) (sym items) v.distinct) in
          let w =
            put_last-Means (holding fresh (live s) s.length) x h.0 readable
              (ap (λ xs. first lawful xs 0 x) items ∙ absent)
              (omega (arith, ap (λ t. t.capacity) n.is_new)) in
          subst (λ t. Means lawful t.0 (include same x (live s))) (ok-injective d')
            (w.0, w.1 ∙ ap (include same x) h.1)

  -- A successful `native_set_disj` on a set in order returns a set in order with the elements of
  -- the source, less the one that is the same.
  pub disj-exclude :
      (a : Arena) (s : Set A) (x : A) (stride : ℤ) (alignment : ℕ) {r : Set A × Arena}
      → IsValid lawful s
      → IsReadable x
      → disj e a s x stride alignment ≡ ok r
      → Means lawful r.0 (exclude same x (live s))
  unfolding disj
  disj-exclude a s x stride alignment {r} v readable done =
      let (_, _, d₁) = >>=-eq-ok (check_persistent_shape s stride) _ done in
      let (found, f, d₂) = >>=-eq-ok (find e s x) _ d₁ in
      by_found found (ok-injective (sym (find-first lawful s x v readable) ∙ f)) d₂
    where
      by_found :
          (found : Option ℕ)
          → first lawful s.elements.items 0 x ≡ found
          → (elim found as (λ _. Run (Set A × Arena)) [
            | none ↦ ok (s, a)
            | some i ↦ new a (s.length - 1) stride alignment >>= λ made.
                ok (holding made.0 (all_but i 0 (live s)) (s.length - 1), made.1)
          ])
            ≡ ok r
          → Means lawful r.0 (exclude same x (live s))
      by_found none absent done =
          subst (λ t. Means lawful t.0 (exclude same x (live s))) (ok-injective done)
            (
              v,
              live-items lawful s v
                  ∙ sym (exclude-absent lawful s.elements.items 0 x absent)
                  ∙ ap (exclude same x) (sym (live-items lawful s v)),
            )
      by_found (some i) present done =
          let ((fresh, a'), made, d) = >>=-eq-ok (new a (s.length - 1) stride alignment) _ done in
          let n = new-IsNew a (s.length - 1) stride alignment made in
          let items = live-items lawful s v in
          let here : first lawful (live s) 0 x ≡ some i =
            ap (λ xs. first lawful xs 0 x) items ∙ present in
          let (j, y, place, at, _) = first-some lawful s.elements.items 0 i x present in
          let inside : i < length (live s) =
            omega (arith, get_elem?-lt s.elements.items j y at, ap length items) in
          let h =
            holding-Means fresh (s.length - 1) stride (all_but i 0 (live s)) (s.length - 1) n
              (omega (
                arith,
                length-all_but (live s) 0 i (omega arith) (omega arith),
                ap length items,
                v.counted,
              ))
              (omega arith)
              (All-all_but lawful (live s) 0 i (subst (All IsReadable) (sym items) v.readable))
              (Distinct-all_but lawful (live s) 0 i
                (subst (Distinct lawful) (sym items) v.distinct)) in
          subst (λ t. Means lawful t.0 (exclude same x (live s))) (ok-injective d)
            (
              h.0,
              h.1
                  ∙ exclude-all_but lawful (live s) 0 i i x (omega arith)
                      (here ∙ ap some (omega arith)),
            )
