-- ===== src/Set/Edited.antt =====
-- Elements added in place: sets made from arrays, and transient sets.
use beagle.Base.{
  ℕ, ◌+◌, ◌≤◌, ◌<◌, ◌≡◌, refl, sym, ◌∙◌, ap, arith, false, Option, none, some, List, [], ◌∷◌, ok,
  Run, trap_if, length, ◌>>=◌, ◌>>◌, >>=-eq-ok, >>-eq-ok, ok-injective, if◌then◌else◌, All,
  Bool-cases, inl, inr, ◌==◌, overflow, take_whole,
}
use mathlib.Core.Path.{subst}
use beagle.Base.Int.{ℤ, pos, int_max}
use beagle.Arena.{Arena}
use beagle.Collection.{Equality, is_none, grown_capacity, collection_bytes, take_bytes}
use beagle.Collection.Lawful.{Lawful}
use beagle.Collection.Scan.{first, Distinct}
use beagle.Map.Edited.{grown_capacity-lt}
use beagle.Set.{
  Set, new, broken, check_shape, check_transient, live, put_last, enlarge, find, add_all,
  from_array, conj_transient,
}
use beagle.Set.Valid.{IsValid, Means, include, include_all, live-items, find-first}
use beagle.Set.Changed.{new-IsNew, holding, holding-Means, put_last-Means, present-Means}

module _ {ℓ} {A : Type ℓ} {e : Equality A} (lawful : Lawful e) where
  open lawful use {IsReadable, same}

  -- One round of the loop of `native_set_from_array`.
  added-Means :
      (s : Set A) (x : A) (found : Option ℕ)
      → IsValid lawful s
      → IsReadable x
      → first lawful s.elements.items 0 x ≡ found
      → s.length < s.capacity
      → Means lawful (if is_none found then put_last s x else s) (include same x (live s))
  added-Means s x none v readable absent room = put_last-Means lawful s x v readable absent room
  added-Means s x (some i) v readable present room = present-Means lawful s x i v present

  added_size :
      (s : Set A) (x : A) (found : Option ℕ)
      → let t = (if is_none found then put_last s x else s) in
        (t.capacity ≡ s.capacity) × (t.length ≤ s.length + 1)
  added_size s x none = (refl, omega arith)
  added_size s x (some i) = (refl, omega arith)

  add_all-include_all :
      (xs : List A) (s : Set A) {r : Set A}
      → IsValid lawful s
      → All IsReadable xs
      → s.length + length xs ≤ s.capacity
      → add_all e s xs ≡ ok r
      → Means lawful r (include_all same (live s) xs)
  unfolding add_all
  add_all-include_all [] s {r} v readable room done =
      subst (λ t. Means lawful t (live s)) (ok-injective done) (v, refl)
  add_all-include_all (x ∷ xs) s {r} v readable room done =
      let (found, f, d) = >>=-eq-ok (find e s x) _ done in
      let known = ok-injective (sym (find-first lawful s x v readable.0) ∙ f) in
      let w = added-Means s x found v readable.0 known (omega arith) in
      let size = added_size s x found in
      let rest =
        add_all-include_all xs (if is_none found then put_last s x else s) w.0 readable.1
          (omega (arith, size)) d in
      subst (λ ys. Means lawful r (include_all same ys xs)) w.1 rest

  -- A successful `native_set_from_array` returns a set in order: the elements added one after the
  -- other, each behind those before it if none of them is the same.
  pub from_array-include_all :
      (a : Arena) (values : List A) (stride : ℤ) (alignment : ℕ) {r : Set A × Arena}
      → All IsReadable values
      → from_array e a values stride alignment ≡ ok r
      → Means lawful r.0 (include_all same [] values)
  unfolding from_array
  from_array-include_all a values stride alignment {r} readable done =
      let (_, _, d₁) = >>=-eq-ok e.check _ done in
      let ((s, a'), made, d₂) = >>=-eq-ok (new a (length values) stride alignment) _ d₁ in
      let (s', added, d₃) = >>=-eq-ok (add_all e s values) _ d₂ in
      let n = new-IsNew a (length values) stride alignment made in
      let h = holding-Means lawful s (length values) stride [] 0 n refl (omega arith) tt tt in
      let same_set : holding lawful s [] 0 ≡ s =
        subst (λ t. holding lawful t [] 0 ≡ t) (sym n.is_new) refl in
      let w = subst (λ t. Means lawful t []) same_set h in
      let sizes : (s.length ≡ 0) × (s.capacity ≡ length values) =
        (ap (λ t. t.length) n.is_new, ap (λ t. t.capacity) n.is_new) in
      let all = add_all-include_all values s w.0 readable (omega (arith, sizes)) added in
      subst (λ t. Means lawful t.0 (include_all same [] values)) (ok-injective d₃)
        (subst (λ ys. Means lawful s' (include_all same ys values)) w.1 all)

  larger-Means :
      (s : Set A) (grown : ℕ)
      → IsValid lawful s
      → s.capacity < grown
      → Means lawful
          (record s { elements = record { null = false; items = live s }; capacity = grown })
          (live s)
  unfolding broken
  larger-Means s grown v more =
      let items = live-items lawful s v in
      (
        record {
          sound = ground (arith, v.sound);
          counted = ap length items ∙ v.counted;
          readable = subst (All IsReadable) (sym items) v.readable;
          distinct = subst (Distinct lawful) (sym items) v.distinct;
          roomy = omega (arith, v.roomy);
        },
        take_whole s.length (live s) (ap length items ∙ v.counted),
      )

  -- A set with room for one more element, and the same elements.
  record HasRoom (s : Set A) (t : Set A) : Type ℓ where
    means : Means lawful t (live s)
    room : t.length < t.capacity

  enlarge-HasRoom :
      (a : Arena) (s : Set A) (stride : ℤ) (alignment : ℕ) {r : Set A × Arena}
      → IsValid lawful s
      → enlarge a s stride alignment ≡ ok r
      → HasRoom s r.0
  unfolding enlarge
  enlarge-HasRoom a s stride alignment {r} v done =
      let (grown, g, d₁) = >>=-eq-ok (grown_capacity s.capacity) _ done in
      let (bytes, _, d₂) = >>=-eq-ok (collection_bytes (pos grown) stride) _ d₁ in
      let (a', _, d₃) = >>=-eq-ok (take_bytes a bytes alignment) _ d₂ in
      let more = grown_capacity-lt s.capacity g in
      subst (λ t. HasRoom s t.0) (ok-injective d₃)
        (record { means = larger-Means s grown v more; room = omega (arith, v.roomy) })

  -- A successful `native_set_conj_transient` on a set in order leaves a set in order, with the
  -- element behind the others if none of them was the same.
  pub conj_transient-include :
      (a : Arena) (owner : ℕ) (s : Set A) (x : A) (stride : ℤ) (alignment : ℕ) {r : Set A × Arena}
      → IsValid lawful s
      → IsReadable x
      → conj_transient e a owner s x stride alignment ≡ ok r
      → Means lawful r.0 (include same x (live s))
  unfolding conj_transient
  conj_transient-include a owner s x stride alignment {r} v readable done =
      let (_, _, d₁) = >>=-eq-ok (check_shape s stride) _ done in
      let (_, _, d₂) = >>=-eq-ok (check_transient s owner) _ d₁ in
      let (found, f, d₃) = >>=-eq-ok (find e s x) _ d₂ in
      by_found found (ok-injective (sym (find-first lawful s x v readable) ∙ f)) d₃
    where
      roomy : Run (Set A × Arena)
      roomy = if s.length == s.capacity then enlarge a s stride alignment else ok (s, a)

      roomy-HasRoom : {t : Set A × Arena} → roomy ≡ ok t → HasRoom s t.0
      roomy-HasRoom {t} made = elim (Bool-cases (s.length == s.capacity)) [
        | inl full ↦ enlarge-HasRoom a s stride alignment v (rw full at made)
        | inr space ↦
            subst (λ t. HasRoom s t.0) (ok-injective (rw space at made))
              (record { means = (v, refl); room = ground (arith, v.roomy) })
      ]

      by_found :
          (found : Option ℕ)
          → first lawful s.elements.items 0 x ≡ found
          → (elim found as (λ _. Run (Set A × Arena)) [
            | some i ↦ ok (s, a)
            | none ↦
                trap_if (s.length == int_max) overflow >> (roomy >>= λ t. ok (put_last t.0 x, t.1))
          ])
            ≡ ok r
          → Means lawful r.0 (include same x (live s))
      by_found (some i) present done =
          subst (λ t. Means lawful t.0 (include same x (live s))) (ok-injective done)
            (present-Means lawful s x i v present)
      by_found none absent done =
          let (_, d) = >>-eq-ok (s.length == int_max) overflow _ done in
          let ((t, a'), made, d') = >>=-eq-ok roomy _ d in
          let h = roomy-HasRoom made in
          let same_items : t.elements.items ≡ s.elements.items =
            sym (live-items lawful t h.means.0) ∙ h.means.1 ∙ live-items lawful s v in
          let w =
            put_last-Means lawful t x h.means.0 readable
              (ap (λ xs. first lawful xs 0 x) same_items ∙ absent) h.room in
          subst (λ u. Means lawful u.0 (include same x (live s))) (ok-injective d')
            (w.0, w.1 ∙ ap (include same x) h.means.1)
