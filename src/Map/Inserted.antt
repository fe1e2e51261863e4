-- ===== src/Map/Inserted.antt =====
-- Insertion in place: maps made from arrays, and transient maps.
use beagle.Base.{
  ℕ, ◌+◌, ◌≤◌, ◌<◌, ◌≡◌, refl, sym, ◌∙◌, ap, arith, Option, none, some, List, [], ◌∷◌, ok, length,
  >>=-eq-ok, ok-injective, All,
}
use mathlib.Core.Path.{subst}
use beagle.Base.Int.{ℤ}
use beagle.Arena.{Arena}
use beagle.Collection.{Equality}
use beagle.Collection.Lawful.{Lawful}
use beagle.Collection.Scan.{first}
use beagle.Map.{Map, new, broken, find}
use beagle.Map.Indexing.{rebuild}
use beagle.Map.Change.{put_entry, put_value, insert, insert_all, from_arrays}
use beagle.Map.Reindexed.{rebuild-Reindexed, index_append-Reindexed}
use beagle.Map.Entries.{put, put_all}
use beagle.Map.Valid.{IsFilled, IsValid, Means, entries, entries-items, find-first, Reindexed-Means}
use beagle.Map.Fresh.{new-IsNew, holding}
use beagle.Map.Changed.{IsLoaded, load}
use beagle.Map.Replaced.{
  IsPaired, write-keys, added-IsPaired, added-zip, written-IsPaired, written-zip,
}

module _ {ℓ κ} {K : Type ℓ} {V : Type κ} {e : Equality K} (lawful : Lawful e) where
  open lawful use {IsReadable, same}

  stored : (m : Map K V) → IsFilled lawful m → IsPaired lawful m.keys.items m.values.items m.length
  stored m f = record {
    keys_counted = f.key_count;
    values_counted = f.value_count;
    readable = f.readable;
    distinct = f.distinct;
  }

  -- The entry behind the others, before the index knows of it.
  abbrev longer : Map K V → K → V → Map K V
  longer m key value = record (put_entry m m.length key value) { length = m.length + 1 }

  module _ (m : Map K V) (key : K) (value : V) (f : IsFilled lawful m) where
    put_value-IsFilled :
        (i : ℕ) → first lawful m.keys.items 0 key ≡ some i → IsFilled lawful (put_value m i value)
    unfolding broken
    put_value-IsFilled i present =
        let p =
          written-IsPaired lawful m.keys.items m.values.items m.length (stored m f) key value i
            present in
        record {
          sound = f.sound;
          key_count = f.key_count;
          value_count = p.values_counted;
          readable = f.readable;
          distinct = f.distinct;
          roomy = f.roomy;
          value_bytes = f.value_bytes;
          values_fit = f.values_fit;
        }

    longer-IsFilled :
        IsReadable key
        → first lawful m.keys.items 0 key ≡ none
        → m.length < m.capacity
        → IsFilled lawful (longer m key value)
    unfolding broken
    longer-IsFilled readable absent room =
        let p =
          added-IsPaired lawful m.keys.items m.values.items m.length (stored m f) key value readable
            absent in
        record {
          sound = ground (arith, f.sound);
          key_count = p.keys_counted ∙ omega arith;
          value_count = p.values_counted ∙ omega arith;
          readable = p.readable;
          distinct = p.distinct;
          roomy = omega arith;
          value_bytes = f.value_bytes;
          values_fit = f.values_fit;
        }

  -- What an insertion returns: the entries with the new one put in, and at most one more of them,
  -- in the same storage.
  pub record Inserts (m r : Map K V) (key : K) (value : V) : Type (ℓ ⊔ κ) where
    pub means : Means lawful r (put same key value (entries lawful m))
    pub same_capacity : r.capacity ≡ m.capacity
    pub one_more : r.length ≤ m.length + 1

  pub insert-Inserts :
      (a : Arena) (m : Map K V) (key : K) (value : V) (prior : Option ℕ) {r : Map K V × Arena}
      → IsValid lawful m
      → IsReadable key
      → first lawful m.keys.items 0 key ≡ prior
      → (prior ≡ none → m.length < m.capacity)
      → insert e a m key value prior ≡ ok r
      → Inserts m r.0 key value
  unfolding insert
  insert-Inserts a m key value (some i) {r} v readable present room done =
      let f = put_value-IsFilled m key value v.filled i present in
      subst (λ x. Inserts m x.0 key value) (ok-injective done)
        (record {
          means = (
            record { filled = f; held = v.held },
            entries-items lawful (put_value m i value) f
                ∙ written-zip lawful m.keys.items m.values.items m.length (stored m v.filled) key
                    value i present
                ∙ ap (put same key value) (sym (entries-items lawful m v.filled)),
          );
          same_capacity = refl;
          one_more = omega arith;
        })
  insert-Inserts a m key value none {r} v readable absent room done =
      let f = longer-IsFilled m key value v.filled readable absent (room refl) in
      let p = stored m v.filled in
      let x =
        index_append-Reindexed lawful a (longer m key value) m.keys.items key
          (record { key_count = f.key_count; readable = f.readable })
          (write-keys lawful m.keys.items m.values.items m.length p key) readable v.held done in
      record {
        means = Reindexed-Means lawful _ f x (
            entries-items lawful (longer m key value) f
            ∙ added-zip lawful m.keys.items m.values.items m.length p key value absent
            ∙ ap (put same key value) (sym (entries-items lawful m v.filled)));
        same_capacity = ap (λ t. t.capacity) x.is_same;
        one_more = omega (arith, ap (λ t. t.length) x.is_same);
      }

  -- Every key of the pairs can be read.
  abbrev pub ReadablePairs : List (K × V) → Type 0
  ReadablePairs pairs = All (λ (p : K × V). IsReadable p.0) pairs

  insert_all-put_all :
      (pairs : List (K × V)) (a : Arena) (m : Map K V) {r : Map K V × Arena}
      → IsValid lawful m
      → ReadablePairs pairs
      → m.length + length pairs ≤ m.capacity
      → insert_all e a m pairs ≡ ok r
      → Means lawful r.0 (put_all same (entries lawful m) pairs)
  unfolding insert_all
  insert_all-put_all [] a m {r} v readable room done =
      subst (λ x. Means lawful x.0 (entries lawful m)) (ok-injective done) (v, refl)
  insert_all-put_all ((key, value) ∷ pairs) a m {r} v readable room done =
      let (prior, found, d₁) = >>=-eq-ok (find e m key) _ done in
      let ((m', a'), inserted, d₂) = >>=-eq-ok (insert e a m key value prior) _ d₁ in
      let known = ok-injective (sym (find-first lawful m key v readable.0) ∙ found) in
      let w =
        insert-Inserts a m key value prior v readable.0 known (λ new'. omega arith) inserted in
      let rest =
        insert_all-put_all pairs a' m' w.means.0 readable.1
          (omega (arith, w.same_capacity, w.one_more)) d₂ in
      subst (λ es. Means lawful r.0 (put_all same es pairs)) w.means.1 rest

  -- A successful `native_map_from_arrays` returns a map in order: the pairs inserted one after the
  -- other, a later value replacing that of an earlier same key.
  pub from_arrays-put_all :
      (a : Arena) (pairs : List (K × V)) (key_stride : ℤ) (key_alignment : ℕ) (value_stride : ℤ)
      (value_alignment : ℕ) {r : Map K V × Arena}
      → ReadablePairs pairs
      → from_arrays e a pairs key_stride key_alignment value_stride value_alignment ≡ ok r
      → Means lawful r.0 (put_all same [] pairs)
  unfolding from_arrays
  from_arrays-put_all a pairs key_stride key_alignment value_stride value_alignment {r} readable
        done =
      let count = length pairs in
      let (_, _, d₁) = >>=-eq-ok e.check _ done in
      let ((m, a₁), made, d₂) =
        >>=-eq-ok (new a count key_stride key_alignment value_stride value_alignment) _ d₁ in
      let ((m', a₂), rebuilt, d₃) = >>=-eq-ok (rebuild e a₁ m count) _ d₂ in
      let n = new-IsNew a count key_stride key_alignment value_stride value_alignment made in
      let empty = ap (λ t. t.keys.items) n.is_new in
      let l =
        load lawful count 0 key_stride value_stride m [] [] n
          (record { keys_counted = refl; values_counted = refl; readable = tt; distinct = tt })
          (omega arith) in
      let same_map : holding lawful m [] [] 0 ≡ m =
        subst (λ t. holding lawful t [] [] 0 ≡ t) (sym n.is_new) refl in
      let l' = subst (λ t. IsLoaded lawful t [] []) same_map l in
      let x = rebuild-Reindexed lawful a₁ m count l'.has_keys rebuilt in
      let (w, none_yet) = Reindexed-Means lawful [] l'.is_filled x l'.reads in
      let sizes : (m'.length ≡ 0) × (m'.capacity ≡ count) =
        subst (λ t. (t.length ≡ 0) × (t.capacity ≡ count)) (sym x.is_same)
          (ap (λ t. t.length) n.is_new, ap (λ t. t.capacity) n.is_new) in
      subst (λ es. Means lawful r.0 (put_all same es pairs)) none_yet
        (insert_all-put_all pairs a₂ m' w readable (omega (arith, sizes)) d₃)
