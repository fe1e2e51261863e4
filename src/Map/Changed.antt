-- ===== src/Map/Changed.antt =====
-- What the operations that make and change maps return.
use beagle.Base.{
  ℕ, suc, ◌+◌, ◌-◌, ◌≤◌, ◌≡◌, refl, sym, ◌∙◌, ap, arith, ◌&&◌, Option, none, some, List, [], ◌∷◌,
  ◌++◌, ok, Run, take_whole, ◌>>=◌, >>=-eq-ok, >>-eq-ok, ok-injective, if◌then◌else◌, ◌==◌,
  overflow,
}
use mathlib.Core.Path.{subst}
use beagle.Base.Int.{ℤ, int_max}
use beagle.Arena.{Arena}
use beagle.Collection.{Equality, write, is_none}
use beagle.Collection.Lawful.{Lawful}
use beagle.Collection.Scan.{first}
use beagle.Map.{Map, new, live_keys, live_values, find, check_persistent_shape}
use beagle.Map.Indexing.{rebuild, index_adopt}
use beagle.Map.Change.{assoc, dissoc, filled, all_but}
use beagle.Map.Reindexed.{HasKeys, rebuild-Reindexed, index_adopt-Reindexed}
use beagle.Map.Entries.{zip, put, erase, erase-absent}
use beagle.Map.Valid.{IsFilled, IsValid, Means, entries, entries-items, find-first, Reindexed-Means}
use beagle.Map.Fresh.{IsNew, new-IsNew, new-IsFilled, holding}
use beagle.Map.Replaced.{
  IsPaired, write-keys, added-IsPaired, added-zip, written-IsPaired, written-zip, removed-IsPaired,
  removed-zip,
}

module _ {ℓ κ} {K : Type ℓ} {V : Type κ} {e : Equality K} (lawful : Lawful e) where
  open lawful use {IsReadable, same}

  -- The keys and values of a map in order.
  pub paired :
      (m : Map K V) → IsFilled lawful m → IsPaired lawful (live_keys m) (live_values m) m.length
  paired m f =
      let ks = take_whole m.length m.keys.items f.key_count in
      let vs = take_whole m.length m.values.items f.value_count in
      record {
        keys_counted = rw ks f.key_count;
        values_counted = rw vs f.value_count;
        readable = rw ks f.readable;
        distinct = rw ks f.distinct;
      }

  live-first :
      (m : Map K V) (key : K)
      → IsFilled lawful m
      → first lawful (live_keys m) 0 key ≡ first lawful m.keys.items 0 key
  live-first m key f =
      ap (λ ks. first lawful ks 0 key) (take_whole m.length m.keys.items f.key_count)

  -- A new map with these keys and values is in order, but for its index.
  pub record IsLoaded (m : Map K V) (ks : List K) (vs : List V) : Type (ℓ ⊔ κ) where
    pub is_filled : IsFilled lawful m
    pub has_keys : HasKeys lawful m
    pub unindexed : m.index ≡ none
    pub reads : entries lawful m ≡ zip ks vs

  pub load :
      (capacity count : ℕ) (key_stride value_stride : ℤ) (fresh : Map K V) (ks : List K)
      (vs : List V)
      → IsNew capacity key_stride value_stride fresh
      → IsPaired lawful ks vs count
      → count ≤ capacity
      → IsLoaded (holding lawful fresh ks vs count) ks vs
  load capacity count key_stride value_stride fresh ks vs n p fits =
      let f =
        new-IsFilled lawful fresh capacity key_stride value_stride ks vs count n p.keys_counted
          p.values_counted fits p.readable p.distinct in
      record {
        is_filled = f;
        has_keys = record { key_count = p.keys_counted; readable = p.readable };
        unindexed = ap (λ x. x.index) n.is_new;
        reads = entries-items lawful (holding lawful fresh ks vs count) f;
      }

  module _ (m : Map K V) (key : K) (v : IsValid lawful m) (readable : IsReadable key) where
    -- What a search found.
    found-first :
        {prior : Option ℕ} → find e m key ≡ ok prior → first lawful (live_keys m) 0 key ≡ prior
    found-first found =
        live-first m key v.filled ∙ ok-injective (sym (find-first lawful m key v readable) ∙ found)

    assoc_adopted :
        (a : Arena) (fresh : Map K V) (key_stride value_stride : ℤ) (value : V) (prior : Option ℕ)
        (count : ℕ) {r : Map K V × Arena}
        → first lawful (live_keys m) 0 key ≡ prior
        → count ≡ (if is_none prior then m.length + 1 else m.length)
        → IsNew count key_stride value_stride fresh
        → index_adopt e a
            (filled e fresh m count key value prior)
            m
            key
            (elim prior [ none ↦ some m.length | some i ↦ none ])
          ≡ ok r
        → Means lawful r.0 (put same key value (entries lawful m))
    assoc_adopted a fresh key_stride value_stride value none count absent size n adopted =
        let ks = write (live_keys m) m.length key in
        let vs = write (live_values m) m.length value in
        let p = paired m v.filled in
        let q = subst (IsPaired lawful ks vs) (let s : suc m.length ≡ count = omega arith in s) (
          added-IsPaired lawful (live_keys m) (live_values m) m.length p key value readable
            absent) in
        let items : ks ≡ m.keys.items ++ key ∷ [] =
          write-keys lawful (live_keys m) (live_values m) m.length p key
          ∙ ap (λ t. t ++ key ∷ []) (take_whole m.length m.keys.items v.filled.key_count) in
        let l = load count count key_stride value_stride fresh ks vs n q (omega arith) in
        let x =
          index_adopt-Reindexed lawful a (holding lawful fresh ks vs count) m.keys.items key m
            (some m.length) l.has_keys (items, sym v.filled.key_count, readable) l.unindexed
            (sym v.filled.key_count) v.held adopted in
        Reindexed-Means lawful _ l.is_filled x
          (l.reads ∙ added-zip lawful (live_keys m) (live_values m) m.length p key value absent)
    assoc_adopted a fresh key_stride value_stride value (some i) count present size n adopted =
        let vs = write (live_values m) i value in
        let p = paired m v.filled in
        let q =
          subst (IsPaired lawful (live_keys m) vs) (sym size) (
            written-IsPaired lawful (live_keys m) (live_values m) m.length p key value i present) in
        let l = load count count key_stride value_stride fresh (live_keys m) vs n q (omega arith) in
        let x =
          index_adopt-Reindexed lawful a (holding lawful fresh (live_keys m) vs count) m.keys.items
            key m none l.has_keys (take_whole m.length m.keys.items v.filled.key_count) l.unindexed
            (sym v.filled.key_count) v.held adopted in
        Reindexed-Means lawful _ l.is_filled x (
          l.reads ∙ written-zip lawful (live_keys m) (live_values m) m.length p key value i present)

    -- A successful `native_map_assoc` on a map in order returns a map in order, whose entries are
    -- those of the source with the value of the key replaced, or with a new last entry.
    pub assoc-put :
        (a : Arena) (value : V) (key_stride : ℤ) (key_alignment : ℕ) (value_stride : ℤ)
        (value_alignment : ℕ) {r : Map K V × Arena}
        → assoc e a m key value key_stride key_alignment value_stride value_alignment ≡ ok r
        → Means lawful r.0 (put same key value (entries lawful m))
    unfolding assoc
    assoc-put a value key_stride key_alignment value_stride value_alignment done =
        let (_, _, d₁) = >>=-eq-ok (check_persistent_shape m key_stride value_stride) _ done in
        let (prior, found, d₂) = >>=-eq-ok (find e m key) _ d₁ in
        let (_, d₃) = >>-eq-ok (is_none prior && (m.length == int_max)) overflow _ d₂ in
        let count = if is_none prior then m.length + 1 else m.length in
        let ((fresh, a'), made, d₄) =
          >>=-eq-ok (new a count key_stride key_alignment value_stride value_alignment) _ d₃ in
        assoc_adopted a' fresh key_stride value_stride value prior count (found-first found) refl
          (new-IsNew a count key_stride key_alignment value_stride value_alignment made) d₄

    dissoc_rebuilt :
        (a : Arena) (fresh : Map K V) (key_stride value_stride : ℤ) (i : ℕ) {r : Map K V × Arena}
        → first lawful (live_keys m) 0 key ≡ some i
        → IsNew (m.length - 1) key_stride value_stride fresh
        → rebuild e a
            (holding lawful fresh
              (all_but i 0 (live_keys m))
              (all_but i 0 (live_values m))
              (m.length - 1))
            (m.length - 1)
          ≡ ok r
        → Means lawful r.0 (erase same key (entries lawful m))
    dissoc_rebuilt a fresh key_stride value_stride i present n rebuilt =
        let ks = all_but i 0 (live_keys m) in
        let vs = all_but i 0 (live_values m) in
        let c = m.length - 1 in
        let p = paired m v.filled in
        let q = removed-IsPaired lawful (live_keys m) (live_values m) m.length p key i present in
        let l = load c c key_stride value_stride fresh ks vs n q (omega arith) in
        Reindexed-Means lawful _ l.is_filled
          (rebuild-Reindexed lawful a (holding lawful fresh ks vs c) c l.has_keys rebuilt)
          (l.reads ∙ removed-zip lawful (live_keys m) (live_values m) m.length p key i present)

    -- A successful `native_map_dissoc` on a map in order returns a map in order with the entries
    -- of the source, less the one with the key.
    pub dissoc-erase :
        (a : Arena) (key_stride : ℤ) (key_alignment : ℕ) (value_stride : ℤ) (value_alignment : ℕ)
        {r : Map K V × Arena}
        → dissoc e a m key key_stride key_alignment value_stride value_alignment ≡ ok r
        → Means lawful r.0 (erase same key (entries lawful m))
    unfolding dissoc
    dissoc-erase a key_stride key_alignment value_stride value_alignment {r} done =
        let (_, _, d₁) = >>=-eq-ok (check_persistent_shape m key_stride value_stride) _ done in
        let (removed, found, d₂) = >>=-eq-ok (find e m key) _ d₁ in
        by_removed removed (found-first found) d₂
      where
        by_removed :
            (removed : Option ℕ)
            → first lawful (live_keys m) 0 key ≡ removed
            → (elim removed as (λ _. Run (Map K V × Arena)) [
              | none ↦ ok (m, a)
              | some i ↦
                  new a (m.length - 1) key_stride key_alignment value_stride value_alignment
                  >>= λ made.
                      rebuild e made.1
                        (holding lawful made.0
                          (all_but i 0 (live_keys m))
                          (all_but i 0 (live_values m))
                          (m.length - 1))
                        (m.length - 1)
            ])
              ≡ ok r
            → Means lawful r.0 (erase same key (entries lawful m))
        by_removed none absent done =
            subst (λ x. Means lawful x.0 (erase same key (entries lawful m))) (ok-injective done)
              (v, sym (erase-absent lawful (live_keys m) (live_values m) 0 key absent))
        by_removed (some i) present done =
            let ((fresh, a'), made, d) =
              >>=-eq-ok (new a (m.length - 1) key_stride key_alignment value_stride value_alignment)
                _ done in
            dissoc_rebuilt a' fresh key_stride value_stride i present
              (new-IsNew a (m.length - 1) key_stride key_alignment value_stride value_alignment
                made)
              d
