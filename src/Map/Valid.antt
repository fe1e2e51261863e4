-- ===== src/Map/Valid.antt =====
-- Maps that are in order, and what the read operations give on them.
use beagle.Base.{
  ℕ, ◌*◌, ◌/◌, ◌≤◌, ◌<◌, ◌≡◌, refl, sym, ◌∙◌, ap, ap₂, arith, false, Option, none, some, List, ok,
  ltb, leb, length, get_elem?, take_whole, >>-eq-ok, ◌⊎◌, inl, inr, All, Option-cases, ◌==◌,
}
use beagle.Base.Int.{ℤ, pos, negsuc}
use mathlib.Core.Path.{subst}
use beagle.Arena.{word_max}
use beagle.Collection.{Equality, scan, collection_bytes}
use beagle.Collection.Lawful.{Lawful}
use beagle.Collection.Scan.{first, first-some, scan-first, Distinct}
use beagle.Map.{Index, Map, broken, check, live_keys, live_values, indexed, find, get, value_at}
use beagle.Map.Lookup.{index_lookup-first}
use beagle.Map.Placed.{get_elem?-lt}
use beagle.Map.Built.{HasIndex}
use beagle.Map.Reindexed.{Reindexed}
use beagle.Map.Entries.{zip, lookup, lookup-first, lookup-absent}

-- Fewer elements take no more bytes.
pub collection_bytes-fewer :
    (count fewer : ℕ) (stride : ℤ) (bytes : ℕ)
    → fewer ≤ count
    → collection_bytes (pos count) stride ≡ ok bytes
    → (b : ℕ) × (collection_bytes (pos fewer) stride ≡ ok b)
unfolding collection_bytes
collection_bytes-fewer count fewer (negsuc n) bytes le fits = cc
collection_bytes-fewer count fewer (pos stride) bytes le fits =
    let (positive, fits₁) = >>-eq-ok (stride == 0) _ _ fits in
    let (small, _) = >>-eq-ok (ltb (word_max / stride) count) _ _ fits₁ in
    let small' : ltb (word_max / stride) fewer ≡ false = ground arith in
    (fewer * stride, rw (positive, small') refl)

module _ {ℓ κ} {K : Type ℓ} {V : Type κ} {e : Equality K} (lawful : Lawful e) where
  open lawful use {IsReadable, same, validate_ok}

  -- The entries of a map, in the order of insertion.
  abbrev pub entries : Map K V → List (K × V)
  entries m = zip (live_keys m) (live_values m)

  -- The map passes its checks and holds as many keys and values as its length says, all of them
  -- readable and no two the same, in storage whose bytes can be counted.
  pub record IsFilled (m : Map K V) : Type (ℓ ⊔ κ) where
    pub sound : broken m ≡ false
    pub key_count : length m.keys.items ≡ m.length
    pub value_count : length m.values.items ≡ m.length
    pub readable : All IsReadable m.keys.items
    pub distinct : Distinct lawful m.keys.items
    pub roomy : m.length ≤ m.capacity
    pub value_bytes : ℕ
    pub values_fit : collection_bytes (pos m.capacity) m.value_stride ≡ ok value_bytes

  -- Its index, if it has one, holds all its keys.
  pub record IsValid (m : Map K V) : Type (ℓ ⊔ κ) where
    pub filled : IsFilled m
    pub held : HasIndex lawful m.index m.keys.items

  -- A map in order, with these entries.
  abbrev pub Means : Map K V → List (K × V) → Type (ℓ ⊔ κ)
  Means m es = IsValid m × (entries m ≡ es)

  pub Reindexed-IsValid : {m r : Map K V} → IsFilled m → Reindexed lawful m r → IsValid r
  unfolding broken
  Reindexed-IsValid {m} {r} f x = subst IsValid (sym x.is_same) (record {
    filled = record {
      sound = f.sound;
      key_count = f.key_count;
      value_count = f.value_count;
      readable = f.readable;
      distinct = f.distinct;
      roomy = f.roomy;
      value_bytes = f.value_bytes;
      values_fit = f.values_fit;
    };
    held = x.holds;
  })

  -- An index does not change what a map means.
  pub Reindexed-entries : {m r : Map K V} → Reindexed lawful m r → entries r ≡ entries m
  Reindexed-entries x = ap entries x.is_same

  pub Reindexed-Means :
      {m r : Map K V} (es : List (K × V))
      → IsFilled m
      → Reindexed lawful m r
      → entries m ≡ es
      → Means r es
  Reindexed-Means es f x means = (Reindexed-IsValid f x, Reindexed-entries x ∙ means)

  pub entries-items : (m : Map K V) → IsFilled m → entries m ≡ zip m.keys.items m.values.items
  entries-items m f =
      ap₂ zip (take_whole m.length m.keys.items f.key_count)
        (take_whole m.length m.values.items f.value_count)

  module _ (m : Map K V) (key : K) (v : IsValid m) (r : IsReadable key) where
    live_scan : scan e (live_keys m) 0 key ≡ ok (first lawful m.keys.items 0 key)
    live_scan =
        rw (take_whole m.length m.keys.items v.filled.key_count)
          (scan-first lawful m.keys.items 0 key v.filled.readable r)

    indexed-first :
        (o : Option Index)
        → HasIndex lawful o m.keys.items
        → (indexed e o (live_keys m) m.length key ≡ ok none)
          ⊎ (indexed e o (live_keys m) m.length key ≡ ok (some (first lawful m.keys.items 0 key)))
    unfolding indexed
    indexed-first none held = inl refl
    indexed-first (some index) held =
        subst
          (λ ks.
            (indexed e (some index) ks m.length key ≡ ok none)
            ⊎ (indexed e (some index) ks m.length key
                ≡ ok (some (first lawful m.keys.items 0 key))))
          (sym (take_whole m.length m.keys.items v.filled.key_count))
          (index_lookup-first lawful m.keys.items key v.filled.readable r index m.length held
            v.filled.distinct)

    pub find-first : find e m key ≡ ok (first lawful m.keys.items 0 key)
    unfolding find check
    find-first = elim (indexed-first m.index v.held) [
      | inl scans ↦ rw (v.filled.sound, validate_ok key r, scans) live_scan
      | inr answers ↦ rw (v.filled.sound, validate_ok key r, answers) refl
    ]

    -- On a map in order, with an index or without, the search for a key that can be read returns
    -- what the scan of all keys returns.
    pub find-scan : find e m key ≡ scan e (live_keys m) 0 key
    find-scan = find-first ∙ sym live_scan

    value_at-item : (i : ℕ) → i < m.length → value_at m (pos i) ≡ ok (get_elem? m.values.items i)
    unfolding value_at check
    value_at-item i within =
        let inside : leb m.length i ≡ false = ground arith in
        let (b, fits) =
          collection_bytes-fewer m.capacity i m.value_stride v.filled.value_bytes
            (omega (arith, v.filled.roomy)) v.filled.values_fit in
        rw (v.filled.sound, inside, fits) refl

    -- On a map in order `native_map_get` returns the value of the entry with the key, and NULL
    -- where there is none.
    pub get-lookup : get e m key ≡ ok (lookup same key (entries m))
    unfolding get
    get-lookup =
        let counts : length m.keys.items ≡ length m.values.items =
          omega (arith, v.filled.key_count, v.filled.value_count) in
        elim (Option-cases (first lawful m.keys.items 0 key)) [
          | inl absent ↦
              rw (find-first, absent, entries-items m v.filled)
                (ap ok (sym (lookup-absent lawful m.keys.items m.values.items 0 key absent)))
          | inr (i, found) ↦
              let (j, k, e', at, _) = first-some lawful m.keys.items 0 i key found in
              let within : i < m.length =
                omega (arith, get_elem?-lt m.keys.items j k at, v.filled.key_count) in
              rw (find-first, found, value_at-item i within, entries-items m v.filled)
                (ap ok (
                  lookup-first lawful m.keys.items m.values.items 0 i key counts
                    (found ∙ ap some (omega arith))))
        ]
