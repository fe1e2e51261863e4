-- ===== src/Map/Change.antt =====
-- native-core/shim/native_shim.c, the operations that make and change maps.
use beagle.Base.{
  ℕ, ◌+◌, ◌-◌, false, not, ◌&&◌, Option, none, some, List, [], ◌∷◌, ◌==◌, if◌then◌else◌, Run, ok,
  trap_if, ◌>>=◌, ◌>>◌, invalid_argument, overflow, length,
}
use beagle.Base.Int.{ℤ, pos, int_max}
use beagle.Arena.{Arena}
use beagle.Collection.{
  Equality, persistent, transient, retired, store, is_none, collection_bytes, grown_capacity,
  take_bytes,
}
use beagle.Map.{
  Map, map_size, pointer_alignment, new, check_persistent, check_transient, check_shape,
  check_persistent_shape, live_keys, live_values, find,
}
use beagle.Map.Indexing.{rebuild, index_append, index_adopt}

module _ {ℓ κ} {K : Type ℓ} {V : Type κ} where
  -- `memcpy` of a value to the position of its key.
  abbrev pub put_value : Map K V → ℕ → V → Map K V
  put_value m i v = record m { values = store m.values i v }

  -- `memcpy` of a key and a value behind the entries.
  abbrev pub put_entry : Map K V → ℕ → K → V → Map K V
  put_entry m i k v = record m { keys = store m.keys i k; values = store m.values i v }

  -- Storage for twice as many entries, with a copy of the entries.
  unfoldable pub enlarge : Arena → Map K V → ℤ → ℕ → ℤ → ℕ → Run (Map K V × Arena)
  enlarge a m key_stride key_alignment value_stride value_alignment = do
    grown ← grown_capacity m.capacity
    key_bytes ← collection_bytes (pos grown) key_stride
    a₁ ← take_bytes a key_bytes key_alignment
    value_bytes ← collection_bytes (pos grown) value_stride
    a₂ ← take_bytes a₁ value_bytes value_alignment
    ok (
      record m {
        keys = record { null = false; items = live_keys m };
        values = record { null = false; items = live_values m };
        capacity = grown;
      },
      a₂,
    )

  -- An empty transient map; its arena has the address `owner`.
  unfoldable pub transient_open : Arena → ℕ → Map K V → ℕ → ℕ → Run (Map K V × Arena)
  transient_open a owner source key_alignment value_alignment = do
    check_persistent source
    trap_if (not (source.length == 0)) invalid_argument
    (m, a') ← new a 4 source.key_stride key_alignment source.value_stride value_alignment
    ok (record m { state = transient; edit_arena = some owner }, a')

  -- The persistent map, and the source as it is left.
  unfoldable pub persistent_close : Arena → ℕ → Map K V → Run (Map K V × Map K V × Arena)
  persistent_close a owner source = do
    check_transient source owner
    a' ← take_bytes a map_size pointer_alignment
    ok (
      record source { state = persistent; edit_arena = none },
      record source { state = retired; edit_arena = none },
      a',
    )

-- The loop of `native_map_dissoc` over keys or values, from number `index` on.
unfoldable pub all_but {ℓ} : {A : Type ℓ} → ℕ → ℕ → List A → List A
all_but removed index [] = []
all_but removed index (x ∷ xs) =
    let rest = all_but removed (index + 1) xs in if index == removed then rest else x ∷ rest

module _ {ℓ κ} {K : Type ℓ} {V : Type κ} (e : Equality K) where
  unfoldable pub insert : Arena → Map K V → K → V → Option ℕ → Run (Map K V × Arena)
  insert a m key value prior = elim prior [
    | some i ↦ ok (put_value m i value, a)
    | none ↦
        index_append e a (record (put_entry m m.length key value) { length = m.length + 1 }) key
  ]

  -- The loop of `native_map_from_arrays`.
  unfoldable pub insert_all : Arena → Map K V → List (K × V) → Run (Map K V × Arena)
  insert_all a m [] = ok (m, a)
  insert_all a m ((key, value) ∷ rest) = do
    prior ← find e m key
    (m', a') ← insert a m key value prior
    insert_all a' m' rest

  -- The two arrays are one list of pairs.
  unfoldable pub from_arrays : Arena → List (K × V) → ℤ → ℕ → ℤ → ℕ → Run (Map K V × Arena)
  from_arrays a pairs key_stride key_alignment value_stride value_alignment = do
    e.check
    let count = length pairs
    (m, a₁) ← new a count key_stride key_alignment value_stride value_alignment
    (m', a₂) ← rebuild e a₁ m count
    insert_all a₂ m' pairs

  -- The entries of a map with the one of `native_map_assoc`, in a new map that has room for them.
  abbrev pub filled : Map K V → Map K V → ℕ → K → V → Option ℕ → Map K V
  filled fresh m count key value prior =
      let copied = record fresh {
        keys = record fresh.keys { items = live_keys m };
        values = record fresh.values { items = live_values m };
        length = count;
      } in
      elim prior [ some i ↦ put_value copied i value | none ↦ put_entry copied m.length key value ]

  unfoldable pub assoc : Arena → Map K V → K → V → ℤ → ℕ → ℤ → ℕ → Run (Map K V × Arena)
  assoc a m key value key_stride key_alignment value_stride value_alignment = do
    check_persistent_shape m key_stride value_stride
    prior ← find e m key
    let is_new = is_none prior
    trap_if (is_new && (m.length == int_max)) overflow
    let count = if is_new then m.length + 1 else m.length
    (fresh, a') ← new a count key_stride key_alignment value_stride value_alignment
    index_adopt e a' (filled fresh m count key value prior) m key
        (elim prior [ none ↦ some m.length | some i ↦ none ])

  unfoldable pub assoc_transient :
      Arena → ℕ → Map K V → K → V → ℤ → ℕ → ℤ → ℕ → Run (Map K V × Arena)
  assoc_transient a owner m key value key_stride key_alignment value_stride value_alignment = do
    check_shape m key_stride value_stride
    check_transient m owner
    prior ← find e m key
    elim prior [
      | some i ↦ insert a m key value (some i)
      | none ↦ do
        trap_if (m.length == int_max) overflow
        (roomy, a') ←
            if m.length == m.capacity
            then enlarge a m key_stride key_alignment value_stride value_alignment
            else ok (m, a)
        insert a' roomy key value none
    ]

  unfoldable pub dissoc : Arena → Map K V → K → ℤ → ℕ → ℤ → ℕ → Run (Map K V × Arena)
  dissoc a m key key_stride key_alignment value_stride value_alignment = do
    check_persistent_shape m key_stride value_stride
    removed ← find e m key
    elim removed [
      | none ↦ ok (m, a)
      | some i ↦ do
        (fresh, a') ← new a (m.length - 1) key_stride key_alignment value_stride value_alignment
        let kept = record fresh {
          keys = record fresh.keys { items = all_but i 0 (live_keys m) };
          values = record fresh.values { items = all_but i 0 (live_values m) };
          length = m.length - 1;
        }
        rebuild e a' kept kept.length
    ]
