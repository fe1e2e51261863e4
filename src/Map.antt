-- ===== src/Map.antt =====
-- native-core/shim/native_shim.c, maps: keys and values in the order of insertion, with an index
-- from hashes to positions beside them. Map/Indexing.antt builds the index, Map/Change.antt changes
-- maps. A map is a value here: a persistent map and its index are never written again, and the
-- transient map that a call writes to is what it returns. Pointers to maps, keys, values, indexes
-- and slots are not NULL where the code traps or returns on NULL, and lengths are not negative.
pub mod Indexing
pub mod Walk
pub mod Placed
pub mod Lookup
pub mod Built
pub mod Reindexed
pub mod Entries
pub mod Valid
pub mod Fresh
pub mod Replaced
pub mod Changed
pub mod Inserted
pub mod Edited
mod Examples
pub mod Change
use beagle.Base.{
  ℕ, zero, suc, ◌+◌, ◌-◌, Bool, true, false, not, ◌||◌, ◌&&◌, Option, none, some, List, [], ◌∷◌,
  ltb, leb, ◌==◌, if◌then◌else◌, Run, ok, trap, unending, trap_if, ◌>>=◌, ◌>>◌, invalid_argument,
  out_of_range, length, get_elem?, get_or, take, bit_and,
}
use beagle.Base.Int.{ℤ, pos, negsuc, eq_int}
use beagle.Arena.{Arena}
use beagle.Vec.{not_positive}
use beagle.Collection.{
  Kind, kind_code, Equality, State, is_persistent, is_transient, persistent, Storage, is_none,
  collection_bytes, take_bytes, new_storage, scan,
}

-- `struct native_map_index`; a slot holds a position and one, or 0.
pub record Index : Type 0 where
  pub slots : List ℕ
  pub slot_count : ℕ
  pub entries : ℕ
  pub kind : Kind

-- `native_map`; an edit arena is named by its address.
pub record Map {ℓ κ} (K : Type ℓ) (V : Type κ) : Type (ℓ ⊔ κ) where
  pub keys : Storage K
  pub values : Storage V
  pub length : ℕ
  pub capacity : ℕ
  pub key_stride : ℤ
  pub value_stride : ℤ
  pub state : State
  pub edit_arena : Option ℕ
  pub index : Option Index

-- The test of `edit_arena` against the arena at `owner`.
abbrev pub owned_by : Option ℕ → ℕ → Bool
owned_by none owner = false
owned_by (some a) owner = a == owner

abbrev pub map_size : ℕ
map_size = 72

abbrev pub pointer_alignment : ℕ
pointer_alignment = 8

module _ {ℓ κ} {K : Type ℓ} {V : Type κ} where
  unfoldable pub new : Arena → ℕ → ℤ → ℕ → ℤ → ℕ → Run (Map K V × Arena)
  unfolding collection_bytes
  new a capacity key_stride key_alignment value_stride value_alignment = do
    key_bytes ← collection_bytes (pos capacity) key_stride
    value_bytes ← collection_bytes (pos capacity) value_stride
    a₁ ← take_bytes a map_size pointer_alignment
    (keys, a₂) ← new_storage a₁ key_bytes key_alignment
    (values, a₃) ← new_storage a₂ value_bytes value_alignment
    ok (
      record {
        keys = keys;
        values = values;
        length = 0;
        capacity = capacity;
        key_stride = key_stride;
        value_stride = value_stride;
        state = persistent;
        edit_arena = none;
        index = none;
      },
      a₃,
    )

  -- The condition of `native_map_check`.
  unfoldable pub broken : Map K V → Bool
  broken m =
      ltb m.capacity m.length
      || not_positive m.key_stride
      || not_positive m.value_stride
      || (m.capacity == 0 && (not m.keys.null || not m.values.null))
      || (ltb 0 m.capacity && (m.keys.null || m.values.null))
      || (is_persistent m.state && not (is_none m.edit_arena))
      || (is_transient m.state && is_none m.edit_arena)
      || (not (is_persistent m.state) && not (is_transient m.state))

  unfoldable pub check : Map K V → Run (Unit {0})
  check m = trap_if (broken m) invalid_argument

  unfoldable pub check_persistent : Map K V → Run (Unit {0})
  unfolding check
  check_persistent m = do check m; trap_if (not (is_persistent m.state)) invalid_argument

  unfoldable pub check_transient : Map K V → ℕ → Run (Unit {0})
  unfolding check
  check_transient m owner = do
    check m
    trap_if (not (is_transient m.state) || not (owned_by m.edit_arena owner)) invalid_argument

  unfoldable pub check_shape : Map K V → ℤ → ℤ → Run (Unit {0})
  unfolding check
  check_shape m key_stride value_stride = do
    check m
    trap_if (not (eq_int m.key_stride key_stride) || not (eq_int m.value_stride value_stride))
        invalid_argument

  unfoldable pub check_persistent_shape : Map K V → ℤ → ℤ → Run (Unit {0})
  unfolding check_shape
  check_persistent_shape m key_stride value_stride = do
    check_shape m key_stride value_stride
    trap_if (not (is_persistent m.state)) invalid_argument

  unfoldable pub count : Map K V → Run ℕ
  unfolding check
  count m = do check m; ok m.length

  -- The keys and the values that the length covers.
  abbrev pub live_keys : Map K V → List K
  live_keys m = take m.length m.keys.items

  abbrev pub live_values : Map K V → List V
  live_values m = take m.length m.values.items

  -- The key or the value at an index, as it is read through the address that the call returns.
  unfoldable pub key_at : Map K V → ℤ → Run (Option K)
  unfolding check
  key_at m (negsuc n) = do check m; trap out_of_range
  key_at m (pos i) = do
    check m
    trap_if (leb m.length i) out_of_range
    _ ← collection_bytes (pos i) m.key_stride
    ok (get_elem? m.keys.items i)

  unfoldable pub value_at : Map K V → ℤ → Run (Option V)
  unfolding check
  value_at m (negsuc n) = do check m; trap out_of_range
  value_at m (pos i) = do
    check m
    trap_if (leb m.length i) out_of_range
    _ ← collection_bytes (pos i) m.value_stride
    ok (get_elem? m.values.items i)

-- `(probe + 1) & mask`
abbrev pub advance : ℕ → ℕ → ℕ
advance mask probe = bit_and (probe + 1) mask

module _ {ℓ} {K : Type ℓ} (e : Equality K) where
  unfoldable pub usable : Index → ℕ → Bool
  usable index map_length =
      (kind_code index.kind == kind_code e.kind)
      && (index.entries == map_length)
      && ltb map_length index.slot_count

  -- Whether the key of the entry in a slot is equal; `none` where the length does not cover it.
  unfoldable pub matches : Option K → K → Run Bool
  matches none key = ok false
  matches (some k) key = e.equal k key

  -- The loop of `native_map_index_lookup`, with a trap of its own where it has not ended yet.
  unfoldable pub probe_from : List ℕ → ℕ → List K → ℕ → ℕ → K → Run (Option ℕ)
  unfolding matches
  probe_from slots mask keys zero probe key = trap unending
  probe_from slots mask keys (suc rounds) probe key =
      let slot = get_or slots probe 0 in
      let rest = probe_from slots mask keys rounds (advance mask probe) key in
      let compared = matches (get_elem? keys (slot - 1)) key >>= λ same.
      if same then ok (some (slot - 1)) else rest in
      if slot == 0 then ok none else compared

  unfoldable pub hashed_lookup : Index → List K → K → Run (Option (Option ℕ))
  unfolding probe_from
  hashed_lookup index keys key = do
    hash ← e.hash key
    let mask = index.slot_count - 1
    elim hash [
      | none ↦ ok none
      | some h ↦ do
        found ← probe_from index.slots mask keys index.slot_count (bit_and h mask) key
        ok (some found)
    ]

  -- `none` where the caller must scan.
  unfoldable pub index_lookup : Index → List K → ℕ → K → Run (Option (Option ℕ))
  unfolding usable hashed_lookup
  index_lookup index keys map_length key =
      if usable index map_length then hashed_lookup index keys key else ok none

  -- The part of `native_map_find` that asks an index, where there is one.
  unfoldable pub indexed : Option Index → List K → ℕ → K → Run (Option (Option ℕ))
  unfolding index_lookup
  indexed none keys map_length key = ok none
  indexed (some index) keys map_length key = index_lookup index keys map_length key

  module _ {κ} {V : Type κ} where
    -- The position of an equal key; `none` is -1.
    unfoldable pub find : Map K V → K → Run (Option ℕ)
    unfolding check indexed scan
    find m key = do
      check m
      e.validate key
      answer ← indexed m.index (live_keys m) m.length key
      elim answer [ some found ↦ ok found | none ↦ scan e (live_keys m) 0 key ]

    -- The value under a key; `none` is NULL.
    unfoldable pub get : Map K V → K → Run (Option V)
    unfolding find value_at
    get m key = do found ← find m key; elim found [ none ↦ ok none | some i ↦ value_at m (pos i) ]

    unfoldable pub contains : Map K V → K → Run Bool
    unfolding find
    contains m key = do found ← find m key; ok (not (is_none found))
