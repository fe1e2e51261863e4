-- ===== src/Map/Indexing.antt =====
-- native-core/shim/native_shim.c, building the index of a map: the size of its table, placing an
-- entry, and the three ways in which a map gets an index.
use beagle.Base.{
  ℕ, zero, suc, ◌+◌, ◌-◌, ◌*◌, ◌/◌, Bool, true, false, not, ◌||◌, Option, none, some, List, [], ◌∷◌,
  ltb, ◌==◌, if◌then◌else◌, Run, ok, trap, unending, ◌>>=◌, overflow, get_or, set, replicate,
  bit_and,
}
use beagle.Base.Int.{pos, int_max}
use beagle.Arena.{Arena}
use beagle.Collection.{
  Kind, kind_code, of_structural, of_dynamic_structural, Equality, collection_bytes, take_bytes,
}
use beagle.Map.{Index, Map, live_keys, pointer_alignment, advance}

abbrev pub min_length : ℕ
min_length = 16

abbrev pub min_slots : ℕ
min_slots = 32

abbrev pub max_entries : ℕ
max_entries = 0x40000000

abbrev pub kind_hashable : Kind → Bool
kind_hashable of_structural = false
kind_hashable of_dynamic_structural = false
kind_hashable _ = true

-- The loop of `native_map_index_slot_count`; a table of 2 ^ 62 slots traps at the latest.
unfoldable pub widen_slots : ℕ → ℕ → ℕ → Run ℕ
widen_slots zero slots needed = trap unending
widen_slots (suc rounds) slots needed =
    let rest = widen_slots rounds (slots * 2) needed in
    if ltb (slots / 4 * 3) needed
    then if ltb (int_max / 2) slots then trap overflow else rest
    else ok slots

unfoldable pub slot_count : ℕ → Run ℕ
slot_count needed = widen_slots 64 min_slots needed

-- The sizes of the structure and of a slot.
abbrev pub index_size : ℕ
index_size = 32

abbrev pub slot_size : ℕ
slot_size = 4

unfoldable pub index_alloc : Arena → ℕ → Kind → Run (Index × Arena)
index_alloc a slot_count kind = do
  a₁ ← take_bytes a index_size pointer_alignment
  bytes ← collection_bytes (pos slot_count) (pos slot_size)
  a₂ ← take_bytes a₁ bytes slot_size
  ok (
    record { slots = replicate slot_count 0; slot_count = slot_count; entries = 0; kind = kind },
    a₂,
  )

-- The loop of `native_map_index_place`: the first empty slot from `probe` on.
unfoldable pub empty_from : List ℕ → ℕ → ℕ → ℕ → Run ℕ
empty_from slots mask zero probe = trap unending
empty_from slots mask (suc rounds) probe =
    let rest = empty_from slots mask rounds (advance mask probe) in
    if get_or slots probe 0 == 0 then ok probe else rest

unfoldable pub place : Index → ℕ → ℕ → Run Index
place index hash entry = do
  let mask = index.slot_count - 1
  probe ← empty_from index.slots mask index.slot_count (bit_and hash mask)
  ok (record index { slots = set index.slots probe (suc entry); entries = index.entries + 1 })

module _ {ℓ} {K : Type ℓ} (e : Equality K) where
  -- The loop of `native_map_index_rebuild`; `none` where a key has no hash.
  unfoldable pub place_all : Index → ℕ → List K → Run (Option Index)
  place_all index entry [] = ok (some index)
  place_all index entry (k ∷ ks) = do
    hash ← e.hash k
    elim hash [
      | none ↦ ok none
      | some h ↦ do index' ← place index h entry; place_all index' (entry + 1) ks
    ]

  unfoldable pub build : Arena → List K → ℕ → Run (Option Index × Arena)
  build a keys reserve = do
    count ← slot_count reserve
    (fresh, a') ← index_alloc a count e.kind
    index ← place_all fresh 0 keys
    ok (index, a')

  -- The condition under which an index cannot take one more entry.
  abbrev pub outgrown : Index → ℕ → Bool
  outgrown index map_length =
      not (kind_code index.kind == kind_code e.kind)
      || not (index.entries == map_length - 1)
      || ltb max_entries map_length
      || ltb (index.slot_count * 3) (map_length * 4)

  module _ {κ} {V : Type κ} where
    unfoldable pub rebuild : Arena → Map K V → ℕ → Run (Map K V × Arena)
    rebuild a m reserve =
        let needed = if ltb reserve m.length then m.length else reserve in
        let built = build a (live_keys m) needed >>= λ r. ok (record m { index = r.0 }, r.1) in
        if ltb needed min_length || ltb max_entries needed || not (kind_hashable e.kind)
        then ok (record m { index = none }, a)
        else built

    abbrev pub with_entry : Arena → Map K V → Index → K → ℕ → Run (Map K V × Arena)
    with_entry a m index key entry = do
      hash ← e.hash key
      elim hash [
        | none ↦ ok (record m { index = none }, a)
        | some h ↦ do index' ← place index h entry; ok (record m { index = some index' }, a)
      ]

    -- `native_map_index_append` on the index that the map has.
    unfoldable pub appended : Arena → Map K V → Option Index → K → Run (Map K V × Arena)
    appended a m none key = if ltb m.length min_length then ok (m, a) else rebuild a m m.length
    appended a m (some index) key =
        if outgrown index m.length
        then rebuild a m m.length
        else with_entry a m index key (m.length - 1)

    unfoldable pub index_append : Arena → Map K V → K → Run (Map K V × Arena)
    unfolding appended
    index_append a m key = appended a m m.index key

    -- The copy of the parent's table for one more entry.
    unfoldable pub copy_with : Arena → Map K V → Index → K → ℕ → Run (Map K V × Arena)
    copy_with a m parent key entry = do
      hash ← e.hash key
      elim hash [
        | none ↦ ok (m, a)
        | some h ↦ do
          (fresh, a') ← index_alloc a parent.slot_count e.kind
          index ← place (record fresh { slots = parent.slots; entries = parent.entries }) h entry
          ok (record m { index = some index }, a')
      ]

    -- The part of `native_map_index_adopt` that finds a table to take over.
    unfoldable pub take_over :
        Arena → Map K V → Option Index → ℕ → K → Option ℕ → Run (Map K V × Arena)
    take_over a m none source_length key appended = rebuild a m m.length
    take_over a m (some parent) source_length key appended =
        let kept = elim appended as (λ _. Run (Map K V × Arena)) [
          | none ↦ ok (record m { index = some parent }, a)
          | some entry ↦ copy_with a m parent key entry
        ] in
        if not (kind_code parent.kind == kind_code e.kind)
          || not (parent.entries == source_length)
          || ltb (parent.slot_count * 3) (m.length * 4)
        then rebuild a m m.length
        else kept

    -- `appended` is `none` where a value was replaced, for -1.
    unfoldable pub index_adopt : Arena → Map K V → Map K V → K → Option ℕ → Run (Map K V × Arena)
    index_adopt a m source key appended =
        if ltb m.length min_length || ltb max_entries m.length
        then ok (m, a)
        else take_over a m source.index source.length key appended
