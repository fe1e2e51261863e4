-- ===== src/Map/Examples.antt =====
-- A map of seventeen integers with its index, and what is made of it.
use beagle.Base.{ℕ, ◌≡◌, refl, arith, true, false, none, some, List, [], ◌∷◌, ok}
use beagle.Base.Int.{pos}
use beagle.Arena.{Arena, alloc, bump}
use beagle.Collection.{
  of_i64, persistent, write, scan, collection_bytes, grown_capacity, take_bytes, new_storage,
}
use beagle.Collection.Keys.{
  check_equality, validate_candidate, collection_equal, equal_by, hash_key, hash_by, hash_mix,
  hash_u64, hash_low_bytes, hash_byte,
}
use beagle.Collection.Keys.Laws.{i64-Lawful}
use beagle.Collection.Samples.{words, nothing, by_word, room, returned}
use beagle.Map.{
  Map, new, check, broken, find, get, indexed, index_lookup, hashed_lookup, usable, probe_from,
  matches, value_at, live_keys,
}
use beagle.Map.Entries.{lookup, put, put_all, erase}
use beagle.Map.Valid.{IsValid, Means, entries, find-scan, get-lookup}
use beagle.Map.Changed.{assoc-put, dissoc-erase}
use beagle.Map.Inserted.{ReadablePairs, from_arrays-put_all}
use beagle.Map.Indexing.{
  widen_slots, slot_count, index_alloc, empty_from, place, place_all, build, rebuild, appended,
  index_append, copy_with, take_over, index_adopt,
}
use beagle.Map.{check_persistent_shape, check_shape, check_persistent, check_transient}
use beagle.Map.Change.{
  from_arrays, insert, insert_all, assoc, dissoc, all_but, transient_open, persistent_close,
  assoc_transient, enlarge,
}
use beagle.Map.Built.{Sized, slot_count-Sized}
use beagle.Map.Edited.{
  IsRefused, transient_open-empty, assoc_transient-put, persistent_close-retires,
}

-- The key 3 stands twice.
abbrev pairs : List (ℕ × ℕ)
pairs =
    (3, 30)
    ∷ (1, 10)
    ∷ (4, 40)
    ∷ (15, 150)
    ∷ (9, 90)
    ∷ (2, 20)
    ∷ (6, 60)
    ∷ (5, 50)
    ∷ (35, 350)
    ∷ (8, 80)
    ∷ (97, 970)
    ∷ (93, 930)
    ∷ (23, 230)
    ∷ (84, 840)
    ∷ (62, 620)
    ∷ (64, 640)
    ∷ (33, 330)
    ∷ (3, 31)
    ∷ []

abbrev big : Map ℕ ℕ
big = record {
  keys = record {
    null = false;
    items = 3 ∷ 1 ∷ 4 ∷ 15 ∷ 9 ∷ 2 ∷ 6 ∷ 5 ∷ 35 ∷ 8 ∷ 97 ∷ 93 ∷ 23 ∷ 84 ∷ 62 ∷ 64 ∷ 33 ∷ [];
  };
  values = record {
    null = false;
    items =
        31 ∷ 10 ∷ 40 ∷ 150 ∷ 90 ∷ 20 ∷ 60 ∷ 50 ∷ 350 ∷ 80 ∷ 970 ∷ 930 ∷ 230 ∷ 840 ∷ 620 ∷ 640 ∷ 330
        ∷ [];
  };
  length = 17;
  capacity = 18;
  key_stride = pos 8;
  value_stride = pos 8;
  state = persistent;
  edit_arena = none;
  index = some record {
    slots =
        0 ∷ 1 ∷ 0 ∷ 0 ∷ 0 ∷ 0 ∷ 9 ∷ 15 ∷ 0 ∷ 8 ∷ 12 ∷ 13 ∷ 0 ∷ 0 ∷ 2 ∷ 16 ∷ 7 ∷ 5 ∷ 17 ∷ 10 ∷ 3 ∷ 6
        ∷ 11 ∷ 14 ∷ 0 ∷ 0 ∷ 0 ∷ 0 ∷ 0 ∷ 0 ∷ 4 ∷ 0 ∷ [];
    slot_count = 32;
    entries = 17;
    kind = of_i64;
  };
}

abbrev room_after : Arena
room_after = record room { offset = 520; allocation_count = 5 }

program : Unit {0}
unfolding from_arrays new collection_bytes new_storage take_bytes alloc bump rebuild build
    slot_count widen_slots index_alloc place_all insert_all insert find check broken indexed
    index_lookup usable hashed_lookup probe_from matches scan check_equality validate_candidate
    collection_equal equal_by hash_key hash_by hash_mix hash_u64 hash_low_bytes hash_byte write
    index_append appended place empty_from copy_with take_over index_adopt assoc
    check_persistent_shape check_shape dissoc all_but transient_open check_persistent
    check_transient assoc_transient enlarge grown_capacity persistent_close get value_at
program = tt

from_arrays-pairs : from_arrays by_word room pairs (pos 8) 8 (pos 8) 8 ≡ ok (big, room_after)
unfolding program
from_arrays-pairs = refl

pairs-readable : ReadablePairs (i64-Lawful words nothing) pairs
unfolding i64-Lawful
pairs-readable = ground arith

big-Means :
    Means (i64-Lawful words nothing) big (put_all ((i64-Lawful words nothing).same) [] pairs)
big-Means =
    from_arrays-put_all (i64-Lawful words nothing) room pairs (pos 8) 8 (pos 8) 8 pairs-readable
      from_arrays-pairs

from_arrays-put_all_example :
    Means (i64-Lawful words nothing) big (put_all ((i64-Lawful words nothing).same) [] pairs)
from_arrays-put_all_example =
    from_arrays-put_all (i64-Lawful words nothing) room pairs (pos 8) 8 (pos 8) 8 pairs-readable
      from_arrays-pairs

big-IsValid : IsValid (i64-Lawful words nothing) big
big-IsValid = big-Means.0

readable : (a : ℕ) → (i64-Lawful words nothing).IsReadable a
unfolding i64-Lawful
readable a = tt

find-scan_example : find by_word big 62 ≡ scan by_word (live_keys big) 0 62
find-scan_example = find-scan (i64-Lawful words nothing) big 62 big-IsValid (readable 62)

get-lookup_example :
    get by_word big 3
    ≡ ok (lookup ((i64-Lawful words nothing).same) 3 (entries (i64-Lawful words nothing) big))
get-lookup_example = get-lookup (i64-Lawful words nothing) big 3 big-IsValid (readable 3)

-- A new key in a map with an index, on a copy of the table.
with_7 : Map ℕ ℕ × Arena
unfolding program
with_7 = returned (assoc by_word room_after big 7 70 (pos 8) 8 (pos 8) 8) (big, room)

assoc-with_7 : assoc by_word room_after big 7 70 (pos 8) 8 (pos 8) 8 ≡ ok with_7
unfolding program with_7
assoc-with_7 = refl

assoc-put_example :
    Means
      (i64-Lawful words nothing)
      with_7.0
      (put ((i64-Lawful words nothing).same) 7 70 (entries (i64-Lawful words nothing) big))
assoc-put_example =
    assoc-put (i64-Lawful words nothing) big 7 big-IsValid (readable 7) room_after 70 (pos 8) 8
      (pos 8) 8 assoc-with_7

without_9 : Map ℕ ℕ × Arena
unfolding program
without_9 = returned (dissoc by_word room_after big 9 (pos 8) 8 (pos 8) 8) (big, room)

dissoc-without_9 : dissoc by_word room_after big 9 (pos 8) 8 (pos 8) 8 ≡ ok without_9
unfolding program without_9
dissoc-without_9 = refl

dissoc-erase_example :
    Means
      (i64-Lawful words nothing)
      without_9.0
      (erase ((i64-Lawful words nothing).same) 9 (entries (i64-Lawful words nothing) big))
dissoc-erase_example =
    dissoc-erase (i64-Lawful words nothing) big 9 big-IsValid (readable 9) room_after (pos 8) 8
      (pos 8) 8 dissoc-without_9

-- An empty map, opened for an owner at 100, written once, and closed.
abbrev empty : Map ℕ ℕ
empty = record {
  keys = record { null = true; items = [] };
  values = record { null = true; items = [] };
  length = 0;
  capacity = 0;
  key_stride = pos 8;
  value_stride = pos 8;
  state = persistent;
  edit_arena = none;
  index = none;
}

opened : Map ℕ ℕ × Arena
unfolding program
opened = returned (transient_open room 100 empty 8 8) (empty, room)

open-opened : transient_open room 100 empty 8 8 ≡ ok opened
unfolding program opened
open-opened = refl

opened-Means : Means (i64-Lawful words nothing) opened.0 []
opened-Means = transient_open-empty (i64-Lawful words nothing) room 100 empty 8 8 open-opened

edited : Map ℕ ℕ × Arena
unfolding program opened
edited = returned (assoc_transient by_word opened.1 100 opened.0 5 50 (pos 8) 8 (pos 8) 8) opened

assoc-edited : assoc_transient by_word opened.1 100 opened.0 5 50 (pos 8) 8 (pos 8) 8 ≡ ok edited
unfolding program opened edited
assoc-edited = refl

edited-Means :
    Means
      (i64-Lawful words nothing)
      edited.0
      (put ((i64-Lawful words nothing).same) 5 50 (entries (i64-Lawful words nothing) opened.0))
edited-Means =
    assoc_transient-put (i64-Lawful words nothing) opened.1 100 opened.0 5 50 (pos 8) 8 (pos 8) 8
      opened-Means.0 (readable 5) assoc-edited

assoc_transient-put_example :
    Means
      (i64-Lawful words nothing)
      edited.0
      (put ((i64-Lawful words nothing).same) 5 50 (entries (i64-Lawful words nothing) opened.0))
assoc_transient-put_example =
    assoc_transient-put (i64-Lawful words nothing) opened.1 100 opened.0 5 50 (pos 8) 8 (pos 8) 8
      opened-Means.0 (readable 5) assoc-edited

closed_map : Map ℕ ℕ × Map ℕ ℕ × Arena
unfolding program opened edited
closed_map = returned (persistent_close edited.1 100 edited.0) (edited.0, edited.0, edited.1)

close-closed_map : persistent_close edited.1 100 edited.0 ≡ ok closed_map
unfolding program opened edited closed_map
close-closed_map = refl

persistent_close-retires_example :
    Means (i64-Lawful words nothing) closed_map.0 (entries (i64-Lawful words nothing) edited.0)
    × (closed_map.0.state ≡ persistent)
    × IsRefused (i64-Lawful words nothing) closed_map.1
persistent_close-retires_example =
    persistent_close-retires (i64-Lawful words nothing) edited.1 100 edited.0 edited-Means.0
      close-closed_map

-- A table for a hundred entries has 256 slots.
slot_count-Sized_example : (slots : ℕ) × (slot_count 100 ≡ ok slots) × Sized 100 slots
slot_count-Sized_example = slot_count-Sized 100 (omega arith)
