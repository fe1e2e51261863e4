-- ===== src/Set/Examples.antt =====
-- A set of three numbers, and what is made of it.
use beagle.Base.{ℕ, ◌≡◌, refl, arith, true, none, [], ◌∷◌, ok}
use beagle.Base.Int.{pos}
use beagle.Arena.{Arena, alloc, bump}
use beagle.Collection.{
  persistent, write, scan, collection_bytes, grown_capacity, take_bytes, new_storage,
}
use beagle.Collection.Keys.{check_equality, validate_candidate, collection_equal, equal_by}
use beagle.Collection.Keys.Laws.{i64-Lawful}
use beagle.Map.Change.{all_but}
use beagle.Collection.Samples.{words, nothing, by_word, room, returned}
use beagle.Set.{
  Set, new, broken, check, check_shape, check_persistent, check_transient, check_persistent_shape,
  enlarge, find, contains, add_all, from_array, conj, conj_transient, disj, transient_open, live,
}
use beagle.Set.Valid.{IsValid, Means, member, include, include_all, contains-member}
use beagle.Set.Edited.{from_array-include_all, conj_transient-include}
use beagle.Set.Session.{add, remove, apply, serve, session, session-Means}

program : Unit {0}
unfolding new collection_bytes new_storage take_bytes alloc bump broken check check_shape
    check_persistent check_transient check_persistent_shape enlarge grown_capacity find contains
    add_all from_array conj conj_transient disj transient_open all_but scan check_equality
    validate_candidate collection_equal equal_by write serve session
program = tt

abbrev nobody : Set ℕ
nobody = record {
  elements = record { null = true; items = [] };
  length = 0;
  capacity = 0;
  stride = pos 8;
  state = persistent;
  edit_arena = none;
}

-- 5 stands twice.
made : Set ℕ × Arena
unfolding program
made = returned (from_array by_word room (5 ∷ 6 ∷ 5 ∷ 7 ∷ []) (pos 8) 8) (nobody, room)

from_array-made : from_array by_word room (5 ∷ 6 ∷ 5 ∷ 7 ∷ []) (pos 8) 8 ≡ ok made
unfolding program made
from_array-made = refl

made_elements : live made.0 ≡ 5 ∷ 6 ∷ 7 ∷ []
unfolding program made
made_elements = refl

made-Means :
    Means
      (i64-Lawful words nothing)
      made.0
      (include_all ((i64-Lawful words nothing).same) [] (5 ∷ 6 ∷ 5 ∷ 7 ∷ []))
unfolding i64-Lawful
made-Means =
    from_array-include_all (i64-Lawful words nothing) room (5 ∷ 6 ∷ 5 ∷ 7 ∷ []) (pos 8) 8
      (tt, (tt, (tt, (tt, tt)))) from_array-made

from_array-include_all_example :
    Means
      (i64-Lawful words nothing)
      made.0
      (include_all ((i64-Lawful words nothing).same) [] (5 ∷ 6 ∷ 5 ∷ 7 ∷ []))
unfolding i64-Lawful
from_array-include_all_example =
    from_array-include_all (i64-Lawful words nothing) room (5 ∷ 6 ∷ 5 ∷ 7 ∷ []) (pos 8) 8
      (tt, (tt, (tt, (tt, tt)))) from_array-made

readable : (a : ℕ) → (i64-Lawful words nothing).IsReadable a
unfolding i64-Lawful
readable a = tt

contains-member_example :
    contains by_word made.0 6 ≡ ok (member ((i64-Lawful words nothing).same) 6 (live made.0))
contains-member_example =
    contains-member (i64-Lawful words nothing) made.0 6 made-Means.0 (readable 6)

session_made : Set ℕ × Arena
unfolding program made
session_made =
    returned (session by_word (pos 8) 8 made.1 made.0 (add 9 ∷ remove 6 ∷ add 5 ∷ [])) made

session-session_made :
    session by_word (pos 8) 8 made.1 made.0 (add 9 ∷ remove 6 ∷ add 5 ∷ []) ≡ ok session_made
unfolding program made session_made
session-session_made = refl

session_elements : live session_made.0 ≡ 5 ∷ 7 ∷ 9 ∷ []
unfolding program made session_made
session_elements = refl

session-Means_example :
    Means
      (i64-Lawful words nothing)
      session_made.0
      (apply ((i64-Lawful words nothing).same) (live made.0) (add 9 ∷ remove 6 ∷ add 5 ∷ []))
unfolding i64-Lawful
session-Means_example =
    session-Means (i64-Lawful words nothing) (pos 8) 8 (add 9 ∷ remove 6 ∷ add 5 ∷ []) made.1 made.0
      made-Means.0 (tt, (tt, (tt, tt))) session-session_made

-- An empty set, opened for an owner at 100 and written once.
opened : Set ℕ × Arena
unfolding program
opened = returned (transient_open room 100 nobody 8) (nobody, room)

opened-IsValid : IsValid (i64-Lawful words nothing) opened.0
unfolding program opened
opened-IsValid = record {
  sound = refl;
  counted = refl;
  readable = tt;
  distinct = tt;
  roomy = omega arith;
}

grown : Set ℕ × Arena
unfolding program opened
grown = returned (conj_transient by_word opened.1 100 opened.0 3 (pos 8) 8) opened

conj_transient-grown : conj_transient by_word opened.1 100 opened.0 3 (pos 8) 8 ≡ ok grown
unfolding program opened grown
conj_transient-grown = refl

conj_transient-include_example :
    Means
      (i64-Lawful words nothing)
      grown.0
      (include ((i64-Lawful words nothing).same) 3 (live opened.0))
conj_transient-include_example =
    conj_transient-include (i64-Lawful words nothing) opened.1 100 opened.0 3 (pos 8) 8
      opened-IsValid (readable 3) conj_transient-grown
