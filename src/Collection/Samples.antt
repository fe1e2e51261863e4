-- ===== src/Collection/Samples.antt =====
-- Data for the tests of maps and sets: keys that are words, and an arena with room.
use beagle.Base.{ℕ, none, [], ok, trap, Run, false, ◌==◌}
use beagle.Arena.{Arena}
use beagle.Text.{null}
use beagle.Collection.{Equality, of_i64}
use beagle.Collection.Keys.{Memory, Structural, collection_equality}

abbrev pub words : Memory ℕ
words = record { bool_of = λ a. a == 1; word_of = λ a. a; text_of = λ a. null }

abbrev pub nothing : Structural ℕ (Unit {0})
nothing = record { value_equal = λ d a b. ok (a == b); validate = λ d a. ok tt }

abbrev pub by_word : Equality ℕ
by_word = collection_equality words nothing of_i64 none

abbrev pub room : Arena
room = record {
  bytes = 4096;
  capacity = 65536;
  offset = 0;
  chunks = [];
  buffer_registry = none;
  growth_floor = 0;
  growable = false;
  allocation_count = 0;
  buffer_storage_allocation_count = 0;
  buffer_storage_current_bytes = 0;
  buffer_storage_high_water_bytes = 0;
  heap = record { answers = []; given = []; freed = [] };
}

abbrev pub returned : {A : Type 0} → Run A → A → A
returned (ok a) other = a
returned (trap t) other = other
