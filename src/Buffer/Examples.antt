-- ===== src/Buffer/Examples.antt =====
-- A buffer of three eight-byte elements, its capability, and the tests on them.
use beagle.Base.{
  get_elem?, ℕ, ◌≡◌, refl, arith, false, Option, none, some, [], ◌∷◌, replicate, ok, trap,
  if◌then◌else◌, ◌==◌, invalid_argument,
}
use mathlib.Core.Option.{some-injective}
use mathlib.Core.Path.{subst}
use beagle.Base.Int.{ℤ, pos}
use beagle.Arena.{Arena, Registry, Registration, malloc, alloc, bump, reset, next_generation}
use beagle.Buffer.{
  Capability, Memory, new, create, ensure_registry, new_elements, enter, describe, fill_zero,
  dense_bytes, require, find_registration, check_registration, checked_offset, at, set_element,
  store_bytes, registration_count, registration_at,
}
use beagle.Buffer.Require.{Required, require-Required}
use beagle.Buffer.Access.{load_bytes, at-set_element}
use beagle.Buffer.Registered.{oldest_first, registration_at-oldest_first}
use beagle.Buffer.Stale.{Past, IsOrderly, reset-require}

abbrev key : Capability
key = record { address = 512; token = 7 }

abbrev bare : Arena
bare = record {
  bytes = 4096;
  capacity = 64;
  offset = 0;
  chunks = [];
  buffer_registry = none;
  growth_floor = 0;
  growable = false;
  allocation_count = 0;
  buffer_storage_allocation_count = 0;
  buffer_storage_current_bytes = 0;
  buffer_storage_high_water_bytes = 0;
  heap = record { answers = some 16 ∷ some 32 ∷ []; given = []; freed = [] };
}

abbrev registered : Registration
registered = record {
  address = 32;
  handle = record {
    elements = 4096;
    length = pos 3;
    stride = pos 8;
    alignment = 8;
    owner_capability_token = 7;
  };
  generation = 1;
  owner_capability = 512;
  owner_capability_token = 7;
  elements = 4096;
  length = 3;
  stride = 8;
  alignment = 8;
  byte_length = 24;
}

abbrev registry_of_one : Registry
registry_of_one = record { address = 16; generation = 1; registrations = registered ∷ [] }

abbrev made : Arena
made = record bare {
  offset = 24;
  buffer_registry = some registry_of_one;
  allocation_count = 1;
  buffer_storage_allocation_count = 1;
  buffer_storage_current_bytes = 24;
  buffer_storage_high_water_bytes = 24;
  heap = record { answers = []; given = 32 ∷ 16 ∷ []; freed = [] };
}

abbrev ones : Memory
ones q = 1

new-bare : new bare ones (some key) (pos 3) (pos 8) 8 ≡ ok (32, made, fill_zero 4096 24 ones)
unfolding new create ensure_registry malloc new_elements alloc bump describe enter dense_bytes
new-bare = refl

require-made : require made 32 (some key) (pos 8) 8 ≡ ok registered
unfolding require find_registration check_registration dense_bytes
require-made = refl

wrong_key : require made 32 (some (record key { token = 8 })) (pos 8) 8 ≡ trap invalid_argument
unfolding require find_registration check_registration
wrong_key = refl

require-Required_example : Required made 32 (some key) registered
require-Required_example = require-Required made 32 (some key) (pos 8) 8 registered require-made

at-made : at made none 32 (some key) (pos 2) (pos 8) 8 ≡ ok 4112
unfolding at checked_offset require find_registration check_registration dense_bytes
at-made = refl

abbrev written : Memory
written = store_bytes 4104 (replicate 8 9) ones

set_element-made :
    set_element made none ones 32 (some key) (pos 1) (some (replicate 8 9)) (pos 8) 8 ≡ ok written
unfolding set_element checked_offset require find_registration check_registration dense_bytes
set_element-made = refl

at-set_element_example :
    load_bytes 4112 8 written ≡ (if 1 == 2 then replicate 8 9 else load_bytes 4112 8 ones)
at-set_element_example =
    at-set_element made ones written 32 (some key) 1 2 (pos 8) (replicate 8 9) 8 4112 registered
      require-made refl set_element-made at-made

made-IsOrderly : IsOrderly made
made-IsOrderly registry e = subst Past (some-injective registry_of_one registry e) (omega arith, tt)

abbrev reset_made : Arena
reset_made = record made {
  offset = 0;
  buffer_registry = some (record registry_of_one { generation = 2 });
  allocation_count = 0;
  buffer_storage_allocation_count = 0;
  buffer_storage_current_bytes = 0;
}

reset-made : reset made ≡ ok reset_made
unfolding reset next_generation
reset-made = refl

reset-require_example :
    ((buffer : ℕ) (capability : Option Capability) (stride : ℤ) (alignment : ℕ)
      → require reset_made buffer capability stride alignment ≡ trap invalid_argument)
    × (registration_count reset_made ≡ 0)
reset-require_example = reset-require made reset_made made-IsOrderly reset-made

registration_at-oldest_first_example :
    registration_at made (pos 0) ≡ get_elem? (oldest_first 1 (registered ∷ [])) 0
registration_at-oldest_first_example = registration_at-oldest_first made registry_of_one 0 refl
