-- ===== src/Arena/Reset.antt =====
-- What `native_arena_reset` and `native_arena_destroy` leave.
use beagle.Base.{◌+◌, ◌≡◌, arith, none, some, ok}
use beagle.Arena.{Arena, Registry, reset, next_generation}

-- The registry moves to the next generation, with the registrations that it had.
pub reset-registry :
    (a a' : Arena) (registry : Registry)
    → reset a ≡ ok a'
    → a.buffer_registry ≡ some registry
    → a'.buffer_registry ≡ some (record registry { generation = registry.generation + 1 })
unfolding reset next_generation
reset-registry a a' registry h e = ground arith

pub reset-no_registry :
    (a a' : Arena) → reset a ≡ ok a' → a.buffer_registry ≡ none → a'.buffer_registry ≡ none
unfolding reset next_generation
reset-no_registry a a' h e = ground arith
