-- ===== src/Buffer/Stale.antt =====
-- Handles from before `native_arena_reset`.
use beagle.Base.{
  ℕ, ◌+◌, ◌≤◌, ◌<◌, ◌≡◌, refl, arith, Option, none, some, List, [], ◌∷◌, ok, trap, invalid_argument,
  All, All-map, Option-cases, inl, inr,
}
use beagle.Base.Int.{ℤ}
use beagle.Arena.{Arena, Registry, Registration, reset}
use beagle.Buffer.{
  Capability, find_registration, check_registration, require, count_live, registration_count,
}
use beagle.Arena.Reset.{reset-registry, reset-no_registry}

-- No registration is of a later generation than the registry.
abbrev pub Past : Registry → Type 0
Past registry =
    All (λ (r : Registration). r.generation ≤ registry.generation) registry.registrations

abbrev pub IsOrderly : Arena → Type 0
IsOrderly a = (registry : Registry) → a.buffer_registry ≡ some registry → Past registry

count_live-past :
    (generation : ℕ) (rs : List Registration)
    → All (λ (r : Registration). r.generation < generation) rs
    → count_live generation rs ≡ 0
unfolding count_live
count_live-past generation [] h = refl
count_live-past generation (r ∷ rs) h = ground (arith, count_live-past generation rs)

find_registration-past :
    (buffer generation : ℕ) (rs : List Registration) (r : Registration)
    → All (λ (r : Registration). r.generation < generation) rs
    → find_registration buffer rs ≡ some r
    → r.generation < generation
unfolding find_registration
find_registration-past buffer generation [] r past h = absurd (ground arith)
find_registration-past buffer generation (x ∷ rs) r past h =
    ground (arith, find_registration-past buffer generation rs r)

check_registration-stale :
    (registry : Registry) (r : Registration) (c : Capability) (stride : ℤ) (alignment : ℕ)
    → r.generation < registry.generation
    → check_registration registry r c stride alignment ≡ trap invalid_argument
unfolding check_registration
check_registration-stale registry r c stride alignment h = ground arith

require-past :
    (a : Arena) (registry : Registry) (buffer : ℕ) (capability : Option Capability) (stride : ℤ)
    (alignment : ℕ)
    → a.buffer_registry ≡ some registry
    → All (λ (r : Registration). r.generation < registry.generation) registry.registrations
    → require a buffer capability stride alignment ≡ trap invalid_argument
unfolding require
require-past a registry buffer capability stride alignment e past = elim (Option-cases capability) [
  | inl no_capability ↦ ground arith
  | inr (c, hc) ↦ elim (Option-cases (find_registration buffer registry.registrations)) [
    | inl missing ↦ ground arith
    | inr (r, hr) ↦ ground (
      arith,
      check_registration-stale registry r c stride alignment
          (find_registration-past buffer registry.generation registry.registrations r past hr),
    )
  ]
]

require-no_registry :
    (a : Arena) (buffer : ℕ) (capability : Option Capability) (stride : ℤ) (alignment : ℕ)
    → a.buffer_registry ≡ none
    → require a buffer capability stride alignment ≡ trap invalid_argument
unfolding require
require-no_registry a buffer capability stride alignment e = ground arith

Past-next :
    (registry : Registry) (rs : List Registration)
    → All (λ (r : Registration). r.generation ≤ registry.generation) rs
    → All (λ (r : Registration). r.generation < registry.generation + 1) rs
Past-next registry rs = All-map (λ r h. omega arith) rs

registration_count-past :
    (a : Arena) (registry : Registry)
    → a.buffer_registry ≡ some registry
    → All (λ (r : Registration). r.generation < registry.generation) registry.registrations
    → registration_count a ≡ 0
unfolding registration_count
registration_count-past a registry e past =
    ground (arith, count_live-past registry.generation registry.registrations past)

registration_count-none : (a : Arena) → a.buffer_registry ≡ none → registration_count a ≡ 0
unfolding registration_count
registration_count-none a e = ground arith

-- After `native_arena_reset` no handle from before it is accepted, whatever it is presented with,
-- and no registration counts as live; both hold of an arena whose registrations are not newer than
-- its registry.
pub reset-require :
    (a a' : Arena)
    → IsOrderly a
    → reset a ≡ ok a'
    → ((buffer : ℕ) (capability : Option Capability) (stride : ℤ) (alignment : ℕ)
        → require a' buffer capability stride alignment ≡ trap invalid_argument)
      × (registration_count a' ≡ 0)
reset-require a a' orderly h = elim (Option-cases a.buffer_registry) [
  | inl e ↦
      let e' = reset-no_registry a a' h e in
      (
        λ buffer capability stride alignment.
            require-no_registry a' buffer capability stride alignment e',
        registration_count-none a' e',
      )
  | inr (registry, e) ↦
      let next : Registry = record registry { generation = registry.generation + 1 } in
      let e' = reset-registry a a' registry h e in
      let past = Past-next registry registry.registrations (orderly registry e) in
      (
        λ buffer capability stride alignment.
            require-past a' next buffer capability stride alignment e' past,
        registration_count-past a' next e' past,
      )
]
