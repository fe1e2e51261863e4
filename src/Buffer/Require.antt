-- ===== src/Buffer/Require.antt =====
-- What `native_buffer_require` guarantees of the registration that it returns.
use beagle.Base.{ℕ, ◌*◌, ◌≡◌, arith, true, Option, some, List, [], ◌∷◌, ok, Option-cases, inl, inr}
use mathlib.Core.Path.{subst}
use beagle.Base.Int.{eq_int→eq, ℤ, pos, negsuc, eq_int}
use beagle.Arena.{Arena, Registry, Registration}
use beagle.Buffer.{Capability, find_registration, check_registration, require, dense_bytes}

find_registration-address :
    (buffer : ℕ) (rs : List Registration) (r : Registration)
    → find_registration buffer rs ≡ some r
    → r.address ≡ buffer
unfolding find_registration
find_registration-address buffer [] r h = ground arith
find_registration-address buffer (x ∷ rs) r h =
    ground (arith, find_registration-address buffer rs r)

-- The header as the program sees it still says what was registered.
pub record Intact (r : Registration) : Type 0 where
  pub same_elements : r.handle.elements ≡ r.elements
  pub same_length : r.handle.length ≡ pos r.length
  pub same_stride : r.handle.stride ≡ pos r.stride
  pub same_alignment : r.handle.alignment ≡ r.alignment
  pub same_owner_token : r.handle.owner_capability_token ≡ r.owner_capability_token

pub record Required (a : Arena) (buffer : ℕ) (capability : Option Capability) (r : Registration)
    : Type 0 where
  pub registry : Registry
  pub capability_used : Capability
  pub its_registry : a.buffer_registry ≡ some registry
  pub its_capability : capability ≡ some capability_used
  pub registered : find_registration buffer registry.registrations ≡ some r
  pub its_address : r.address ≡ buffer
  pub live : r.generation ≡ registry.generation
  pub owned : r.owner_capability ≡ capability_used.address
  pub same_token : r.owner_capability_token ≡ capability_used.token
  pub intact : Intact r
  pub dense : r.byte_length ≡ r.length * r.stride

check_registration-eq-ok :
    (registry : Registry) (r r' : Registration) (c : Capability) (stride : ℤ) (alignment : ℕ)
    → check_registration registry r c stride alignment ≡ ok r'
    → (r ≡ r')
      × (r.generation ≡ registry.generation)
      × (r.owner_capability ≡ c.address)
      × (r.owner_capability_token ≡ c.token)
      × (dense_bytes (pos r.length) (pos r.stride) ≡ ok r.byte_length)
unfolding check_registration
check_registration-eq-ok registry r r' c stride alignment h = ground arith

check_registration-Intact :
    (registry : Registry) (r r' : Registration) (c : Capability) (stride : ℤ) (alignment : ℕ)
    → check_registration registry r c stride alignment ≡ ok r'
    → Intact r
unfolding check_registration
check_registration-Intact registry r r' c stride alignment h =
    let mirrored : (r.handle.elements ≡ r.elements)
        × (eq_int r.handle.length (pos r.length) ≡ true)
        × (eq_int r.handle.stride (pos r.stride) ≡ true)
        × (r.handle.alignment ≡ r.alignment)
        × (r.handle.owner_capability_token ≡ r.owner_capability_token) =
      ground arith in
    record {
      same_elements = mirrored.0;
      same_length = eq_int→eq _ _ mirrored.1;
      same_stride = eq_int→eq _ _ mirrored.2;
      same_alignment = mirrored.3;
      same_owner_token = mirrored.4;
    }

pub dense_bytes-eq-ok :
    (capacity stride bytes : ℕ)
    → dense_bytes (pos capacity) (pos stride) ≡ ok bytes
    → bytes ≡ capacity * stride
unfolding dense_bytes
dense_bytes-eq-ok capacity stride bytes h = ground arith

pub dense_bytes-no_stride :
    (capacity : ℕ) {bytes : ℕ} → ¬ (dense_bytes (pos capacity) (pos 0) ≡ ok bytes)
unfolding dense_bytes
dense_bytes-no_stride capacity h = ground arith

pub dense_bytes-negative :
    (capacity n : ℕ) {bytes : ℕ} → ¬ (dense_bytes (pos capacity) (negsuc n) ≡ ok bytes)
unfolding dense_bytes
dense_bytes-negative capacity n h = ground arith

-- The tests before the one on the registration.
require_passed :
    (a : Arena) (buffer : ℕ) (capability : Option Capability) (stride : ℤ) (alignment : ℕ)
    (r : Registration)
    → require a buffer capability stride alignment ≡ ok r
    → (registry : Registry) × (c : Capability) × (found : Registration) × (a.buffer_registry
        ≡ some registry)
      × (capability ≡ some c)
      × (find_registration buffer registry.registrations ≡ some found)
      × (check_registration registry found c stride alignment ≡ ok r)
unfolding require
require_passed a buffer capability stride alignment r h = elim (Option-cases a.buffer_registry) [
  | inl e ↦ absurd (ground arith)
  | inr (registry, hr) ↦ elim (Option-cases capability) [
    | inl e ↦ absurd (ground arith)
    | inr (c, hc) ↦ elim (Option-cases (find_registration buffer registry.registrations)) [
      | inl e ↦ absurd (ground arith)
      | inr (found, hf) ↦ (registry, c, found, hr, hc, hf, ground arith)
    ]
  ]
]

-- A handle passes `native_buffer_require` only if it is registered with this arena, in its current
-- generation, under this very capability, with each field of its header
-- as it was registered, and with a byte length of its length times its stride.
pub require-Required :
    (a : Arena) (buffer : ℕ) (capability : Option Capability) (stride : ℤ) (alignment : ℕ)
    (r : Registration)
    → require a buffer capability stride alignment ≡ ok r
    → Required a buffer capability r
require-Required a buffer capability stride alignment r h =
    let (registry, c, found, hr, hc, hf, checked) =
      require_passed a buffer capability stride alignment r h in
    let (same, live, owned, token, dense) =
      check_registration-eq-ok registry found r c stride alignment checked in
    let e : Required a buffer capability found = record {
      registry = registry;
      capability_used = c;
      its_registry = hr;
      its_capability = hc;
      registered = hf;
      its_address = find_registration-address buffer registry.registrations found hf;
      live = live;
      owned = owned;
      same_token = token;
      intact = check_registration-Intact registry found r c stride alignment checked;
      dense = dense_bytes-eq-ok found.length found.stride found.byte_length dense;
    } in
    subst (λ (x : Registration). Required a buffer capability x) same e
