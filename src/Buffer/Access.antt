-- ===== src/Buffer/Access.antt =====
-- `native_buffer_at` and `native_buffer_set`, outside a parallel tile.
use beagle.Base.{
  ℕ, zero, suc, ◌+◌, ◌*◌, ◌≤◌, ◌<◌, ◌≡◌, ◌≢◌, refl, arith, false, Option, none, some, List, [], ◌∷◌,
  ◌==◌, if◌then◌else◌, ok, length, ap₂, >>=-eq-ok, ==_iff, ℕ_discrete, dec_lt, inl, inr, ◌⊎◌, ◌∙◌,
}
use beagle.Base.Int.{ℤ, pos, negsuc}
use beagle.Arena.{Arena, Registration}
use beagle.Buffer.{Capability, Memory, require, checked_offset, at, set_element, store_bytes}
use beagle.Buffer.Require.{require-Required}

-- The bytes that stand from an address on.
pub load_bytes : ℕ → ℕ → Memory → List ℕ
load_bytes from zero m = []
load_bytes from (suc n) m = m from ∷ load_bytes (from + 1) n m

store_bytes_outside :
    (at q : ℕ) (bs : List ℕ) (m : Memory)
    → (q < at) ⊎ (at + length bs ≤ q)
    → store_bytes at bs m q ≡ m q
unfolding store_bytes
store_bytes_outside at q [] m h = refl
store_bytes_outside at q (b ∷ bs) m h = ground (arith, store_bytes_outside (at + 1) q bs m)

load_bytes-store_bytes_apart :
    (at from n : ℕ) (bs : List ℕ) (m : Memory)
    → (from + n ≤ at) ⊎ (at + length bs ≤ from)
    → load_bytes from n (store_bytes at bs m) ≡ load_bytes from n m
unfolding load_bytes
load_bytes-store_bytes_apart at from zero bs m h = refl
load_bytes-store_bytes_apart at from (suc n) bs m h =
    ground
      (arith, store_bytes_outside at from bs m, load_bytes-store_bytes_apart at (from + 1) n bs m)

load_bytes_congr :
    (from n : ℕ) (m m' : Memory)
    → ((q : ℕ) → from ≤ q → m q ≡ m' q)
    → load_bytes from n m ≡ load_bytes from n m'
unfolding load_bytes
load_bytes_congr from zero m m' h = refl
load_bytes_congr from (suc n) m m' h =
    ap₂ ◌∷◌ (h from (omega arith)) (load_bytes_congr (from + 1) n m m' (λ q l. h q (omega arith)))

load_bytes-store_bytes_same :
    (at : ℕ) (bs : List ℕ) (m : Memory) → load_bytes at (length bs) (store_bytes at bs m) ≡ bs
unfolding load_bytes store_bytes
load_bytes-store_bytes_same at [] m = refl
load_bytes-store_bytes_same at (b ∷ bs) m = ap₂ ◌∷◌ (ground arith) (
    load_bytes_congr (at + 1) (length bs) _ (store_bytes (at + 1) bs m) (λ q l. ground arith)
    ∙ load_bytes-store_bytes_same (at + 1) bs m)

checked_offset-eq-ok :
    (r : Registration) (index : ℤ) (offset : ℕ)
    → checked_offset r index ≡ ok offset
    → (i : ℕ) × (index ≡ pos i)
      × (i < r.length)
      × (offset ≡ i * r.stride)
      × (offset + r.stride ≤ r.byte_length)
unfolding checked_offset
checked_offset-eq-ok r (negsuc n) offset h = absurd (ground arith)
checked_offset-eq-ok r (pos i) offset h = (i, refl, ground arith, ground arith, ground arith)

-- What `native_buffer_at` returns is the address of one element inside the registered bytes.
pub at-bounds :
    (a : Arena) (buffer : ℕ) (capability : Option Capability) (index stride : ℤ) (alignment p : ℕ)
    → at a none buffer capability index stride alignment ≡ ok p
    → (r : Registration) × (i : ℕ) × (require a buffer capability stride alignment ≡ ok r)
      × (index ≡ pos i)
      × (i < r.length)
      × (p ≡ r.elements + i * r.stride)
      × (p + r.stride ≤ r.elements + r.length * r.stride)
unfolding at
at-bounds a buffer capability index stride alignment p h =
    let (r, hr, h₁) = >>=-eq-ok (require a buffer capability stride alignment) _ h in
    let (offset, ho, h₂) = >>=-eq-ok (checked_offset r index) _ h₁ in
    let (i, e, lt, eo, room) = checked_offset-eq-ok r index offset ho in
    let dense = (require-Required a buffer capability stride alignment r hr).dense in
    (r, i, hr, e, lt, ground arith, ground arith)

before : (i j s : ℕ) → i < j → i * s + s ≤ j * s
before i j s h = grind arith

apart : (i j s : ℕ) → i ≢ j → (i * s + s ≤ j * s) ⊎ (j * s + s ≤ i * s)
apart i j s ne = elim (dec_lt i j) [
  | yes l ↦ inl (before i j s l)
  | no l ↦ inr (before j i s (omega arith))
]

at_address :
    (a : Arena) (buffer : ℕ) (capability : Option Capability) (j : ℕ) (stride : ℤ) (alignment q : ℕ)
    (r : Registration)
    → require a buffer capability stride alignment ≡ ok r
    → at a none buffer capability (pos j) stride alignment ≡ ok q
    → q ≡ r.elements + j * r.stride
unfolding at checked_offset
at_address a buffer capability j stride alignment q r hr h = ground arith

set_element_memory :
    (a : Arena) (m m' : Memory) (buffer : ℕ) (capability : Option Capability) (i : ℕ) (stride : ℤ)
    (bytes : List ℕ) (alignment : ℕ) (r : Registration)
    → require a buffer capability stride alignment ≡ ok r
    → set_element a none m buffer capability (pos i) (some bytes) stride alignment ≡ ok m'
    → store_bytes (r.elements + i * r.stride) bytes m ≡ m'
unfolding set_element checked_offset
set_element_memory a m m' buffer capability i stride bytes alignment r hr h = ground arith

load_element :
    (e i j s : ℕ) (bytes : List ℕ) (m : Memory)
    → length bytes ≡ s
    → load_bytes (e + j * s) s (store_bytes (e + i * s) bytes m)
      ≡ (if i == j then bytes else load_bytes (e + j * s) s m)
load_element e i j s bytes m hl = elim (ℕ_discrete i j) [
  | yes same ↦
      rw (same, (==_iff j j).1 refl, ← hl)
        (load_bytes-store_bytes_same (e + j * length bytes) bytes m)
  | no ne ↦
      let differ : (i == j) ≡ false = ground arith in
      let far : (e + j * s + s ≤ e + i * s) ⊎ (e + i * s + length bytes ≤ e + j * s) =
        elim (apart i j s ne) [ inl h ↦ inr (omega arith) | inr h ↦ inl (omega arith) ] in
      rw differ (load_bytes-store_bytes_apart (e + i * s) (e + j * s) s bytes m far)
]

-- Outside a parallel tile, an element that was written is read back, and every other element of the
-- buffer is as before.
pub at-set_element :
    (a : Arena) (m m' : Memory) (buffer : ℕ) (capability : Option Capability) (i j : ℕ) (stride : ℤ)
    (bytes : List ℕ) (alignment q : ℕ) (r : Registration)
    → require a buffer capability stride alignment ≡ ok r
    → length bytes ≡ r.stride
    → set_element a none m buffer capability (pos i) (some bytes) stride alignment ≡ ok m'
    → at a none buffer capability (pos j) stride alignment ≡ ok q
    → load_bytes q r.stride m' ≡ (if i == j then bytes else load_bytes q r.stride m)
at-set_element a m m' buffer capability i j stride bytes alignment q r hr hl hs ha =
    rw
      (
        at_address a buffer capability j stride alignment q r hr ha,
        ← set_element_memory a m m' buffer capability i stride bytes alignment r hr hs,
      )
      (load_element r.elements i j r.stride bytes m hl)
