-- ===== src/Base/Outcome.antt =====
-- A call either returns or ends in `native_trap` (native-core/shim/native_shim.c), which records
-- the trap code and aborts the process.

use mathlib.Core.Bool.{Bool, true, false}
use mathlib.Core.Path.{◌≡◌, refl, ap}

-- The NATIVE_TRAP_* codes of native_shim.h. `unending` is not one of them: it marks a loop that
-- has not ended within its rounds.
pub data Trap : Type 0 where
  invalid_argument overflow arena_exhausted out_of_range io parallel unending : Trap

pub data Run {ℓ} (A : Type ℓ) : Type ℓ where
  ok : A → Run A
  trap : Trap → Run A

-- `if (b) { native_trap(t); }`
abbrev pub trap_if : Bool → Trap → Run (Unit {0})
trap_if b t = elim b [ false ↦ ok tt | true ↦ trap t ]

-- One call after another: nothing comes after a trap.
infixl 5 ◌>>=◌
abbrev pub ◌>>=◌ {ℓ κ} : {A : Type ℓ} {B : Type κ} → Run A → (A → Run B) → Run B
first >>= next = elim first [ ok value ↦ next value | trap t ↦ trap t ]

-- A guard before a call.
infixl 5 ◌>>◌
abbrev pub ◌>>◌ {ℓ} : {B : Type ℓ} → Run (Unit {0}) → Run B → Run B
guard >> call = guard >>= λ passed. call

-- What a successful chain of two steps did.
pub >>=-eq-ok {ℓ κ} :
    {A : Type ℓ} {B : Type κ} (first : Run A) (next : A → Run B) {result : B}
    → (first >>= next) ≡ ok result
    → (value : A) × (first ≡ ok value) × (next value ≡ ok result)
>>=-eq-ok (trap t) next returned = cc
>>=-eq-ok (ok value) next returned = (value, refl, returned)

-- A guard that was passed.
pub >>-eq-ok {ℓ} :
    {B : Type ℓ} (c : Bool) (t : Trap) (k : Run B) {b : B}
    → (trap_if c t >> k) ≡ ok b
    → (c ≡ false) × (k ≡ ok b)
>>-eq-ok true t k h = cc
>>-eq-ok false t k h = (refl, h)

pub trap_if-passed : (c : Bool) (t : Trap) → trap_if c t ≡ ok tt → c ≡ false
trap_if-passed true t h = cc
trap_if-passed false t h = refl

pub ok-injective {ℓ} : {A : Type ℓ} {a b : A} → ok a ≡ ok b → a ≡ b
ok-injective {A} {a} {b} e = ap (λ (r : Run A). elim r as (λ _. A) [ ok x ↦ x | trap t ↦ a ]) e
