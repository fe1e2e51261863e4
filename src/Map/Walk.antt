-- ===== src/Map/Walk.antt =====
-- Walks along the slots of an index: where they stop, what they pass, and that they meet every slot.
use beagle.Base.{
  ℕ, zero, suc, ◌+◌, ◌-◌, ◌%◌, ◌^◌, ◌≤◌, ◌<◌, ◌≡◌, ◌≢◌, refl, sym, ◌∙◌, ap, arith, List, [], ◌∷◌,
  ok, get_or, set, ℕ_discrete, dec_lt, ◌==◌, false,
}
use beagle.Base.Bits.{bit_and_mask}
use beagle.Map.{advance}
use beagle.Map.Indexing.{empty_from}
use native.Mathlib.Nat.{mod-add-mod, mod-eq_of_lt, mod-eq-sub-mod, one-le-pow}

-- `distance` steps on from `probe`
abbrev pub walk : ℕ → ℕ → ℕ → ℕ
walk mask probe zero = probe
walk mask probe (suc distance) = walk mask (advance mask probe) distance

module _ (slots : List ℕ) (mask : ℕ) where
  -- Every slot before the end of the walk is taken.
  abbrev pub Passes : ℕ → ℕ → Type 0
  Passes probe zero = Unit {0}
  Passes probe (suc distance) = (get_or slots probe 0 ≢ 0) × Passes (advance mask probe) distance

-- The entry stands in a slot that a walk from its home reaches over slots that are taken.
pub record Reached (slots : List ℕ) (mask home entry : ℕ) : Type 0 where
  pub distance : ℕ
  pub passes : Passes slots mask home distance
  pub stands : get_or slots (walk mask home distance) 0 ≡ suc entry

advance-mod : (k p : ℕ) → advance (2 ^ k - 1) p ≡ (p + 1) % 2 ^ k
advance-mod k p = bit_and_mask k (p + 1)

walk-mod : (k p j : ℕ) → p < 2 ^ k → walk (2 ^ k - 1) p j ≡ (p + j) % 2 ^ k
walk-mod k p zero small = let e : p + 0 ≡ p = omega arith in rw e (sym (mod-eq_of_lt small))
walk-mod k p (suc j) small =
    let bound : (p + 1) % 2 ^ k < 2 ^ k = omega (arith, one-le-pow k 2) in
    let e : p + suc j ≡ p + 1 + j = omega arith in
    rw (advance-mod k p, walk-mod k ((p + 1) % 2 ^ k) j bound, e) (mod-add-mod (p + 1) (2 ^ k) j)

pub walk-lt : (k p j : ℕ) → p < 2 ^ k → walk (2 ^ k - 1) p j < 2 ^ k
walk-lt k p j small = omega (arith, walk-mod k p j small, one-le-pow k 2)

pub walk_meets :
    (k p q : ℕ) → p < 2 ^ k → q < 2 ^ k → (j : ℕ) × (j < 2 ^ k) × (walk (2 ^ k - 1) p j ≡ q)
walk_meets k p q small within = elim (dec_lt q p) [
  | no later ↦
      let e : p + (q - p) ≡ q = omega arith in
      (q - p, omega arith, walk-mod k p (q - p) small ∙ ap (λ t. t % 2 ^ k) e ∙ mod-eq_of_lt within)
  | yes before ↦
      let j : ℕ = 2 ^ k - p + q in
      let wraps : 2 ^ k ≤ p + j = omega arith in
      let e : p + j - 2 ^ k ≡ q = omega arith in
      (
        j,
        omega arith,
        walk-mod k p j small ∙ mod-eq-sub-mod wraps ∙ ap (λ t. t % 2 ^ k) e ∙ mod-eq_of_lt within,
      )
]

taken-set :
    (slots : List ℕ) (p q v : ℕ) → v ≢ 0 → get_or slots p 0 ≢ 0 → get_or (set slots q v) p 0 ≢ 0
taken-set [] p q v ne taken = taken
taken-set (s ∷ ss) zero zero v ne taken = ne
taken-set (s ∷ ss) zero (suc q) v ne taken = taken
taken-set (s ∷ ss) (suc p) zero v ne taken = taken
taken-set (s ∷ ss) (suc p) (suc q) v ne taken = taken-set ss p q v ne taken

pub Passes-set :
    (slots : List ℕ) (mask p j q v : ℕ)
    → v ≢ 0
    → Passes slots mask p j
    → Passes (set slots q v) mask p j
Passes-set slots mask p zero q v ne passes = tt
Passes-set slots mask p (suc j) q v ne passes =
    (taken-set slots p q v ne passes.0, Passes-set slots mask (advance mask p) j q v ne passes.1)

-- Where a walk stopped at an empty slot.
pub record Stopped (slots : List ℕ) (mask probe end : ℕ) : Type 0 where
  pub distance : ℕ
  pub passes : Passes slots mask probe distance
  pub ends : end ≡ walk mask probe distance
  pub empty : get_or slots end 0 ≡ 0

-- A walk with more rounds than steps to an empty slot stops at one.
pub empty_from-Stopped :
    (slots : List ℕ) (mask rounds probe j : ℕ)
    → j < rounds
    → get_or slots (walk mask probe j) 0 ≡ 0
    → (end : ℕ) × (empty_from slots mask rounds probe ≡ ok end) × Stopped slots mask probe end
unfolding empty_from
empty_from-Stopped slots mask zero probe j within free = absurd (omega arith)
empty_from-Stopped slots mask (suc rounds) probe zero within free =
    (probe, rw free refl, record { distance = 0; passes = tt; ends = refl; empty = free })
empty_from-Stopped slots mask (suc rounds) probe (suc j) within free =
    let next = empty_from-Stopped slots mask rounds (advance mask probe) j (omega arith) free in
    elim (ℕ_discrete (get_or slots probe 0) 0) [
      | yes e ↦ (probe, rw e refl, record { distance = 0; passes = tt; ends = refl; empty = e })
      | no ne ↦
          let test : (get_or slots probe 0 == 0) ≡ false = ground arith in
          (
            next.0,
            rw test next.1,
            record {
              distance = suc next.2.distance;
              passes = (ne, next.2.passes);
              ends = next.2.ends;
              empty = next.2.empty;
            },
          )
    ]
