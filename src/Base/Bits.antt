-- ===== src/Base/Bits.antt =====
-- Laws of `&` and `|` at variables: a low mask is a remainder, disjoint fields add up, and a
-- number that shares no bit with its predecessor is a power of two.
use Prim.Native.Nat.{
  ℕ, zero, suc, ◌+◌, ◌-◌, ◌*◌, ◌/◌, ◌%◌, ◌^◌, ◌≤◌, ◌<◌, min, max, bit_and, bit_or, bitwise, digits,
  bit_and-bitwise, bit_or-bitwise,
}
use mathlib.Core.Path.{◌≡◌, refl, ap, sym, ◌∙◌}
use mathlib.Core.Logic.{◌≢◌}
use mathlib.Core.WellFounded
use native.Mathlib.Nat.{pow-suc, one-le-pow, mod-eq_of_lt, div-div-eq-div-mul}
use native.Mathlib.Decide.{ℕ_discrete}
use native.Mathlib.Omega.{arith}
use beagle.Base.Order.{lt_wf}

-- Fuel beyond the first operand changes nothing.
module _ (rest : ℕ → ℕ) (op : ℕ → ℕ → ℕ) where
  -- Any two amounts of fuel that serve give one result.
  enough_fuel :
      (a b fuel more : ℕ)
      → a ≤ fuel
      → fuel ≤ more
      → digits rest op more a b ≡ digits rest op fuel a b
  enough_fuel zero b zero zero served larger = refl
  enough_fuel zero b zero (suc more) served larger = refl
  enough_fuel zero b (suc fuel) zero served larger = absurd (omega arith)
  enough_fuel zero b (suc fuel) (suc more) served larger = refl
  enough_fuel (suc a) b zero more served larger = absurd (omega arith)
  enough_fuel (suc a) b (suc fuel) zero served larger = absurd (omega arith)
  enough_fuel (suc a) b (suc fuel) (suc more) served larger =
      let halves = enough_fuel (suc a / 2) (b / 2) fuel more (omega arith) (omega arith) in
      omega (arith, halves)

  lowest_digit :
      (a b : ℕ)
      → bitwise rest op (suc a) b ≡ bitwise rest op (suc a / 2) (b / 2) * 2 + op (suc a % 2) (b % 2)
  lowest_digit a b =
      omega (arith, enough_fuel (suc a / 2) (b / 2) (suc a / 2) a (omega arith) (omega arith))

pub bit_and_step : (x y : ℕ) → bit_and x y ≡ bit_and (x / 2) (y / 2) * 2 + min (x % 2) (y % 2)
bit_and_step zero y = simp bit_and-bitwise (omega arith)
bit_and_step (suc x) y = simp bit_and-bitwise (lowest_digit (λ rest. 0) min x y)

pub bit_or_step : (x y : ℕ) → bit_or x y ≡ bit_or (x / 2) (y / 2) * 2 + max (x % 2) (y % 2)
bit_or_step zero y = simp bit_or-bitwise (omega arith)
bit_or_step (suc x) y = simp bit_or-bitwise (lowest_digit (λ rest. rest) max x y)

bit_and-zero : (a : ℕ) → bit_and a 0 ≡ 0
bit_and-zero a = WellFounded.induction lt_wf {C = λ n. bit_and n 0 ≡ 0} a (elim [
  | zero ↦ λ ih. refl
  | suc n ↦ λ ih. omega (arith, bit_and_step (suc n) 0, ih (suc n / 2) (omega arith))
])

bit_or-zero : (a : ℕ) → bit_or a 0 ≡ a
bit_or-zero a = WellFounded.induction lt_wf {C = λ n. bit_or n 0 ≡ n} a (elim [
  | zero ↦ λ ih. refl
  | suc n ↦ λ ih. omega (arith, bit_or_step (suc n) 0, ih (suc n / 2) (omega arith))
])

mul-pow-suc : (high width : ℕ) → high * 2 ^ suc width ≡ 2 * (high * 2 ^ width)
mul-pow-suc high width = omega (arith, ap (λ (power : ℕ). high * power) (pow-suc 2 width))

split_and : (k q r : ℕ) → r < 2 ^ k → bit_and (q * 2 ^ k + r) (2 ^ k - 1) ≡ r
split_and zero q r fits = rw bit_and-zero (omega arith)
split_and (suc k) q r fits = ground (
  arith,
  bit_and_step (q * 2 ^ suc k + r) (2 ^ suc k - 1),
  mul-pow-suc q k,
  pow-suc 2 k,
  split_and k q (r / 2) (omega (arith, pow-suc 2 k)),
)

-- `a & (2^k - 1)` keeps the low `k` bits.
pub bit_and_mask : (k a : ℕ) → bit_and a (2 ^ k - 1) ≡ a % 2 ^ k
bit_and_mask k a = ground (arith, one-le-pow k 2, split_and k (a / 2 ^ k) (a % 2 ^ k))

-- `(q << k) | r` is a sum where `r` has at most `k` bits.
pub bit_or_fields :
    (width high low : ℕ) → low < 2 ^ width → bit_or (high * 2 ^ width) low ≡ high * 2 ^ width + low
bit_or_fields zero high low small = ground (arith, bit_or-zero high)
bit_or_fields (suc width) high low small =
    let power = pow-suc 2 width in
    let halved = bit_or_fields width high (low / 2) (omega (arith, power)) in
    ground (arith, halved, bit_or_step (high * 2 ^ suc width) low, power, mul-pow-suc high width)

-- Clearing the low `k` of `m + k` bits.
pub bit_and_high :
    (k m a : ℕ) → a < 2 ^ (m + k) → bit_and a (2 ^ (m + k) - 2 ^ k) ≡ a / 2 ^ k * 2 ^ k
bit_and_high zero m a fits =
    let e : m + 0 ≡ m = omega arith in
    let lt : a < 2 ^ m = rw e at fits in rw e (rw bit_and_mask (omega (arith, mod-eq_of_lt lt)))
bit_and_high (suc k) m a fits =
    let e : m + suc k ≡ suc (m + k) = omega arith in
    let lt : a < 2 ^ suc (m + k) = rw e at fits in
    let half : a / 2 < 2 ^ (m + k) = omega (arith, pow-suc 2 (m + k)) in
    let below : (2 ^ suc (m + k) - 2 ^ suc k) / 2 ≡ 2 ^ (m + k) - 2 ^ k =
      omega (arith, pow-suc 2 k, pow-suc 2 (m + k)) in
    let quotient : a / 2 ^ suc k ≡ a / 2 / 2 ^ k =
      ap (λ (t : ℕ). a / t) (omega (arith, pow-suc 2 k)) ∙ sym (div-div-eq-div-mul a 2 (2 ^ k)) in
    rw e (
      omega (
        arith,
        bit_and_step a (2 ^ suc (m + k) - 2 ^ suc k),
        pow-suc 2 k,
        pow-suc 2 (m + k),
        bit_and_high k m (a / 2) half,
        ap (λ (t : ℕ). bit_and (a / 2) t) below,
        quotient,
        mul-pow-suc (a / 2 ^ suc k) k,
        ap (λ (t : ℕ). t * 2 ^ k) quotient,
      ))

bit_and_self : (a : ℕ) → bit_and a a ≡ a
bit_and_self a = WellFounded.induction lt_wf {C = λ n. bit_and n n ≡ n} a (elim [
  | zero ↦ λ ih. refl
  | suc n ↦ λ ih. omega (arith, bit_and_step (suc n) (suc n), ih (suc n / 2) (omega arith))
])

half_of_even : (n : ℕ) → n % 2 ≡ 0 → n ≢ 0 → bit_and n (n - 1) ≡ bit_and (n / 2) (n / 2 - 1) * 2
half_of_even n even ne = omega (
  arith,
  bit_and_step n (n - 1),
  ap (λ (t : ℕ). bit_and (n / 2) t) (let e : (n - 1) / 2 ≡ n / 2 - 1 = omega arith in e),
)

half_of_odd : (n : ℕ) → n % 2 ≡ 1 → bit_and n (n - 1) ≡ n / 2 * 2
half_of_odd n odd = omega (
  arith,
  bit_and_step n (n - 1),
  bit_and_self (n / 2),
  ap (λ (t : ℕ). bit_and (n / 2) t) (let e : (n - 1) / 2 ≡ n / 2 = omega arith in e),
)

-- The test `a & (a - 1) == 0` of the code, for a number that is not zero.
pub is_pow_of_two : (a : ℕ) → a ≢ 0 → bit_and a (a - 1) ≡ 0 → (k : ℕ) × (a ≡ 2 ^ k)
is_pow_of_two a =
    WellFounded.induction lt_wf {C = λ n. n ≢ 0 → bit_and n (n - 1) ≡ 0 → (k : ℕ) × (n ≡ 2 ^ k)} a
      λ n ih ne h. elim (ℕ_discrete (n % 2) 0) [
        | yes even ↦
            let (k, e) =
              ih (n / 2) (omega arith) (omega arith) (omega (arith, half_of_even n even ne)) in
            (suc k, omega (arith, pow-suc 2 k))
        | no odd ↦ (0, omega (arith, half_of_odd n (omega arith)))
      ]
