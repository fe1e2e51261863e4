-- ===== src/Arena/Align.antt =====
-- Rounding an address up to a power of two.
use beagle.Base.{
  ℕ, ◌+◌, ◌-◌, ◌*◌, ◌/◌, ◌%◌, ◌^◌, ◌≤◌, ◌<◌, ◌≡◌, ◌≢◌, arith, bit_and, ap, false, not, ◌||◌, ◌==◌,
  ◌∙◌,
}
use native.Mathlib.Nat.{one-le-pow, mul-mod_left, pow-le-pow_right, mod-add-div'}
use native.Mathlib.Decide.{dec_lt}
use beagle.Base.Bits.{is_pow_of_two, bit_and_high}
use beagle.Arena.{word_max, align_up}

shift_at_most_64 : (k : ℕ) → 2 ^ k - 1 ≤ word_max → k ≤ 64
shift_at_most_64 k h = elim (dec_lt 64 k) [
  | yes big ↦ absurd (omega (arith, pow-le-pow_right {n = 2} (omega arith) {i = 65} {j = k} big))
  | no small ↦ omega arith
]

align_up-pow :
    (k current : ℕ)
    → current + (2 ^ k - 1) ≤ word_max
    → align_up current (2 ^ k - 1) ≡ (current + (2 ^ k - 1)) / 2 ^ k * 2 ^ k
align_up-pow k current fits =
    let small : k ≤ 64 = shift_at_most_64 k (omega arith) in
    let e : 64 - k + k ≡ 64 = omega arith in
    let below : current + (2 ^ k - 1) < 2 ^ (64 - k + k) = rw e (omega arith) in
    let high = bit_and_high k (64 - k) (current + (2 ^ k - 1)) below in
    let high' : bit_and (current + (2 ^ k - 1)) (2 ^ 64 - 2 ^ k)
        ≡ (current + (2 ^ k - 1)) / 2 ^ k * 2 ^ k =
      rw e at high in
    ap (λ (m : ℕ). bit_and (current + (2 ^ k - 1)) m) (omega (arith, one-le-pow k 2)) ∙ high'

align_pow_bounds :
    (k current : ℕ)
    → current + (2 ^ k - 1) ≤ word_max
    → (align_up current (2 ^ k - 1) % 2 ^ k ≡ 0)
      × (current ≤ align_up current (2 ^ k - 1))
      × (align_up current (2 ^ k - 1) ≤ current + (2 ^ k - 1))
align_pow_bounds k current fits = rw (align_up-pow k current fits) (
  mul-mod_left ((current + (2 ^ k - 1)) / 2 ^ k) (2 ^ k),
  omega (arith, one-le-pow k 2, mod-add-div' (current + (2 ^ k - 1)) (2 ^ k)),
  omega (arith, mod-add-div' (current + (2 ^ k - 1)) (2 ^ k)),
)

-- Where the code's guard on the alignment and its overflow test pass, the rounded address is the
-- first multiple of the alignment at or above the given one.
pub align_up_lem :
    (current alignment : ℕ)
    → (alignment == 0 || not (bit_and alignment (alignment - 1) == 0)) ≡ false
    → current + (alignment - 1) ≤ word_max
    → (align_up current (alignment - 1) % alignment ≡ 0)
      × (current ≤ align_up current (alignment - 1))
      × (align_up current (alignment - 1) ≤ current + (alignment - 1))
align_up_lem current alignment guard fits =
    let nonzero : alignment ≢ 0 = ground arith in
    let (k, e) = is_pow_of_two alignment nonzero (ground arith) in
    let fits' : current + (2 ^ k - 1) ≤ word_max = rw e at fits in
    rw e (align_pow_bounds k current fits')
