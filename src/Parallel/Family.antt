-- ===== src/Parallel/Family.antt =====
-- Families indexed by worker: an update at one index, and how many of the first `n` meet a test.
use beagle.Base.{ℕ, zero, suc, ◌+◌, ◌≤◌, ◌<◌, ◌≡◌, refl, Bool, true, false, update, arith, dec_lt}

abbrev pub one : Bool → ℕ
one true = 1
one false = 0

module _ {ℓ} {A : Type ℓ} (test : A → Bool) where
  pub count : ℕ → (ℕ → A) → ℕ
  count zero f = 0
  count (suc n) f = count n f + one (test (f n))

  pub count-update_above :
      (n : ℕ) (f : ℕ → A) (i : ℕ) (a : A) → n ≤ i → count n (update f i a) ≡ count n f
  unfolding count
  count-update_above zero f i a h = refl
  count-update_above (suc n) f i a h = ground (arith, count-update_above n f i a)

  pub count-update :
      (n : ℕ) (f : ℕ → A) (i : ℕ) (a : A)
      → i < n
      → count n (update f i a) + one (test (f i)) ≡ count n f + one (test a)
  unfolding count
  count-update zero f i a h = absurd (omega arith)
  count-update (suc n) f i a h = elim (dec_lt i n) [
    | yes below ↦ ground (arith, count-update n f i a below)
    | no last ↦ ground (arith, count-update_above n f i a)
  ]

  pub count-none : (n : ℕ) (f : ℕ → A) → ((i : ℕ) → test (f i) ≡ false) → count n f ≡ 0
  unfolding count
  count-none zero f h = refl
  count-none (suc n) f h = ground (arith, count-none n f h, h n)

  -- Where the count is 0, none of them meets the test.
  pub count-eq-zero : (n : ℕ) (f : ℕ → A) → count n f ≡ 0 → (i : ℕ) → i < n → test (f i) ≡ false
  unfolding count
  count-eq-zero zero f h i below = absurd (omega arith)
  count-eq-zero (suc n) f h i below = elim (dec_lt i n) [
    | yes lower ↦ count-eq-zero n f (omega arith) i lower
    | no last ↦ let e : i ≡ n = omega arith in rw e (ground arith)
  ]
