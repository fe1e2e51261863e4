-- ===== src/Text/Integer/RoundTrip.antt =====
-- `native_text_from_int` and `native_text_parse_i64` are inverse to one another.
use beagle.Base.{
  ℕ, zero, suc, ◌+◌, ◌-◌, ◌*◌, ◌/◌, ◌%◌, ◌^◌, ◌≤◌, ◌<◌, ◌≡◌, refl, ap, ◌∙◌, arith, Bool, true,
  false, ◌&&◌, some, [], ◌∷◌, ◌++◌, ◌==◌, if◌then◌else◌, Bool-cases, inl, inr, length,
  length-append,
}
use beagle.Base.Int.{ℤ, pos, negsuc, int_max}
use beagle.Text.{Bytes}
use beagle.Text.Integer.{
  parse_digits, with_sign, parse_magnitude, parse_bytes, low_digits, backwards, int_bytes,
}
use beagle.Text.Integer.Parse.{is_digit, all_digits, numeral_value, parse_digits-exact}

numeral_value-append :
    (bs : Bytes) (b read : ℕ)
    → numeral_value (bs ++ b ∷ []) read ≡ numeral_value bs read * 10 + (b - b'0')
numeral_value-append [] b read = refl
numeral_value-append (c ∷ bs) b read = numeral_value-append bs b (read * 10 + (c - b'0'))

all_digits-append : (bs : Bytes) (b : ℕ) → all_digits (bs ++ b ∷ []) ≡ (all_digits bs && is_digit b)
all_digits-append [] b = ground arith
all_digits-append (c ∷ bs) b = ground (arith, all_digits-append bs b)

abbrev ten_to : ℕ → ℕ
ten_to zero = 1
ten_to (suc n) = ten_to n * 10

-- The digits of a number, with rounds for all of them.
numeral_value-digits :
    (rounds n : ℕ) → n < ten_to rounds → numeral_value (backwards (low_digits rounds n)) 0 ≡ n
unfolding low_digits backwards
numeral_value-digits zero n h = omega arith
numeral_value-digits (suc rounds) n h = elim (Bool-cases (n / 10 == 0)) [
  | inl last ↦ rw last (ground arith)
  | inr more ↦
      let ih = numeral_value-digits rounds (n / 10) (omega arith) in
      rw more (
        omega (
          arith,
          ih,
          numeral_value-append (backwards (low_digits rounds (n / 10))) (48 + n % 10) 0,
        ))
]

all_digits-digits : (rounds n : ℕ) → all_digits (backwards (low_digits rounds n)) ≡ true
unfolding low_digits backwards
all_digits-digits zero n = refl
all_digits-digits (suc rounds) n = elim (Bool-cases (n / 10 == 0)) [
  | inl last ↦ rw last (ground arith)
  | inr more ↦ rw more (
      ground (
        arith,
        all_digits-append (backwards (low_digits rounds (n / 10))) (48 + n % 10),
        all_digits-digits rounds (n / 10),
      ))
]

length-digits : (rounds n : ℕ) → 0 < length (backwards (low_digits (suc rounds) n))
unfolding low_digits backwards
length-digits rounds n = omega (
  arith,
  length-append (backwards (if n / 10 == 0 then [] else low_digits rounds (n / 10)))
      ((48 + n % 10) ∷ []),
)

-- A numeral is read as its value, whatever stands for its sign before it.
parse_magnitude-numeral :
    (negative : Bool) (bs : Bytes)
    → 0 < length bs
    → all_digits bs ≡ true
    → numeral_value bs 0 ≤ (if negative then 2 ^ 63 else int_max)
    → parse_magnitude negative bs ≡ some (with_sign negative (numeral_value bs 0))
unfolding parse_magnitude
parse_magnitude-numeral negative [] long digits small = absurd (omega arith)
parse_magnitude-numeral false (b ∷ bs) long digits small =
    let e : parse_digits int_max (b ∷ bs) 0 ≡ some (numeral_value (b ∷ bs) 0) =
      ground
        (arith, parse_digits-exact int_max (b ∷ bs) 0 (omega arith) (omega arith) (omega arith)) in
    rw (parse_magnitude, e) refl
parse_magnitude-numeral true (b ∷ bs) long digits small =
    let e : parse_digits (2 ^ 63) (b ∷ bs) 0 ≡ some (numeral_value (b ∷ bs) 0) =
      ground
        (arith, parse_digits-exact (2 ^ 63) (b ∷ bs) 0 (omega arith) (omega arith) (omega arith)) in
    rw (parse_magnitude, e) refl

parse_bytes-numeral :
    (bs : Bytes) → 0 < length bs → all_digits bs ≡ true → parse_bytes bs ≡ parse_magnitude false bs
unfolding parse_bytes
parse_bytes-numeral [] long digits = absurd (omega arith)
parse_bytes-numeral (b ∷ bs) long digits = ground arith

abbrev pub IsInt64 : ℤ → Type 0
IsInt64 (pos n) = n ≤ int_max
IsInt64 (negsuc n) = n ≤ int_max

-- The text of a 64-bit integer is parsed as that integer.
pub parse_bytes-int_bytes : (value : ℤ) → IsInt64 value → parse_bytes (int_bytes value) ≡ some value
unfolding int_bytes parse_bytes with_sign
parse_bytes-int_bytes (pos n) small =
    let bs = backwards (low_digits 20 n) in
    let v : numeral_value bs 0 ≡ n = numeral_value-digits 20 n (omega arith) in
    parse_bytes-numeral bs (length-digits 19 n) (all_digits-digits 20 n)
    ∙ (parse_magnitude-numeral false bs (length-digits 19 n) (all_digits-digits 20 n)
          (omega (arith, v))
        ∙ ap (λ x. some (pos x)) v)
parse_bytes-int_bytes (negsuc n) small =
    let bs = backwards (low_digits 20 (suc n)) in
    let v : numeral_value bs 0 ≡ suc n = numeral_value-digits 20 (suc n) (omega arith) in
    parse_magnitude-numeral true bs (length-digits 19 (suc n)) (all_digits-digits 20 (suc n))
      (omega (arith, v))
    ∙ ap (λ x. some (with_sign true x)) v
