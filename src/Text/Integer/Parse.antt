-- ===== src/Text/Integer/Parse.antt =====
-- What the digit loop of `native_text_parse_i64` accepts.
use beagle.Base.{
  ℕ, ◌+◌, ◌-◌, ◌*◌, ◌/◌, ◌%◌, ◌^◌, ◌≤◌, ◌<◌, ◌≡◌, arith, Bool, true, ◌&&◌, none, some, [], ◌∷◌, leb,
  if◌then◌else◌, Bool-cases, inl, inr, dec_lt,
}
use beagle.Text.{Bytes}
use beagle.Text.Integer.{parse_digits}

abbrev pub is_digit : ℕ → Bool
is_digit b = leb b'0' b && leb b b'9'

abbrev pub all_digits : Bytes → Bool
all_digits [] = true
all_digits (b ∷ bs) = is_digit b && all_digits bs

-- The number that a decimal numeral stands for, behind the digits of `read`.
abbrev pub numeral_value : Bytes → ℕ → ℕ
numeral_value [] read = read
numeral_value (b ∷ bs) read = numeral_value bs (read * 10 + (b - b'0'))

numeral_value-le : (bs : Bytes) (read : ℕ) → read ≤ numeral_value bs read
numeral_value-le [] read = omega arith
numeral_value-le (b ∷ bs) read = omega (arith, numeral_value-le bs (read * 10 + (b - b'0')))

-- The digit loop gives the value of a numeral that does not pass the limit, and nothing for a longer
-- one or for other bytes; nothing wraps on the way.
pub parse_digits-exact :
    (limit : ℕ) (bs : Bytes) (read : ℕ)
    → 9 ≤ limit
    → limit < 2 ^ 64
    → read ≤ limit
    → parse_digits limit bs read ≡ (
        if all_digits bs && leb (numeral_value bs read) limit
        then some (numeral_value bs read)
        else none)
unfolding parse_digits
parse_digits-exact limit [] read wide small below = ground arith
parse_digits-exact limit (b ∷ bs) read wide small below = elim (Bool-cases (is_digit b)) [
  | inr other ↦ ground (arith, other)
  | inl digit ↦ elim (dec_lt ((limit - (b - b'0')) / 10) read) [
    | yes past ↦
        let more = numeral_value-le bs (read * 10 + (b - b'0')) in
        let over : limit < read * 10 + (b - b'0') = ground arith in ground (arith, more, over)
    | no room ↦
        let fits : read * 10 + (b - b'0') ≤ limit = ground arith in
        let exact : (read * 10 + (b - b'0')) % 2 ^ 64 ≡ read * 10 + (b - b'0') = omega arith in
        let rest = parse_digits-exact limit bs (read * 10 + (b - b'0')) wide small fits in
        rw exact (ground (arith, rest))
  ]
]
