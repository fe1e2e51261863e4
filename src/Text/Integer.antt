-- ===== src/Text/Integer.antt =====
-- native-core/shim/native_shim.c, decimal integers: `native_text_parse_i64` and
-- `native_text_from_int`.
pub mod Parse
pub mod RoundTrip
use beagle.Base.{
  ℕ, zero, suc, ◌+◌, ◌-◌, ◌*◌, ◌/◌, ◌%◌, ◌^◌, Bool, true, false, ◌||◌, ◌&&◌, Option, none, some,
  List, [], ◌∷◌, ◌++◌, ltb, ◌==◌, if◌then◌else◌, Run, ok, trap, trap_if, ◌>>=◌, ◌>>◌, length,
  invalid_argument,
}
use beagle.Base.Int.{ℤ, pos, negsuc, int_max}
use beagle.Arena.{Arena}
use beagle.Text.{Text, blob, Bytes, text_length, text_bytes, text_alloc}

-- The loop over the digits; `magnitude * 10 + digit` is computed in `uint64_t`.
unfoldable pub parse_digits : ℕ → Bytes → ℕ → Option ℕ
parse_digits limit [] magnitude = some magnitude
parse_digits limit (byte ∷ rest) magnitude =
    let digit = byte - b'0' in
    let after = parse_digits limit rest ((magnitude * 10 + digit) % 2 ^ 64) in
    if (ltb byte b'0' || ltb b'9' byte)
    then none
    else if ltb ((limit - digit) / 10) magnitude
    then none
    else after

-- The three last cases: INT64_MIN has no positive counterpart.
unfoldable pub with_sign : Bool → ℕ → ℤ
with_sign true zero = pos 0
with_sign true (suc m) = negsuc m
with_sign false m = pos m

unfoldable pub parse_magnitude : Bool → Bytes → Option ℤ
unfolding parse_digits with_sign
parse_magnitude negative [] = none
parse_magnitude negative (b ∷ bs) =
    elim (parse_digits (if negative then 2 ^ 63 else int_max) (b ∷ bs) 0) [
      | none ↦ none
      | some magnitude ↦ some (with_sign negative magnitude)
    ]

unfoldable pub parse_bytes : Bytes → Option ℤ
unfolding parse_magnitude
parse_bytes [] = none
parse_bytes (b ∷ bs) =
    if b == b'-'
    then parse_magnitude true bs
    else if b == b'+'
    then parse_magnitude false bs
    else parse_magnitude false (b ∷ bs)

unfoldable pub parse_i64 : Text → Run (Option ℤ)
unfolding text_bytes text_length parse_bytes
parse_i64 text = do bytes ← text_bytes text; _ ← text_length text; ok (parse_bytes bytes)

-- The do-while loop that fills `digits`, lowest digit first; 20 rounds serve every `uint64_t`.
unfoldable pub low_digits : ℕ → ℕ → Bytes
low_digits zero magnitude = []
low_digits (suc rounds) magnitude =
    let rest = low_digits rounds (magnitude / 10) in
    (b'0' + magnitude % 10) ∷ (if magnitude / 10 == 0 then [] else rest)

-- The copy loop at the end reads `digits` backwards.
unfoldable pub backwards : Bytes → Bytes
backwards [] = []
backwards (b ∷ bs) = backwards bs ++ b ∷ []

unfoldable pub magnitude_of : ℤ → ℕ
magnitude_of (pos n) = n
magnitude_of (negsuc n) = suc n

unfoldable pub int_bytes : ℤ → Bytes
unfolding low_digits backwards
int_bytes (pos n) = backwards (low_digits 20 n)
int_bytes (negsuc n) = b'-' ∷ backwards (low_digits 20 (suc n))

unfoldable pub from_int : Arena → ℤ → Run (Text × Arena)
unfolding int_bytes text_alloc
from_int a value = do
  (p, a') ← text_alloc a (length (int_bytes value))
  ok (blob p (int_bytes value), a')
