-- ===== src/Utf8.antt =====
-- native-core/shim/native_shim.c, UTF-8: the decoder step, the encoder, the validator, and what is
-- built on them. Bytes are read inside `length` only; `byte_at` gives 0 behind the list.
pub mod Bytewise
pub mod RoundTrip
pub mod Decoded
pub mod Encoded
mod Examples
pub mod Valid
use beagle.Base.{
  ℕ, zero, suc, ◌+◌, ◌-◌, ◌*◌, ◌/◌, ◌%◌, ◌^◌, bit_and, bit_or, Bool, true, false, not, ◌||◌, ◌&&◌,
  Option, none, some, List, [], ◌∷◌, ◌++◌, ltb, leb, ◌==◌, if◌then◌else◌, Run, ok, trap, trap_if,
  ◌>>=◌, ◌>>◌, invalid_argument, length, get_or,
}
use beagle.Base.Int.{ℤ, pos, negsuc}
use beagle.Arena.{Arena}
use beagle.Text.{Text, blob, Bytes, text_length, text_bytes, text_alloc, copy_range}

abbrev pub byte_at : Bytes → ℕ → ℕ
byte_at bytes i = get_or bytes i 0

abbrev pub between : ℕ → ℕ → ℕ → Bool
between lo hi x = leb lo x && leb x hi

-- The leading byte: the value of its bits and how many bytes follow.
unfoldable pub lead : ℕ → Option (ℕ × ℕ)
lead first =
    if between 0xc2 0xdf first
    then some (bit_and first 0x1f, 1)
    else if between 0xe0 0xef first
    then some (bit_and first 0x0f, 2)
    else if between 0xf0 0xf4 first
    then some (bit_and first 0x07, 3)
    else none

-- The loop over the continuation bytes from `at` on, in `uint32_t`.
unfoldable pub continue_value : ℕ → ℕ → Bytes → ℕ → Option ℕ
continue_value zero at bytes value = some value
continue_value (suc needed) at bytes value =
    let continuation = byte_at bytes at in
    let value' = bit_or (value * 2 ^ 6 % 2 ^ 32) (bit_and continuation 0x3f) in
    let rest = continue_value needed (at + 1) bytes value' in
    if bit_and continuation 0xc0 == 0x80 then rest else none

-- The last test: overlong forms, surrogates and values past the last code point.
unfoldable pub refused : ℕ → ℕ → Bool
refused needed value =
    (needed == 2 && ltb value 0x800)
    || (needed == 3 && ltb value 0x10000)
    || between 0xd800 0xdfff value
    || ltb 0x10ffff value

-- The code point at the offset, with the offset behind it.
unfoldable pub utf8_next : Bytes → ℕ → ℕ → Option (ℕ × ℕ)
unfolding lead continue_value refused
utf8_next bytes length' offset =
    if leb length' offset
    then none
    else let first = byte_at bytes offset in
      if ltb first 0x80 then some (first, offset + 1) else elim (lead first) [
        | none ↦ none
        | some (bits, needed) ↦
            if ltb (length' - offset - 1) needed
            then none
            else elim (continue_value needed (offset + 1) bytes bits) [
              | none ↦ none
              | some value ↦
                  if refused needed value then none else some (value, offset + (needed + 1))
            ]
      ]

-- Back over continuation bytes to the start of a code point.
unfoldable pub back_up : Bytes → ℕ → ℕ
back_up bytes zero = zero
back_up bytes (suc start) =
    let further = back_up bytes start in
    if bit_and (byte_at bytes (suc start)) 0xc0 == 0x80 then further else suc start

unfoldable pub utf8_previous : Bytes → ℕ → ℕ → Option (ℕ × ℕ)
unfolding back_up utf8_next
utf8_previous bytes length' offset =
    if (offset == 0 || ltb length' offset)
    then none
    else let start = back_up bytes (offset - 1) in
      elim (utf8_next bytes length' start) [
        | none ↦ none
        | some (value, decoded) ↦ if decoded == offset then some (value, start) else none
      ]

unfoldable pub codepoint_length : ℕ → Run ℕ
codepoint_length c =
    if leb c 0x7f
    then ok 1
    else if leb c 0x7ff
    then ok 2
    else if leb c 0xffff
    then ok 3
    else if leb c 0x10ffff
    then ok 4
    else trap invalid_argument

-- `0x80 | (bits & 0x3f)` and a leading byte, as `uint8_t`.
abbrev pub trailing : ℕ → ℕ
trailing bits = bit_or 0x80 (bit_and bits 0x3f) % 2 ^ 8

abbrev pub leading : ℕ → ℕ → ℕ
leading mark bits = bit_or mark bits % 2 ^ 8

-- The bytes that `native_utf8_write_codepoint` writes.
unfoldable pub write_codepoint : ℕ → Run Bytes
write_codepoint c =
    if leb c 0x7f
    then ok (c ∷ [])
    else if leb c 0x7ff
    then ok (leading 0xc0 (c / 2 ^ 6) ∷ trailing c ∷ [])
    else if leb c 0xffff
    then ok (leading 0xe0 (c / 2 ^ 12) ∷ trailing (c / 2 ^ 6) ∷ trailing c ∷ [])
    else if leb c 0x10ffff
    then ok
        (leading 0xf0 (c / 2 ^ 18) ∷ trailing (c / 2 ^ 12) ∷ trailing (c / 2 ^ 6) ∷ trailing c ∷ [])
    else trap invalid_argument

-- What is no Unicode scalar value.
unfoldable pub not_scalar : ℤ → Bool
not_scalar (negsuc n) = true
not_scalar (pos c) = ltb 0x10ffff c || between 0xd800 0xdfff c

unfoldable pub from_codepoint : Arena → ℤ → Run (Text × Arena)
unfolding not_scalar codepoint_length write_codepoint text_alloc
from_codepoint a (negsuc n) = trap invalid_argument
from_codepoint a (pos c) = do
  trap_if (not_scalar (pos c)) invalid_argument
  count ← codepoint_length c
  (p, a') ← text_alloc a count
  bytes ← write_codepoint c
  ok (blob p bytes, a')

unfoldable pub continuation : ℕ → Bool
continuation byte = between 0x80 0xbf byte

-- The bytes that a valid sequence at `index` takes, by the tests of `native_utf8_valid`.
unfoldable pub sequence_length : Bytes → ℕ → ℕ → Option ℕ
unfolding continuation
sequence_length bytes length' index =
    let first = byte_at bytes index in
    let second = byte_at bytes (index + 1) in
    if leb first 0x7f
    then some 1
    else if between 0xc2 0xdf first
    then if (ltb (length' - index) 2 || not (continuation second)) then none else some 2
    else if between 0xe0 0xef first
    then if (ltb (length' - index) 3
        || not (continuation (byte_at bytes (index + 2)))
        || (first == 0xe0 && ltb second 0xa0)
        || (first == 0xed && ltb 0x9f second)
        || not (continuation second))
      then none
      else some 3
    else if between 0xf0 0xf4 first
    then if (ltb (length' - index) 4
        || not (continuation second)
        || not (continuation (byte_at bytes (index + 2)))
        || not (continuation (byte_at bytes (index + 3)))
        || (first == 0xf0 && ltb second 0x90)
        || (first == 0xf4 && ltb 0x8f second))
      then none
      else some 4
    else none

-- The loop of `native_utf8_valid`; every round takes a byte at least.
unfoldable pub valid_from : ℕ → Bytes → ℕ → ℕ → Bool
unfolding sequence_length
valid_from zero bytes length' index = leb length' index
valid_from (suc fuel) bytes length' index =
    if leb length' index then true else elim (sequence_length bytes length' index) [
      | none ↦ false
      | some n ↦ valid_from fuel bytes length' (index + n)
    ]

unfoldable pub utf8_valid : Bytes → Bool
unfolding valid_from
utf8_valid bytes = valid_from (length bytes) bytes (length bytes) 0

unfoldable pub whitespace : ℕ → Bool
whitespace c =
    between 0x0009 0x000d c
    || between 0x001c 0x0020 c
    || c == 0x1680
    || between 0x2000 0x2006 c
    || between 0x2008 0x200a c
    || between 0x2028 0x2029 c
    || c == 0x205f
    || c == 0x3000

-- The loop of `native_text_is_blank`.
unfoldable pub blank_from : ℕ → Bytes → ℕ → ℕ → Bool
unfolding utf8_next whitespace
blank_from zero bytes length' offset = leb length' offset
blank_from (suc fuel) bytes length' offset =
    if leb length' offset then true else elim (utf8_next bytes length' offset) [
      | none ↦ false
      | some (c, offset') ↦ elim (whitespace c) [
        | false ↦ false
        | true ↦ blank_from fuel bytes length' offset'
      ]
    ]

unfoldable pub is_blank : Text → Run Bool
unfolding blank_from text_length text_bytes
is_blank text = do
  count ← text_length text
  bytes ← text_bytes text
  ok (blank_from count bytes count 0)

-- One code point of the loop of `native_text_trim`; a byte that does not decode stands for itself.
unfoldable pub trim_step : Bytes → ℕ → ℕ → ℕ × ℕ
unfolding utf8_next
trim_step bytes length' offset = elim (utf8_next bytes length' offset) [
  | none ↦ (byte_at bytes offset, offset + 1)
  | some step ↦ step
]

-- The loop: `first` is `length'` until something other than white space is met.
unfoldable pub trim_from : ℕ → Bytes → ℕ → ℕ → ℕ → ℕ → ℕ × ℕ
unfolding trim_step whitespace
trim_from zero bytes length' offset first last = (first, last)
trim_from (suc fuel) bytes length' offset first last =
    if leb length' offset
    then (first, last)
    else let (c, offset') = trim_step bytes length' offset in
      elim (whitespace c) [
        | true ↦ trim_from fuel bytes length' offset' first last
        | false ↦
            trim_from fuel bytes length' offset' (if first == length' then offset else first)
              offset'
      ]

unfoldable pub trim : Arena → Text → Run (Text × Arena)
unfolding trim_from text_length text_bytes copy_range
trim a source = do
  bytes ← text_bytes source
  count ← text_length source
  let (first, last) = trim_from count bytes count 0 count 0
  if first == count then copy_range a source 0 0 else copy_range a source first last
