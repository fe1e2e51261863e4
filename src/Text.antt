-- ===== src/Text.antt =====
-- native-core/shim/native_shim.c, texts: immutable length-prefixed byte strings in an arena,
-- reached through handles. A handle is NULL, or its address with the bytes that it reaches.
pub mod Order
pub mod Search
pub mod Integer
pub mod Build
mod Examples
use beagle.Base.{
  ℕ, zero, suc, ◌+◌, ◌-◌, ◌*◌, ◌/◌, ◌%◌, ◌^◌, Bool, true, false, not, ◌||◌, ◌&&◌, Option, none,
  some, List, [], ◌∷◌, ◌++◌, ltb, leb, ◌==◌, if◌then◌else◌, Run, ok, trap, trap_if, ◌>>=◌, ◌>>◌,
  invalid_argument, overflow, arena_exhausted, out_of_range, length, take, drop, replicate,
  copy_into,
}
use beagle.Arena.{Arena, alloc, word_max}

abbrev pub Bytes : Type 0
Bytes = List ℕ

pub data Text : Type 0 where
  null : Text
  blob : ℕ → Bytes → Text

abbrev pub handle : Text → ℕ
handle null = 0
handle (blob p bs) = p

-- NATIVE_TEXT_HEADER_BYTES, and the alignment of a blob.
abbrev pub header_bytes : ℕ
header_bytes = 8

unfoldable pub text_length : Text → Run ℕ
text_length null = trap invalid_argument
text_length (blob p bs) = ok (length bs)

unfoldable pub text_bytes : Text → Run Bytes
text_bytes null = trap invalid_argument
text_bytes (blob p bs) = ok bs

-- What `memcmp` says of the first bytes of two arrays.
pub data Sign : Type 0 where
  less equal greater : Sign

abbrev pub is_equal : Sign → Bool
is_equal equal = true
is_equal _ = false

unfoldable pub memcmp : Bytes → Bytes → ℕ → Sign
memcmp xs ys zero = equal
memcmp [] ys (suc n) = equal
memcmp (x ∷ xs) [] (suc n) = equal
memcmp (x ∷ xs) (y ∷ ys) (suc n) =
    let rest = memcmp xs ys n in if ltb x y then less else if ltb y x then greater else rest

-- The part of `native_text_eq` and of `native_text_compare` that reads both texts.
unfoldable pub both : Text → Text → Run (Bytes × Bytes)
unfolding text_length text_bytes
both left right = do
  _ ← text_length left
  _ ← text_length right
  xs ← text_bytes left
  ys ← text_bytes right
  ok (xs, ys)

unfoldable pub eq_bytes : Bytes → Bytes → Bool
unfolding memcmp
eq_bytes xs ys = (length xs == length ys) && (length xs == 0 || is_equal (memcmp xs ys (length xs)))

unfoldable pub text_eq : Text → Text → Run Bool
unfolding both eq_bytes
text_eq left right =
    let compared = both left right >>= λ t. ok (eq_bytes t.0 t.1) in
    if handle left == handle right then ok true else compared

-- The result of `native_text_compare`: less for -1, greater for 1.
unfoldable pub compare_bytes : Bytes → Bytes → Sign
unfolding memcmp
compare_bytes xs ys =
    let shared = if ltb (length xs) (length ys) then length xs else length ys in
    elim (memcmp xs ys shared) [
      | less ↦ less
      | greater ↦ greater
      | equal ↦
          if ltb (length xs) (length ys)
          then less
          else if ltb (length ys) (length xs)
          then greater
          else equal
    ]

unfoldable pub text_compare : Text → Text → Run Sign
unfolding both compare_bytes
text_compare left right = both left right >>= λ t. ok (compare_bytes t.0 t.1)

-- A blob of `count` bytes; what is written into them is given by the caller.
unfoldable pub text_alloc : Arena → ℕ → Run (ℕ × Arena)
unfolding alloc
text_alloc a count = do
  trap_if (ltb (word_max - header_bytes) count) arena_exhausted
  alloc a (header_bytes + count) 8

-- The bytes of a blob before anything is written into them.
abbrev pub blank : ℕ → Bytes
blank n = replicate n 0

unfoldable pub text_slice : Arena → Text → ℕ → ℕ → Run (Text × Arena)
unfolding text_length text_bytes text_alloc
text_slice a text start end = do
  trap_if (ltb end start) invalid_argument
  count ← text_length text
  trap_if (ltb count end) invalid_argument
  (p, a') ← text_alloc a (end - start)
  bytes ← text_bytes text
  ok (blob p (copy_into (blank (end - start)) 0 (take (end - start) (drop start bytes))), a')

unfoldable pub copy_range : Arena → Text → ℕ → ℕ → Run (Text × Arena)
unfolding text_length text_slice
copy_range a source start end = do
  trap_if (ltb end start) out_of_range
  count ← text_length source
  trap_if (ltb count end) out_of_range
  text_slice a source start end
