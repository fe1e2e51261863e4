-- ===== src/Text/Examples.antt =====
-- Tests on short texts.
use beagle.Base.{
  ℕ, ◌≡◌, refl, arith, true, false, Option, none, some, List, [], ◌∷◌, ◌++◌, ok, if◌then◌else◌,
  ◌&&◌, leb,
}
use beagle.Base.Int.{pos, negsuc, int_max}
use beagle.Arena.{Arena, alloc, bump}
use beagle.Text.{Text, blob, Bytes, text_length, text_bytes, text_alloc, memcmp, compare_bytes}
use beagle.Text.Order.{compare_bytes-lexicographic, lexicographic}
use beagle.Text.Search.{matches_at, found, scan_up, index_of, scan_down, last_index_of}
use beagle.Text.Search.Laws.{FirstOccurs, index_of-first}
use beagle.Text.Integer.{
  parse_digits, parse_magnitude, parse_bytes, with_sign, low_digits, backwards, int_bytes,
}
use beagle.Text.Integer.Parse.{all_digits, numeral_value, parse_digits-exact}
use beagle.Text.Integer.RoundTrip.{parse_bytes-int_bytes}
use beagle.Text.Build.{
  total_length, fill_parts, concat, join_length, join_fill, join, repeat_fill, repeat,
}
use beagle.Text.Build.Laws.{Present, separated, join-separated}

abbrev room : Arena
room = record {
  bytes = 4096;
  capacity = 65536;
  offset = 0;
  chunks = [];
  buffer_registry = none;
  growth_floor = 0;
  growable = false;
  allocation_count = 0;
  buffer_storage_allocation_count = 0;
  buffer_storage_current_bytes = 0;
  buffer_storage_high_water_bytes = 0;
  heap = record { answers = []; given = []; freed = [] };
}

-- `abab` and `ab`
abbrev abab : Bytes
abab = 97 ∷ 98 ∷ 97 ∷ 98 ∷ []

abbrev ab : Bytes
ab = 97 ∷ 98 ∷ []

index_of-abab : index_of (blob 8 abab) (blob 32 ab) ≡ ok (some 0)
unfolding index_of scan_up matches_at found memcmp text_length text_bytes
index_of-abab = refl

last_index_of-abab : last_index_of (blob 8 abab) (blob 32 ab) ≡ ok (some 2)
unfolding last_index_of scan_down matches_at found memcmp text_length text_bytes
last_index_of-abab = refl

index_of-first_example :
    (r : Option ℕ) × (index_of (blob 8 abab) (blob 32 ab) ≡ ok r) × FirstOccurs abab ab r
index_of-first_example = index_of-first 8 32 abab ab (omega arith) (omega arith)

compare_bytes-lexicographic_example : compare_bytes ab abab ≡ lexicographic ab abab
compare_bytes-lexicographic_example = compare_bytes-lexicographic ab abab

-- `-128`
int_bytes-minus : int_bytes (negsuc 127) ≡ b'-' ∷ b'1' ∷ b'2' ∷ b'8' ∷ []
unfolding int_bytes backwards low_digits
int_bytes-minus = refl

parse_bytes-least : parse_bytes (int_bytes (negsuc int_max)) ≡ some (negsuc int_max)
unfolding parse_bytes parse_magnitude parse_digits with_sign int_bytes backwards low_digits
parse_bytes-least = refl

parse_bytes-int_bytes_example : parse_bytes (int_bytes (negsuc 127)) ≡ some (negsuc 127)
parse_bytes-int_bytes_example = parse_bytes-int_bytes (negsuc 127) (omega arith)

parse_digits-exact_example : parse_digits int_max (b'4' ∷ b'2' ∷ []) 0 ≡ (
    if all_digits (b'4' ∷ b'2' ∷ []) && leb (numeral_value (b'4' ∷ b'2' ∷ []) 0) int_max
    then some (numeral_value (b'4' ∷ b'2' ∷ []) 0)
    else none)
parse_digits-exact_example =
    parse_digits-exact int_max (b'4' ∷ b'2' ∷ []) 0 (omega arith) (omega arith) (omega arith)

abbrev parts : List Text
parts = blob 8 abab ∷ blob 64 [] ∷ blob 32 ab ∷ []

abbrev after : ℕ → Arena
after offset = record room { offset = offset; allocation_count = 1 }

concat-parts : concat room parts ≡ ok (blob 4096 (abab ++ ab), after 14)
unfolding concat total_length fill_parts text_length text_bytes text_alloc alloc bump
concat-parts = refl

-- With a comma between.
join-parts :
    join room (blob 16 (b',' ∷ [])) parts ≡ ok (blob 4096 (abab ++ b',' ∷ b',' ∷ ab), after 16)
unfolding join join_length join_fill text_length text_bytes text_alloc alloc bump
join-parts = refl

join-separated_example :
    Present parts
    × ((p q : ℕ) × (bs : Bytes) × (blob 16 (b',' ∷ []) ≡ blob q bs)
        × (blob 4096 (abab ++ b',' ∷ b',' ∷ ab) ≡ blob p (separated bs true parts)))
join-separated_example =
    join-separated room (blob 16 (b',' ∷ [])) parts (blob 4096 (abab ++ b',' ∷ b',' ∷ ab))
      (after 16) join-parts

repeat-ab : repeat room (blob 32 ab) (pos 2) ≡ ok (blob 4096 abab, after 12)
unfolding repeat repeat_fill text_length text_bytes text_alloc alloc bump
repeat-ab = refl
