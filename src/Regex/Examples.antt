-- ===== src/Regex/Examples.antt =====
-- Tests on the patterns `b+(\d?)` and `(ab)`.
use beagle.Base.{◌≤◌, ◌≡◌, ◌≢◌, refl, arith, false, none, some, [], ◌∷◌, replicate}
use beagle.Base.Int.{pos, negsuc}
use beagle.Text.{Bytes}
use beagle.Regex.{
  literal, digit, capture_begin, capture_end, Program, State, plain, unbounded, atom_matches, push,
  open_capture, escaped, atom, repetition, compile_step, compile_from, compile_bytes, empty_program,
}
use beagle.Regex.Match.{
  to_int64, mark_start, mark_end, available, longest_first, take_run, match_tokens, Matches,
}
use beagle.Regex.Matched.{match_tokens-Matches, Matches-match_tokens}
use beagle.Regex.Search.{
  empty_state, with_whole, attempt, search_from, search_bytes, Leftmost, search_bytes-Leftmost,
}
use beagle.Regex.Fuel.{Compiles, compile_from-Compiles}
use beagle.Regex.Compiled.{Fits, compile_bytes-Fits}

-- `b+(\d?)`
abbrev pattern_bytes : Bytes
pattern_bytes = b'b' ∷ b'+' ∷ b'(' ∷ 92 ∷ b'd' ∷ b'?' ∷ b')' ∷ []

abbrev compiled : Program
compiled = record {
  tokens =
      record (plain literal) { literal_byte = b'b'; maximum = unbounded }
      ∷ record (plain capture_begin) { capture = 1 }
      ∷ record (plain digit) { minimum = 0 }
      ∷ record (plain capture_end) { capture = 1 }
      ∷ [];
  captures = 1;
  anchored = false;
}

compile_bytes-pattern : compile_bytes pattern_bytes ≡ some compiled
unfolding compile_bytes compile_from compile_step atom repetition push open_capture escaped
compile_bytes-pattern = refl

compile_bytes-Fits_example : Fits compiled
compile_bytes-Fits_example = compile_bytes-Fits pattern_bytes compiled compile_bytes-pattern

-- `abb7`
abbrev source : Bytes
source = b'a' ∷ b'b' ∷ b'b' ∷ b'7' ∷ []

abbrev captured : State
captured = record {
  position = 4;
  start = negsuc 0 ∷ pos 3 ∷ replicate 6 (negsuc 0);
  end = negsuc 0 ∷ pos 4 ∷ replicate 6 (negsuc 0);
}

match_tokens-source : match_tokens compiled.tokens source 4 (empty_state 1) ≡ some captured
unfolding match_tokens take_run available longest_first atom_matches mark_start mark_end to_int64
    empty_state
match_tokens-source = refl

empty_state_inside : (empty_state 1).position ≤ 4
unfolding empty_state
empty_state_inside = omega arith

match_tokens-Matches_example : Matches source 4 compiled.tokens (empty_state 1) captured
match_tokens-Matches_example =
    match_tokens-Matches source 4 compiled.tokens (empty_state 1) empty_state_inside
      match_tokens-source

-- The whole match is capture 0.
abbrev whole : State
whole = record captured {
  start = pos 1 ∷ pos 3 ∷ replicate 6 (negsuc 0);
  end = pos 4 ∷ pos 4 ∷ replicate 6 (negsuc 0);
}

search_bytes-source : search_bytes compiled source 0 ≡ some whole
unfolding search_bytes search_from attempt with_whole match_tokens take_run available longest_first
    atom_matches mark_start mark_end to_int64 empty_state
search_bytes-source = refl

search_bytes-Leftmost_example : Leftmost compiled source 0 whole
search_bytes-Leftmost_example = search_bytes-Leftmost compiled source 0 search_bytes-source

by_hand : Matches source 4 compiled.tokens (empty_state 1) captured
by_hand =
    match_tokens-Matches source 4 compiled.tokens (empty_state 1) empty_state_inside
      match_tokens-source

Matches-match_tokens_example : match_tokens compiled.tokens source 4 (empty_state 1) ≢ none
Matches-match_tokens_example = Matches-match_tokens source 4 by_hand

-- `a7`
abbrev no_match : Bytes
no_match = b'a' ∷ b'7' ∷ []

search_bytes-no_match : search_bytes compiled no_match 0 ≡ none
unfolding search_bytes search_from attempt with_whole match_tokens take_run available longest_first
    atom_matches mark_start mark_end to_int64 empty_state
search_bytes-no_match = refl

compile_from-Compiles_example :
    Compiles empty_program pattern_bytes (compile_from 7 empty_program pattern_bytes)
compile_from-Compiles_example = compile_from-Compiles 7 empty_program pattern_bytes (omega arith)
