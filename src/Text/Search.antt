-- ===== src/Text/Search.antt =====
-- native-core/shim/native_shim.c, `native_text_index_of` and `native_text_last_index_of`.
pub mod Laws
use beagle.Base.{
  ℕ, zero, suc, ◌+◌, ◌-◌, Bool, true, false, Option, none, some, List, [], ◌∷◌, ltb, ◌==◌,
  if◌then◌else◌, Run, ok, trap, trap_if, ◌>>=◌, ◌>>◌, overflow, length, drop,
}
use beagle.Base.Int.{int_max}
use beagle.Text.{Text, Bytes, text_length, text_bytes, memcmp, is_equal}

-- `memcmp(source + index, needle, needle_length) == 0`
unfoldable pub matches_at : Bytes → Bytes → ℕ → Bool
unfolding memcmp
matches_at source needle index = is_equal (memcmp (drop index source) needle (length needle))

-- An index that is found goes out as an `int64_t`.
unfoldable pub found : ℕ → Run (Option ℕ)
found index = do trap_if (ltb int_max index) overflow; ok (some index)

-- The upward loop, with its rounds left.
unfoldable pub scan_up : ℕ → ℕ → Bytes → Bytes → Run (Option ℕ)
unfolding matches_at found
scan_up zero index source needle = ok none
scan_up (suc rounds) index source needle =
    let rest = scan_up rounds (index + 1) source needle in
    if matches_at source needle index then found index else rest

unfoldable pub index_of : Text → Text → Run (Option ℕ)
unfolding scan_up text_length text_bytes
index_of source needle = do
  source_length ← text_length source
  needle_length ← text_length needle
  source_bytes ← text_bytes source
  needle_bytes ← text_bytes needle
  let search = scan_up (source_length - needle_length + 1) 0 source_bytes needle_bytes
  if needle_length == 0
      then ok (some 0)
      else if ltb source_length needle_length
      then ok none
      else search

-- The downward loop, which stops at index 0.
unfoldable pub scan_down : ℕ → Bytes → Bytes → Run (Option ℕ)
unfolding matches_at found
scan_down zero source needle = if matches_at source needle 0 then found 0 else ok none
scan_down (suc index) source needle =
    let rest = scan_down index source needle in
    if matches_at source needle (suc index) then found (suc index) else rest

unfoldable pub last_index_of : Text → Text → Run (Option ℕ)
unfolding scan_down text_length text_bytes found
last_index_of source needle = do
  source_length ← text_length source
  needle_length ← text_length needle
  source_bytes ← text_bytes source
  needle_bytes ← text_bytes needle
  let search = scan_down (source_length - needle_length) source_bytes needle_bytes
  if needle_length == 0
      then found source_length
      else if ltb source_length needle_length
      then ok none
      else search
