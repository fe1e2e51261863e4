-- ===== src/Text/Build.antt =====
-- native-core/shim/native_shim.c, the texts that are put together from others. The elements of a
-- vector of texts, and the array of parts, are given as a list.
pub mod Laws
use beagle.Base.{
  ℕ, zero, suc, ◌+◌, ◌-◌, ◌*◌, ◌/◌, Bool, true, false, not, ◌||◌, ◌&&◌, Option, none, some, List,
  [], ◌∷◌, ◌++◌, ltb, ◌==◌, if◌then◌else◌, Run, ok, trap, trap_if, ◌>>=◌, ◌>>◌, overflow, length,
  copy_into, invalid_argument,
}
use beagle.Base.Int.{ℤ, pos, negsuc}
use beagle.Arena.{Arena, word_max}
use beagle.Text.{Text, blob, Bytes, text_length, text_bytes, text_alloc, blank}

-- The first loop of `native_text_concat`.
unfoldable pub total_length : List Text → ℕ → Run ℕ
unfolding text_length
total_length [] total = ok total
total_length (t ∷ ts) total = do
  part ← text_length t
  trap_if (ltb (word_max - total) part) overflow
  total_length ts (total + part)

-- The second loop: each part is copied to the offset behind the parts before it.
unfoldable pub fill_parts : List Text → ℕ → Bytes → Run Bytes
unfolding text_length text_bytes
fill_parts [] offset destination = ok destination
fill_parts (t ∷ ts) offset destination = do
  part ← text_length t
  bytes ← text_bytes t
  let copied = copy_into destination offset bytes
  fill_parts ts (offset + part) (if part == 0 then destination else copied)

unfoldable pub concat : Arena → List Text → Run (Text × Arena)
unfolding total_length fill_parts text_alloc
concat a parts = do
  total ← total_length parts 0
  (p, a') ← text_alloc a total
  bytes ← fill_parts parts 0 (blank total)
  ok (blob p bytes, a')

-- `native_text_join`: the delimiter stands before every element but the first.
unfoldable pub join_length : ℕ → Bool → List Text → ℕ → Run ℕ
unfolding text_length
join_length separator_length first [] total = ok total
join_length separator_length first (t ∷ ts) total = do
  count ← text_length t
  let delimiter = if first then 0 else separator_length
  trap_if (ltb (word_max - total) delimiter || ltb (word_max - total - delimiter) count) overflow
  join_length separator_length false ts (total + (delimiter + count))

unfoldable pub join_fill : Bytes → Bool → List Text → ℕ → Bytes → Run Bytes
unfolding text_length text_bytes
join_fill separator first [] write output = ok output
join_fill separator first (t ∷ ts) write output = do
  count ← text_length t
  bytes ← text_bytes t
  let delimited = not first && ltb 0 (length separator)
  let write₁ = if delimited then write + length separator else write
  let output₁ = if delimited then copy_into output write separator else output
  let output₂ = if ltb 0 count then copy_into output₁ write₁ bytes else output₁
  join_fill separator false ts (write₁ + count) output₂

unfoldable pub join : Arena → Text → List Text → Run (Text × Arena)
unfolding join_length join_fill text_length text_bytes text_alloc
join a separator parts = do
  separator_length ← text_length separator
  total ← join_length separator_length true parts 0
  separator_bytes ← text_bytes separator
  (p, a') ← text_alloc a total
  bytes ← join_fill separator_bytes true parts 0 (blank total)
  ok (blob p bytes, a')

unfoldable pub repeat_fill : ℕ → ℕ → Bytes → Bytes → Bytes
repeat_fill zero index bytes output = output
repeat_fill (suc rounds) index bytes output =
    let copied = copy_into output (index * length bytes) bytes in
    repeat_fill rounds (index + 1) bytes (if ltb 0 (length bytes) then copied else output)

unfoldable pub repeat : Arena → Text → ℤ → Run (Text × Arena)
unfolding repeat_fill text_length text_bytes text_alloc
repeat a source count = do
  source_length ← text_length source
  elim count [
    | negsuc n ↦ trap invalid_argument
    | pos repetitions ↦ do
      trap_if (not (source_length == 0) && ltb (word_max / source_length) repetitions) overflow
      (p, a') ← text_alloc a (source_length * repetitions)
      bytes ← text_bytes source
      ok (blob p (repeat_fill repetitions 0 bytes (blank (source_length * repetitions))), a')
  ]
