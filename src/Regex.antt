-- ===== src/Regex.antt =====
-- native-core/shim/native_shim.c, regular expressions: the compiler of patterns into at most 128
-- tokens, and the backtracking matcher. A pattern position is the list of the bytes from it on.
pub mod Match
pub mod Matched
pub mod Search
pub mod Compiled
pub mod Fuel
mod Examples
use beagle.Base.{
  ℕ, zero, suc, ◌+◌, ◌-◌, ◌*◌, ◌/◌, ◌^◌, Bool, true, false, not, ◌||◌, ◌&&◌, Option, none, some,
  List, [], ◌∷◌, ◌++◌, ltb, leb, ◌==◌, if◌then◌else◌, Run, ok, trap, trap_if, ◌>>=◌, ◌>>◌, length,
  get_or, set, drop, replicate,
}
use beagle.Base.Int.{ℤ, pos, negsuc, int_max, eq_int}
use beagle.Text.{Text, Bytes, text_length, text_bytes}
use beagle.Utf8.{byte_at}

-- NATIVE_REGEX_MAX_TOKENS, NATIVE_REGEX_MAX_CAPTURES and UINT64_MAX.
abbrev pub max_tokens : ℕ
max_tokens = 128

abbrev pub max_captures : ℕ
max_captures = 8

abbrev pub unbounded : ℕ
unbounded = 2 ^ 64 - 1

pub data Kind : Type 0 where
  literal any class digit space nonspace begin_anchor end_anchor capture_begin capture_end : Kind

-- `class_bytes` stands for `class_start` and `class_length`.
pub record Token : Type 0 where
  kind : Kind
  literal_byte : ℕ
  class_bytes : Bytes
  minimum : ℕ
  maximum : ℕ
  capture : ℕ
  negated : Bool

-- `tokens` holds `count` tokens.
pub record Program : Type 0 where
  tokens : List Token
  captures : ℕ
  anchored : Bool

pub record State : Type 0 where
  position : ℕ
  start : List ℤ
  end : List ℤ

unfoldable pub is_space : ℕ → Bool
is_space byte = byte == b' ' || byte == 9 || byte == 10 || byte == 13 || byte == 11 || byte == 12

-- The loop over a class: three bytes with a dash in the middle are a range.
unfoldable pub listed : Bytes → ℕ → Bool
listed [] byte = false
listed (first ∷ []) byte = byte == first
listed (first ∷ next ∷ []) byte = byte == first || listed (next ∷ []) byte
listed (first ∷ next ∷ last ∷ rest) byte =
    let behind = listed rest byte in
    let without = listed (next ∷ last ∷ rest) byte in
    if next == b'-' then (leb first byte && leb byte last) || behind else byte == first || without

unfoldable pub class_member : Token → ℕ → Bool
unfolding listed
class_member token byte =
    if token.negated then not (listed (token.class_bytes) byte) else listed (token.class_bytes) byte

unfoldable pub atom_matches : Token → ℕ → Bool
unfolding is_space class_member
atom_matches token byte = elim (token.kind) [
  | literal ↦ byte == token.literal_byte
  | any ↦ true
  | class ↦ class_member token byte
  | digit ↦ leb b'0' byte && leb byte b'9'
  | space ↦ is_space byte
  | nonspace ↦ not (is_space byte)
  | _ ↦ false
]

-- Refused when the program is full.
unfoldable pub push : Program → Token → Option Program
push program token =
    if leb max_tokens (length (program.tokens))
    then none
    else some (record program { tokens = program.tokens ++ token ∷ [] })

-- A decimal number and what follows it; `read` counts the digits so far.
unfoldable pub number : Bytes → ℕ → ℕ → Option (ℕ × Bytes)
number [] result read = if read == 0 then none else some (result, [])
number (b ∷ rest) result read =
    let digit' = b - b'0' in
    let further = number rest (result * 10 + digit') (read + 1) in
    if (leb b'0' b && leb b b'9')
    then (if ltb ((unbounded - digit') / 10) result then none else further)
    else if read == 0
    then none
    else some (result, b ∷ rest)

-- What stands before the closing bracket, and what behind it.
unfoldable pub class_end : Bytes → Option (Bytes × Bytes)
class_end [] = none
class_end (b ∷ rest) =
    let further = class_end rest in
    if b == b']'
    then some ([], rest)
    else elim further [ none ↦ none | some (inside, behind) ↦ some (b ∷ inside, behind) ]

abbrev pub is_capture_begin : Kind → Bool
is_capture_begin capture_begin = true
is_capture_begin _ = false

-- The backward scan at `)`: the last token that opens a capture of number `capture` at most.
unfoldable pub open_capture : List Token → ℕ → Option ℕ
open_capture [] capture' = none
open_capture (t ∷ ts) capture' = elim (open_capture ts capture') [
  | some c ↦ some c
  | none ↦ if is_capture_begin (t.kind) && leb (t.capture) capture' then some (t.capture) else none
]

-- A token as the zeroed structure with the two bounds at 1.
abbrev pub plain : Kind → Token
plain k = record {
  kind = k;
  literal_byte = 0;
  class_bytes = [];
  minimum = 1;
  maximum = 1;
  capture = 0;
  negated = false;
}

unfoldable pub class_token : Bool → Bytes → Option (Token × Bytes)
unfolding class_end
class_token negated' rest = elim (class_end rest) [
  | none ↦ none
  | some (inside, behind) ↦
      some (record (plain class) { class_bytes = inside; negated = negated' }, behind)
]

unfoldable pub escaped : Bytes → Option (Token × Bytes)
escaped [] = none
escaped (b ∷ rest) =
    if b == b'd'
    then some (plain digit, rest)
    else if b == b's'
    then some (plain space, rest)
    else if b == b'S'
    then some (plain nonspace, rest)
    else some (record (plain literal) { literal_byte = b }, rest)

-- The first half of a round of the loop: the token without its repetition.
unfoldable pub atom : Program → ℕ → Bytes → Option (Token × (Program × Bytes))
unfolding open_capture class_token escaped
atom program b rest =
    let with_program = λ (found : Option (Token × Bytes)).
      elim found as (λ _. Option (Token × (Program × Bytes))) [
        | none ↦ none
        | some (token, behind) ↦ some (token, (program, behind))
      ] in
    if b == b'('
    then (if leb max_captures (program.captures + 1)
        then none
        else some (
          record (plain capture_begin) { capture = program.captures + 1 },
          (record program { captures = program.captures + 1 }, rest),
        ))
    else if b == b')'
    then some (
      record (plain capture_end) {
        capture = elim (open_capture (program.tokens) (program.captures)) [
          | some c ↦ c
          | none ↦ program.captures
        ];
      },
      (program, rest),
    )
    else if b == b'^'
    then some (plain begin_anchor, (record program { anchored = true }, rest))
    else if b == b'$'
    then some (plain end_anchor, (program, rest))
    else if b == b'['
    then with_program (elim rest [
      | [] ↦ class_token false []
      | c ∷ behind ↦ if c == b'^' then class_token true behind else class_token false (c ∷ behind)
    ])
    else if b == 92
    then with_program (escaped rest)
    else if b == b'.'
    then some (plain any, (program, rest))
    else some (record (plain literal) { literal_byte = b }, (program, rest))

-- `token.kind <= NATIVE_REGEX_NONSPACE`
abbrev pub is_repeatable : Kind → Bool
is_repeatable begin_anchor = false
is_repeatable end_anchor = false
is_repeatable capture_begin = false
is_repeatable capture_end = false
is_repeatable _ = true

unfoldable pub exactly : Token → Option (ℕ × Bytes) → Option (Token × Bytes)
exactly token none = none
exactly token (some (exact, [])) = none
exactly token (some (exact, b ∷ rest)) =
    if b == b'}' then some (record token { minimum = exact; maximum = exact }, rest) else none

-- The second half: `+`, `*`, `?` or `{n}`.
unfoldable pub repetition : Token → Bytes → Option (Token × Bytes)
unfolding exactly number
repetition token [] = some (token, [])
repetition token (b ∷ rest) =
    if not (is_repeatable (token.kind))
    then some (token, b ∷ rest)
    else if b == b'+'
    then some (record token { maximum = unbounded }, rest)
    else if b == b'*'
    then some (record token { minimum = 0; maximum = unbounded }, rest)
    else if b == b'?'
    then some (record token { minimum = 0 }, rest)
    else if b == b'{'
    then exactly token (number rest 0 0)
    else some (token, b ∷ rest)

unfoldable pub compile_step : Program → ℕ → Bytes → Option (Program × Bytes)
unfolding atom repetition push
compile_step program b rest = elim (atom program b rest) [
  | none ↦ none
  | some (token, (program', behind)) ↦ elim (repetition token behind) [
    | none ↦ none
    | some (token', behind') ↦ elim (push program' token') [
      | none ↦ none
      | some program₂ ↦ some (program₂, behind')
    ]
  ]
]

-- The loop; every round takes a byte at least, so the length of the pattern is fuel enough.
unfoldable pub compile_from : ℕ → Program → Bytes → Option Program
unfolding compile_step
compile_from fuel program [] = some program
compile_from zero program (b ∷ rest) = none
compile_from (suc fuel) program (b ∷ rest) = elim (compile_step program b rest) [
  | none ↦ none
  | some (program', behind) ↦ compile_from fuel program' behind
]

abbrev pub empty_program : Program
empty_program = record { tokens = []; captures = 0; anchored = false }

unfoldable pub compile_bytes : Bytes → Option Program
unfolding compile_from
compile_bytes bytes = compile_from (length bytes) empty_program bytes

unfoldable pub compile : Text → Run (Option Program)
unfolding compile_bytes text_bytes
compile pattern = do bytes ← text_bytes pattern; ok (compile_bytes bytes)
