-- ===== src/Regex/Match.antt =====
-- native-core/shim/native_shim.c, `native_regex_match_tokens`: the backtracking matcher, and what
-- a match is.
use beagle.Base.{
  ℕ, zero, suc, ◌+◌, ◌-◌, ◌≤◌, ◌^◌, ◌≡◌, Bool, true, false, Option, none, some, List, [], ◌∷◌, ltb,
  ◌==◌, if◌then◌else◌, set,
}
use beagle.Base.Int.{ℤ, pos, negsuc, int_max}
use beagle.Text.{Bytes}
use beagle.Utf8.{byte_at}
use beagle.Regex.{
  Kind, begin_anchor, end_anchor, capture_begin, capture_end, Token, State, atom_matches,
}

-- `(int64_t)` of a position.
unfoldable pub to_int64 : ℕ → ℤ
to_int64 n = if ltb int_max n then negsuc (2 ^ 64 - 1 - n) else pos n

abbrev pub advance : State → ℕ → State
advance state n = record state { position = state.position + n }

unfoldable pub mark_start : State → ℕ → State
unfolding to_int64
mark_start state capture = record state {
  start = set state.start capture (to_int64 state.position);
}

unfoldable pub mark_end : State → ℕ → State
unfolding to_int64
mark_end state capture = record state { end = set state.end capture (to_int64 state.position) }

-- The bytes from `at` on that the token takes, `limit` at most.
unfoldable pub available : ℕ → Token → Bytes → ℕ → ℕ
unfolding atom_matches
available zero token source at = 0
available (suc limit) token source at =
    let further = available limit token source (at + 1) in
    if atom_matches token (byte_at source at) then suc further else 0

-- The loop at the end: the longest run first, then one byte less, down to the minimum.
unfoldable pub longest_first : (ℕ → Option State) → ℕ → ℕ → Option State
longest_first next minimum zero = next minimum
longest_first next minimum (suc extra) = elim (next (minimum + suc extra)) [
  | some found ↦ some found
  | none ↦ longest_first next minimum extra
]

abbrev pub limit_of : Token → ℕ → ℕ → ℕ
limit_of token source_length at =
    if ltb token.maximum (source_length - at) then token.maximum else source_length - at

-- The last case: a token that takes bytes.
unfoldable pub take_run : Token → (ℕ → Option State) → Bytes → ℕ → ℕ → Option State
unfolding available longest_first
take_run token next source source_length at =
    let run = available (limit_of token source_length at) token source at in
    let tried = longest_first next token.minimum (run - token.minimum) in
    if ltb run token.minimum then none else tried

unfoldable pub match_tokens : List Token → Bytes → ℕ → State → Option State
unfolding mark_start mark_end take_run
match_tokens [] source source_length state = some state
match_tokens (token ∷ tokens) source source_length state =
    let behind = match_tokens tokens source source_length in
    elim token.kind [
      | begin_anchor ↦ elim (state.position == 0) [ true ↦ behind state | false ↦ none ]
      | end_anchor ↦ elim (state.position == source_length) [ true ↦ behind state | false ↦ none ]
      | capture_begin ↦ behind (mark_start state token.capture)
      | capture_end ↦ behind (mark_end state token.capture)
      | _ ↦ take_run token (λ n. behind (advance state n)) source source_length state.position
    ]

-- A token that takes bytes.
abbrev pub takes_bytes : Kind → Bool
takes_bytes begin_anchor = false
takes_bytes end_anchor = false
takes_bytes capture_begin = false
takes_bytes capture_end = false
takes_bytes _ = true

-- `n` bytes from `at` on, each of which the token takes.
pub data Taken (token : Token) (source : Bytes) : ℕ → ℕ → Type 0 where
  nothing : {at : ℕ} → Taken token source at 0
  one_more :
      {at n : ℕ}
      → atom_matches token (byte_at source at) ≡ true
      → Taken token source (at + 1) n
      → Taken token source at (suc n)

-- What a match of a list of tokens is: a token takes any number of bytes within its bounds.
pub data Matches (source : Bytes) (source_length : ℕ) : List Token → State → State → Type 0 where
  finished : {state : State} → Matches source source_length [] state state
  at_begin :
      {token : Token} {tokens : List Token} {state result : State}
      → token.kind ≡ begin_anchor
      → state.position ≡ 0
      → Matches source source_length tokens state result
      → Matches source source_length (token ∷ tokens) state result
  at_end :
      {token : Token} {tokens : List Token} {state result : State}
      → token.kind ≡ end_anchor
      → state.position ≡ source_length
      → Matches source source_length tokens state result
      → Matches source source_length (token ∷ tokens) state result
  opens :
      {token : Token} {tokens : List Token} {state result : State}
      → token.kind ≡ capture_begin
      → Matches source source_length tokens (mark_start state token.capture) result
      → Matches source source_length (token ∷ tokens) state result
  closes :
      {token : Token} {tokens : List Token} {state result : State}
      → token.kind ≡ capture_end
      → Matches source source_length tokens (mark_end state token.capture) result
      → Matches source source_length (token ∷ tokens) state result
  takes :
      {token : Token} {tokens : List Token} {state result : State}
      → (n : ℕ) → takes_bytes token.kind ≡ true
      → token.minimum ≤ n
      → n ≤ token.maximum
      → state.position + n ≤ source_length
      → Taken token source state.position n
      → Matches source source_length tokens (advance state n) result
      → Matches source source_length (token ∷ tokens) state result
