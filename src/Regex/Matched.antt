-- ===== src/Regex/Matched.antt =====
-- The backtracking matcher against the description of a match: it finds one when there is one.
use beagle.Base.{
  ℕ, zero, suc, ◌+◌, ◌-◌, ◌≤◌, ◌≡◌, ◌≢◌, refl, ◌∙◌, arith, ◌⊎◌, inl, inr, Bool, true, false, Option,
  none, some, List, [], ◌∷◌, ◌==◌, Bool-cases, Option-cases, dec_lt,
}
use mathlib.Core.Path.{subst}
use beagle.Text.{Bytes}
use beagle.Utf8.{byte_at}
use beagle.Regex.{
  Kind, literal, any, class, digit, space, nonspace, begin_anchor, end_anchor, capture_begin,
  capture_end, Token, State, atom_matches,
}
use beagle.Regex.Match.{
  advance, mark_start, mark_end, available, longest_first, limit_of, take_run, match_tokens,
  takes_bytes, Taken, nothing, one_more, Matches, finished, at_begin, at_end, opens, closes, takes,
}

available-le :
    (limit : ℕ) (token : Token) (source : Bytes) (at : ℕ) → available limit token source at ≤ limit
unfolding available
available-le zero token source at = omega arith
available-le (suc limit) token source at = ground (arith, available-le limit token source (at + 1))

available-Taken :
    (limit : ℕ) (token : Token) (source : Bytes) (at n : ℕ)
    → n ≤ available limit token source at
    → Taken token source at n
unfolding available
available-Taken limit token source at zero h = nothing
available-Taken zero token source at (suc n) h = absurd (omega arith)
available-Taken (suc limit) token source at (suc n) h =
    elim (Bool-cases (atom_matches token (byte_at source at))) [
      | inl good ↦ one_more good (available-Taken limit token source (at + 1) n (ground arith))
      | inr bad ↦ absurd (ground arith)
    ]

Taken-available :
    {token : Token} {source : Bytes} (limit : ℕ) {at n : ℕ}
    → Taken token source at n
    → n ≤ limit
    → n ≤ available limit token source at
unfolding available
Taken-available limit nothing h = omega arith
Taken-available zero (one_more good more) h = absurd (omega arith)
Taken-available (suc limit) (one_more good more) h =
    rw good (ground (arith, Taken-available limit more (omega arith)))

longest_first-some :
    (next : ℕ → Option State) (minimum extra : ℕ) {result : State}
    → longest_first next minimum extra ≡ some result
    → (n : ℕ) × (minimum ≤ n) × (n ≤ minimum + extra) × (next n ≡ some result)
unfolding longest_first
longest_first-some next minimum zero h = (minimum, omega arith, omega arith, h)
longest_first-some next minimum (suc extra) h = elim (Option-cases (next (minimum + suc extra))) [
  | inl missed ↦
      let (n, low, high, e) =
        longest_first-some next minimum extra (rw (longest_first, missed) at h) in
      (n, low, omega arith, e)
  | inr (found, hit) ↦
      (minimum + suc extra, omega arith, omega arith, hit ∙ (rw (longest_first, hit) at h))
]

longest_first-none :
    (next : ℕ → Option State) (minimum extra n : ℕ)
    → longest_first next minimum extra ≡ none
    → minimum ≤ n
    → n ≤ minimum + extra
    → next n ≡ none
unfolding longest_first
longest_first-none next minimum zero n h low high = let e : n ≡ minimum = omega arith in rw e h
longest_first-none next minimum (suc extra) n h low high =
    elim (Option-cases (next (minimum + suc extra))) [
      | inl missed ↦ elim (dec_lt (minimum + extra) n) [
        | yes last ↦ let e : n ≡ minimum + suc extra = omega arith in rw e missed
        | no before ↦
            longest_first-none next minimum extra n (rw (longest_first, missed) at h) low
              (omega arith)
      ]
      | inr (found, hit) ↦ absurd (cc)
    ]

abbrev dispatch :
    Kind → Option State → Option State → Option State → Option State → Option State → Option State
dispatch k b e o c t = elim k [
  | begin_anchor ↦ b
  | end_anchor ↦ e
  | capture_begin ↦ o
  | capture_end ↦ c
  | _ ↦ t
]

dispatch_take :
    (k : Kind) (b e o c t : Option State) → takes_bytes k ≡ true → dispatch k b e o c t ≡ t
dispatch_take literal b e o c t h = refl
dispatch_take any b e o c t h = refl
dispatch_take class b e o c t h = refl
dispatch_take digit b e o c t h = refl
dispatch_take space b e o c t h = refl
dispatch_take nonspace b e o c t h = refl
dispatch_take begin_anchor b e o c t h = cc
dispatch_take end_anchor b e o c t h = cc
dispatch_take capture_begin b e o c t h = cc
dispatch_take capture_end b e o c t h = cc

dispatch_begin : (k : Kind) (b e o c t : Option State) → k ≡ begin_anchor → dispatch k b e o c t ≡ b
dispatch_begin k b e o c t h = rw h refl

dispatch_end : (k : Kind) (b e o c t : Option State) → k ≡ end_anchor → dispatch k b e o c t ≡ e
dispatch_end k b e o c t h = rw h refl

dispatch_open : (k : Kind) (b e o c t : Option State) → k ≡ capture_begin → dispatch k b e o c t ≡ o
dispatch_open k b e o c t h = rw h refl

dispatch_close : (k : Kind) (b e o c t : Option State) → k ≡ capture_end → dispatch k b e o c t ≡ c
dispatch_close k b e o c t h = rw h refl

-- The ways a token may be.
Kind-cases :
    (k : Kind)
    → (k ≡ begin_anchor)
      ⊎ ((k ≡ end_anchor) ⊎ ((k ≡ capture_begin) ⊎ ((k ≡ capture_end) ⊎ (takes_bytes k ≡ true))))
Kind-cases literal = inr (inr (inr (inr refl)))
Kind-cases any = inr (inr (inr (inr refl)))
Kind-cases class = inr (inr (inr (inr refl)))
Kind-cases digit = inr (inr (inr (inr refl)))
Kind-cases space = inr (inr (inr (inr refl)))
Kind-cases nonspace = inr (inr (inr (inr refl)))
Kind-cases begin_anchor = inl refl
Kind-cases end_anchor = inr (inl refl)
Kind-cases capture_begin = inr (inr (inl refl))
Kind-cases capture_end = inr (inr (inr (inl refl)))

module _ (source : Bytes) (source_length : ℕ) where
  match_take :
      (token : Token) (tokens : List Token) (state : State)
      → takes_bytes token.kind ≡ true
      → match_tokens (token ∷ tokens) source source_length state
        ≡ take_run token
            (λ n. match_tokens tokens source source_length (advance state n))
            source
            source_length
            state.position
  unfolding match_tokens
  match_take token tokens state h = dispatch_take token.kind _ _ _ _ _ h

  take_run-some :
      (token : Token) (next : ℕ → Option State) (at : ℕ) {result : State}
      → at ≤ source_length
      → take_run token next source source_length at ≡ some result
      → (n : ℕ) × (token.minimum ≤ n)
        × (n ≤ token.maximum)
        × (at + n ≤ source_length)
        × Taken token source at n
        × (next n ≡ some result)
  unfolding take_run
  take_run-some token next at inside h =
      let limit = limit_of token source_length at in
      let run = available limit token source at in
      let few = available-le limit token source at in
      elim (dec_lt run token.minimum) [
        | yes short ↦ absurd (ground arith)
        | no enough ↦
            let (n, low, high, e) =
              longest_first-some next token.minimum (run - token.minimum) (ground arith) in
            (
              n,
              low,
              ground arith,
              ground arith,
              available-Taken limit token source at n (omega arith),
              e,
            )
      ]

  take_run-none :
      (token : Token) (next : ℕ → Option State) (at n : ℕ)
      → take_run token next source source_length at ≡ none
      → token.minimum ≤ n
      → n ≤ token.maximum
      → at + n ≤ source_length
      → Taken token source at n
      → next n ≡ none
  unfolding take_run
  take_run-none token next at n h low high inside taken =
      let limit = limit_of token source_length at in
      let run = available limit token source at in
      let enough = Taken-available limit taken (ground arith) in
      longest_first-none next token.minimum (run - token.minimum) n (ground arith) low (omega arith)

  abbrev guarded : Bool → Option State → Option State
  guarded c m = elim c [ true ↦ m | false ↦ none ]

  match_begin :
      (token : Token) (tokens : List Token) (state : State)
      → token.kind ≡ begin_anchor
      → match_tokens (token ∷ tokens) source source_length state
        ≡ guarded (state.position == 0) (match_tokens tokens source source_length state)
  unfolding match_tokens
  match_begin token tokens state h = dispatch_begin token.kind _ _ _ _ _ h

  match_end :
      (token : Token) (tokens : List Token) (state : State)
      → token.kind ≡ end_anchor
      → match_tokens (token ∷ tokens) source source_length state
        ≡ guarded (state.position == source_length) (match_tokens tokens source source_length state)
  unfolding match_tokens
  match_end token tokens state h = dispatch_end token.kind _ _ _ _ _ h

  match_open :
      (token : Token) (tokens : List Token) (state : State)
      → token.kind ≡ capture_begin
      → match_tokens (token ∷ tokens) source source_length state
        ≡ match_tokens tokens source source_length (mark_start state token.capture)
  unfolding match_tokens
  match_open token tokens state h = dispatch_open token.kind _ _ _ _ _ h

  match_close :
      (token : Token) (tokens : List Token) (state : State)
      → token.kind ≡ capture_end
      → match_tokens (token ∷ tokens) source source_length state
        ≡ match_tokens tokens source source_length (mark_end state token.capture)
  unfolding match_tokens
  match_close token tokens state h = dispatch_close token.kind _ _ _ _ _ h

  guarded-some :
      (c : Bool) (m : Option State) {r : State} → guarded c m ≡ some r → (c ≡ true) × (m ≡ some r)
  guarded-some true m h = (refl, h)
  guarded-some false m h = absurd (cc)

  mark_start-position :
      (state : State) (capture : ℕ)
      → state.position ≤ source_length
      → (mark_start state capture).position ≤ source_length
  unfolding mark_start
  mark_start-position state capture h = h

  mark_end-position :
      (state : State) (capture : ℕ)
      → state.position ≤ source_length
      → (mark_end state capture).position ≤ source_length
  unfolding mark_end
  mark_end-position state capture h = h

  match_nil : (state : State) → match_tokens [] source source_length state ≡ some state
  unfolding match_tokens
  match_nil state = refl

  guarded-none : (c : Bool) (m : Option State) → c ≡ true → guarded c m ≡ none → m ≡ none
  guarded-none true m e h = h
  guarded-none false m e h = cc

  -- What the matcher returns is a match.
  pub match_tokens-Matches :
      (tokens : List Token) (state : State) {result : State}
      → state.position ≤ source_length
      → match_tokens tokens source source_length state ≡ some result
      → Matches source source_length tokens state result
  match_tokens-Matches [] state {result} inside h =
      let e : state ≡ result = cc (h, match_nil state) in
      subst (λ r. Matches source source_length [] state r) e finished
  match_tokens-Matches (token ∷ tokens) state inside h = elim (Kind-cases token.kind) [
    | inl k ↦
        let (here, e) =
          guarded-some (state.position == 0) (match_tokens tokens source source_length state)
            (rw (match_begin token tokens state k) at h) in
        at_begin k (ground arith) (match_tokens-Matches tokens state inside e)
    | inr (inl k) ↦
        let (here, e) =
          guarded-some (state.position == source_length)
            (match_tokens tokens source source_length state)
            (rw (match_end token tokens state k) at h) in
        at_end k (ground arith) (match_tokens-Matches tokens state inside e)
    | inr (inr (inl k)) ↦ opens k (
        match_tokens-Matches tokens (mark_start state token.capture)
          (mark_start-position state token.capture inside)
          (rw (match_open token tokens state k) at h))
    | inr (inr (inr (inl k))) ↦ closes k (
        match_tokens-Matches tokens (mark_end state token.capture)
          (mark_end-position state token.capture inside)
          (rw (match_close token tokens state k) at h))
    | inr (inr (inr (inr k))) ↦
        let (n, low, high, ends, taken, e) =
          take_run-some token _ state.position inside (rw (match_take token tokens state k) at h) in
        takes n k low high ends taken (match_tokens-Matches tokens (advance state n) ends e)
  ]

  -- Where there is a match, the matcher finds one.
  pub Matches-match_tokens :
      {tokens : List Token} {state result : State}
      → Matches source source_length tokens state result
      → match_tokens tokens source source_length state ≢ none
  unfolding match_tokens
  Matches-match_tokens finished h = cc
  Matches-match_tokens (at_begin {token} {tokens} {state} {result} k here rest) h =
      Matches-match_tokens rest (
        guarded-none (state.position == 0) (match_tokens tokens source source_length state)
          (ground arith) (rw (match_begin token tokens state k) at h))
  Matches-match_tokens (at_end {token} {tokens} {state} {result} k here rest) h =
      Matches-match_tokens rest (
        guarded-none (state.position == source_length)
          (match_tokens tokens source source_length state) (ground arith)
          (rw (match_end token tokens state k) at h))
  Matches-match_tokens (opens {token} {tokens} {state} {result} k rest) h =
      Matches-match_tokens rest (rw (match_open token tokens state k) at h)
  Matches-match_tokens (closes {token} {tokens} {state} {result} k rest) h =
      Matches-match_tokens rest (rw (match_close token tokens state k) at h)
  Matches-match_tokens (takes {token} {tokens} {state} {result} n k low high ends taken rest) h =
      Matches-match_tokens rest (
        take_run-none token (λ x. match_tokens tokens source source_length (advance state x))
          state.position n (rw (match_take token tokens state k) at h) low high ends taken)
