-- ===== src/Regex/Search.antt =====
-- native-core/shim/native_shim.c, `native_regex_search` and `native_text_regex_matches`.
use beagle.Base.{
  ℕ, zero, suc, ◌+◌, ◌-◌, ◌≤◌, ◌<◌, ◌≡◌, arith, inl, inr, Bool, true, false, not, ◌&&◌, Option,
  none, some, ltb, ◌==◌, if◌then◌else◌, length, get_or, set, replicate, Bool-cases, Option-cases,
  dec_lt, Run, ok, ◌>>=◌, ◌∙◌,
}
use beagle.Base.Int.{pos, negsuc, eq_int}
use beagle.Text.{Text, Bytes, text_length, text_bytes}
use beagle.Regex.{Program, State, max_captures, compile}
use beagle.Regex.Match.{to_int64, match_tokens, Matches}
use beagle.Regex.Matched.{match_tokens-Matches, Matches-match_tokens}

-- All captures at -1.
unfoldable pub empty_state : ℕ → State
empty_state at = record {
  position = at;
  start = replicate max_captures (negsuc 0);
  end = replicate max_captures (negsuc 0);
}

-- The captured whole.
unfoldable pub with_whole : ℕ → State → State
unfolding to_int64
with_whole at matched = record matched {
  start = set matched.start 0 (to_int64 at);
  end = set matched.end 0 (to_int64 matched.position);
}

-- One round of the loop.
unfoldable pub attempt : Program → Bytes → ℕ → Option State
unfolding match_tokens empty_state with_whole
attempt program bytes start =
    elim (match_tokens program.tokens bytes (length bytes) (empty_state start)) [
      | some matched ↦ some (with_whole start matched)
      | none ↦ none
    ]

-- The loop from `start` on, `left` bytes before the end; an anchored program is tried once.
unfoldable pub search_from : Program → Bytes → ℕ → ℕ → Option State
unfolding attempt
search_from program bytes zero start = attempt program bytes start
search_from program bytes (suc left) start = elim (attempt program bytes start) [
  | some found ↦ some found
  | none ↦ elim program.anchored [
    | true ↦ none
    | false ↦ search_from program bytes left (start + 1)
  ]
]

unfoldable pub search_bytes : Program → Bytes → ℕ → Option State
unfolding search_from
search_bytes program bytes offset =
    let start = if program.anchored then 0 else offset in
    if (program.anchored && not (offset == 0))
    then none
    else if ltb (length bytes) start
    then none
    else search_from program bytes (length bytes - start) start

-- `native_text_regex_matches` on a compiled pattern.
unfoldable pub spans : Program → Bytes → Bool
unfolding search_bytes
spans program bytes = elim (search_bytes program bytes 0) [
  | none ↦ false
  | some matched ↦
      eq_int (get_or matched.start 0 (negsuc 0)) (pos 0)
      && eq_int (get_or matched.end 0 (negsuc 0)) (to_int64 (length bytes))
]

unfoldable pub regex_matches : Text → Text → Run Bool
unfolding compile spans text_length text_bytes
regex_matches source pattern = do
  _ ← text_length source
  compiled ← compile pattern
  bytes ← text_bytes source
  elim compiled [ none ↦ ok false | some program ↦ ok (spans program bytes) ]

-- There is a match from `at` on that ends in `m`.
abbrev pub MatchAt : Program → Bytes → ℕ → State → Type 0
MatchAt program bytes at m = Matches bytes (length bytes) program.tokens (empty_state at) m

-- What a search from `offset` on returns: the first offset with a match, and a match there.
abbrev pub Leftmost : Program → Bytes → ℕ → State → Type 0
Leftmost program bytes offset r =
    (at : ℕ) × (m : State) × (offset ≤ at)
    × (at ≤ length bytes)
    × MatchAt program bytes at m
    × (r ≡ with_whole at m)
    × ((j : ℕ) (m' : State) → offset ≤ j → j < at → MatchAt program bytes j m' → ⊥)

module _ (program : Program) (bytes : Bytes) where
  empty_state-position : (at : ℕ) → at ≤ length bytes → (empty_state at).position ≤ length bytes
  unfolding empty_state
  empty_state-position at h = h

  attempt-some :
      (at : ℕ) {r : State}
      → at ≤ length bytes
      → attempt program bytes at ≡ some r
      → (m : State) × MatchAt program bytes at m × (r ≡ with_whole at m)
  unfolding attempt
  attempt-some at inside h =
      elim (Option-cases (match_tokens program.tokens bytes (length bytes) (empty_state at))) [
        | inl missed ↦ absurd (cc)
        | inr (m, hit) ↦ (
          m,
          match_tokens-Matches bytes (length bytes) program.tokens (empty_state at)
              (empty_state-position at inside) hit,
          cc,
        )
      ]

  attempt-none :
      (at : ℕ) (m : State) → attempt program bytes at ≡ none → MatchAt program bytes at m → ⊥
  unfolding attempt
  attempt-none at m h match =
      elim (Option-cases (match_tokens program.tokens bytes (length bytes) (empty_state at))) [
        | inl missed ↦ Matches-match_tokens bytes (length bytes) match missed
        | inr (found, hit) ↦ cc
      ]

  stopped : {r : State} → (let nothing : Option State = none in nothing) ≡ some r → ⊥
  stopped h = cc

  search_from-some :
      (left start : ℕ) {r : State}
      → start + left ≡ length bytes
      → search_from program bytes left start ≡ some r
      → Leftmost program bytes start r
  unfolding search_from
  search_from-some zero start e h =
      let (m, match, w) = attempt-some start (omega arith) h in
      (start, m, omega arith, omega arith, match, w, λ j m' low high _. omega arith)
  search_from-some (suc left) start {r} e h = elim (Option-cases (attempt program bytes start)) [
    | inr (found, hit) ↦
        let (m, match, w) = attempt-some start (omega arith) (hit ∙ (rw (search_from, hit) at h)) in
        (start, m, omega arith, omega arith, match, w, λ j m' low high _. omega arith)
    | inl missed ↦ elim (Bool-cases program.anchored) [
      | inl anchored ↦ absurd (stopped (rw (search_from, missed, anchored) at h))
      | inr free ↦
          let further : search_from program bytes left (start + 1) ≡ some r =
            rw (search_from, missed, free) at h in
          let (at, m, low, high, match, w, first) =
            search_from-some left (start + 1) (omega arith) further in
          (
            at,
            m,
            omega arith,
            high,
            match,
            w,
            λ j m' below before other. elim (dec_lt start j) [
              | yes later ↦ first j m' (omega arith) before other
              | no here ↦
                  attempt-none start m' missed (let same : start ≡ j = omega arith in rw same other)
            ],
          )
    ]
  ]

  search_from-none :
      (left start j : ℕ) (m : State)
      → start + left ≡ length bytes
      → search_from program bytes left start ≡ none
      → program.anchored ≡ false
      → start ≤ j
      → j ≤ length bytes
      → MatchAt program bytes j m
      → ⊥
  unfolding search_from
  search_from-none zero start j m e h free low high match =
      let same : j ≡ start = omega arith in attempt-none start m h (rw same at match)
  search_from-none (suc left) start j m e h free low high match =
      elim (Option-cases (attempt program bytes start)) [
        | inr (found, hit) ↦ some_none (rw (search_from, hit) at h)
        | inl missed ↦ elim (dec_lt start j) [
          | yes later ↦
              search_from-none left (start + 1) j m (omega arith)
                (rw (search_from, missed, free) at h) free (omega arith) high match
          | no here ↦
              let same : j ≡ start = omega arith in attempt-none start m missed (rw same at match)
        ]
      ]
    where
      some_none : {r : State} → some r ≡ none → ⊥
      some_none h = cc

  search_from-first :
      (left start : ℕ)
      → search_from program bytes left start ≡ none
      → attempt program bytes start ≡ none
  unfolding search_from
  search_from-first zero start h = h
  search_from-first (suc left) start h = elim (Option-cases (attempt program bytes start)) [
    | inl missed ↦ missed
    | inr (found, hit) ↦ hit ∙ (rw (search_from, hit) at h)
  ]

  -- A search that finds something finds it at the first offset, from the given one on, where the
  -- pattern matches, and returns a match there with the whole match as capture 0.
  pub search_bytes-Leftmost :
      (offset : ℕ) {r : State}
      → search_bytes program bytes offset ≡ some r
      → Leftmost program bytes offset r
  unfolding search_bytes
  search_bytes-Leftmost offset {r} h = elim (Bool-cases program.anchored) [
    | inl anchored ↦ elim (dec_lt 0 offset) [
      | yes later ↦ absurd (ground arith)
      | no at_start ↦
          let none_left : offset ≡ 0 = omega arith in
          let begun : search_from program bytes (length bytes - offset) offset ≡ some r =
            ground arith in
          search_from-some (length bytes - offset) offset (omega arith) begun
    ]
    | inr free ↦ elim (dec_lt (length bytes) offset) [
      | yes past ↦ absurd (ground arith)
      | no inside ↦ search_from-some (length bytes - offset) offset (omega arith) (ground arith)
    ]
  ]

  -- A search that finds nothing: the pattern matches at no offset of the text from the given one
  -- on, or, for an anchored pattern, not at 0.
  pub search_bytes-none :
      (offset : ℕ) (j : ℕ) (m : State)
      → search_bytes program bytes offset ≡ none
      → offset ≤ j
      → j ≤ length bytes
      → (program.anchored ≡ true → j ≡ 0)
      → ¬ MatchAt program bytes j m
  unfolding search_bytes
  search_bytes-none offset j m h low high only match = elim (Bool-cases program.anchored) [
    | inl anchored ↦
        let begin : j ≡ 0 = only anchored in
        let begun : search_from program bytes (length bytes) 0 ≡ none = ground arith in
        attempt-none 0 m (search_from-first (length bytes) 0 begun) (rw begin at match)
    | inr free ↦
        search_from-none (length bytes - offset) offset j m (omega arith) (ground arith) free low
          high match
  ]
