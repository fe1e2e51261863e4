-- ===== src/Regex/Compiled.antt =====
-- What the compiler of patterns returns fits the arrays of the program and of the matcher's state.
use beagle.Base.{
  ℕ, zero, suc, ◌+◌, ◌≤◌, ◌<◌, ◌≡◌, refl, arith, inl, inr, Bool, true, false, not, ◌&&◌, Option,
  none, some, List, [], ◌∷◌, ◌++◌, leb, ◌==◌, if◌then◌else◌, length, Option-cases, dec_lt,
  length-append, All,
}
use beagle.Text.{Bytes}
use beagle.Regex.{
  Token, Program, max_tokens, max_captures, push, open_capture, class_end, class_token, escaped,
  atom, exactly, repetition, number, compile_step, compile_from, compile_bytes, empty_program,
  plain, is_capture_begin, is_repeatable, capture_begin, class,
}
use mathlib.Core.Option.{some-injective}
use mathlib.Core.Path.{subst}

-- The tokens fit `tokens`, and each capture number indexes `start` and `end` of a state.
pub record Fits (program : Program) : Type 0 where
  count : length program.tokens ≤ max_tokens
  numbered : program.captures < max_captures
  indexes : All (λ t. t.capture < max_captures) program.tokens

abbrev SmallToken : Token → Type 0
SmallToken token = token.capture < max_captures

pub data OnSome {ℓ κ} {A : Type ℓ} (P : A → Type κ) : Option A → Type (ℓ ⊔ κ) where
  on_none : OnSome P none
  on_some : {a : A} → P a → OnSome P (some a)

pub on_if {ℓ κ} :
    {A : Type ℓ} {P : A → Type κ} (b : Bool) {x y : Option A}
    → OnSome P x
    → OnSome P y
    → OnSome P (if b then x else y)
on_if true p q = p
on_if false p q = q

All-append {ℓ κ} :
    {A : Type ℓ} (P : A → Type κ) (xs : List A) (y : A) → All P xs → P y → All P (xs ++ y ∷ [])
All-append P [] y h p = (p, tt)
All-append P (x ∷ xs) y h p = (h.0, All-append P xs y h.1 p)

push-Fits :
    (program : Program) (token : Token)
    → Fits program
    → SmallToken token
    → OnSome Fits (push program token)
unfolding push
push-Fits program token fits small = elim (dec_lt (length program.tokens) max_tokens) [
  | no full ↦ let e : leb max_tokens (length program.tokens) ≡ true = ground arith in rw e on_none
  | yes room ↦
      let e : leb max_tokens (length program.tokens) ≡ false = ground arith in
      rw e (
        on_some record {
          count = omega (arith, length-append program.tokens (token ∷ []));
          numbered = fits.numbered;
          indexes = All-append SmallToken program.tokens token fits.indexes small;
        })
]

open_capture-le :
    (tokens : List Token) (capture : ℕ) → OnSome (λ c. c ≤ capture) (open_capture tokens capture)
unfolding open_capture
open_capture-le [] capture = on_none
open_capture-le (t ∷ ts) capture = elim (Option-cases (open_capture ts capture)) [
  | inl missed ↦ rw missed (closed (is_capture_begin t.kind) t.capture)
  | inr (d, e) ↦ rw e (rw e at (open_capture-le ts capture))
]
  where
    closed :
        (b : Bool) (c : ℕ) → OnSome (λ c. c ≤ capture) (if b && leb c capture then some c else none)
    closed false c = on_none
    closed true c = elim (dec_lt capture c) [
      | yes above ↦ let e : leb c capture ≡ false = ground arith in rw e on_none
      | no below ↦ let e : leb c capture ≡ true = ground arith in rw e (on_some (omega arith))
    ]

abbrev SmallFound : Token × Bytes → Type 0
SmallFound r = SmallToken r.0

class_token-small : (negated : Bool) (rest : Bytes) → OnSome SmallFound (class_token negated rest)
unfolding class_token
class_token-small negated rest = go (class_end rest)
  where
    go :
        (o : Option (Bytes × Bytes))
        → OnSome SmallFound (elim o [
          | none ↦ none
          | some (inside, behind) ↦
              some (record (plain class) { class_bytes = inside; negated = negated }, behind)
        ])
    go none = on_none
    go (some (inside, behind)) = on_some (omega arith)

zero_small : 0 < max_captures
zero_small = omega arith

small_found :
    {token : Token} {rest : Bytes} → token.capture ≡ 0 → OnSome SmallFound (some (token, rest))
small_found e = on_some (omega (arith, e))

escaped-small : (rest : Bytes) → OnSome SmallFound (escaped rest)
unfolding escaped
escaped-small [] = on_none
escaped-small (b ∷ rest) =
    on_if (b == b'd') (small_found refl) (
      on_if (b == b's') (small_found refl)
        (on_if (b == b'S') (small_found refl) (small_found refl)))

abbrev AtomFits : Token × (Program × Bytes) → Type 0
AtomFits r = SmallToken r.0 × Fits r.1.0

kept :
    {token : Token} {program : Program} {rest : Bytes}
    → SmallToken token
    → Fits program
    → OnSome AtomFits (some (token, (program, rest)))
kept small fits = on_some (small, fits)

abbrev with_program : Program → Option (Token × Bytes) → Option (Token × (Program × Bytes))
with_program program found = elim found [
  | none ↦ none
  | some (token, behind) ↦ some (token, (program, behind))
]

with_program-Fits :
    (program : Program) (found : Option (Token × Bytes))
    → Fits program
    → OnSome SmallFound found
    → OnSome AtomFits (with_program program found)
with_program-Fits program none fits h = on_none
with_program-Fits program (some (token, behind)) fits (on_some h) = on_some (h, fits)

atom-Fits :
    (program : Program) (b : ℕ) (rest : Bytes)
    → Fits program
    → OnSome AtomFits (atom program b rest)
unfolding atom
atom-Fits program b rest fits = on_if (b == b'(') opening (
    on_if (b == b')') (kept (closing program.tokens program.captures fits.numbered) fits) (
      on_if (b == b'^')
        (kept zero_small
          (record { count = fits.count; numbered = fits.numbered; indexes = fits.indexes }))
        (on_if (b == b'$') (kept zero_small fits) (
          on_if (b == b'[') (with_program-Fits program _ fits (class_small rest)) (
            on_if (b == 92) (with_program-Fits program _ fits (escaped-small rest))
              (on_if (b == b'.') (kept zero_small fits) (kept zero_small fits)))))))
  where
    opening : OnSome AtomFits (
        if leb max_captures (program.captures + 1)
        then none
        else some (
          record (plain capture_begin) { capture = program.captures + 1 },
          (record program { captures = program.captures + 1 }, rest),
        ))
    opening = elim (dec_lt (program.captures + 1) max_captures) [
      | yes room ↦
          let e : leb max_captures (program.captures + 1) ≡ false = ground arith in
          rw e
            (on_some (room, record { count = fits.count; numbered = room; indexes = fits.indexes }))
      | no full ↦
          let e : leb max_captures (program.captures + 1) ≡ true = ground arith in rw e on_none
    ]

    closing :
        (tokens : List Token) (captures : ℕ)
        → captures < max_captures
        → (elim (open_capture tokens captures) [ some c ↦ c | none ↦ captures ]) < max_captures
    closing tokens captures small =
        go (open_capture tokens captures) (open_capture-le tokens captures)
      where
        go :
            (o : Option ℕ)
            → OnSome (λ c. c ≤ captures) o
            → (elim o [ some c ↦ c | none ↦ captures ]) < max_captures
        go none h = small
        go (some c) (on_some h) = omega arith

    class_small :
        (rest : Bytes)
        → OnSome SmallFound (elim rest [
          | [] ↦ class_token false []
          | c ∷ behind ↦
              if c == b'^' then class_token true behind else class_token false (c ∷ behind)
        ])
    class_small [] = class_token-small false []
    class_small (c ∷ behind) =
        on_if (c == b'^') (class_token-small true behind) (class_token-small false (c ∷ behind))

exactly-small :
    (token : Token) (found : Option (ℕ × Bytes))
    → SmallToken token
    → OnSome SmallFound (exactly token found)
unfolding exactly
exactly-small token none small = on_none
exactly-small token (some (exact, [])) small = on_none
exactly-small token (some (exact, b ∷ rest)) small = on_if (b == b'}') (on_some small) on_none

repetition-small :
    (token : Token) (rest : Bytes) → SmallToken token → OnSome SmallFound (repetition token rest)
unfolding repetition
repetition-small token [] small = on_some small
repetition-small token (b ∷ rest) small = on_if (not (is_repeatable token.kind)) (on_some small) (
    on_if (b == b'+') (on_some small) (
      on_if (b == b'*') (on_some small) (
        on_if (b == b'?') (on_some small)
          (on_if (b == b'{') (exactly-small token (number rest 0 0) small) (on_some small)))))

abbrev StepFits : Program × Bytes → Type 0
StepFits r = Fits r.0

compile_step-Fits :
    (program : Program) (b : ℕ) (rest : Bytes)
    → Fits program
    → OnSome StepFits (compile_step program b rest)
unfolding compile_step
compile_step-Fits program b rest fits =
    repeated (atom program b rest) (atom-Fits program b rest fits)
  where
    pushed :
        (program' : Program) (token : Token) (behind : Bytes) (o : Option Program)
        → OnSome Fits o
        → OnSome StepFits (elim o [ none ↦ none | some program₂ ↦ some (program₂, behind) ])
    pushed program' token behind none h = on_none
    pushed program' token behind (some p) (on_some h) = on_some h

    counted :
        (program' : Program)
        → Fits program'
        → (o : Option (Token × Bytes)) → OnSome SmallFound o
        → OnSome StepFits (elim o [
          | none ↦ none
          | some (token', behind') ↦ elim (push program' token') [
            | none ↦ none
            | some program₂ ↦ some (program₂, behind')
          ]
        ])
    counted program' fits none h = on_none
    counted program' fits (some (token', behind')) (on_some h) =
        pushed program' token' behind' (push program' token') (push-Fits program' token' fits h)

    repeated :
        (o : Option (Token × (Program × Bytes)))
        → OnSome AtomFits o
        → OnSome StepFits (elim o [
          | none ↦ none
          | some (token, (program', behind)) ↦ elim (repetition token behind) [
            | none ↦ none
            | some (token', behind') ↦ elim (push program' token') [
              | none ↦ none
              | some program₂ ↦ some (program₂, behind')
            ]
          ]
        ])
    repeated none h = on_none
    repeated (some (token, (program', behind))) (on_some (small, fits)) =
        counted program' fits (repetition token behind) (repetition-small token behind small)

compile_from-Fits :
    (fuel : ℕ) (program : Program) (bytes : Bytes)
    → Fits program
    → OnSome Fits (compile_from fuel program bytes)
unfolding compile_from
compile_from-Fits zero program [] fits = on_some fits
compile_from-Fits (suc fuel) program [] fits = on_some fits
compile_from-Fits zero program (b ∷ rest) fits = on_none
compile_from-Fits (suc fuel) program (b ∷ rest) fits =
    go (λ p bs h. compile_from-Fits fuel p bs h) (compile_step program b rest)
      (compile_step-Fits program b rest fits)
  where
    go :
        ((p : Program) (bs : Bytes) → Fits p → OnSome Fits (compile_from fuel p bs))
        → (o : Option (Program × Bytes)) → OnSome StepFits o
        → OnSome Fits
            (elim o [ none ↦ none | some (program', behind) ↦ compile_from fuel program' behind ])
    go next none h = on_none
    go next (some (program', behind)) (on_some h) = next program' behind h

-- A pattern that compiles gives at most 128 tokens and at most 7 captures, and each token's capture
-- number is below 8: the writes into the program and into a state's captures are in bounds.
pub compile_bytes-Fits :
    (bytes : Bytes) (program : Program) → compile_bytes bytes ≡ some program → Fits program
unfolding compile_bytes
compile_bytes-Fits bytes program h = found (compile_bytes bytes) h (
    compile_from-Fits (length bytes) empty_program bytes
      record { count = omega arith; numbered = omega arith; indexes = tt })
  where
    found : (o : Option Program) → o ≡ some program → OnSome Fits o → Fits program
    found none e h = cc
    found (some p) e (on_some h) = subst Fits (some-injective p program e) h
