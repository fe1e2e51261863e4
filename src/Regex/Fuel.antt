-- ===== src/Regex/Fuel.antt =====
-- The loop of `native_regex_compile` takes a byte of the pattern in each round.
use beagle.Base.{
  ℕ, zero, suc, ◌+◌, ◌-◌, ◌*◌, ◌/◌, ◌≤◌, ◌≡◌, refl, arith, Bool, true, false, not, ◌&&◌, Option,
  none, some, [], ◌∷◌, ltb, leb, ◌==◌, if◌then◌else◌, length,
}
use beagle.Text.{Bytes}
use beagle.Regex.{
  Token, Program, class, plain, max_captures, push, class_end, class_token, escaped, atom, exactly,
  repetition, number, compile_step, compile_from, is_repeatable, unbounded,
}
use beagle.Regex.Compiled.{OnSome, on_none, on_some, on_if}

class_end-le :
    (bytes : Bytes) → OnSome (λ (r : Bytes × Bytes). length r.1 ≤ length bytes) (class_end bytes)
unfolding class_end
class_end-le [] = on_none
class_end-le (b ∷ rest) =
    on_if (b == b']') (on_some (omega arith)) (go (class_end rest) (class_end-le rest))
  where
    go :
        (o : Option (Bytes × Bytes))
        → OnSome (λ (r : Bytes × Bytes). length r.1 ≤ length rest) o
        → OnSome
            (λ (r : Bytes × Bytes). length r.1 ≤ suc (length rest))
            (elim o [ none ↦ none | some (inside, behind) ↦ some (b ∷ inside, behind) ])
    go none h = on_none
    go (some (inside, behind)) (on_some h) = on_some (omega arith)

-- A token and the bytes behind it, `n` at most.
abbrev Shorter : ℕ → Token × Bytes → Type 0
Shorter n r = length r.1 ≤ n

abbrev AtomShorter : ℕ → Token × (Program × Bytes) → Type 0
AtomShorter n r = length r.1.1 ≤ n

class_token-Shorter :
    (negated : Bool) (rest : Bytes) → OnSome (Shorter (length rest)) (class_token negated rest)
unfolding class_token
class_token-Shorter negated rest = go (class_end rest) (class_end-le rest)
  where
    go :
        (o : Option (Bytes × Bytes))
        → OnSome (λ (r : Bytes × Bytes). length r.1 ≤ length rest) o
        → OnSome (Shorter (length rest)) (elim o [
          | none ↦ none
          | some (inside, behind) ↦
              some (record (plain class) { class_bytes = inside; negated = negated }, behind)
        ])
    go none h = on_none
    go (some (inside, behind)) (on_some h) = on_some h

widen : (n : ℕ) (o : Option (Token × Bytes)) → OnSome (Shorter n) o → OnSome (Shorter (suc n)) o
widen n none h = on_none
widen n (some r) (on_some h) = on_some (omega arith)

le_self : (xs : Bytes) → length xs ≤ length xs
le_self xs = omega arith

escaped-Shorter : (rest : Bytes) → OnSome (Shorter (length rest)) (escaped rest)
unfolding escaped
escaped-Shorter [] = on_none
escaped-Shorter (b ∷ rest) =
    let tail : length rest ≤ suc (length rest) = omega arith in
    on_if (b == b'd') (on_some tail)
      (on_if (b == b's') (on_some tail) (on_if (b == b'S') (on_some tail) (on_some tail)))

with_program : Program → Option (Token × Bytes) → Option (Token × (Program × Bytes))
with_program program found = elim found [
  | none ↦ none
  | some (token, behind) ↦ some (token, (program, behind))
]

with_program-Shorter :
    (program : Program) (n : ℕ) (found : Option (Token × Bytes))
    → OnSome (Shorter n) found
    → OnSome (AtomShorter n) (with_program program found)
unfolding with_program
with_program-Shorter program n none h = on_none
with_program-Shorter program n (some r) (on_some h) = on_some h

atom-Shorter :
    (program : Program) (b : ℕ) (rest : Bytes)
    → OnSome (AtomShorter (length rest)) (atom program b rest)
unfolding atom with_program
atom-Shorter program b rest =
    on_if (b == b'(')
      (on_if (leb max_captures (program.captures + 1)) on_none (on_some (le_self rest)))
      (on_if (b == b')') (on_some (le_self rest)) (
        on_if (b == b'^') (on_some (le_self rest)) (
          on_if (b == b'$') (on_some (le_self rest)) (
            on_if (b == b'[') (with_program-Shorter program (length rest) _ (class_shorter rest)) (
              on_if (b == 92) (with_program-Shorter program (length rest) _ (escaped-Shorter rest))
                (on_if (b == b'.') (on_some (le_self rest)) (on_some (le_self rest))))))))
  where
    class_shorter :
        (rest : Bytes)
        → OnSome (Shorter (length rest)) (elim rest [
          | [] ↦ class_token false []
          | c ∷ behind ↦
              if c == b'^' then class_token true behind else class_token false (c ∷ behind)
        ])
    class_shorter [] = class_token-Shorter false []
    class_shorter (c ∷ behind) =
        on_if (c == b'^')
          (widen (length behind) (class_token true behind) (class_token-Shorter true behind))
          (class_token-Shorter false (c ∷ behind))

number-le :
    (bytes : Bytes) (result read : ℕ)
    → OnSome (λ (r : ℕ × Bytes). length r.1 ≤ length bytes) (number bytes result read)
unfolding number
number-le [] result read = on_if (read == 0) on_none (on_some (omega arith))
number-le (b ∷ rest) result read =
    on_if (leb b'0' b && leb b b'9')
      (on_if (ltb ((unbounded - (b - b'0')) / 10) result) on_none (
        go (number rest (result * 10 + (b - b'0')) (read + 1))
          (number-le rest (result * 10 + (b - b'0')) (read + 1))))
      (on_if (read == 0) on_none (on_some (le_self (b ∷ rest))))
  where
    go :
        (o : Option (ℕ × Bytes))
        → OnSome (λ (r : ℕ × Bytes). length r.1 ≤ length rest) o
        → OnSome (λ (r : ℕ × Bytes). length r.1 ≤ suc (length rest)) o
    go none h = on_none
    go (some r) (on_some h) = on_some (omega arith)

exactly-Shorter :
    (token : Token) (n : ℕ) (found : Option (ℕ × Bytes))
    → OnSome (λ (r : ℕ × Bytes). length r.1 ≤ n) found
    → OnSome (Shorter n) (exactly token found)
unfolding exactly
exactly-Shorter token n none h = on_none
exactly-Shorter token n (some (exact, [])) h = on_none
exactly-Shorter token n (some (exact, b ∷ rest)) (on_some h) =
    let tail : length rest ≤ n = omega arith in on_if (b == b'}') (on_some tail) on_none

repetition-Shorter :
    (token : Token) (rest : Bytes) → OnSome (Shorter (length rest)) (repetition token rest)
unfolding repetition
repetition-Shorter token [] = on_some (omega arith)
repetition-Shorter token (b ∷ rest) =
    let tail : length rest ≤ suc (length rest) = omega arith in
    on_if (not (is_repeatable token.kind)) (on_some (le_self (b ∷ rest))) (
      on_if (b == b'+') (on_some tail) (
        on_if (b == b'*') (on_some tail) (
          on_if (b == b'?') (on_some tail) (
            on_if (b == b'{')
              (widen (length rest) _
                (exactly-Shorter token (length rest) (number rest 0 0) (number-le rest 0 0)))
              (on_some (le_self (b ∷ rest)))))))

abbrev StepShorter : ℕ → Program × Bytes → Type 0
StepShorter n r = length r.1 ≤ n

compile_step-Shorter :
    (program : Program) (b : ℕ) (rest : Bytes)
    → OnSome (StepShorter (length rest)) (compile_step program b rest)
unfolding compile_step
compile_step-Shorter program b rest = repeated (atom program b rest) (atom-Shorter program b rest)
  where
    pushed :
        (behind : Bytes) (o : Option Program)
        → length behind ≤ length rest
        → OnSome
            (StepShorter (length rest))
            (elim o [ none ↦ none | some program₂ ↦ some (program₂, behind) ])
    pushed behind none h = on_none
    pushed behind (some p) h = on_some h

    counted :
        (program' : Program) (n : ℕ)
        → n ≤ length rest
        → (o : Option (Token × Bytes)) → OnSome (Shorter n) o
        → OnSome (StepShorter (length rest)) (elim o [
          | none ↦ none
          | some (token', behind') ↦ elim (push program' token') [
            | none ↦ none
            | some program₂ ↦ some (program₂, behind')
          ]
        ])
    counted program' n small none h = on_none
    counted program' n small (some (token', behind')) (on_some h) =
        pushed behind' (push program' token') (omega arith)

    repeated :
        (o : Option (Token × (Program × Bytes)))
        → OnSome (AtomShorter (length rest)) o
        → OnSome (StepShorter (length rest)) (elim o [
          | none ↦ none
          | some (token, (program', behind)) ↦ elim (repetition token behind) [
            | none ↦ none
            | some (token', behind') ↦ elim (push program' token') [
              | none ↦ none
              | some program₂ ↦ some (program₂, behind')
            ]
          ]
        ])
    repeated none h = on_none
    repeated (some (token, (program', behind))) (on_some h) =
        counted program' (length behind) h (repetition token behind)
          (repetition-Shorter token behind)

-- The loop of `native_regex_compile` on the bytes that are left, without a count of rounds: the
-- program at the end of the pattern, or nothing after a step that refuses it. A loop that goes on
-- for ever has no result.
pub data Compiles : Program → Bytes → Option Program → Type 0 where
  finished : {program : Program} → Compiles program [] (some program)
  refused :
      {program : Program} {b : ℕ} {rest : Bytes}
      → compile_step program b rest ≡ none
      → Compiles program (b ∷ rest) none
  stepped :
      {program program' : Program} {b : ℕ} {rest behind : Bytes} {result : Option Program}
      → compile_step program b rest ≡ some (program', behind)
      → Compiles program' behind result
      → Compiles program (b ∷ rest) result

-- The compiler's loop ends, and never for want of rounds: with as many rounds as the pattern has
-- bytes, or more, the result is that of the loop without a count. It is nothing only where a step
-- refuses the pattern.
pub compile_from-Compiles :
    (fuel : ℕ) (program : Program) (bytes : Bytes)
    → length bytes ≤ fuel
    → Compiles program bytes (compile_from fuel program bytes)
unfolding compile_from
compile_from-Compiles fuel program [] enough = finished
compile_from-Compiles zero program (b ∷ rest) enough = absurd (omega arith)
compile_from-Compiles (suc fuel) program (b ∷ rest) enough =
    after (λ p bs short. compile_from-Compiles fuel p bs (omega arith))
      (compile_step program b rest) refl (compile_step-Shorter program b rest)
  where
    after :
        ((p : Program) (bs : Bytes)
          → length bs ≤ length rest
          → Compiles p bs (compile_from fuel p bs))
        → (o : Option (Program × Bytes)) → compile_step program b rest ≡ o
        → OnSome (StepShorter (length rest)) o
        → Compiles program (b ∷ rest) (elim o as (λ _. Option Program) [
          | none ↦ none
          | some (program', behind) ↦ compile_from fuel program' behind
        ])
    after ends none e h = refused e
    after ends (some (program', behind)) e (on_some h) = stepped e (ends program' behind h)
