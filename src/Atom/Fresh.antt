-- ===== src/Atom/Fresh.antt =====
-- native-core/shim/native_shim.c, `native_atom_*`: what the locals of a thread say of the cell, and
-- what a move of a thread does to the lock, the value and the locals.
use beagle.Base.{
  ℕ, suc, ◌≡◌, ◌≢◌, refl, sym, ap, ◌∙◌, true, false, Option, none, some, [], ◌∷◌, ◌++◌, ◌==◌, arith,
  ok-injective, invalid_argument, ◌||◌, length, set, get_elem?, append_assoc, inl, inr, ◌⊎◌, ok,
  ◌>>◌, >>=-eq-ok, trap_if-passed, length-take, length-set,
}
use beagle.Text.{Bytes}
use beagle.Atom.{
  Atom, no_token, another_size, require, pointed, is_null, Call, Job, reading, locking, exchanging,
  check_call, Provides, IsProvided, deref, lock, compare_exchange, Event, Pc, idle, spinning,
  entered, loading, holding, comparing, storing, leaving, Shared, Move, begin, miss, enter, read,
  take_lock, compare, load, read_done, lock_done, store_unlock, same_byte, other_byte, matches,
  store, stored, leave, critical,
}
use beagle.Atom.Lock.{Turn, kept, taken, returned}
use beagle.Atom.Threads.{effect, Finds, replay}

-- The bytes read so far are the first ones of the value.
pub record Begins (got rest value : Bytes) : Type 0 where
  pub tail : Bytes
  pub whole : value ≡ got ++ tail
  pub left : length tail ≡ length rest

-- Two buffers of the size of the cell
abbrev pub Sized : ℕ → Job → Type 0
Sized size (exchanging expected replacement) =
    (length expected ≡ size) × (length replacement ≡ size)
Sized size _ = Unit

-- What the locals of a thread say of the cell, whose value was `now` after the last event.
abbrev pub Fresh : (now value : Bytes) → ℕ → Pc → Type 0
Fresh now value size idle = Unit
Fresh now value size (spinning job) = Sized size job
Fresh now value size (entered job) = (value ≡ now) × Sized size job
Fresh now value size (loading keep got) = (value ≡ now) × ((tail : Bytes) × (value ≡ got ++ tail))
Fresh now value size (holding got) = (value ≡ now) × (got ≡ now)
Fresh now value size (comparing expected replacement same rest) =
    (value ≡ now) × (length replacement ≡ size) × (expected ≡ same ++ rest) × Begins same rest value
Fresh now value size (storing event written rest) =
    Finds event now × (effect event now ≡ written ++ rest) × Begins written rest value
Fresh now value size (leaving event) = Finds event now × (value ≡ effect event now)

-- Only a thread that holds the lock changes the value and the log.
pub Move-quiet :
    {m m' : Shared} {p p' : Pc}
    → Move m p m' p'
    → critical p ≡ false
    → (m'.atom.value ≡ m.atom.value) × (m'.log ≡ m.log)
Move-quiet (begin _ _ _ _ _) c = (refl, refl)
Move-quiet (miss _) c = (refl, refl)
Move-quiet (enter _) c = (refl, refl)
Move-quiet mv c = cc

-- What a move does to the lock and to its thread's claim on it.
pub Move-Turn :
    {m m' : Shared} {p p' : Pc}
    → Move m p m' p'
    → Turn (critical p) (critical p') m.atom.locked m'.atom.locked
Move-Turn {m} (miss h) = rw h kept
Move-Turn (enter h) = rw h taken
Move-Turn leave = returned
Move-Turn (begin _ _ _ _ _) = kept
Move-Turn read = kept
Move-Turn take_lock = kept
Move-Turn compare = kept
Move-Turn (load _) = kept
Move-Turn (read_done _) = kept
Move-Turn (lock_done _) = kept
Move-Turn (store_unlock _ _ _ _ _) = kept
Move-Turn (same_byte _) = kept
Move-Turn (other_byte _ _) = kept
Move-Turn matches = kept
Move-Turn store = kept
Move-Turn stored = kept

pub Move-size :
    {m m' : Shared} {p p' : Pc}
    → Move m p m' p'
    → (m'.atom.size ≡ m.atom.size) × (length m'.atom.value ≡ length m.atom.value)
Move-size {m} (store {written} {b}) = (refl, length-set m.atom.value (length written) b)
Move-size (miss _) = (refl, refl)
Move-size (enter _) = (refl, refl)
Move-size leave = (refl, refl)
Move-size (begin _ _ _ _ _) = (refl, refl)
Move-size read = (refl, refl)
Move-size take_lock = (refl, refl)
Move-size compare = (refl, refl)
Move-size (load _) = (refl, refl)
Move-size (read_done _) = (refl, refl)
Move-size (lock_done _) = (refl, refl)
Move-size (store_unlock _ _ _ _ _) = (refl, refl)
Move-size (same_byte _) = (refl, refl)
Move-size (other_byte _ _) = (refl, refl)
Move-size matches = (refl, refl)
Move-size stored = (refl, refl)

-- Only the release adds to the log, and it leaves the value alone.
pub Move-logs :
    {m m' : Shared} {p p' : Pc}
    → Move m p m' p'
    → (m'.log ≡ m.log)
      ⊎ ((event : Event) × (p ≡ leaving event)
          × (m'.log ≡ event ∷ m.log)
          × (m'.atom.value ≡ m.atom.value)
          × (critical p' ≡ false))
Move-logs (leave {event}) = inr (event, refl, refl, refl, refl)
Move-logs (begin _ _ _ _ _) = inl refl
Move-logs (miss _) = inl refl
Move-logs (enter _) = inl refl
Move-logs read = inl refl
Move-logs take_lock = inl refl
Move-logs compare = inl refl
Move-logs (load _) = inl refl
Move-logs (read_done _) = inl refl
Move-logs (lock_done _) = inl refl
Move-logs (store_unlock _ _ _ _ _) = inl refl
Move-logs (same_byte _) = inl refl
Move-logs (other_byte _ _) = inl refl
Move-logs matches = inl refl
Move-logs store = inl refl
Move-logs stored = inl refl

-- A thread leaves the lock by the release only.
pub Move-releases :
    {m m' : Shared} {p p' : Pc}
    → Move m p m' p'
    → critical p ≡ true
    → critical p' ≡ false
    → (event : Event) × (p ≡ leaving event)
      × (m'.log ≡ event ∷ m.log)
      × (m'.atom.value ≡ m.atom.value)
Move-releases (leave {event}) c d = (event, refl, refl, refl)
Move-releases mv c d = cc

-- The next byte of a value of which some bytes were read.
next_byte :
    (got tail value : Bytes) (b : ℕ)
    → value ≡ got ++ tail
    → get_elem? value (length got) ≡ some b
    → (rest : Bytes) × (tail ≡ b ∷ rest) × (value ≡ (got ++ (b ∷ [])) ++ rest)
next_byte [] [] value b e h = absurd (grind arith)
next_byte [] (x ∷ tail) value b e h = (tail, grind arith, grind arith)
next_byte (x ∷ got) tail [] b e h = absurd (grind arith)
next_byte (x ∷ got) tail (y ∷ value) b e h =
    let (rest, t, v) = next_byte got tail value b (cc) h in (rest, t, cc)

set_next :
    (written : Bytes) (x b : ℕ) (tail : Bytes)
    → set (written ++ (x ∷ tail)) (length written) b ≡ (written ++ (b ∷ [])) ++ tail
set_next [] x b tail = refl
set_next (y ∷ written) x b tail = ap (λ t. y ∷ t) (set_next written x b tail)

all_read : (got tail value : Bytes) → value ≡ got ++ tail → length got ≡ length value → got ≡ value
all_read [] [] value e h = sym e
all_read [] (x ∷ tail) value e h = absurd (omega (arith, ap length e))
all_read (x ∷ got) tail [] e h = absurd (omega arith)
all_read (x ∷ got) tail (y ∷ value) e h =
    let shorter : length got ≡ length value = omega arith in
    let r : got ≡ value = all_read got tail value (cc) shorter in cc

pub length-eq-zero : (xs : Bytes) → length xs ≡ 0 → xs ≡ []
length-eq-zero [] h = refl
length-eq-zero (x ∷ xs) h = absurd (omega arith)

one_more : {n : ℕ} (xs : Bytes) → length xs ≡ suc n → (parts : ℕ × Bytes) × (xs ≡ parts.0 ∷ parts.1)
one_more [] h = absurd (omega arith)
one_more (x ∷ xs) h = ((x, xs), refl)

-- Two buffers that differ at a byte.
other_bytes : (same tail rest : Bytes) (b c : ℕ) → c ≢ b → same ++ (b ∷ rest) ≢ same ++ (c ∷ tail)
other_bytes [] tail rest b c h e = h cc
other_bytes (x ∷ same) tail rest b c h e = other_bytes same tail rest b c h cc

length-pointed :
    (size : ℕ) (p : Option Bytes)
    → is_null p ≡ false
    → Provides size p
    → length (pointed size p) ≡ size
length-pointed size none n h = cc
length-pointed size (some bytes) n h = length-take size bytes h

-- A buffer that passed its check holds as many bytes as the cell.
require-pointed :
    (atom : Atom) (capability : Option ℕ) (size : ℕ) (p : Option Bytes)
    → require (some atom) capability (is_null p) size ≡ ok tt
    → Provides size p
    → length (pointed size p) ≡ atom.size
require-pointed atom capability size p h provided =
    let c =
      trap_if-passed
        (no_token capability || is_null p || size == 0 || another_size (some atom) size)
        invalid_argument h in
    let n : is_null p ≡ false = ground arith in
    let e : size ≡ atom.size = ground arith in length-pointed size p n provided ∙ e

check_call-Sized :
    (atom : Atom) {job : Job} (capability : Option ℕ) (size : ℕ) (call : Call)
    → check_call (some atom) capability call size ≡ ok job
    → IsProvided size call
    → Sized atom.size job
check_call-Sized atom capability size (deref null_out) h provided =
    let (_, _, e) = >>=-eq-ok (require (some atom) capability null_out size) (λ _. ok reading) h in
    rw (sym (ok-injective e)) tt
check_call-Sized atom capability size (lock null_out) h provided =
    let (_, _, e) = >>=-eq-ok (require (some atom) capability null_out size) (λ _. ok locking) h in
    rw (sym (ok-injective e)) tt
check_call-Sized atom capability size (compare_exchange expected replacement) h provided =
    let job = exchanging (pointed size expected) (pointed size replacement) in
    let (_, first, rest) =
      >>=-eq-ok (require (some atom) capability (is_null expected) size)
        (λ _. require (some atom) capability (is_null replacement) size >> ok job) h in
    let (_, second, e) =
      >>=-eq-ok (require (some atom) capability (is_null replacement) size) (λ _. ok job) rest in
    rw (sym (ok-injective e)) (
      require-pointed atom capability size expected first provided.0,
      require-pointed atom capability size replacement second provided.1,
    )

module _ (v : Bytes) {m : Shared} (sized : length m.atom.value ≡ m.atom.size) where
  pub Move-Fresh :
      (m.atom.locked ≡ false → m.atom.value ≡ replay v m.log)
      → {m' : Shared} {p p' : Pc} → Move m p m' p'
      → Fresh (replay v m.log) m.atom.value m.atom.size p
      → Fresh (replay v m'.log) m'.atom.value m'.atom.size p'
  Move-Fresh settled (begin capability size call checked provided) f =
      check_call-Sized m.atom capability size call checked provided
  Move-Fresh settled (miss h) f = f
  Move-Fresh settled (enter h) f = (settled h, f)
  Move-Fresh settled read f = (f.0, (m.atom.value, refl))
  Move-Fresh settled take_lock f = (f.0, (m.atom.value, refl))
  Move-Fresh settled compare f =
      (f.0, f.1.1, refl, record { tail = m.atom.value; whole = refl; left = sized ∙ sym f.1.0 })
  Move-Fresh settled (load {got} {b} h) f =
      let (rest, t, e) = next_byte got f.1.0 m.atom.value b f.1.1 h in (f.0, (rest, e))
  Move-Fresh settled (read_done {got} h) f =
      (all_read got f.1.0 m.atom.value f.1.1 (h ∙ sym sized) ∙ f.0, f.0)
  Move-Fresh settled (lock_done {got} h) f =
      (f.0, all_read got f.1.0 m.atom.value f.1.1 (h ∙ sym sized) ∙ f.0)
  Move-Fresh settled (store_unlock {got} capability size value checked provided) f = (
    f.1,
    refl,
    record {
      tail = m.atom.value;
      whole = refl;
      left = sized ∙ sym (require-pointed m.atom capability size value checked provided);
    },
  )
  Move-Fresh settled (same_byte {same} {rest} {b} h) (current, sized', split, begins) =
      let (tail, t, e) = next_byte same begins.tail m.atom.value b begins.whole h in
      (
        current,
        sized',
        split ∙ sym (append_assoc same (b ∷ []) rest),
        record { tail = tail; whole = e; left = omega (arith, begins.left, ap length t) },
      )
  Move-Fresh settled (other_byte {same} {rest} {b} {c} h d) (current, sized', split, begins) =
      let (tail, t, e) = next_byte same begins.tail m.atom.value c begins.whole h in
      (
        λ q.
            other_bytes same tail rest b c d
              (sym split ∙ q ∙ sym current ∙ begins.whole ∙ ap (λ u. same ++ u) t),
        current,
      )
  Move-Fresh settled (matches {expected} {same}) (current, sized', split, begins) = (
    split
        ∙ ap (λ u. same ++ u) (sym (length-eq-zero begins.tail begins.left))
        ∙ sym begins.whole
        ∙ current,
    refl,
    record { tail = m.atom.value; whole = refl; left = sized ∙ sym sized' },
  )
  Move-Fresh settled (store {written} {rest} {b}) (finds, split, begins) =
      let (tail, t) = one_more begins.tail begins.left in
      (
        finds,
        split ∙ sym (append_assoc written (b ∷ []) rest),
        record {
          tail = tail.1;
          whole =
              ap (λ u. set u (length written) b) (begins.whole ∙ ap (λ u. written ++ u) t)
              ∙ set_next written tail.0 b tail.1;
          left = omega (arith, begins.left, ap length t);
        },
      )
  Move-Fresh settled (stored {written}) (finds, split, begins) = (
    finds,
    begins.whole ∙ ap (λ u. written ++ u) (length-eq-zero begins.tail begins.left) ∙ sym split,
  )
  Move-Fresh settled leave f = tt
