-- ===== src/Atom/Release.antt =====
-- native-core/shim/native_shim.c, `native_atom_*`: a thread that holds the lock can give it back.
use beagle.Base.{
  ℕ, suc, ◌+◌, ◌*◌, ◌≤◌, ◌<◌, ◌≡◌, refl, sym, ap, ◌∙◌, Bool, true, false, some, [], ◌∷◌, ◌++◌,
  arith, ok, length, get_elem?, append-nil, append_assoc, take, take_whole, ℕ_discrete,
  length-append,
}
use beagle.Text.{Bytes}
use beagle.Atom.{
  require, Job, reading, locking, exchanging, Event, Pc, idle, spinning, entered, loading, holding,
  comparing, storing, leaving, Shared, Move, read, take_lock, compare, load, read_done, lock_done,
  store_unlock, same_byte, other_byte, matches, store, stored, leave, critical, swapped, exchanged,
}
use beagle.Atom.Threads.{System, Reach}
use beagle.Atom.Fresh.{Fresh, Sized}
use beagle.Atom.Serial.{Reach-Inv}

-- A number of moves of one thread, one after another
pub data Moves : Shared → Pc → ℕ → Shared → Pc → Type 0 where
  done : {m : Shared} {p : Pc} → Moves m p 0 m p
  next :
      {m m' m'' : Shared} {p p' p'' : Pc} {n : ℕ}
      → Move m p m' p'
      → Moves m' p' n m'' p''
      → Moves m p (suc n) m'' p''

-- The thread leaves its call, and the lock free, within so many moves of its own.
pub record CanRelease (m : Shared) (p : Pc) (bound : ℕ) : Type 0 where
  pub count : ℕ
  pub bounded : count ≤ bound
  pub after : Shared
  pub moves : Moves m p count after idle
  pub free : after.atom.locked ≡ false

first :
    {m m' : Shared} {p p' : Pc} {bound bound' : ℕ}
    → suc bound ≤ bound'
    → Move m p m' p'
    → CanRelease m' p' bound
    → CanRelease m p bound'
first h mv r = record {
  count = suc r.count;
  bounded = omega (arith, r.bounded);
  after = r.after;
  moves = next mv r.moves;
  free = r.free;
}

from_leaving : (m : Shared) (event : Event) → CanRelease m (leaving event) 1
from_leaving m event = record {
  count = 1;
  bounded = omega arith;
  after = _;
  moves = next leave done;
  free = refl;
}

from_storing :
    (m : Shared) (event : Event) (written rest : Bytes)
    → CanRelease m (storing event written rest) (length rest + 2)
from_storing m event written [] = first (omega arith) stored (from_leaving m event)
from_storing m event written (b ∷ rest) =
    first (omega arith) store (from_storing _ event (written ++ (b ∷ [])) rest)

get_elem?-length_append : (xs ys : Bytes) (y : ℕ) → get_elem? (xs ++ (y ∷ ys)) (length xs) ≡ some y
get_elem?-length_append [] ys y = refl
get_elem?-length_append (x ∷ xs) ys y = get_elem?-length_append xs ys y

from_comparing :
    (m : Shared) (expected replacement same rest tail : Bytes)
    → m.atom.value ≡ same ++ tail
    → length tail ≡ length rest
    → CanRelease m (comparing expected replacement same rest) (length rest + length replacement + 3)
from_comparing m expected replacement same [] tail e l =
    first (omega arith) (matches {expected = expected} {same = same})
      (from_storing m (exchanged expected replacement) [] replacement)
from_comparing m expected replacement same (b ∷ rest) [] e l = absurd (omega arith)
from_comparing m expected replacement same (b ∷ rest) (c ∷ tail) e l =
    let found : get_elem? m.atom.value (length same) ≡ some c =
      rw e (get_elem?-length_append same tail c) in
    elim (ℕ_discrete c b) [
      | yes eq ↦
          let split : m.atom.value ≡ (same ++ (b ∷ [])) ++ tail =
            e ∙ sym (append_assoc same (c ∷ []) tail) ∙ ap (λ x. (same ++ (x ∷ [])) ++ tail) eq in
          first (omega arith) (same_byte (found ∙ ap some eq))
            (from_comparing m expected replacement (same ++ (b ∷ [])) rest tail split (omega arith))
      | no d ↦
          first (omega arith) (other_byte {replacement = replacement} {rest = rest} found d)
            (from_leaving m _)
    ]

-- A loop that reads the bytes that are left.
from_loading :
    (m : Shared) (keep : Bool) (bound : ℕ)
    → ((got : Bytes) → length got ≡ length m.atom.value → CanRelease m (loading keep got) bound)
    → (got tail : Bytes) → m.atom.value ≡ got ++ tail
    → CanRelease m (loading keep got) (length tail + bound)
from_loading m keep bound after got [] e =
    let e' : 0 + bound ≡ bound = omega arith in
    rw e' (after got (ap length (sym (append-nil got) ∙ sym e)))
from_loading m keep bound after got (b ∷ tail) e =
    let found : get_elem? m.atom.value (length got) ≡ some b =
      rw e (get_elem?-length_append got tail b) in
    first (omega arith) (load found) (
      from_loading m keep bound after (got ++ (b ∷ [])) tail
        (e ∙ sym (append_assoc got (b ∷ []) tail)))

tail-length : (got tail value : Bytes) → value ≡ got ++ tail → length tail ≤ length value
tail-length got tail value e = omega (arith, ap length e, length-append got tail)

weaken :
    {m : Shared} {p : Pc} {bound bound' : ℕ}
    → bound ≤ bound'
    → CanRelease m p bound
    → CanRelease m p bound'
weaken h r = record {
  count = r.count;
  bounded = omega (arith, r.bounded);
  after = r.after;
  moves = r.moves;
  free = r.free;
}

module _ (m : Shared) (sized : length m.atom.value ≡ m.atom.size)
    (some_byte : 0 < m.atom.size) where
  -- The thread writes back the bytes that it has read.
  from_holding :
      (got : Bytes) → length got ≡ m.atom.size → CanRelease m (holding got) (m.atom.size + 3)
  from_holding got l =
      let whole : take m.atom.size got ≡ got = take_whole m.atom.size got l in
      let r = from_storing m (swapped got (take m.atom.size got)) [] (take m.atom.size got) in
      first (omega (arith, ap length whole))
        (store_unlock (some 1) m.atom.size (some got) (checked) (omega arith)) r
    where
      checked : require (some m.atom) (some 1) false m.atom.size ≡ ok tt
      checked = ground arith

  from_kept :
      (got tail : Bytes)
      → m.atom.value ≡ got ++ tail
      → CanRelease m (loading true got) (2 * m.atom.size + 4)
  from_kept got tail e = weaken (omega (arith, tail-length got tail m.atom.value e)) (
      from_loading m true (m.atom.size + 4)
        (λ all l. first (omega arith) (lock_done (l ∙ sized)) (from_holding all (l ∙ sized))) got
        tail e)

  from_read :
      (got tail : Bytes)
      → m.atom.value ≡ got ++ tail
      → CanRelease m (loading false got) (2 * m.atom.size + 4)
  from_read got tail e = weaken (omega (arith, tail-length got tail m.atom.value e)) (
      from_loading m false 2
        (λ all l. first (omega arith) (read_done (l ∙ sized)) (from_leaving m _)) got tail e)

  from_compared :
      (expected replacement same rest tail : Bytes)
      → length replacement ≡ m.atom.size
      → m.atom.value ≡ same ++ tail
      → length tail ≡ length rest
      → CanRelease m (comparing expected replacement same rest) (2 * m.atom.size + 4)
  from_compared expected replacement same rest tail r e l =
      weaken (omega (arith, tail-length same tail m.atom.value e))
        (from_comparing m expected replacement same rest tail e l)

  from_entered :
      (job : Job) → Sized m.atom.size job → CanRelease m (entered job) (2 * m.atom.size + 5)
  from_entered reading s = first (omega arith) read (from_read [] m.atom.value refl)
  from_entered locking s = first (omega arith) take_lock (from_kept [] m.atom.value refl)
  from_entered (exchanging expected replacement) (e, r) =
      first (omega arith) compare
        (from_compared expected replacement [] expected m.atom.value r refl (sized ∙ sym e))

  Fresh-CanRelease :
      (now : Bytes) (p : Pc)
      → critical p ≡ true
      → Fresh now m.atom.value m.atom.size p
      → CanRelease m p (2 * m.atom.size + 5)
  Fresh-CanRelease now idle c f = cc
  Fresh-CanRelease now (spinning job) c f = cc
  Fresh-CanRelease now (entered job) c f = from_entered job f.1
  Fresh-CanRelease now (loading true got) c (_, (tail, e)) =
      weaken (omega arith) (from_kept got tail e)
  Fresh-CanRelease now (loading false got) c (_, (tail, e)) =
      weaken (omega arith) (from_read got tail e)
  Fresh-CanRelease now (holding got) c (current, e) =
      weaken (omega arith) (from_holding got (ap length (e ∙ sym current) ∙ sized))
  Fresh-CanRelease now (comparing expected replacement same rest) c (_, r, _, b) =
      weaken (omega arith) (from_compared expected replacement same rest b.tail r b.whole b.left)
  Fresh-CanRelease now (storing event written rest) c (_, _, b) =
      let t : length rest + 2 ≤ 2 * m.atom.size + 5 =
        omega (arith, b.left, tail-length written b.tail m.atom.value b.whole) in
      weaken t (from_storing m event written rest)
  Fresh-CanRelease now (leaving event) c f = weaken (omega arith) (from_leaving m event)

-- Whatever the other threads did before, a thread that holds the lock is never stuck: by at most
-- `2 * size + 5` moves of its own it leaves its call and the lock free, if the cell has a byte at
-- least.
pub Reach-CanRelease :
    {v : Bytes} {s : System}
    → Reach v s
    → 0 < s.shared.atom.size
    → (i : ℕ) → critical (s.pc i) ≡ true
    → CanRelease s.shared (s.pc i) (2 * s.shared.atom.size + 5)
Reach-CanRelease {s} r some_byte i inside =
    let inv = Reach-Inv r in
    Fresh-CanRelease s.shared inv.sized some_byte _ (s.pc i) inside (inv.fresh i)
