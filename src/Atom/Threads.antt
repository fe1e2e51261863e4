-- ===== src/Atom/Threads.antt =====
-- native-core/shim/native_shim.c, `native_atom_*`: any number of threads over one cell, in any
-- order. The acquire and release of the lock order the accesses between them, so that the moves of
-- the threads are one sequence.
use beagle.Base.{
  ℕ, ◌≡◌, ◌≢◌, false, List, [], ◌∷◌, update, length, take, Option, some, ok, ◌≤◌, >>-eq-ok,
  >>=-eq-ok, ok-injective, ap, sym, ◌∙◌, copy_into, refl, length-take, take_whole, length-copy_into,
  take-copy_into_front, arith,
}
use beagle.Text.{Bytes}
use beagle.Arena.{Arena, alloc}
use beagle.Atom.{Atom, new, Event, seen, swapped, exchanged, refused, Pc, idle, Shared, Move}

pub record System : Type 0 where
  pub shared : Shared
  pub pc : ℕ → Pc

pub data Step (s : System) : System → Type 0 where
  pick :
      (i : ℕ) {m : Shared} {p : Pc}
      → Move s.shared (s.pc i) m p
      → Step s (record { shared = m; pc = update s.pc i p })

abbrev pub initial : Bytes → System
initial value = record {
  shared = record {
    atom = record { locked = false; value = value; size = length value };
    log = [];
  };
  pc = λ _. idle;
}

-- From a cell that `native_atom_new` has made, before any thread uses it
pub data Reach (value : Bytes) : System → Type 0 where
  start : Reach value (initial value)
  later : {s t : System} → Reach value s → Step s t → Reach value t

-- What an event leaves in the cell.
abbrev pub effect : Event → Bytes → Bytes
effect (seen _) value = value
effect (swapped _ after) value = after
effect (exchanged _ replacement) value = replacement
effect (refused _) value = value

-- What an event says of the value that it found.
abbrev pub Finds : Event → Bytes → Type 0
Finds (seen bytes) value = bytes ≡ value
Finds (swapped before _) value = before ≡ value
Finds (exchanged expected _) value = expected ≡ value
Finds (refused expected) value = expected ≢ value

-- The value after the events of a log, the last one first.
abbrev pub replay : Bytes → List Event → Bytes
replay value [] = value
replay value (event ∷ past) = effect event (replay value past)

-- Each event found the value that the events before it left.
abbrev pub IsSerial : Bytes → List Event → Type 0
IsSerial value [] = Unit
IsSerial value (event ∷ past) = IsSerial value past × Finds event (replay value past)

-- What `native_atom_new` hands out, wherever it lies, is the cell from which the threads start.
new-initial :
    (arena : Arena) (capability : Option ℕ) (bytes : Bytes) (size alignment : ℕ) (junk : Bytes)
    → size ≤ length bytes
    → size ≤ length junk
    → {made : Atom × Arena} → new arena capability (some bytes) size alignment junk ≡ ok made
    → made.0 ≡ (initial (take size bytes)).shared.atom
unfolding new
new-initial arena capability bytes size alignment junk h k returned =
    let (_, after) = >>-eq-ok _ _ _ returned in
    let (atom_at, _, after) = >>=-eq-ok (alloc arena 24 8) _ after in
    let (value_at, _, after) = >>=-eq-ok (alloc atom_at.1 size alignment) _ after in
    let e = ap (λ (m : Atom × Arena). m.0) (ok-injective after) in
    let l : length (take size bytes) ≡ size = length-take size bytes h in
    let copied : take size (copy_into (take size junk) 0 (take size bytes)) ≡ take size bytes =
      take-copy_into_front size (take size junk) (take size bytes) l
        (omega (arith, length-take size junk k)) in
    let whole =
      take_whole size (copy_into (take size junk) 0 (take size bytes))
        (length-copy_into (take size junk) 0 (take size bytes) ∙ length-take size junk k) in
    let made_atom : Atom = record {
      locked = false;
      value = copy_into (take size junk) 0 (take size bytes);
      size = size;
    } in
    let same : made_atom ≡ (initial (take size bytes)).shared.atom =
      rw (l, sym whole ∙ copied) refl in
    sym e ∙ same
