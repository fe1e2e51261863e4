-- ===== src/Atom/Examples.antt =====
-- Two threads over a cell of one byte.
use beagle.Base.{ℕ, ◌≡◌, refl, arith, false, some, [], ◌∷◌, ok}
use beagle.Text.{Bytes}
use beagle.Arena.{Arena, alloc, bump}
use beagle.Collection.Samples.{room}
use beagle.Atom.{
  Atom, new, compare_exchange, deref, exchanged, seen, Shared, Move, begin, miss, enter, read,
  compare, load, read_done, same_byte, matches, store, stored, leave, Pc,
}
use beagle.Atom.Threads.{System, pick, initial, Reach, start, later, IsSerial, replay}
use beagle.Atom.Serial.{mutual_exclusion, log-IsSerial}
use beagle.Atom.Release.{CanRelease, Reach-CanRelease}

record Trace (value : Bytes) : Type 0 where
  state : System
  reach : Reach value state

abbrev go :
    {v : Bytes} (t : Trace v) (i : ℕ) {m : Shared} {p : Pc}
    → Move t.state.shared (t.state.pc i) m p
    → Trace v
go t i mv = record { state = _; reach = later t.reach (pick i mv) }

-- Thread 0 compares the cell with 5 and has taken the lock, thread 1 waits for it to read.
abbrev contended : Trace (5 ∷ [])
contended =
    let t₀ : Trace (5 ∷ []) = record { state = _; reach = start } in
    let t₁ = go t₀ 0 (
      begin (some 1) 1 (compare_exchange (some (5 ∷ [])) (some (7 ∷ []))) refl
        (omega arith, omega arith)) in
    let t₂ = go t₁ 1 (begin (some 1) 1 (deref false) refl tt) in
    let t₃ = go t₂ 0 (enter refl) in go t₃ 1 (miss refl)

-- Thread 0 has put 7 into the cell, and thread 1 has read it.
abbrev served : Trace (5 ∷ [])
served =
    let t₁ = go contended 0 compare in
    let t₂ = go t₁ 0 (same_byte refl) in
    let t₃ = go t₂ 0 matches in
    let t₄ = go t₃ 0 store in
    let t₅ = go t₄ 0 stored in
    let t₆ = go t₅ 0 leave in
    let t₇ = go t₆ 1 (enter refl) in
    let t₈ = go t₇ 1 read in let t₉ = go t₈ 1 (load refl) in go (go t₉ 1 (read_done refl)) 1 leave

served_log : served.state.shared.log ≡ seen (7 ∷ []) ∷ exchanged (5 ∷ []) (7 ∷ []) ∷ []
served_log = refl

log-IsSerial_example :
    IsSerial (5 ∷ []) served.state.shared.log
    × (served.state.shared.atom.locked ≡ false
        → served.state.shared.atom.value ≡ replay (5 ∷ []) served.state.shared.log)
log-IsSerial_example = log-IsSerial served.reach

mutual_exclusion_example : ◌≡◌ {A = ℕ} 0 0
mutual_exclusion_example = mutual_exclusion contended.reach 0 0 refl refl

Reach-CanRelease_example : CanRelease contended.state.shared (contended.state.pc 0) 7
Reach-CanRelease_example = Reach-CanRelease contended.reach (omega arith) 0 refl

new-room :
    (made : Atom × Arena) × (new room (some 1) (some (5 ∷ 9 ∷ [])) 1 1 (0 ∷ []) ≡ ok made)
    × (made.0 ≡ (initial (5 ∷ [])).shared.atom)
unfolding new alloc bump
new-room = (_, refl, refl)
