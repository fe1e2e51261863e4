-- ===== src/Atom/Serial.antt =====
-- native-core/shim/native_shim.c, `native_atom_*`: the calls of any threads take effect one after
-- another.
use beagle.Base.{
  ℕ, ◌≡◌, ◌≢◌, refl, sym, ap, ◌∙◌, Bool, true, false, update, arith, Bool-cases, length, inl, inr,
  ℕ_discrete,
}
use beagle.Text.{Bytes}
use beagle.Atom.{Pc, idle, spinning, leaving, Shared, Move, critical}
use beagle.Atom.Fresh.{
  Fresh, Move-quiet, Move-Turn, Move-size, Move-Fresh, Move-logs, Move-releases,
}
use beagle.Atom.Lock.{IsGuarded, Turn, kept, taken, returned, Turn-IsGuarded}
use beagle.Atom.Threads.{System, pick, initial, Reach, start, later, replay, IsSerial}

pub record Inv (value : Bytes) (m : Shared) (pc : ℕ → Pc) : Type 0 where
  pub sized : length m.atom.value ≡ m.atom.size
  pub serial : IsSerial value m.log
  pub settled : m.atom.locked ≡ false → m.atom.value ≡ replay value m.log
  pub guarded : IsGuarded m.atom.locked (λ i. critical (pc i))
  pub fresh : (i : ℕ) → Fresh (replay value m.log) m.atom.value m.atom.size (pc i)

Inv-initial : (value : Bytes) → Inv value (initial value).shared (initial value).pc
Inv-initial value = record {
  sized = refl;
  serial = tt;
  settled = λ _. refl;
  guarded = record { held = λ i c. cc; owned = λ h. cc; unique = λ i j c d. cc };
  fresh = λ i. tt;
}

-- A thread outside the lock says the same of any value.
quiet-Fresh :
    (now now' value value' : Bytes) (size : ℕ) (p : Pc)
    → critical p ≡ false
    → Fresh now value size p
    → Fresh now' value' size p
quiet-Fresh now now' value value' size idle c f = tt
quiet-Fresh now now' value value' size (spinning job) c f = f
quiet-Fresh now now' value value' size p c f = cc

was_free : {c c' l l' : Bool} → Turn c c' l l' → c ≡ false → l' ≡ false → l ≡ false
was_free kept c h = h
was_free taken c h = cc
was_free returned c h = cc

module _ {v : Bytes} {m : Shared} {pc : ℕ → Pc} (inv : Inv v m pc) (i : ℕ) where
  open inv use {sized, serial, settled, guarded, fresh}

  others-Fresh :
      {m' : Shared} {p : Pc}
      → Move m (pc i) m' p
      → (j : ℕ) → i ≢ j
      → Fresh (replay v m'.log) m'.atom.value m'.atom.size (pc j)
  others-Fresh {m'} mv j apart =
      let size_kept = (Move-size mv).0 in
      rw size_kept (elim (Bool-cases (critical (pc j))) [
        | inr quiet ↦
            quiet-Fresh (replay v m.log) (replay v m'.log) m.atom.value m'.atom.value m.atom.size
              (pc j) quiet (fresh j)
        | inl inside ↦
            let quiet : critical (pc i) ≡ false = elim (Bool-cases (critical (pc i))) [
              | inl both ↦ absurd (apart (guarded.unique i j both inside))
              | inr out ↦ out
            ] in
            let (value_kept, log_kept) = Move-quiet mv quiet in rw (value_kept, log_kept) (fresh j)
      ])

  apart_stays : (p : Pc) (j : ℕ) → i ≢ j → update pc i p j ≡ pc j
  apart_stays p j d = ground arith

  moved : (p : Pc) → update pc i p i ≡ p
  moved p = ground arith

  Move-guarded :
      {m' : Shared} {p : Pc}
      → Move m (pc i) m' p
      → IsGuarded m'.atom.locked (λ j. critical (update pc i p j))
  Move-guarded {p} mv =
      Turn-IsGuarded i guarded (Move-Turn mv) refl (ap critical (moved p))
        (λ j d. ap critical (apart_stays p j d))

  Move-IsSerial : {m' : Shared} {p : Pc} → Move m (pc i) m' p → IsSerial v m'.log
  Move-IsSerial mv = elim (Move-logs mv) [
    | inl same ↦ rw same serial
    | inr (event, place, log, _, _) ↦
        let f : Fresh (replay v m.log) m.atom.value m.atom.size (leaving event) =
          rw place at (fresh i) in
        rw log (serial, f.0)
  ]

  -- Who finds the cell free finds the value that the last event left.
  Move-settled :
      {m' : Shared} {p : Pc}
      → Move m (pc i) m' p
      → m'.atom.locked ≡ false
      → m'.atom.value ≡ replay v m'.log
  Move-settled {m'} {p} mv free = elim (Bool-cases (critical (pc i))) [
    | inr quiet ↦
        let (value_kept, log_kept) = Move-quiet mv quiet in
        rw (value_kept, log_kept) (settled (was_free (Move-Turn mv) quiet free))
    | inl inside ↦ elim (Bool-cases (critical p)) [
      | inl stays ↦ let locked = (Move-guarded mv).held i (ap critical (moved p) ∙ stays) in cc
      | inr leaves ↦
          let (event, place, log, value_kept) = Move-releases mv inside leaves in
          let f : Fresh (replay v m.log) m.atom.value m.atom.size (leaving event) =
            rw place at (fresh i) in
          rw (value_kept, log) f.1
    ]
  ]

  Move-Inv : {m' : Shared} {p : Pc} → Move m (pc i) m' p → Inv v m' (update pc i p)
  Move-Inv {m'} {p} mv = record {
    sized = (Move-size mv).1 ∙ sized ∙ sym (Move-size mv).0;
    serial = Move-IsSerial mv;
    settled = Move-settled mv;
    guarded = Move-guarded mv;
    fresh = λ j. elim (ℕ_discrete i j) [
      | yes e ↦ rw (sym e, moved p) (Move-Fresh v sized settled mv (fresh i))
      | no d ↦ rw (apart_stays p j d) (others-Fresh mv j d)
    ];
  }

pub Reach-Inv : {v : Bytes} {s : System} → Reach v s → Inv v s.shared s.pc
Reach-Inv {v} start = Inv-initial v
Reach-Inv (later r (pick i mv)) = Move-Inv (Reach-Inv r) i mv

-- Never two threads are between the acquire and the release of the lock.
pub mutual_exclusion :
    {v : Bytes} {s : System}
    → Reach v s
    → (i j : ℕ) → critical (s.pc i) ≡ true
    → critical (s.pc j) ≡ true
    → i ≡ j
mutual_exclusion r = (Reach-Inv r).guarded.unique

-- Whatever the threads do and in whatever order, the completed calls have an order in which each
-- one finds the value that those before it left: a read returns that value, a write under the
-- lock replaces the value that its thread read, and `native_atom_compare_exchange` replaces the
-- value exactly if it is the expected one. While the lock is free, the cell holds what the last
-- call left.
pub log-IsSerial :
    {v : Bytes} {s : System}
    → Reach v s
    → IsSerial v s.shared.log
      × (s.shared.atom.locked ≡ false → s.shared.atom.value ≡ replay v s.shared.log)
log-IsSerial r = let inv = Reach-Inv r in (inv.serial, inv.settled)
