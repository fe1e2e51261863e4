-- ===== src/Atom/Lock.antt =====
-- native-core/shim/native_shim.c, `native_atom_acquire` and `native_atom_release`: who may be
-- between the two.
use beagle.Base.{ℕ, ◌≡◌, ◌≢◌, refl, sym, ◌∙◌, Bool, true, false, ℕ_discrete}

-- The lock stays as it is, is taken, or is given back.
pub data Turn : (p p' : Bool) (locked locked' : Bool) → Type 0 where
  kept : {c l : Bool} → Turn c c l l
  taken : Turn false true false true
  returned : {l : Bool} → Turn true false l false

-- Those inside hold the lock, and they are never two.
pub record IsGuarded (locked : Bool) (inside : ℕ → Bool) : Type 0 where
  pub held : (i : ℕ) → inside i ≡ true → locked ≡ true
  pub owned : locked ≡ true → (i : ℕ) × (inside i ≡ true)
  pub unique : (i j : ℕ) → inside i ≡ true → inside j ≡ true → i ≡ j

pub Turn-IsGuarded :
    {l l' c c' : Bool} {inside inside' : ℕ → Bool} (i : ℕ)
    → IsGuarded l inside
    → Turn c c' l l'
    → inside i ≡ c
    → inside' i ≡ c'
    → ((j : ℕ) → i ≢ j → inside' j ≡ inside j)
    → IsGuarded l' inside'
Turn-IsGuarded {inside} {inside'} i g kept here there others = record {
  held = λ j h. g.held j (sym (same j) ∙ h);
  owned = λ h. let (j, c) = g.owned h in (j, same j ∙ c);
  unique = λ a b h k. g.unique a b (sym (same a) ∙ h) (sym (same b) ∙ k);
}
  where
    same : (j : ℕ) → inside' j ≡ inside j
    same j = elim (ℕ_discrete i j) [ yes e ↦ rw (sym e) (there ∙ sym here) | no d ↦ others j d ]
Turn-IsGuarded {inside} {inside'} i g taken here there others = record {
  held = λ j h. refl;
  owned = λ h. (i, there);
  unique = λ a b h k. sym (only a h) ∙ only b k;
}
  where
    only : (j : ℕ) → inside' j ≡ true → i ≡ j
    only j h = elim (ℕ_discrete i j) [
      | yes e ↦ e
      | no d ↦ let locked : false ≡ true = g.held j (sym (others j d) ∙ h) in cc
    ]
Turn-IsGuarded {inside} {inside'} i g returned here there others = record {
  held = λ j h. absurd (nobody j h);
  owned = λ h. cc;
  unique = λ a b h k. absurd (nobody a h);
}
  where
    nobody : (j : ℕ) → ¬ (inside' j ≡ true)
    nobody j h = elim (ℕ_discrete i j) [
      | yes e ↦ let there' : inside' j ≡ false = rw (sym e) there in cc
      | no d ↦ d (g.unique i j here (sym (others j d) ∙ h))
    ]
