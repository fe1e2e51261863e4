-- ===== src/Buffer/Registered.antt =====
-- The order in which `native_arena_buffer_registration_at` publishes the live registrations.
use beagle.Base.{
  ℕ, zero, suc, ◌+◌, ◌-◌, ◌≤◌, ◌<◌, ◌≡◌, refl, sym, ◌∙◌, arith, true, false, none, some, List, [],
  ◌∷◌, ◌++◌, ◌==◌, if◌then◌else◌, length, get_elem?, length-append, dec_lt, Bool-cases, inl, inr,
}
use beagle.Base.Int.{pos}
use beagle.Arena.{Arena, Registry, Registration}
use beagle.Buffer.{count_live, registration_count, nth_live, registration_at}

-- The registrations of a generation, from the oldest to the newest.
unfoldable pub oldest_first : ℕ → List Registration → List Registration
oldest_first generation [] = []
oldest_first generation (r ∷ rs) =
    if r.generation == generation
    then oldest_first generation rs ++ (r ∷ [])
    else oldest_first generation rs

get_elem?-append :
    (xs : List Registration) (r : Registration) (i : ℕ)
    → i < length xs
    → get_elem? (xs ++ (r ∷ [])) i ≡ get_elem? xs i
get_elem?-append [] r i h = absurd (omega arith)
get_elem?-append (x ∷ xs) r zero h = refl
get_elem?-append (x ∷ xs) r (suc i) h = get_elem?-append xs r i (omega arith)

get_elem?-last :
    (xs : List Registration) (r : Registration) → get_elem? (xs ++ (r ∷ [])) (length xs) ≡ some r
get_elem?-last [] r = refl
get_elem?-last (x ∷ xs) r = get_elem?-last xs r

get_elem?-past : (xs : List Registration) (i : ℕ) → length xs ≤ i → get_elem? xs i ≡ none
get_elem?-past [] i h = refl
get_elem?-past (x ∷ xs) zero h = absurd (omega arith)
get_elem?-past (x ∷ xs) (suc i) h = get_elem?-past xs i (omega arith)

length-oldest_first :
    (generation : ℕ) (rs : List Registration)
    → length (oldest_first generation rs) ≡ count_live generation rs
unfolding oldest_first count_live
length-oldest_first generation [] = refl
length-oldest_first generation (r ∷ rs) = elim (Bool-cases (r.generation == generation)) [
  | inl live ↦ rw live (
      omega (
        arith,
        length-append (oldest_first generation rs) (r ∷ []),
        length-oldest_first generation rs,
      ))
  | inr stale ↦ rw stale (omega (arith, length-oldest_first generation rs))
]

nth_live-oldest_first :
    (generation : ℕ) (rs : List Registration) (i : ℕ)
    → i < count_live generation rs
    → nth_live generation rs (count_live generation rs - i)
      ≡ get_elem? (oldest_first generation rs) i
unfolding nth_live oldest_first count_live
nth_live-oldest_first generation [] i h = absurd (omega arith)
nth_live-oldest_first generation (r ∷ rs) i h = elim (Bool-cases (r.generation == generation)) [
  | inr stale ↦
      let below : i < count_live generation rs = ground (arith, stale) in
      let same : 0 + count_live generation rs - i ≡ count_live generation rs - i = omega arith in
      rw (stale, same) (nth_live-oldest_first generation rs i below)
  | inl live ↦
      let older = length-oldest_first generation rs in
      let bound : i < 1 + count_live generation rs = ground (arith, live) in
      elim (dec_lt i (count_live generation rs)) [
        | yes below ↦
            let more : (1 + count_live generation rs - i == 1) ≡ false = ground arith in
            let rest : 1 + count_live generation rs - i - 1 ≡ count_live generation rs - i =
              omega arith in
            rw (live, more, rest)
              (nth_live-oldest_first generation rs i below
                ∙ sym (get_elem?-append (oldest_first generation rs) r i (omega (arith, older))))
        | no newest ↦
            let found : (1 + count_live generation rs - i == 1) ≡ true = ground arith in
            let last : i ≡ length (oldest_first generation rs) = omega (arith, older) in
            rw (live, found, last) (sym (get_elem?-last (oldest_first generation rs) r))
      ]
]

-- `native_arena_buffer_registration_at` publishes the live registrations from the oldest to the newest,
-- and NULL behind them.
pub registration_at-oldest_first :
    (a : Arena) (registry : Registry) (index : ℕ)
    → a.buffer_registry ≡ some registry
    → registration_at a (pos index)
      ≡ get_elem? (oldest_first registry.generation registry.registrations) index
unfolding registration_at registration_count
registration_at-oldest_first a registry index e =
    let g = registry.generation in
    let rs = registry.registrations in
    rw e (elim (dec_lt index (count_live g rs)) [
      | yes below ↦ ground (arith, nth_live-oldest_first g rs index below)
      | no past ↦
          let gone =
            get_elem?-past (oldest_first g rs) index (omega (arith, length-oldest_first g rs)) in
          ground (arith, gone)
    ])
