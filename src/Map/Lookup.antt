-- ===== src/Map/Lookup.antt =====
-- Looking a key up through the index gives what a scan of the keys gives.
use beagle.Base.{
  ℕ, zero, suc, ◌-◌, ◌<◌, ◌≡◌, ◌≢◌, refl, sym, ◌∙◌, ap, arith, Bool, true, false, Option, none,
  some, List, ok, ◌==◌, get_elem?, get_or, bit_and, ℕ_discrete, ◌⊎◌, inl, inr, All, Bool-cases,
  Option-cases,
}
use beagle.Collection.{Equality}
use beagle.Collection.Lawful.{Lawful}
use beagle.Collection.Scan.{first, Distinct, first_unique, first-absent, All-get_elem?}
use beagle.Map.{Index, advance, matches, probe_from, hashed_lookup, index_lookup, usable}
use beagle.Map.Walk.{walk, Passes, Reached}
use beagle.Map.Placed.{IsIndexed, free_slot}

module _ {ℓ} {K : Type ℓ} {e : Equality K} (lawful : Lawful e) where
  open lawful use {IsReadable, same, digest, equal_ok, hash_ok, same_symm, digest_same}

  module _ (keys : List K) (key : K) (readable : All IsReadable keys) (r : IsReadable key) where
    -- A comparison without its traps.
    abbrev hits : Option K → Bool
    hits none = false
    hits (some k) = same k key

    matches-hits : (i : ℕ) (o : Option K) → get_elem? keys i ≡ o → matches e o key ≡ ok (hits o)
    unfolding matches
    matches-hits i none at = refl
    matches-hits i (some k) at = equal_ok k key (All-get_elem? lawful keys i k readable at) r

    hits-some : (o : Option K) → hits o ≡ true → (k : K) × (o ≡ some k) × (same k key ≡ true)
    hits-some none h = cc
    hits-some (some k) h = (k, refl, h)

    -- What the loop answers, from the first slot on that is free or matches.
    data Answer (slots : List ℕ) (mask probe : ℕ) : Option ℕ → Type ℓ where
      is_absent :
          ((i : ℕ) (k : K)
            → get_elem? keys i ≡ some k
            → same k key ≡ true
            → Reached slots mask probe i
            → ⊥)
          → Answer slots mask probe none
      is_found :
          (i : ℕ) (k : K)
          → get_elem? keys i ≡ some k
          → same k key ≡ true
          → Answer slots mask probe (some i)

    first_free :
        (slots : List ℕ) (mask probe : ℕ)
        → get_or slots probe 0 ≡ 0
        → (i : ℕ) (k : K) → get_elem? keys i ≡ some k
        → same k key ≡ true
        → Reached slots mask probe i
        → ⊥
    first_free slots mask probe empty i k at s reached =
        at_start reached.distance reached.passes reached.stands
      where
        at_start :
            (d : ℕ) → Passes slots mask probe d → get_or slots (walk mask probe d) 0 ≡ suc i → ⊥
        at_start zero passes stands = omega (arith, empty, stands)
        at_start (suc d) passes stands = passes.0 empty

    -- The rest of a walk to a free slot.
    later :
        (slots : List ℕ) (mask rounds probe j : ℕ)
        → j < suc rounds
        → get_or slots probe 0 ≢ 0
        → get_or slots (walk mask probe j) 0 ≡ 0
        → (i : ℕ) × (i < rounds) × (get_or slots (walk mask (advance mask probe) i) 0 ≡ 0)
    later slots mask rounds probe zero within ne free = absurd (ne free)
    later slots mask rounds probe (suc j) within ne free = (j, omega arith, free)

    -- An answer from the next slot on, behind one that does not match.
    passed :
        (slots : List ℕ) (mask probe : ℕ)
        → get_or slots probe 0 ≢ 0
        → hits (get_elem? keys (get_or slots probe 0 - 1)) ≡ false
        → (answer : Option ℕ) → Answer slots mask (advance mask probe) answer
        → Answer slots mask probe answer
    passed slots mask probe ne miss answer (is_found i k at s) = is_found i k at s
    passed slots mask probe ne miss answer (is_absent none_later) =
        is_absent
          (λ i k at s reached. at_distance i k at s reached.distance reached.passes reached.stands)
      where
        at_distance :
            (i : ℕ) (k : K)
            → get_elem? keys i ≡ some k
            → same k key ≡ true
            → (d : ℕ) → Passes slots mask probe d
            → get_or slots (walk mask probe d) 0 ≡ suc i
            → ⊥
        at_distance i k at s zero passes stands =
            let e₁ : get_or slots probe 0 - 1 ≡ i = omega (arith, stands) in
            let e₂ : hits (get_elem? keys i) ≡ false = rw e₁ at miss in
            let e₃ : same k key ≡ false = rw at at e₂ in cc (s, e₃)
        at_distance i k at s (suc d) passes stands =
            none_later i k at s (record { distance = d; passes = passes.1; stands = stands })

    probe_from-Answer :
        (slots : List ℕ) (mask rounds probe j : ℕ)
        → j < rounds
        → get_or slots (walk mask probe j) 0 ≡ 0
        → (answer : Option ℕ) × (probe_from e slots mask keys rounds probe key ≡ ok answer)
          × Answer slots mask probe answer
    unfolding probe_from
    probe_from-Answer slots mask zero probe j within free = absurd (omega arith)
    probe_from-Answer slots mask (suc rounds) probe j within free =
        elim (ℕ_discrete (get_or slots probe 0) 0) [
          | yes empty ↦ (none, rw empty refl, is_absent (first_free slots mask probe empty))
          | no ne ↦
              let test : (get_or slots probe 0 == 0) ≡ false = ground arith in
              let o = get_elem? keys (get_or slots probe 0 - 1) in
              let compared = matches-hits (get_or slots probe 0 - 1) o refl in
              elim (Bool-cases (hits o)) [
                | inl hit ↦
                    let (k, at, s) = hits-some o hit in
                    (
                      some (get_or slots probe 0 - 1),
                      rw (test, compared, hit) refl,
                      is_found (get_or slots probe 0 - 1) k at s,
                    )
                | inr miss ↦
                    let (i, lt, free') = later slots mask rounds probe j within ne free in
                    let (answer, run, a) =
                      probe_from-Answer slots mask rounds (advance mask probe) i lt free' in
                    (
                      answer,
                      rw (test, compared, miss) run,
                      passed slots mask probe ne miss answer a,
                    )
              ]
        ]

    -- An answer through a good index is that of the scan.
    Answer-first :
        (index : Index) (h : ℕ) (answer : Option ℕ)
        → IsIndexed lawful index keys
        → Distinct lawful keys
        → digest key ≡ some h
        → Answer index.slots (index.slot_count - 1) (bit_and h (index.slot_count - 1)) answer
        → first lawful keys 0 key ≡ answer
    Answer-first index h answer v distinct hashed (is_found i k at s) =
        first_unique lawful keys 0 i k key distinct at s ∙ ap some (omega arith)
    Answer-first index h answer v distinct hashed (is_absent nowhere) =
        first-absent lawful keys 0 key (λ i k at s.
          let (g, e', reached) = v.reach i k at in
          let same_hash : some g ≡ some h = sym e' ∙ digest_same k key s ∙ hashed in
          let e'' : g ≡ h = ground arith in nowhere i k at s (rw e'' at reached))

    -- Through a good index a lookup ends, and its answer is that of the scan, or that a scan is due.
    pub index_lookup-first :
        (index : Index) (map_length : ℕ)
        → IsIndexed lawful index keys
        → Distinct lawful keys
        → (index_lookup e index keys map_length key ≡ ok none)
          ⊎ (index_lookup e index keys map_length key ≡ ok (some (first lawful keys 0 key)))
    unfolding index_lookup hashed_lookup
    index_lookup-first index map_length v distinct = elim (Bool-cases (usable e index map_length)) [
      | inr no' ↦ inl (rw no' refl)
      | inl yes' ↦ elim (Option-cases (digest key)) [
        | inl none' ↦ inl (rw (yes', hash_ok key r, none') refl)
        | inr (h, hashed) ↦
            let mask = index.slot_count - 1 in
            let (j, lt, free) = free_slot lawful index keys h v in
            let (answer, run, a) =
              probe_from-Answer index.slots mask index.slot_count (bit_and h mask) j lt free in
            inr (
              rw (yes', hash_ok key r, hashed, run)
                (ap (λ o. ok (some o)) (sym (Answer-first index h answer v distinct hashed a))))
      ]
    ]
