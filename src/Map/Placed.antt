-- ===== src/Map/Placed.antt =====
-- The index of a map with the entries that it has taken in so far, and what placing one more does.
use beagle.Base.{
  ℕ, zero, suc, ◌+◌, ◌-◌, ◌^◌, ◌≤◌, ◌<◌, ◌≡◌, refl, sym, ◌∙◌, ap, arith, some, List, [], ◌∷◌, ◌++◌,
  ok, if◌then◌else◌, ◌==◌, length, get_elem?, get_or, set, length-set, length-append,
  get_or-set_self, get_or-set_ne, bit_and, ℕ_discrete, ◌⊎◌, inl, inr,
}
use beagle.Base.Bits.{bit_and_mask}
use native.Mathlib.Nat.{one-le-pow}
use mathlib.Core.Path.{subst}
use beagle.Collection.{Equality}
use beagle.Collection.Lawful.{Lawful}
use beagle.Map.{Index}
use beagle.Map.Indexing.{place}
use beagle.Map.Walk.{walk, Reached, Stopped, walk_meets, walk-lt, empty_from-Stopped, Passes-set}

-- How many slots are taken.
abbrev pub taken : List ℕ → ℕ
taken [] = 0
taken (s ∷ ss) = (if s == 0 then 0 else 1) + taken ss

-- A table that is not full has an empty slot.
pub empty_slot :
    (slots : List ℕ)
    → taken slots < length slots
    → (q : ℕ) × (q < length slots) × (get_or slots q 0 ≡ 0)
empty_slot [] few = absurd (omega arith)
empty_slot (s ∷ ss) few = elim (ℕ_discrete s 0) [
  | yes e ↦ (0, omega arith, e)
  | no ne ↦ let (q, within, e) = empty_slot ss (ground arith) in (suc q, omega arith, e)
]

taken-set :
    (slots : List ℕ) (q v : ℕ)
    → q < length slots
    → get_or slots q 0 ≡ 0
    → taken (set slots q (suc v)) ≡ suc (taken slots)
taken-set [] q v within free = absurd (omega arith)
taken-set (s ∷ ss) zero v within free = rw free (ground arith)
taken-set (s ∷ ss) (suc q) v within free = omega (arith, taken-set ss q v (omega arith) free)

set-le :
    (slots : List ℕ) (q v p bound : ℕ)
    → v ≤ bound
    → get_or slots p 0 ≤ bound
    → get_or (set slots q v) p 0 ≤ bound
set-le [] q v p bound le old = old
set-le (s ∷ ss) zero v zero bound le old = le
set-le (s ∷ ss) zero v (suc p) bound le old = old
set-le (s ∷ ss) (suc q) v zero bound le old = old
set-le (s ∷ ss) (suc q) v (suc p) bound le old = set-le ss q v p bound le old

-- An element behind a list is new, or it is one of the list.
pub get_elem?-append {ℓ} :
    {A : Type ℓ} (xs : List A) (y : A) (i : ℕ) (x : A)
    → get_elem? (xs ++ y ∷ []) i ≡ some x
    → (get_elem? xs i ≡ some x) ⊎ ((i ≡ length xs) × (y ≡ x))
get_elem?-append [] y zero x at = inr (refl, ground arith)
get_elem?-append [] y (suc i) x at = cc
get_elem?-append (z ∷ zs) y zero x at = inl at
get_elem?-append (z ∷ zs) y (suc i) x at = elim (get_elem?-append zs y i x at) [
  | inl old ↦ inl old
  | inr new ↦ inr (ap suc new.0, new.1)
]

pub get_elem?-lt {ℓ} :
    {A : Type ℓ} (xs : List A) (i : ℕ) (x : A) → get_elem? xs i ≡ some x → i < length xs
get_elem?-lt [] i x at = cc
get_elem?-lt (y ∷ ys) zero x at = omega arith
get_elem?-lt (y ∷ ys) (suc i) x at = omega (arith, get_elem?-lt ys i x at)

-- A probe from this hash comes to an empty slot in fewer rounds than there are slots.
abbrev pub MeetsFree : ℕ → List ℕ → ℕ → Type 0
MeetsFree h slots count =
    (j : ℕ) × (j < count) × (get_or slots (walk (count - 1) (bit_and h (count - 1)) j) 0 ≡ 0)

free_slot_of_power :
    (h : ℕ) (slots : List ℕ) (k : ℕ)
    → length slots ≡ 2 ^ k
    → taken slots < length slots
    → MeetsFree h slots (2 ^ k)
free_slot_of_power h slots k width few =
    let (q, within, free) = empty_slot slots few in
    let start : bit_and h (2 ^ k - 1) < 2 ^ k = rw bit_and_mask (omega (arith, one-le-pow k 2)) in
    let (j, lt, meets) = walk_meets k (bit_and h (2 ^ k - 1)) q start (omega arith) in
    (j, lt, rw meets free)

Stopped-lt :
    (h : ℕ) (slots : List ℕ) (end k : ℕ)
    → Stopped slots (2 ^ k - 1) (bit_and h (2 ^ k - 1)) end
    → end < 2 ^ k
Stopped-lt h slots end k s =
    let start : bit_and h (2 ^ k - 1) < 2 ^ k = rw bit_and_mask (omega (arith, one-le-pow k 2)) in
    omega (arith, s.ends, walk-lt k (bit_and h (2 ^ k - 1)) s.distance start)

-- Where a probe from a hash stops.
abbrev StopsAt : ℕ → List ℕ → ℕ → ℕ → Type 0
StopsAt h slots end count = Stopped slots (count - 1) (bit_and h (count - 1)) end

module _ {ℓ} {K : Type ℓ} {e : Equality K} (lawful : Lawful e) where
  open lawful use {digest}

  -- The index holds the positions of these keys, each where a probe for it comes along, and one
  -- slot at least is empty.
  pub record IsIndexed (index : Index) (keys : List K) : Type ℓ where
    pub width : length index.slots ≡ index.slot_count
    pub exponent : ℕ
    pub power : index.slot_count ≡ 2 ^ exponent
    pub counted : index.entries ≡ length keys
    pub filled : taken index.slots ≡ length keys
    pub room : length keys < index.slot_count
    pub small : (p : ℕ) → get_or index.slots p 0 ≤ length keys
    pub reach :
        (i : ℕ) (k : K)
        → get_elem? keys i ≡ some k
        → (h : ℕ) × (digest k ≡ some h)
          × Reached index.slots (index.slot_count - 1) (bit_and h (index.slot_count - 1)) i

  -- A probe from any hash comes to an empty slot within as many rounds as there are slots.
  pub free_slot :
      (index : Index) (keys : List K) (h : ℕ)
      → IsIndexed index keys
      → MeetsFree h index.slots index.slot_count
  free_slot index keys h v = subst (MeetsFree h index.slots) (sym v.power) (
      free_slot_of_power h index.slots v.exponent (omega (arith, v.width, v.power))
        (omega (arith, v.width, v.filled, v.room)))

  Reached-set :
      (slots : List ℕ) (mask home i q v : ℕ)
      → get_or slots q 0 ≡ 0
      → Reached slots mask home i
      → Reached (set slots q (suc v)) mask home i
  Reached-set slots mask home i q v free r =
      let end = walk mask home r.distance in
      record {
        distance = r.distance;
        passes = Passes-set slots mask home r.distance q (suc v) (omega arith) r.passes;
        stands =
            get_or-set_ne slots q end (suc v) 0
              (λ same. absurd (omega (arith, r.stands, ap (λ t. get_or slots t 0) same, free)))
            ∙ r.stands;
      }

  module _ (index : Index) (keys : List K) (key : K) (h end : ℕ) where
    abbrev after : Index
    after = record index {
      slots = set index.slots end (suc (length keys));
      entries = index.entries + 1;
    }

    after-reach :
        (v : IsIndexed index keys)
        → digest key ≡ some h
        → StopsAt h index.slots end index.slot_count
        → end < length index.slots
        → (i : ℕ) (k : K) → get_elem? (keys ++ key ∷ []) i ≡ some k
        → (g : ℕ) × (digest k ≡ some g)
          × Reached after.slots (index.slot_count - 1) (bit_and g (index.slot_count - 1)) i
    after-reach v hashed s inside i k at = elim (get_elem?-append keys key i k at) [
      | inl old ↦
          let (g, e', r) = v.reach i k old in
          (g, e', Reached-set index.slots (index.slot_count - 1) _ i end (length keys) s.empty r)
      | inr new ↦ (
        h,
        rw (← new.1) hashed,
        record {
          distance = s.distance;
          passes =
              Passes-set index.slots (index.slot_count - 1) _ s.distance end (suc (length keys))
                (omega arith) s.passes;
          stands =
              rw (← s.ends, new.0) (get_or-set_self index.slots end (suc (length keys)) 0 inside);
        },
      )
    ]

    after-IsIndexed :
        IsIndexed index keys
        → digest key ≡ some h
        → suc (length keys) < index.slot_count
        → StopsAt h index.slots end index.slot_count
        → end < length index.slots
        → IsIndexed after (keys ++ key ∷ [])
    after-IsIndexed v hashed space s inside =
        let n = length keys in
        let more = length-append keys (key ∷ []) in
        record {
          width = length-set index.slots end (suc n) ∙ v.width;
          exponent = v.exponent;
          power = v.power;
          counted = omega (arith, v.counted, more);
          filled = omega (arith, taken-set index.slots end n inside s.empty, v.filled, more);
          room = omega (arith, more);
          small = λ p.
              set-le index.slots end (suc n) p _ (omega (arith, more))
                (omega (arith, v.small p, more));
          reach = after-reach v hashed s inside;
        }

  -- Placing the next key takes an empty slot, and every key stays where a probe for it comes along.
  pub place-IsIndexed :
      (index : Index) (keys : List K) (key : K) (h : ℕ)
      → IsIndexed index keys
      → digest key ≡ some h
      → suc (length keys) < index.slot_count
      → (index' : Index) × (place index h (length keys) ≡ ok index')
        × IsIndexed index' (keys ++ key ∷ [])
        × (index'.slot_count ≡ index.slot_count)
        × (index'.kind ≡ index.kind)
  unfolding place
  place-IsIndexed index keys key h v hashed space =
      let mask = index.slot_count - 1 in
      let (j, within, free) = free_slot index keys h v in
      let (end, stops, s) =
        empty_from-Stopped index.slots mask index.slot_count (bit_and h mask) j within free in
      let inside : end < length index.slots = omega (
        arith,
        v.width,
        subst (λ n. StopsAt h index.slots end n → end < n) (sym v.power)
            (Stopped-lt h index.slots end v.exponent) s,
      ) in
      (
        after index keys key h end,
        rw stops refl,
        after-IsIndexed index keys key h end v hashed space s inside,
        refl,
        refl,
      )
