-- ===== src/Map/Built.antt =====
-- Indexes that are built: the size of a table, the placing of all keys, and when it succeeds.
use beagle.Base.{
  ℕ, zero, suc, ◌+◌, ◌*◌, ◌/◌, ◌^◌, ◌≤◌, ◌<◌, ◌≡◌, refl, sym, ap, arith, true, false, Option, none,
  some, List, [], ◌∷◌, ◌++◌, append_assoc, append-nil, ok, length, get_or, replicate,
  length-replicate, length-append, >>=-eq-ok, ok-injective, ◌⊎◌, inl, inr, All, Option-cases, ltb,
  dec_lt,
}
use native.Mathlib.Nat.{pow-suc, pow-le-pow_right}
use mathlib.Core.Path.{subst}
use beagle.Arena.{Arena}
use beagle.Base.Int.{int_max}
use beagle.Collection.{Equality, Kind, collection_bytes, take_bytes}
use beagle.Collection.Lawful.{Lawful}
use beagle.Map.{Index}
use beagle.Map.Indexing.{
  widen_slots, slot_count, min_slots, max_entries, place_all, index_alloc, build,
}
use beagle.Map.Placed.{IsIndexed, taken, place-IsIndexed}

-- The size of a table: the smallest power of two, from 2 ^ 5 on, of which three quarters suffice.
pub record Sized (needed slots : ℕ) : Type 0 where
  pub exponent : ℕ
  pub power : slots ≡ 2 ^ exponent
  pub enough : needed ≤ slots / 4 * 3
  pub smallest : (slots ≡ min_slots) ⊎ (slots / 2 / 4 * 3 < needed)

widen_slots-Sized :
    (rounds k steps needed : ℕ)
    → steps < rounds
    → needed ≤ 2 ^ (k + steps) / 4 * 3
    → 2 ^ (k + steps) ≤ 2 ^ 62
    → (2 ^ k ≡ min_slots) ⊎ (2 ^ k / 2 / 4 * 3 < needed)
    → (slots : ℕ) × (widen_slots rounds (2 ^ k) needed ≡ ok slots) × Sized needed slots
unfolding widen_slots
widen_slots-Sized zero k steps needed few enough fits small = absurd (omega arith)
widen_slots-Sized (suc rounds) k zero needed few enough fits small =
    let now : needed ≤ 2 ^ k / 4 * 3 = let e : k + 0 ≡ k = omega arith in rw e at enough in
    let test : ltb (2 ^ k / 4 * 3) needed ≡ false = ground arith in
    (2 ^ k, rw test refl, record { exponent = k; power = refl; enough = now; smallest = small })
widen_slots-Sized (suc rounds) k (suc steps) needed few enough fits small =
    let e : k + suc steps ≡ suc k + steps = omega arith in
    let double : 2 ^ k * 2 ≡ 2 ^ suc k = omega (arith, pow-suc 2 k) in
    let enough' : needed ≤ 2 ^ (suc k + steps) / 4 * 3 = rw e at enough in
    let fits' : 2 ^ (suc k + steps) ≤ 2 ^ 62 = rw e at fits in
    elim (dec_lt (2 ^ k / 4 * 3) needed) [
      | no stop ↦
          let test : ltb (2 ^ k / 4 * 3) needed ≡ false = ground arith in
          (
            2 ^ k,
            rw test refl,
            record { exponent = k; power = refl; enough = omega arith; smallest = small },
          )
      | yes go ↦
          let test : ltb (2 ^ k / 4 * 3) needed ≡ true = ground arith in
          let half : 2 ^ suc k / 2 / 4 * 3 < needed = omega (arith, pow-suc 2 k) in
          let (slots, run, sized) =
            widen_slots-Sized rounds (suc k) steps needed (omega arith) enough' fits' (inr half) in
          let bound : 2 ^ suc k ≤ 2 ^ (suc k + steps) =
            pow-le-pow_right {n = 2} (omega arith) (omega arith) in
          let small_enough : ltb (int_max / 2) (2 ^ k) ≡ false = ground (arith, pow-suc 2 k) in
          (slots, rw (test, small_enough, double) run, sized)
    ]

-- A table for as many entries as an index may have is found, and it is the smallest.
pub slot_count-Sized :
    (needed : ℕ)
    → needed ≤ max_entries
    → (slots : ℕ) × (slot_count needed ≡ ok slots) × Sized needed slots
unfolding slot_count
slot_count-Sized needed few =
    widen_slots-Sized 64 5 26 needed (omega arith) (omega arith) (omega arith) (inl refl)

taken-replicate : (n : ℕ) → taken (replicate n 0) ≡ 0
taken-replicate zero = refl
taken-replicate (suc n) = omega (arith, taken-replicate n)

get_or-replicate : (n p : ℕ) → ◌≡◌ {A = ℕ} (get_or (replicate n 0) p 0) 0
get_or-replicate zero p = refl
get_or-replicate (suc n) zero = refl
get_or-replicate (suc n) (suc p) = get_or-replicate n p

pub index_alloc-slot_count :
    (a : Arena) (slots : ℕ) (kind : Kind) {r : Index × Arena}
    → index_alloc a slots kind ≡ ok r
    → r.0.slot_count ≡ slots
unfolding index_alloc
index_alloc-slot_count a slots kind {r} made =
    let (a₁, _, made₁) = >>=-eq-ok (take_bytes a _ _) _ made in
    let (bytes, _, made₂) = >>=-eq-ok (collection_bytes _ _) _ made₁ in
    let (a₂, _, made₃) = >>=-eq-ok (take_bytes a₁ _ _) _ made₂ in
    ap (λ p. p.0.slot_count) (sym (ok-injective made₃))

module _ {ℓ} {K : Type ℓ} {e : Equality K} (lawful : Lawful e) where
  open lawful use {IsReadable, digest, hash_ok}

  -- A map without an index, or with one that holds these keys.
  abbrev pub HasIndex : Option Index → List K → Type ℓ
  HasIndex none keys = Unit {ℓ}
  HasIndex (some index) keys = IsIndexed lawful index keys

  -- A new index holds nothing.
  index_alloc-IsIndexed :
      (a : Arena) (needed slots : ℕ) (kind : Kind) {r : Index × Arena}
      → Sized needed slots
      → 0 < slots
      → index_alloc a slots kind ≡ ok r
      → IsIndexed lawful r.0 [] × (r.0.slot_count ≡ slots)
  unfolding index_alloc
  index_alloc-IsIndexed a needed slots kind {r} sized positive made =
      let (a₁, _, made₁) = >>=-eq-ok (take_bytes a _ _) _ made in
      let (bytes, _, made₂) = >>=-eq-ok (collection_bytes _ _) _ made₁ in
      let (a₂, _, made₃) = >>=-eq-ok (take_bytes a₁ _ _) _ made₂ in
      rw (← ok-injective made₃) (
        record {
          width = length-replicate slots 0;
          exponent = sized.exponent;
          power = sized.power;
          counted = refl;
          filled = taken-replicate slots;
          room = positive;
          small = λ p. omega (arith, get_or-replicate slots p);
          reach = λ i k at. cc;
        },
        refl,
      )

  -- Placing keys behind others ends, with an index of all of them, or with none where a key has no
  -- hash.
  pub place_all-HasIndex :
      (index : Index) (done keys : List K)
      → IsIndexed lawful index done
      → All IsReadable keys
      → length done + length keys < index.slot_count
      → (result : Option Index) × (place_all e index (length done) keys ≡ ok result)
        × HasIndex result (done ++ keys)
  unfolding place_all
  place_all-HasIndex index done [] v readable space = (some index, refl, rw append-nil v)
  place_all-HasIndex index done (k ∷ ks) v readable space = elim (Option-cases (digest k)) [
    | inl none' ↦ (none, rw (hash_ok k readable.0, none') refl, tt)
    | inr (h, hashed) ↦
        let (index', placed, v', count, kind) =
          place-IsIndexed lawful index done k h v hashed (omega arith) in
        let longer = length-append done (k ∷ []) in
        let (result, run, w) =
          place_all-HasIndex index' (done ++ k ∷ []) ks v' readable.1
            (omega (arith, count, longer)) in
        let e₁ : length (done ++ k ∷ []) ≡ length done + 1 = omega (arith, longer) in
        let run' : place_all e index' (length done + 1) ks ≡ ok result = rw e₁ at run in
        (result, rw (hash_ok k readable.0, hashed, placed) run', rw append_assoc at w)
  ]

  -- A rebuilt index holds all the keys it was built from.
  pub build-HasIndex :
      (a : Arena) (keys : List K) (reserve : ℕ) {r : Option Index × Arena}
      → All IsReadable keys
      → length keys ≤ reserve
      → reserve ≤ max_entries
      → 0 < reserve
      → build e a keys reserve ≡ ok r
      → HasIndex r.0 keys
  unfolding build
  build-HasIndex a keys reserve {r} readable covers few some' made =
      let (slots, sized, s) = slot_count-Sized reserve few in
      let made₁ = rw sized at made in
      let ((fresh, a'), alloced, made₂) = >>=-eq-ok (index_alloc a slots e.kind) _ made₁ in
      let (v, count) =
        index_alloc-IsIndexed a reserve slots e.kind s (omega (arith, s.enough)) alloced in
      let (result, run, w) =
        place_all-HasIndex fresh [] keys v readable (omega (arith, s.enough, count)) in
      let made₃ = rw run at made₂ in rw (← ok-injective made₃) w

  -- A copy of a table holds what the table holds.
  pub copied-IsIndexed :
      (parent : Index) (old : List K) (slots : ℕ) (kind : Kind)
      → slots ≡ parent.slot_count
      → IsIndexed lawful parent old
      → IsIndexed lawful (record parent { slot_count = slots; kind = kind }) old
  copied-IsIndexed parent old slots kind same_count v =
      subst (λ n. IsIndexed lawful (record parent { slot_count = n; kind = kind }) old)
        (sym same_count)
        (record {
          width = v.width;
          exponent = v.exponent;
          power = v.power;
          counted = v.counted;
          filled = v.filled;
          room = v.room;
          small = v.small;
          reach = v.reach;
        })
