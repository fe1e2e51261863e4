-- ===== src/Map/Edited.antt =====
-- Transient maps: opened, written in place, closed.
use beagle.Base.{
  ℕ, ◌*◌, ◌/◌, ◌<◌, ◌≡◌, refl, sym, ◌∙◌, ap, arith, Bool, true, false, not, ◌||◌, Option, none,
  some, [], ok, Run, trap, trap_if, length, take_whole, ◌>>=◌, ◌>>◌, >>=-eq-ok, >>-eq-ok,
  ok-injective, if◌then◌else◌, All, inl, inr, Bool-cases, ◌==◌, ltb, overflow, invalid_argument,
  trap_if-passed,
}
use mathlib.Core.Path.{subst}
use beagle.Base.Int.{ℤ, pos, int_max, eq_int, eq_int→eq}
use beagle.Arena.{Arena}
use beagle.Collection.{
  Equality, persistent, transient, retired, grown_capacity, collection_bytes, take_bytes,
}
use beagle.Collection.Lawful.{Lawful}
use beagle.Collection.Scan.{first, Distinct}
use beagle.Map.{
  Map, new, broken, check, check_shape, check_transient, check_persistent, live_keys, live_values,
  find, map_size, pointer_alignment,
}
use beagle.Map.Change.{assoc_transient, enlarge, insert, transient_open, persistent_close}
use beagle.Map.Built.{HasIndex}
use beagle.Map.Entries.{put}
use beagle.Map.Valid.{IsFilled, IsValid, Means, entries, entries-items, find-first}
use beagle.Map.Fresh.{new-IsNew}
use beagle.Map.Inserted.{insert-Inserts}

pub grown_capacity-lt :
    (capacity : ℕ) {grown : ℕ} → grown_capacity capacity ≡ ok grown → capacity < grown
unfolding grown_capacity
grown_capacity-lt capacity {grown} g =
    let (_, g₁) = >>-eq-ok (ltb (int_max / 2) capacity) overflow _ g in
    let e : (if capacity == 0 then 4 else capacity * 2) ≡ grown = ok-injective g₁ in ground arith

both_hold : (a b : Bool) → (not a || not b) ≡ false → b ≡ true
both_hold true true h = refl
both_hold true false h = cc
both_hold false b h = cc

check_shape-stride {ℓ κ} :
    {K : Type ℓ} {V : Type κ} (m : Map K V) (key_stride value_stride : ℤ)
    → check_shape m key_stride value_stride ≡ ok tt
    → m.value_stride ≡ value_stride
unfolding check_shape check
check_shape-stride m key_stride value_stride passed =
    let (_, p) = >>-eq-ok (broken m) invalid_argument _ passed in
    let same_keys = eq_int m.key_stride key_stride in
    let same_values = eq_int m.value_stride value_stride in
    eq_int→eq m.value_stride value_stride (
      both_hold same_keys same_values
        (trap_if-passed (not same_keys || not same_values) invalid_argument p))

module _ {ℓ κ} {K : Type ℓ} {V : Type κ} {e : Equality K} (lawful : Lawful e) where
  open lawful use {IsReadable, same}

  -- The same entries in larger storage.
  pub record Enlarges (m r : Map K V) : Type (ℓ ⊔ κ) where
    pub valid : IsValid lawful r
    pub same_keys : r.keys.items ≡ m.keys.items
    pub same_entries : entries lawful r ≡ entries lawful m
    pub space : r.length < r.capacity

  abbrev larger : Map K V → ℕ → Map K V
  larger m grown = record m {
    keys = record { null = false; items = live_keys m };
    values = record { null = false; items = live_values m };
    capacity = grown;
  }

  larger-Enlarges :
      (m : Map K V) (grown bytes : ℕ)
      → IsValid lawful m
      → m.capacity < grown
      → collection_bytes (pos grown) m.value_stride ≡ ok bytes
      → Enlarges m (larger m grown)
  unfolding broken
  larger-Enlarges m grown bytes v more values_fit =
      let ks = take_whole m.length m.keys.items v.filled.key_count in
      let vs = take_whole m.length m.values.items v.filled.value_count in
      let f : IsFilled lawful (larger m grown) = record {
        sound = ground (arith, v.filled.sound);
        key_count = ap length ks ∙ v.filled.key_count;
        value_count = ap length vs ∙ v.filled.value_count;
        readable = subst (All IsReadable) (sym ks) v.filled.readable;
        distinct = subst (Distinct lawful) (sym ks) v.filled.distinct;
        roomy = omega (arith, v.filled.roomy);
        value_bytes = bytes;
        values_fit = values_fit;
      } in
      record {
        valid = record { filled = f; held = subst (HasIndex lawful m.index) (sym ks) v.held };
        same_keys = ks;
        same_entries = entries-items lawful (larger m grown) f;
        space = omega (arith, v.filled.roomy);
      }

  enlarge-Enlarges :
      (a : Arena) (m : Map K V) (key_stride : ℤ) (key_alignment : ℕ) (value_stride : ℤ)
      (value_alignment : ℕ) {r : Map K V × Arena}
      → IsValid lawful m
      → m.value_stride ≡ value_stride
      → enlarge a m key_stride key_alignment value_stride value_alignment ≡ ok r
      → Enlarges m r.0
  unfolding enlarge
  enlarge-Enlarges a m key_stride key_alignment value_stride value_alignment {r} v stride done =
      let (grown, g, d₁) = >>=-eq-ok (grown_capacity m.capacity) _ done in
      let (kb, _, d₂) = >>=-eq-ok (collection_bytes (pos grown) key_stride) _ d₁ in
      let (a₁, _, d₃) = >>=-eq-ok (take_bytes a kb key_alignment) _ d₂ in
      let (vb, values_fit, d₄) = >>=-eq-ok (collection_bytes (pos grown) value_stride) _ d₃ in
      let (a₂, _, d₅) = >>=-eq-ok (take_bytes a₁ vb value_alignment) _ d₄ in
      subst (λ x. Enlarges m x.0) (ok-injective d₅)
        (larger-Enlarges m grown vb v (grown_capacity-lt m.capacity g)
          (subst (λ s. collection_bytes (pos grown) s ≡ ok vb) (sym stride) values_fit))

  -- A successful `native_map_assoc_transient` on a map in order leaves a map in order, with the
  -- value of the key replaced or a new last entry.
  pub assoc_transient-put :
      (a : Arena) (owner : ℕ) (m : Map K V) (key : K) (value : V) (key_stride : ℤ)
      (key_alignment : ℕ) (value_stride : ℤ) (value_alignment : ℕ) {r : Map K V × Arena}
      → IsValid lawful m
      → IsReadable key
      → assoc_transient e a owner m key value key_stride key_alignment value_stride value_alignment
        ≡ ok r
      → Means lawful r.0 (put same key value (entries lawful m))
  unfolding assoc_transient
  assoc_transient-put a owner m key value key_stride key_alignment value_stride value_alignment {r}
        v readable done =
      let (_, shaped, d₁) = >>=-eq-ok (check_shape m key_stride value_stride) _ done in
      let (_, _, d₂) = >>=-eq-ok (check_transient m owner) _ d₁ in
      let (prior, found, d₃) = >>=-eq-ok (find e m key) _ d₂ in
      by_prior prior (ok-injective (sym (find-first lawful m key v readable) ∙ found))
        (check_shape-stride m key_stride value_stride shaped) d₃
    where
      roomy : Run (Map K V × Arena)
      roomy =
          if m.length == m.capacity
          then enlarge a m key_stride key_alignment value_stride value_alignment
          else ok (m, a)

      by_prior :
          (prior : Option ℕ)
          → first lawful m.keys.items 0 key ≡ prior
          → m.value_stride ≡ value_stride
          → (elim prior as (λ _. Run (Map K V × Arena)) [
            | some i ↦ insert e a m key value (some i)
            | none ↦
                trap_if (m.length == int_max) overflow
                >> (roomy >>= λ x. insert e x.1 x.0 key value none)
          ])
            ≡ ok r
          → Means lawful r.0 (put same key value (entries lawful m))
      by_prior (some i) present stride done =
          (insert-Inserts lawful a m key value (some i) v readable present (λ new'. cc) done).means
      by_prior none absent stride done =
          let (_, d) = >>-eq-ok (m.length == int_max) overflow _ done in
          let ((m', a'), made, inserted) = >>=-eq-ok roomy _ d in
          elim (Bool-cases (m.length == m.capacity)) [
            | inl full ↦
                let w =
                  enlarge-Enlarges a m key_stride key_alignment value_stride value_alignment v
                    stride (rw full at made) in
                let i =
                  insert-Inserts lawful a' m' key value none w.valid readable
                    (ap (λ ks. first lawful ks 0 key) w.same_keys ∙ absent) (λ new'. w.space)
                    inserted in
                subst (λ es. Means lawful r.0 (put same key value es)) w.same_entries i.means
            | inr space ↦
                let e' : (m, a) ≡ (m', a') = ok-injective (rw space at made) in
                let inserted' : insert e a m key value none ≡ ok r =
                  subst (λ x. insert e x.1 x.0 key value none ≡ ok r) (sym e') inserted in
                (insert-Inserts lawful a m key value none v readable absent
                  (λ new'. ground (arith, v.filled.roomy)) inserted').means
          ]

  -- A successful `native_map_transient_open` returns an empty transient map in order.
  pub transient_open-empty :
      (a : Arena) (owner : ℕ) (source : Map K V) (key_alignment value_alignment : ℕ)
      {r : Map K V × Arena}
      → transient_open a owner source key_alignment value_alignment ≡ ok r
      → Means lawful r.0 []
  unfolding transient_open broken
  transient_open-empty a owner source key_alignment value_alignment {r} done =
      let (_, _, d₁) = >>=-eq-ok (check_persistent source) _ done in
      let (_, d₂) = >>-eq-ok (not (source.length == 0)) invalid_argument _ d₁ in
      let ((m, a'), made, d₃) =
        >>=-eq-ok (new a 4 source.key_stride key_alignment source.value_stride value_alignment) _
          d₂ in
      let n =
        new-IsNew a 4 source.key_stride key_alignment source.value_stride value_alignment made in
      subst (λ x. Means lawful x.0 []) (ok-injective d₃)
        (subst (λ t. Means lawful (record t { state = transient; edit_arena = some owner }) [])
          (sym n.is_new)
          (
            record {
              filled = record {
                sound = ground (arith, n.keys_positive, n.values_positive);
                key_count = refl;
                value_count = refl;
                readable = tt;
                distinct = tt;
                roomy = omega arith;
                value_bytes = n.value_bytes;
                values_fit = n.values_fit;
              };
              held = tt;
            },
            refl,
          ))

  -- The map is refused by each later read, write and close.
  pub record IsRefused (s : Map K V) : Type (ℓ ⊔ κ) where
    pub no_find : (key : K) → find e s key ≡ trap invalid_argument
    pub no_assoc :
        (a : Arena) (owner : ℕ) (key : K) (value : V) (key_stride : ℤ) (key_alignment : ℕ)
        (value_stride : ℤ) (value_alignment : ℕ)
        → assoc_transient e a owner s key value key_stride key_alignment value_stride
            value_alignment
          ≡ trap invalid_argument
    pub no_close : (a : Arena) (owner : ℕ) → persistent_close a owner s ≡ trap invalid_argument

  broken-IsRefused : (s : Map K V) → broken s ≡ true → IsRefused s
  unfolding persistent_close find check assoc_transient check_shape check_transient
  broken-IsRefused s b = record {
    no_find = λ key. rw b refl;
    no_assoc = λ a owner key value key_stride key_alignment value_stride value_alignment. rw b refl;
    no_close = λ a owner. rw b refl;
  }

  abbrev closed : Map K V → Map K V
  closed m = record m { state = persistent; edit_arena = none }

  abbrev given_up : Map K V → Map K V
  given_up m = record m { state = retired; edit_arena = none }

  given_up-broken : (m : Map K V) → broken (given_up m) ≡ true
  unfolding broken
  given_up-broken m = ground arith

  closed-IsValid : (m : Map K V) → IsValid lawful m → IsValid lawful (closed m)
  unfolding broken
  closed-IsValid m v = record {
    filled = record {
      sound = ground (arith, v.filled.sound);
      key_count = v.filled.key_count;
      value_count = v.filled.value_count;
      readable = v.filled.readable;
      distinct = v.filled.distinct;
      roomy = v.filled.roomy;
      value_bytes = v.filled.value_bytes;
      values_fit = v.filled.values_fit;
    };
    held = v.held;
  }

  -- After a successful `native_map_persistent_close` of a map in order, the result is in order,
  -- persistent, and has the same entries; each later search, write and close of the source traps.
  pub persistent_close-retires :
      (a : Arena) (owner : ℕ) (m : Map K V) {r : Map K V × Map K V × Arena}
      → IsValid lawful m
      → persistent_close a owner m ≡ ok r
      → Means lawful r.0 (entries lawful m) × (r.0.state ≡ persistent) × IsRefused r.1
  unfolding persistent_close
  persistent_close-retires a owner m {r} v done =
      let (_, checked, d₁) = >>=-eq-ok (check_transient m owner) _ done in
      let (a', _, d₂) = >>=-eq-ok (take_bytes a map_size pointer_alignment) _ d₁ in
      subst (λ x. Means lawful x.0 (entries lawful m) × (x.0.state ≡ persistent) × IsRefused x.1)
        (ok-injective d₂)
        ((closed-IsValid m v, refl), refl, broken-IsRefused (given_up m) (given_up-broken m))
