-- ===== src/Map/Reindexed.antt =====
-- What the three operations on the index of a map leave: the same map, with an index that holds
-- all its keys, or with none.
use beagle.Base.{
  ℕ, suc, ◌-◌, ◌*◌, ◌≤◌, ◌<◌, ◌≡◌, refl, sym, ◌∙◌, ap, arith, not, ◌||◌, Option, none, some, List,
  [], ◌∷◌, ◌++◌, ok, Run, if◌then◌else◌, ◌==◌, length, take_whole, length-append, >>=-eq-ok,
  ok-injective, inl, inr, All, Bool-cases, Option-cases, ltb,
}
use mathlib.Core.Path.{subst}
use beagle.Arena.{Arena}
use beagle.Collection.{Equality, kind_code}
use beagle.Collection.Lawful.{Lawful}
use beagle.Map.{Index, Map, live_keys}
use beagle.Map.Indexing.{
  rebuild, build, appended, index_append, index_adopt, take_over, copy_with, min_length,
  max_entries, place, kind_hashable, index_alloc, outgrown,
}
use beagle.Map.Placed.{IsIndexed, place-IsIndexed}
use beagle.Map.Built.{HasIndex, build-HasIndex, index_alloc-slot_count, copied-IsIndexed}

module _ {ℓ κ} {K : Type ℓ} {V : Type κ} {e : Equality K} (lawful : Lawful e) where
  open lawful use {IsReadable, digest, hash_ok}

  pub record Reindexed (m r : Map K V) : Type (ℓ ⊔ κ) where
    pub index : Option Index
    pub is_same : r ≡ record m { index = index }
    pub holds : HasIndex lawful index m.keys.items

  -- The keys that the length covers are all that is stored, and all can be read.
  pub record HasKeys (m : Map K V) : Type ℓ where
    pub key_count : length m.keys.items ≡ m.length
    pub readable : All IsReadable m.keys.items

  pub rebuild-Reindexed :
      (a : Arena) (m : Map K V) (reserve : ℕ) {r : Map K V × Arena}
      → HasKeys m
      → rebuild e a m reserve ≡ ok r
      → Reindexed m r.0
  unfolding rebuild
  rebuild-Reindexed a m reserve {r} keys done =
      let needed = if ltb reserve m.length then m.length else reserve in
      let covers : m.length ≤ needed = ground arith in
      elim (Bool-cases
        (ltb needed min_length || ltb max_entries needed || not (kind_hashable e.kind))) [
          | inl refused ↦
              let e₁ = rw refused at done in
              record { index = none; is_same = ap (λ p. p.0) (sym (ok-injective e₁)); holds = tt }
          | inr fit ↦
              let e₁ = rw fit at done in
              let ((index, a'), built, e₂) = >>=-eq-ok (build e a (live_keys m) needed) _ e₁ in
              let built' = rw (take_whole m.length m.keys.items keys.key_count) at built in
              record {
                index = index;
                is_same = ap (λ p. p.0) (sym (ok-injective e₂));
                holds =
                    build-HasIndex lawful a m.keys.items needed keys.readable
                      (omega (arith, keys.key_count)) (ground arith) (ground arith) built';
              }
        ]

  unindexed : (m : Map K V) → m.index ≡ none → Reindexed m m
  unindexed m e' = record {
    index = none;
    is_same = ap (λ o. record m { index = o }) e';
    holds = tt;
  }

  -- The index with one more entry.
  entered :
      (m : Map K V) (index : Index) (old : List K) (key : K) (h entry : ℕ) {index' : Index}
      → m.keys.items ≡ old ++ key ∷ []
      → IsIndexed lawful index old
      → digest key ≡ some h
      → entry ≡ length old
      → suc (length old) < index.slot_count
      → place index h entry ≡ ok index'
      → Reindexed m (record m { index = some index' })
  entered m index old key h entry {index'} items v hashed position space placed =
      let (found, run, w, _, _) = place-IsIndexed lawful index old key h v hashed space in
      let same_index : found ≡ index' = ok-injective (sym run ∙ rw position at placed) in
      let w' : IsIndexed lawful index' (old ++ key ∷ []) = rw same_index at w in
      record { index = some index'; is_same = refl; holds = rw items w' }

  module _ (a : Arena) (m : Map K V) (old : List K) (key : K) where
    grown_count : HasKeys m → m.keys.items ≡ old ++ key ∷ [] → m.length ≡ suc (length old)
    grown_count keys items =
        omega (arith, keys.key_count, ap length items, length-append old (key ∷ []))

    appended-Reindexed :
        (o : Option Index) {r : Map K V × Arena}
        → HasKeys m
        → m.keys.items ≡ old ++ key ∷ []
        → IsReadable key
        → m.index ≡ o
        → HasIndex lawful o old
        → appended e a m o key ≡ ok r
        → Reindexed m r.0
    unfolding appended
    appended-Reindexed none {r} keys items readable e' held done =
        elim (Bool-cases (ltb m.length min_length)) [
          | inl short ↦
              subst (λ p. Reindexed m p.0) (ok-injective (rw short at done)) (unindexed m e')
          | inr long ↦ rebuild-Reindexed a m m.length keys (rw long at done)
        ]
    appended-Reindexed (some index) {r} keys items readable e' v done =
        elim (Bool-cases (outgrown e index m.length)) [
          | inl full ↦ rebuild-Reindexed a m m.length keys (rw full at done)
          | inr fits ↦
              let e₁ = rw (fits, hash_ok key readable) at done in
              elim (Option-cases (digest key)) [
                | inl none' ↦
                    let e₂ = rw none' at e₁ in
                    record {
                      index = none;
                      is_same = ap (λ p. p.0) (sym (ok-injective e₂));
                      holds = tt;
                    }
                | inr (h, hashed) ↦
                    let e₂ = rw hashed at e₁ in
                    let (index', placed, e₃) = >>=-eq-ok (place index h (m.length - 1)) _ e₂ in
                    let size = grown_count keys items in
                    subst (λ p. Reindexed m p.0) (ok-injective e₃)
                      (entered m index old key h (m.length - 1) items v hashed (omega arith)
                        (ground (arith, v.counted)) placed)
              ]
        ]

    pub index_append-Reindexed :
        {r : Map K V × Arena}
        → HasKeys m
        → m.keys.items ≡ old ++ key ∷ []
        → IsReadable key
        → HasIndex lawful m.index old
        → index_append e a m key ≡ ok r
        → Reindexed m r.0
    unfolding index_append
    index_append-Reindexed keys items readable held done =
        appended-Reindexed m.index keys items readable refl held done

    -- The keys are those of the source, with the new one behind them where one was appended.
    abbrev pub Extends : Option ℕ → Type ℓ
    Extends none = m.keys.items ≡ old
    Extends (some entry) = (m.keys.items ≡ old ++ key ∷ []) × (entry ≡ length old) × IsReadable key

    copy_with-Reindexed :
        (parent : Index) (entry : ℕ) {r : Map K V × Arena}
        → HasKeys m
        → Extends (some entry)
        → m.index ≡ none
        → IsIndexed lawful parent old
        → suc (length old) < parent.slot_count
        → copy_with e a m parent key entry ≡ ok r
        → Reindexed m r.0
    unfolding copy_with index_alloc
    copy_with-Reindexed parent entry {r} keys (items, position, readable) e' v space done =
        let e₁ = rw (hash_ok key readable) at done in
        elim (Option-cases (digest key)) [
          | inl none' ↦
              subst (λ p. Reindexed m p.0) (ok-injective (rw none' at e₁)) (unindexed m e')
          | inr (h, hashed) ↦
              let e₂ = rw hashed at e₁ in
              let ((fresh, a'), alloced, e₃) =
                >>=-eq-ok (index_alloc a parent.slot_count e.kind) _ e₂ in
              let (index', placed, e₄) = >>=-eq-ok (place _ h entry) _ e₃ in
              let same_count : fresh.slot_count ≡ parent.slot_count =
                index_alloc-slot_count a _ e.kind alloced in
              subst (λ p. Reindexed m p.0) (ok-injective e₄)
                (entered m _ old key h entry items
                  (copied-IsIndexed lawful parent old fresh.slot_count fresh.kind same_count v)
                  hashed position (omega arith) placed)
        ]

    take_over-Reindexed :
        (o : Option Index) (extra : Option ℕ) {r : Map K V × Arena}
        → HasKeys m
        → Extends extra
        → m.index ≡ none
        → HasIndex lawful o old
        → take_over e a m o (length old) key extra ≡ ok r
        → Reindexed m r.0
    unfolding take_over
    take_over-Reindexed none extra keys extends e' held done =
        rebuild-Reindexed a m m.length keys done
    take_over-Reindexed (some parent) extra {r} keys extends e' v done =
        let unfit =
          not (kind_code parent.kind == kind_code e.kind)
          || not (parent.entries == length old)
          || ltb (parent.slot_count * 3) (m.length * 4) in
        elim (Bool-cases unfit) [
          | inl t ↦ rebuild-Reindexed a m m.length keys (rw t at done)
          | inr f ↦ by_extra extra extends (λ more. ground arith) (rw f at done)
        ]
      where
        by_extra :
            (extra : Option ℕ)
            → Extends extra
            → (parent.slot_count * 3 < m.length * 4 → ⊥)
            → (elim extra as (λ _. Run (Map K V × Arena)) [
              | none ↦ ok (record m { index = some parent }, a)
              | some entry ↦ copy_with e a m parent key entry
            ])
              ≡ ok r
            → Reindexed m r.0
        by_extra none items fits done =
            subst (λ p. Reindexed m p.0) (ok-injective done)
              (record { index = some parent; is_same = refl; holds = rw items v })
        by_extra (some entry) extends fits done =
            copy_with-Reindexed parent entry keys extends e' v
              (omega (arith, grown_count keys extends.0, v.room)) done

    -- A new map that takes over the index of its source.
    pub index_adopt-Reindexed :
        (source : Map K V) (extra : Option ℕ) {r : Map K V × Arena}
        → HasKeys m
        → Extends extra
        → m.index ≡ none
        → source.length ≡ length old
        → HasIndex lawful source.index old
        → index_adopt e a m source key extra ≡ ok r
        → Reindexed m r.0
    unfolding index_adopt
    index_adopt-Reindexed source extra {r} keys extends e' size held done =
        elim (Bool-cases (ltb m.length min_length || ltb max_entries m.length)) [
          | inl off ↦ subst (λ p. Reindexed m p.0) (ok-injective (rw off at done)) (unindexed m e')
          | inr on ↦
              let taken = rw (on, size) at done in
              take_over-Reindexed source.index extra keys extends e' held taken
        ]
