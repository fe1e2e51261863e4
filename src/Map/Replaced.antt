-- ===== src/Map/Replaced.antt =====
-- The lists of a map with one entry more, with one value replaced, and with one entry less.
use beagle.Base.{
  ℕ, suc, ◌-◌, ◌<◌, ◌≡◌, sym, ◌∙◌, ap, ap₂, arith, none, some, List, [], ◌∷◌, ◌++◌, length,
  length-append, All,
}
use beagle.Collection.{Equality, write}
use beagle.Collection.Lawful.{Lawful}
use beagle.Collection.Scan.{first, first-some, Distinct, Distinct-append, All-append}
use beagle.Map.Change.{all_but}
use beagle.Map.Placed.{get_elem?-lt}
use beagle.Map.Entries.{
  zip, put, erase, write-length, length-write, zip-append, zip-write, put-absent, zip-all_but,
  length-all_but, All-all_but, Distinct-all_but,
}

module _ {ℓ κ} {K : Type ℓ} {V : Type κ} {e : Equality K} (lawful : Lawful e) where
  open lawful use {IsReadable, same}

  -- Keys and values that belong together.
  pub record IsPaired (ks : List K) (vs : List V) (count : ℕ) : Type (ℓ ⊔ κ) where
    pub keys_counted : length ks ≡ count
    pub values_counted : length vs ≡ count
    pub readable : All IsReadable ks
    pub distinct : Distinct lawful ks

  module _ (ks : List K) (vs : List V) (count : ℕ) (p : IsPaired ks vs count) (key : K) where
    pub found-lt : (i : ℕ) → first lawful ks 0 key ≡ some i → i < count
    found-lt i found =
        let (j, k, place, at, _) = first-some lawful ks 0 i key found in
        omega (arith, get_elem?-lt ks j k at, p.keys_counted)

    pub removed-IsPaired :
        (i : ℕ)
        → first lawful ks 0 key ≡ some i
        → IsPaired (all_but i 0 ks) (all_but i 0 vs) (count - 1)
    removed-IsPaired i found =
        let lt = found-lt i found in
        record {
          keys_counted = omega (
            arith,
            length-all_but ks 0 i (omega arith) (omega (arith, lt, p.keys_counted)),
            p.keys_counted,
          );
          values_counted = omega (
            arith,
            length-all_but vs 0 i (omega arith) (omega (arith, lt, p.values_counted)),
            p.values_counted,
          );
          readable = All-all_but lawful ks 0 i p.readable;
          distinct = Distinct-all_but lawful ks 0 i p.distinct;
        }

    pub removed-zip :
        (i : ℕ)
        → first lawful ks 0 key ≡ some i
        → zip (all_but i 0 ks) (all_but i 0 vs) ≡ erase same key (zip ks vs)
    removed-zip i found =
        zip-all_but lawful ks vs 0 i i key (omega arith)
          (omega (arith, p.keys_counted, p.values_counted)) (found ∙ ap some (omega arith))

    pub write-keys : write ks count key ≡ ks ++ key ∷ []
    write-keys = ap (λ n. write ks n key) (sym p.keys_counted) ∙ write-length ks key

    module _ (value : V) where
      write-values : write vs count value ≡ vs ++ value ∷ []
      write-values = ap (λ n. write vs n value) (sym p.values_counted) ∙ write-length vs value

      pub added-IsPaired :
          IsReadable key
          → first lawful ks 0 key ≡ none
          → IsPaired (write ks count key) (write vs count value) (suc count)
      added-IsPaired r absent = record {
        keys_counted = rw write-keys (omega (arith, length-append ks (key ∷ []), p.keys_counted));
        values_counted =
            rw write-values (omega (arith, length-append vs (value ∷ []), p.values_counted));
        readable = rw write-keys (All-append lawful ks key p.readable r);
        distinct = rw write-keys (Distinct-append lawful ks 0 key p.distinct absent);
      }

      pub added-zip :
          first lawful ks 0 key ≡ none
          → zip (write ks count key) (write vs count value) ≡ put same key value (zip ks vs)
      added-zip absent =
          let counts : length ks ≡ length vs = omega (arith, p.keys_counted, p.values_counted) in
          ap₂ zip write-keys write-values
          ∙ zip-append lawful ks vs key value counts
          ∙ sym (put-absent lawful ks vs 0 key value counts absent)

      pub written-IsPaired :
          (i : ℕ) → first lawful ks 0 key ≡ some i → IsPaired ks (write vs i value) count
      written-IsPaired i found = record {
        keys_counted = p.keys_counted;
        values_counted =
            length-write vs i value (omega (arith, found-lt i found, p.values_counted))
            ∙ p.values_counted;
        readable = p.readable;
        distinct = p.distinct;
      }

      pub written-zip :
          (i : ℕ)
          → first lawful ks 0 key ≡ some i
          → zip ks (write vs i value) ≡ put same key value (zip ks vs)
      written-zip i found =
          zip-write lawful ks vs 0 i key value (omega (arith, p.keys_counted, p.values_counted))
            (found ∙ ap some (omega arith))
