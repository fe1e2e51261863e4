-- ===== src/Collection/Lawful.antt =====
-- What a collection asks of the equality it is given, and a scan under such an equality.
use beagle.Base.{ℕ, ◌≡◌, Bool, true, Option, ok}
use beagle.Collection.{Equality}

-- Keys that can be read are compared and hashed without a trap; the comparison is symmetric and
-- transitive, and equal keys have one hash. It need not be reflexive: NaN differs from itself.
pub record Lawful {ℓ} {K : Type ℓ} (e : Equality K) : Type (ℓ ⊔ 1) where
  pub IsReadable : K → Type 0
  pub same : K → K → Bool
  pub digest : K → Option ℕ
  pub check_ok : e.check ≡ ok tt
  pub validate_ok : (a : K) → IsReadable a → e.validate a ≡ ok tt
  pub equal_ok : (a b : K) → IsReadable a → IsReadable b → e.equal a b ≡ ok (same a b)
  pub hash_ok : (a : K) → IsReadable a → e.hash a ≡ ok (digest a)
  pub same_symm : (a b : K) → same a b ≡ true → same b a ≡ true
  pub same_trans : (a b c : K) → same a b ≡ true → same b c ≡ true → same a c ≡ true
  pub digest_same : (a b : K) → same a b ≡ true → digest a ≡ digest b
