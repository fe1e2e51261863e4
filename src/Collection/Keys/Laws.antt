-- ===== src/Collection/Keys/Laws.antt =====
-- The kinds of keys that a map indexes meet what maps and sets ask of an equality.
use beagle.Base.{
  ℕ, ◌≡◌, ◌≢◌, refl, sym, ◌∙◌, ap, arith, true, false, none, some, [], ok, ◌==◌, ==_iff, length,
  Bool-cases, inl, inr, Bool, ◌↔◌,
}
use beagle.Text.{Bytes, Text, null, blob, text_eq, text_length, text_bytes, both, eq_bytes}
use beagle.Text.Order.{eq_bytes-equal}
use beagle.Collection.{Kind, of_i64, of_f64, of_text, of_keyword}
use beagle.Collection.Lawful.{Lawful}
use beagle.Collection.Keys.{
  Memory, Structural, collection_equality, check_equality, validate_candidate, collection_equal,
  equal_by, hash_key, hash_by, hash_text, hashed_text, hash_mix, hash_u64, hash_bytes, hash_offset,
  f64_equal, canonical_bits,
}

-- Doubles that are equal have one hash: both zeros, and each other number for itself.
pub canonical_bits-equal : (a b : ℕ) → f64_equal a b ≡ true → canonical_bits a ≡ canonical_bits b
unfolding f64_equal canonical_bits
canonical_bits-equal a b h = ground arith

pub f64_equal_symm : (a b : ℕ) → f64_equal a b ≡ true → f64_equal b a ≡ true
unfolding f64_equal
f64_equal_symm a b h = ground arith

pub f64_equal_trans :
    (a b c : ℕ) → f64_equal a b ≡ true → f64_equal b c ≡ true → f64_equal a c ≡ true
unfolding f64_equal
f64_equal_trans a b c h k = ground arith

pub word_symm : (a b : ℕ) → (a == b) ≡ true → (b == a) ≡ true
word_symm a b h = ground arith

pub word_trans : (a b c : ℕ) → (a == b) ≡ true → (b == c) ≡ true → (a == c) ≡ true
word_trans a b c h k = ground arith

eq_bytes_symm : (xs ys : Bytes) → eq_bytes xs ys ≡ true → eq_bytes ys xs ≡ true
eq_bytes_symm xs ys h = (eq_bytes-equal ys xs).1 (sym ((eq_bytes-equal xs ys).0 h))

eq_bytes_trans :
    (xs ys zs : Bytes) → eq_bytes xs ys ≡ true → eq_bytes ys zs ≡ true → eq_bytes xs zs ≡ true
eq_bytes_trans xs ys zs h k =
    (eq_bytes-equal xs zs).1 ((eq_bytes-equal xs ys).0 h ∙ (eq_bytes-equal ys zs).0 k)

module _ {ℓ κ} {K : Type ℓ} {D : Type κ} (memory : Memory K) (structural : Structural K D) where
  unfoldable pub i64-Lawful : Lawful (collection_equality memory structural of_i64 none)
  unfolding check_equality validate_candidate collection_equal equal_by hash_key hash_by
  i64-Lawful = record {
    IsReadable = λ a. Unit {0};
    same = λ a b. memory.word_of a == memory.word_of b;
    digest = λ a. some (hash_mix (hash_u64 hash_offset (memory.word_of a)));
    check_ok = refl;
    validate_ok = λ a r. refl;
    equal_ok = λ a b r s. refl;
    hash_ok = λ a r. refl;
    same_symm = λ a b. word_symm (memory.word_of a) (memory.word_of b);
    same_trans = λ a b c. word_trans (memory.word_of a) (memory.word_of b) (memory.word_of c);
    digest_same = λ a b h.
        ap (λ (w : ℕ). some (hash_mix (hash_u64 hash_offset w)))
          ((==_iff (memory.word_of a) (memory.word_of b)).0 h);
  }

  unfoldable pub f64-Lawful : Lawful (collection_equality memory structural of_f64 none)
  unfolding check_equality validate_candidate collection_equal equal_by hash_key hash_by
  f64-Lawful = record {
    IsReadable = λ a. Unit {0};
    same = λ a b. f64_equal (memory.word_of a) (memory.word_of b);
    digest = λ a. some (hash_mix (hash_u64 hash_offset (canonical_bits (memory.word_of a))));
    check_ok = refl;
    validate_ok = λ a r. refl;
    equal_ok = λ a b r s. refl;
    hash_ok = λ a r. refl;
    same_symm = λ a b. f64_equal_symm (memory.word_of a) (memory.word_of b);
    same_trans = λ a b c. f64_equal_trans (memory.word_of a) (memory.word_of b) (memory.word_of c);
    digest_same = λ a b h.
        ap (λ (w : ℕ). some (hash_mix (hash_u64 hash_offset w)))
          (canonical_bits-equal (memory.word_of a) (memory.word_of b) h);
  }

  -- Texts are where a memory of blobs says, and are not null.
  module _ (blobs : ℕ → Bytes) where
    abbrev pub bytes_of : Text → Bytes
    bytes_of null = []
    bytes_of (blob p bs) = bs

    abbrev pub IsBlob : Text → Type 0
    IsBlob t = (p : ℕ) × (p ≢ 0) × (t ≡ blob p (blobs p))

    text_eq-bytes :
        (s t : Text) → IsBlob s → IsBlob t → text_eq s t ≡ ok (eq_bytes (bytes_of s) (bytes_of t))
    unfolding text_eq both text_length text_bytes
    text_eq-bytes s t (p, pn, e) (q, qn, f) =
        rw (e, f)
          (elim (Bool-cases (p == q)) [
            | inl same' ↦
                let pq : p ≡ q = (==_iff p q).0 same' in
                rw same' (ap ok (sym ((eq_bytes-equal (blobs p) (blobs q)).1 (ap blobs pq))))
            | inr other ↦ rw other refl
          ])

    hash_text-bytes :
        (t : Text)
        → IsBlob t
        → hash_text t
          ≡ ok (
              some
                (hash_mix (hash_bytes (hash_u64 hash_offset (length (bytes_of t))) (bytes_of t))))
    unfolding hash_text hashed_text text_length text_bytes
    hash_text-bytes t (p, pn, e) = let test : (p == 0) ≡ false = ground arith in rw e (rw test refl)

    pub text-Lawful : Lawful (collection_equality memory structural of_text none)
    unfolding check_equality validate_candidate collection_equal equal_by hash_key hash_by
    text-Lawful = record {
      IsReadable = λ a. IsBlob (memory.text_of a);
      same = λ a b. eq_bytes (bytes_of (memory.text_of a)) (bytes_of (memory.text_of b));
      digest = λ a.
          let bs = bytes_of (memory.text_of a) in
          some (hash_mix (hash_bytes (hash_u64 hash_offset (length bs)) bs));
      check_ok = refl;
      validate_ok = λ a r. refl;
      equal_ok = λ a b. text_eq-bytes (memory.text_of a) (memory.text_of b);
      hash_ok = λ a. hash_text-bytes (memory.text_of a);
      same_symm = λ a b. eq_bytes_symm (bytes_of (memory.text_of a)) (bytes_of (memory.text_of b));
      same_trans = λ a b c.
          eq_bytes_trans (bytes_of (memory.text_of a)) (bytes_of (memory.text_of b))
            (bytes_of (memory.text_of c));
      digest_same = λ a b h.
          ap (λ (bs : Bytes). some (hash_mix (hash_bytes (hash_u64 hash_offset (length bs)) bs)))
            ((eq_bytes-equal (bytes_of (memory.text_of a)) (bytes_of (memory.text_of b))).0 h);
    }

    text_eq-decides :
        (s t : Text)
        → IsBlob s
        → IsBlob t
        → (r : Bool) × (text_eq s t ≡ ok r) × ((r ≡ true) ↔ (bytes_of s ≡ bytes_of t))
    text_eq-decides s t hs ht = (
      eq_bytes (bytes_of s) (bytes_of t),
      text_eq-bytes s t hs ht,
      eq_bytes-equal (bytes_of s) (bytes_of t),
    )

    hash_text-same :
        (s t : Text) → IsBlob s → IsBlob t → bytes_of s ≡ bytes_of t → hash_text s ≡ hash_text t
    hash_text-same s t hs ht e =
        hash_text-bytes s hs
        ∙ ap
            (λ (bs : Bytes).
              ok (some (hash_mix (hash_bytes (hash_u64 hash_offset (length bs)) bs))))
            e
        ∙ sym (hash_text-bytes t ht)

    -- The kinds of keys that are texts
    abbrev pub is_textual : Kind → Bool
    is_textual of_text = true
    is_textual of_keyword = true
    is_textual _ = false

    -- Two keys of a kind, by their bytes
    pub record ByBytes (kind : Kind) (a b : K) : Type 0 where
      pub compared :
          (r : Bool) × (collection_equal memory structural kind none a b ≡ ok r)
          × ((r ≡ true) ↔ (bytes_of (memory.text_of a) ≡ bytes_of (memory.text_of b)))
      pub hashed :
          let bs = bytes_of (memory.text_of a) in
          hash_key memory structural kind none a
          ≡ ok (some (hash_mix (hash_bytes (hash_u64 hash_offset (length bs)) bs)))
      pub same_hash :
          bytes_of (memory.text_of a) ≡ bytes_of (memory.text_of b)
          → hash_key memory structural kind none a ≡ hash_key memory structural kind none b

    -- Two texts or two keywords that are not null, wherever their bytes lie, are compared and hashed
    -- without a trap: they are equal exactly if their bytes are, the hash is that of the number of
    -- bytes and then of the bytes, and with the same bytes they have one hash.
    pub textual-ByBytes :
        (kind : Kind) (a b : K)
        → is_textual kind ≡ true
        → IsBlob (memory.text_of a)
        → IsBlob (memory.text_of b)
        → ByBytes kind a b
    unfolding check_equality collection_equal equal_by hash_key hash_by
    textual-ByBytes of_text a b k ha hb = record {
      compared = text_eq-decides (memory.text_of a) (memory.text_of b) ha hb;
      hashed = hash_text-bytes (memory.text_of a) ha;
      same_hash = hash_text-same (memory.text_of a) (memory.text_of b) ha hb;
    }
    textual-ByBytes of_keyword a b k ha hb = record {
      compared = text_eq-decides (memory.text_of a) (memory.text_of b) ha hb;
      hashed = hash_text-bytes (memory.text_of a) ha;
      same_hash = hash_text-same (memory.text_of a) (memory.text_of b) ha hb;
    }
    textual-ByBytes kind a b k ha hb = cc
