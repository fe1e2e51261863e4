-- ===== src/Utf8/Decoded.antt =====
-- What the decoder step accepts: the encodings that the encoder writes, and no others.
use beagle.Base.{
  ℕ, zero, suc, ◌+◌, ◌/◌, ◌%◌, ◌≤◌, ◌<◌, ◌≡◌, ◌⊎◌, inl, inr, refl, sym, ◌∙◌, ap, arith, Bool, true,
  false, none, some, [], ◌∷◌, if◌then◌else◌, dec_lt, length,
}
use mathlib.Core.Option.{some-injective}
use mathlib.Core.Path.{subst}
use beagle.Text.{Bytes}
use beagle.Utf8.{byte_at, between, utf8_next}
use beagle.Utf8.Bytewise.{
  IsBytes, value2, value3, value4, next_of_one, next_of_two, next_of_three, next_of_four,
  next_of_none,
}
use beagle.Utf8.RoundTrip.{IsScalar, encoding, StartsWith}

if-some {ℓ} :
    {A : Type ℓ} (b : Bool) (x y : A)
    → (if b then none else some x) ≡ some y
    → (b ≡ false) × (x ≡ y)
if-some true x y h = cc
if-some false x y h = (refl, some-injective x y h)

module _ (bytes : Bytes) (i : ℕ) where
  starts_one : {a : ℕ} → byte_at bytes i ≡ a → StartsWith bytes i (a ∷ [])
  starts_one h zero small = ap (byte_at bytes) (omega arith) ∙ h
  starts_one h (suc k) small = absurd (omega arith)

  starts_two :
      {a b : ℕ} → byte_at bytes i ≡ a → byte_at bytes (i + 1) ≡ b → StartsWith bytes i (a ∷ b ∷ [])
  starts_two h₀ h₁ zero small = ap (byte_at bytes) (omega arith) ∙ h₀
  starts_two h₀ h₁ (suc zero) small = h₁
  starts_two h₀ h₁ (suc (suc k)) small = absurd (omega arith)

  starts_three :
      {a b c : ℕ}
      → byte_at bytes i ≡ a
      → byte_at bytes (i + 1) ≡ b
      → byte_at bytes (i + 2) ≡ c
      → StartsWith bytes i (a ∷ b ∷ c ∷ [])
  starts_three h₀ h₁ h₂ zero small = ap (byte_at bytes) (omega arith) ∙ h₀
  starts_three h₀ h₁ h₂ (suc zero) small = h₁
  starts_three h₀ h₁ h₂ (suc (suc zero)) small = h₂
  starts_three h₀ h₁ h₂ (suc (suc (suc k))) small = absurd (omega arith)

  starts_four :
      {a b c d : ℕ}
      → byte_at bytes i ≡ a
      → byte_at bytes (i + 1) ≡ b
      → byte_at bytes (i + 2) ≡ c
      → byte_at bytes (i + 3) ≡ d
      → StartsWith bytes i (a ∷ b ∷ c ∷ d ∷ [])
  starts_four h₀ h₁ h₂ h₃ zero small = ap (byte_at bytes) (omega arith) ∙ h₀
  starts_four h₀ h₁ h₂ h₃ (suc zero) small = h₁
  starts_four h₀ h₁ h₂ h₃ (suc (suc zero)) small = h₂
  starts_four h₀ h₁ h₂ h₃ (suc (suc (suc zero))) small = h₃
  starts_four h₀ h₁ h₂ h₃ (suc (suc (suc (suc k)))) small = absurd (omega arith)

-- The encoding of a scalar value stands at the index and ends at the offset.
pub record EncodedAt (bytes : Bytes) (count i c j : ℕ) : Type 0 where
  pub scalar : IsScalar c
  pub ends : j ≡ i + length (encoding c)
  pub inside : j ≤ count
  pub stands : StartsWith bytes i (encoding c)

two_bytes :
    (a b : ℕ)
    → between 0xc2 0xdf a ≡ true
    → between 0x80 0xbf b ≡ true
    → encoding (value2 a b) ≡ a ∷ b ∷ []
unfolding encoding
two_bytes a b lead next =
    let x : 192 + value2 a b / 64 ≡ a = ground arith in
    let y : 128 + value2 a b % 64 ≡ b = ground arith in ground (arith, x, y)

three_bytes :
    (a b c : ℕ)
    → between 0xe0 0xef a ≡ true
    → between 0x80 0xbf b ≡ true
    → between 0x80 0xbf c ≡ true
    → 0x800 ≤ value3 a b c
    → encoding (value3 a b c) ≡ a ∷ b ∷ c ∷ []
unfolding encoding
three_bytes a b c lead next next₂ long =
    let x : 224 + value3 a b c / 4096 ≡ a = ground arith in
    let y : 128 + value3 a b c / 64 % 64 ≡ b = ground arith in
    let z : 128 + value3 a b c % 64 ≡ c = ground arith in ground (arith, x, y, z)

four_bytes :
    (a b c d : ℕ)
    → between 0xf0 0xf4 a ≡ true
    → between 0x80 0xbf b ≡ true
    → between 0x80 0xbf c ≡ true
    → between 0x80 0xbf d ≡ true
    → 0x10000 ≤ value4 a b c d
    → encoding (value4 a b c d) ≡ a ∷ b ∷ c ∷ d ∷ []
unfolding encoding
four_bytes a b c d lead next next₂ next₃ long =
    let w : 240 + value4 a b c d / 262144 ≡ a = ground arith in
    let x : 128 + value4 a b c d / 4096 % 64 ≡ b = ground arith in
    let y : 128 + value4 a b c d / 64 % 64 ≡ c = ground arith in
    let z : 128 + value4 a b c d % 64 ≡ d = ground arith in ground (arith, w, x, y, z)

module _ (bytes : Bytes) (is_bytes : IsBytes bytes) (count i : ℕ) (inside : i < count) where
  abbrev At : ℕ × ℕ → Type 0
  At r = EncodedAt bytes count i r.0 r.1

  encoded_part :
      (c j : ℕ) (part : Bytes)
      → encoding c ≡ part
      → IsScalar c
      → j ≡ i + length part
      → j ≤ count
      → StartsWith bytes i part
      → EncodedAt bytes count i c j
  encoded_part c j part e scalar ends fits stands = record {
    scalar = scalar;
    ends = rw e ends;
    inside = fits;
    stands = rw e stands;
  }

  decoded_one : {r : ℕ × ℕ} → byte_at bytes i < 0x80 → utf8_next bytes count i ≡ some r → At r
  unfolding encoding
  decoded_one {r} low h =
      let b₀ = byte_at bytes i in
      let e : (b₀, i + 1) ≡ r =
        some-injective (b₀, i + 1) r (sym (next_of_one bytes is_bytes count i inside low) ∙ h) in
      subst At e (
        encoded_part b₀ (i + 1) (b₀ ∷ []) (ground arith) (omega arith, inl (omega arith)) refl
          (omega arith) (starts_one bytes i refl))

  decoded_two :
      {r : ℕ × ℕ}
      → between 0xc2 0xdf (byte_at bytes i) ≡ true
      → utf8_next bytes count i ≡ some r
      → At r
  decoded_two {r} lead h =
      let b₀ = byte_at bytes i in
      let b₁ = byte_at bytes (i + 1) in
      let (good, e) =
        if-some _ (value2 b₀ b₁, i + 2) r
          (rw (next_of_two bytes is_bytes count i inside lead) at h) in
      subst At e (
        encoded_part (value2 b₀ b₁) (i + 2) (b₀ ∷ b₁ ∷ []) (two_bytes b₀ b₁ lead (ground arith))
          (omega arith, inl (ground arith)) refl (ground arith) (starts_two bytes i refl refl))

  decoded_three :
      {r : ℕ × ℕ}
      → between 0xe0 0xef (byte_at bytes i) ≡ true
      → utf8_next bytes count i ≡ some r
      → At r
  decoded_three {r} lead h =
      let b₀ = byte_at bytes i in
      let b₁ = byte_at bytes (i + 1) in
      let b₂ = byte_at bytes (i + 2) in
      let (good, e) =
        if-some _ (value3 b₀ b₁ b₂, i + 3) r
          (rw (next_of_three bytes is_bytes count i inside lead) at h) in
      subst At e (
        encoded_part (value3 b₀ b₁ b₂) (i + 3) (b₀ ∷ b₁ ∷ b₂ ∷ [])
          (three_bytes b₀ b₁ b₂ lead (ground arith) (ground arith) (ground arith))
          (ground arith, ground arith) refl (ground arith) (starts_three bytes i refl refl refl))

  decoded_four :
      {r : ℕ × ℕ}
      → between 0xf0 0xf4 (byte_at bytes i) ≡ true
      → utf8_next bytes count i ≡ some r
      → At r
  decoded_four {r} lead h =
      let b₀ = byte_at bytes i in
      let b₁ = byte_at bytes (i + 1) in
      let b₂ = byte_at bytes (i + 2) in
      let b₃ = byte_at bytes (i + 3) in
      let (good, e) =
        if-some _ (value4 b₀ b₁ b₂ b₃, i + 4) r
          (rw (next_of_four bytes is_bytes count i inside lead) at h) in
      subst At e (
        encoded_part (value4 b₀ b₁ b₂ b₃) (i + 4) (b₀ ∷ b₁ ∷ b₂ ∷ b₃ ∷ [])
          (four_bytes b₀ b₁ b₂ b₃ lead (ground arith) (ground arith) (ground arith) (ground arith))
          (ground arith, inr (ground arith)) refl (ground arith)
          (starts_four bytes i refl refl refl refl))

  refused_lead :
      {r : ℕ × ℕ}
      → ((byte_at bytes i < 0xc2) × (0x80 ≤ byte_at bytes i)) ⊎ (0xf4 < byte_at bytes i)
      → utf8_next bytes count i ≡ some r
      → At r
  refused_lead bad h = absurd (cc (h, next_of_none bytes is_bytes count i inside bad))

  -- What the decoder step reads is the encoding of a scalar value, and it stops right behind it.
  pub utf8_next-EncodedAt :
      {c j : ℕ} → utf8_next bytes count i ≡ some (c, j) → EncodedAt bytes count i c j
  utf8_next-EncodedAt h = elim (dec_lt (byte_at bytes i) 0x80) [
    | yes ascii ↦ decoded_one ascii h
    | no above ↦ elim (dec_lt (byte_at bytes i) 0xc2) [
      | yes low ↦ refused_lead (inl (low, omega arith)) h
      | no above₂ ↦ elim (dec_lt (byte_at bytes i) 0xe0) [
        | yes two ↦ decoded_two (ground arith) h
        | no above₃ ↦ elim (dec_lt (byte_at bytes i) 0xf0) [
          | yes three ↦ decoded_three (ground arith) h
          | no above₄ ↦ elim (dec_lt 0xf4 (byte_at bytes i)) [
            | yes high ↦ refused_lead (inr high) h
            | no four ↦ decoded_four (ground arith) h
          ]
        ]
      ]
    ]
  ]
