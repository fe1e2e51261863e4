-- ===== src/Utf8/RoundTrip.antt =====
-- The encoder and the decoder step are inverse to one another.
use beagle.Base.{
  ℕ, suc, ◌+◌, ◌/◌, ◌%◌, ◌^◌, ◌≤◌, ◌<◌, ◌≡◌, ◌⊎◌, refl, arith, bit_and, bit_or, some, [], ◌∷◌, ◌++◌,
  leb, if◌then◌else◌, length, drop, ok, dec_lt, drop-cons, sym, ap, ◌∙◌, ap₂,
}
use mathlib.Core.Path.{subst}
use beagle.Base.Bits.{bit_and_mask, bit_or_fields}
use beagle.Text.{Bytes}
use beagle.Utf8.{byte_at, utf8_next, write_codepoint}
use beagle.Utf8.Bytewise.{
  IsBytes, value2, value3, value4, next_of_one, next_of_two, next_of_three, next_of_four,
}

-- A Unicode scalar value.
abbrev pub IsScalar : ℕ → Type 0
IsScalar c = (c ≤ 0x10ffff) × ((c < 0xd800) ⊎ (0xdfff < c))

-- The encoding in arithmetic.
unfoldable pub encoding : ℕ → Bytes
encoding c =
    if leb c 0x7f
    then c ∷ []
    else if leb c 0x7ff
    then (192 + c / 64) ∷ (128 + c % 64) ∷ []
    else if leb c 0xffff
    then (224 + c / 4096) ∷ (128 + c / 64 % 64) ∷ (128 + c % 64) ∷ []
    else (240 + c / 262144) ∷ (128 + c / 4096 % 64) ∷ (128 + c / 64 % 64) ∷ (128 + c % 64) ∷ []

trailing_lem : (x : ℕ) → bit_or 0x80 (bit_and x 0x3f) % 2 ^ 8 ≡ 128 + x % 64
trailing_lem x = rw (bit_and_mask 6 x) (omega (arith, bit_or_fields 6 2 (x % 64) (omega arith)))

leading_two : (x : ℕ) → x < 32 → bit_or 0xc0 x % 2 ^ 8 ≡ 192 + x
leading_two x h = omega (arith, bit_or_fields 6 3 x (omega arith))

leading_three : (x : ℕ) → x < 16 → bit_or 0xe0 x % 2 ^ 8 ≡ 224 + x
leading_three x h = omega (arith, bit_or_fields 5 7 x (omega arith))

leading_four : (x : ℕ) → x < 8 → bit_or 0xf0 x % 2 ^ 8 ≡ 240 + x
leading_four x h = omega (arith, bit_or_fields 4 15 x (omega arith))

-- For a code point up to 0x10ffff the encoder writes the bytes that the encoding has in arithmetic,
-- with no bit lost in `uint8_t`.
pub write_codepoint-encoding : (c : ℕ) → c ≤ 0x10ffff → write_codepoint c ≡ ok (encoding c)
unfolding write_codepoint encoding
write_codepoint-encoding c h = elim (dec_lt 0x7f c) [
  | no one ↦ ground arith
  | yes above ↦ elim (dec_lt 0x7ff c) [
    | no two ↦ ground (arith, leading_two (c / 64) (omega arith), trailing_lem c)
    | yes above₂ ↦ elim (dec_lt 0xffff c) [
      | no three ↦
          ground
            (arith, leading_three (c / 4096) (omega arith), trailing_lem c, trailing_lem (c / 64))
      | yes four ↦ ground (
        arith,
        leading_four (c / 262144) (omega arith),
        trailing_lem c,
        trailing_lem (c / 64),
        trailing_lem (c / 4096),
      )
    ]
  ]
]

-- The bytes from an index on begin with these.
abbrev pub StartsWith : Bytes → ℕ → Bytes → Type 0
StartsWith bytes i part = (k : ℕ) → k < length part → byte_at bytes (i + k) ≡ byte_at part k

pub StartsWith-drop :
    (bytes : Bytes) (i : ℕ) (part : Bytes)
    → i + length part ≤ length bytes
    → StartsWith bytes i part
    → drop i bytes ≡ part ++ drop (i + length part) bytes
StartsWith-drop bytes i [] inside h = ap (λ n. drop n bytes) (omega arith)
StartsWith-drop bytes i (b ∷ part) inside h =
    let head : byte_at bytes i ≡ b =
      rw (let e : i + 0 ≡ i = omega arith in e) at (h 0 (omega arith)) in
    let tail =
      StartsWith-drop bytes (suc i) part (omega arith) (λ k small.
        let e : suc i + k ≡ i + suc k = omega arith in rw e (h (suc k) (omega arith))) in
    let moved : suc i + length part ≡ i + suc (length part) = omega arith in
    drop-cons i bytes 0 (omega arith) ∙ ap₂ (λ x xs. x ∷ xs) head (rw moved at tail)

module _ (bytes : Bytes) (is_bytes : IsBytes bytes) (count i : ℕ) (inside : i < count) where
  byte_zero : byte_at bytes (i + 0) ≡ byte_at bytes i
  byte_zero = ap (byte_at bytes) (omega arith)

  read_one : (c : ℕ) → c < 0x80 → byte_at bytes i ≡ c → utf8_next bytes count i ≡ some (c, i + 1)
  read_one c small b = rw (next_of_one bytes is_bytes count i inside (omega (arith, b)), b) refl

  read_two :
      (c : ℕ)
      → 0x80 ≤ c
      → c < 0x800
      → i + 2 ≤ count
      → byte_at bytes i ≡ 192 + c / 64
      → byte_at bytes (i + 1) ≡ 128 + c % 64
      → utf8_next bytes count i ≡ some (c, i + 2)
  read_two c low high fits b₀ b₁ =
      rw (next_of_two bytes is_bytes count i inside (ground arith), b₀, b₁)
        (let v : value2 (192 + c / 64) (128 + c % 64) ≡ c = omega arith in rw v (ground arith))

  read_three :
      (c : ℕ)
      → 0x800 ≤ c
      → c < 0x10000
      → (c < 0xd800) ⊎ (0xdfff < c)
      → i + 3 ≤ count
      → byte_at bytes i ≡ 224 + c / 4096
      → byte_at bytes (i + 1) ≡ 128 + c / 64 % 64
      → byte_at bytes (i + 2) ≡ 128 + c % 64
      → utf8_next bytes count i ≡ some (c, i + 3)
  read_three c low high scalar fits b₀ b₁ b₂ =
      rw (next_of_three bytes is_bytes count i inside (ground arith), b₀, b₁, b₂)
        (let v : value3 (224 + c / 4096) (128 + c / 64 % 64) (128 + c % 64) ≡ c = omega arith in
          rw v (ground arith))

  read_four :
      (c : ℕ)
      → 0x10000 ≤ c
      → c ≤ 0x10ffff
      → i + 4 ≤ count
      → byte_at bytes i ≡ 240 + c / 262144
      → byte_at bytes (i + 1) ≡ 128 + c / 4096 % 64
      → byte_at bytes (i + 2) ≡ 128 + c / 64 % 64
      → byte_at bytes (i + 3) ≡ 128 + c % 64
      → utf8_next bytes count i ≡ some (c, i + 4)
  read_four c low high fits b₀ b₁ b₂ b₃ =
      rw (next_of_four bytes is_bytes count i inside (ground arith), b₀, b₁, b₂, b₃)
        (let v : value4 (240 + c / 262144) (128 + c / 4096 % 64) (128 + c / 64 % 64) (128 + c % 64)
              ≡ c =
            omega arith in
          rw v (ground arith))

  abbrev Reads : ℕ → Bytes → Type 0
  Reads c part =
      i + length part ≤ count
      → StartsWith bytes i part
      → utf8_next bytes count i ≡ some (c, i + length part)

  -- Where the encoding of a scalar value stands, the decoder step reads that value.
  pub utf8_next-encoding :
      (c : ℕ)
      → IsScalar c
      → i + length (encoding c) ≤ count
      → StartsWith bytes i (encoding c)
      → utf8_next bytes count i ≡ some (c, i + length (encoding c))
  unfolding encoding
  utf8_next-encoding c (top, scalar) = elim (dec_lt 0x7f c) [
    | no one ↦
        let e : encoding c ≡ c ∷ [] = ground arith in
        subst (Reads c) (sym e)
          (λ fits h. read_one c (omega arith) (sym byte_zero ∙ h 0 (omega arith)))
    | yes above ↦ elim (dec_lt 0x7ff c) [
      | no two ↦
          let e : encoding c ≡ (192 + c / 64) ∷ (128 + c % 64) ∷ [] = ground arith in
          subst (Reads c) (sym e) (λ fits h.
            read_two c (omega arith) (omega arith) fits (sym byte_zero ∙ h 0 (omega arith))
              (h 1 (omega arith)))
      | yes above₂ ↦ elim (dec_lt 0xffff c) [
        | no three ↦
            let e : encoding c ≡ (224 + c / 4096) ∷ (128 + c / 64 % 64) ∷ (128 + c % 64) ∷ [] =
              ground arith in
            subst (Reads c) (sym e) (λ fits h.
              read_three c (omega arith) (omega arith) scalar fits
                (sym byte_zero ∙ h 0 (omega arith)) (h 1 (omega arith)) (h 2 (omega arith)))
        | yes four ↦
            let e : encoding c
                ≡ (240 + c / 262144)
                  ∷ (128 + c / 4096 % 64)
                  ∷ (128 + c / 64 % 64)
                  ∷ (128 + c % 64)
                  ∷ [] =
              ground arith in
            subst (Reads c) (sym e) (λ fits h.
              read_four c (omega arith) top fits (sym byte_zero ∙ h 0 (omega arith))
                (h 1 (omega arith)) (h 2 (omega arith)) (h 3 (omega arith)))
      ]
    ]
  ]
