-- ===== src/Utf8/Encoded.antt =====
-- `native_utf8_valid` as a whole: it accepts the encoded texts, and no others.
use beagle.Base.{
  ℕ, zero, suc, ◌+◌, ◌-◌, ◌≤◌, ◌<◌, ◌≡◌, inl, inr, sym, ◌∙◌, ap, arith, true, Option, none, some,
  List, [], ◌∷◌, ◌++◌, dec_lt, length, drop, drop_past, drop-drop, drop-length_append, length-drop,
  length-append, get_or-drop, get_or-append, All, Option-cases,
}
use mathlib.Core.Option.{some-injective}
use beagle.Text.{Bytes}
use beagle.Utf8.{byte_at, utf8_next, sequence_length, valid_from, utf8_valid}
use beagle.Utf8.Bytewise.{IsBytes}
use beagle.Utf8.RoundTrip.{IsScalar, encoding, StartsWith, StartsWith-drop, utf8_next-encoding}
use beagle.Utf8.Decoded.{utf8_next-EncodedAt}
use beagle.Utf8.Valid.{decoded_to, taken_to, decoded-sequence_length}

-- The encodings of a list of code points, one behind the other.
unfoldable pub encode_all : List ℕ → Bytes
unfolding encoding
encode_all [] = []
encode_all (c ∷ cs) = encoding c ++ encode_all cs

length-encoding_pos : (c : ℕ) → 0 < length (encoding c)
unfolding encoding
length-encoding_pos c = elim (dec_lt 0x7f c) [
  | no one ↦ ground arith
  | yes above ↦ elim (dec_lt 0x7ff c) [
    | no two ↦ ground arith
    | yes above₂ ↦ elim (dec_lt 0xffff c) [ no three ↦ ground arith | yes four ↦ ground arith ]
  ]
]

decoded-some : (o : Option (ℕ × ℕ)) (j : ℕ) → decoded_to o ≡ some j → (c : ℕ) × (o ≡ some (c, j))
decoded-some none j h = cc
decoded-some (some (c, k)) j h = (c, ap (λ x. some (c, x)) (some-injective k j h))

taken-some : (o : Option ℕ) (i n : ℕ) → taken_to i o ≡ some (i + n) → o ≡ some n
taken-some none i n h = cc
taken-some (some m) i n h =
    let e : i + m ≡ i + n = some-injective (i + m) (i + n) h in ap some (omega (arith, e))

drop-StartsWith :
    (bytes : Bytes) (i : ℕ) (part rest : Bytes)
    → drop i bytes ≡ part ++ rest
    → StartsWith bytes i part
drop-StartsWith bytes i part rest e k small =
    sym (get_or-drop i k bytes 0) ∙ (ap (λ xs. byte_at xs k) e ∙ get_or-append part rest k 0 small)

module _ (bytes : Bytes) (is_bytes : IsBytes bytes) where
  valid_from-encoded :
      (fuel i : ℕ)
      → valid_from fuel bytes (length bytes) i ≡ true
      → (cs : List ℕ) × All IsScalar cs × (drop i bytes ≡ encode_all cs)
  unfolding valid_from encode_all
  valid_from-encoded zero i h = ([], tt, drop_past i bytes (ground arith))
  valid_from-encoded (suc fuel) i h = elim (dec_lt i (length bytes)) [
    | no past ↦ ([], tt, drop_past i bytes (omega arith))
    | yes inside ↦ elim (Option-cases (sequence_length bytes (length bytes) i)) [
      | inl refused ↦ absurd (ground (arith, refused))
      | inr (n, taken) ↦
          let more : valid_from fuel bytes (length bytes) (i + n) ≡ true = ground (arith, taken) in
          let (cs, scalars, rest) = valid_from-encoded fuel (i + n) more in
          let goes : decoded_to (utf8_next bytes (length bytes) i) ≡ some (i + n) =
            decoded-sequence_length bytes is_bytes (length bytes) i inside
            ∙ ap (taken_to i) taken in
          let (c, e) = decoded-some (utf8_next bytes (length bytes) i) (i + n) goes in
          let at = utf8_next-EncodedAt bytes is_bytes (length bytes) i inside e in
          let here =
            StartsWith-drop bytes i (encoding c) (omega (arith, at.ends, at.inside)) at.stands in
          (
            c ∷ cs,
            (at.scalar, scalars),
            here ∙ ap (λ xs. encoding c ++ xs) (ap (λ k. drop k bytes) (sym at.ends) ∙ rest),
          )
    ]
  ]

  encoded-valid_from :
      (fuel i : ℕ) (cs : List ℕ)
      → length bytes ≤ i + fuel
      → All IsScalar cs
      → drop i bytes ≡ encode_all cs
      → valid_from fuel bytes (length bytes) i ≡ true
  unfolding valid_from encode_all
  encoded-valid_from zero i cs enough scalars e = ground arith
  encoded-valid_from (suc fuel) i [] enough scalars e =
      let past : length bytes - i ≡ 0 = sym (length-drop i bytes) ∙ ap length e in ground arith
  encoded-valid_from (suc fuel) i (c ∷ cs) enough scalars e =
      let n = length (encoding c) in
      let some_bytes = length-encoding_pos c in
      let room : length bytes - i ≡ n + length (encode_all cs) =
        sym (length-drop i bytes) ∙ (ap length e ∙ length-append (encoding c) (encode_all cs)) in
      let inside : i < length bytes = omega arith in
      let next =
        utf8_next-encoding bytes is_bytes (length bytes) i inside c scalars.0 (omega arith)
          (drop-StartsWith bytes i (encoding c) (encode_all cs) e) in
      let taken : sequence_length bytes (length bytes) i ≡ some n = taken-some _ i n (
        sym (decoded-sequence_length bytes is_bytes (length bytes) i inside)
        ∙ ap decoded_to next) in
      let rest : drop (i + n) bytes ≡ encode_all cs =
        sym (drop-drop n i bytes)
        ∙ (ap (drop n) e ∙ drop-length_append (encoding c) (encode_all cs)) in
      let more = encoded-valid_from fuel (i + n) cs (omega arith) scalars.1 rest in
      ground (arith, taken, more)

  -- The validator accepts a text exactly when it is the encodings of some scalar values, one behind
  -- the other.
  pub utf8_valid-encoded :
      (utf8_valid bytes ≡ true → (cs : List ℕ) × All IsScalar cs × (bytes ≡ encode_all cs))
      × ((cs : List ℕ) → All IsScalar cs → bytes ≡ encode_all cs → utf8_valid bytes ≡ true)
  unfolding utf8_valid
  utf8_valid-encoded = (
    valid_from-encoded (length bytes) 0,
    λ cs scalars e. encoded-valid_from (length bytes) 0 cs (omega arith) scalars e,
  )
