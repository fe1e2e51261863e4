-- ===== src/Utf8/Examples.antt =====
-- Tests on "é", "€" and an emoji, with white space around.
use beagle.Base.{
  ℕ, zero, suc, length, ◌+◌, ◌≤◌, ◌≡◌, refl, arith, true, false, some, List, [], ◌∷◌, inl, All,
}
use beagle.Text.{Bytes}
use beagle.Utf8.{
  utf8_next, lead, continue_value, refused, utf8_previous, back_up, sequence_length, continuation,
  valid_from, utf8_valid, trim_from, trim_step, whitespace,
}
use beagle.Utf8.Bytewise.{IsBytes}
use beagle.Utf8.RoundTrip.{IsScalar, encoding, StartsWith, utf8_next-encoding}
use beagle.Utf8.Decoded.{EncodedAt, utf8_next-EncodedAt}
use beagle.Utf8.Encoded.{encode_all, utf8_valid-encoded}

abbrev euro : Bytes
euro = 32 ∷ 0xe2 ∷ 0x82 ∷ 0xac ∷ 32 ∷ []

euro-IsBytes : IsBytes euro
euro-IsBytes = (omega arith, (omega arith, (omega arith, (omega arith, (omega arith, tt)))))

utf8_next-euro : utf8_next euro 5 1 ≡ some (0x20ac, 4)
unfolding utf8_next lead continue_value refused
utf8_next-euro = refl

utf8_previous-euro : utf8_previous euro 5 4 ≡ some (0x20ac, 1)
unfolding utf8_previous back_up utf8_next lead continue_value refused
utf8_previous-euro = refl

trim-euro : trim_from 5 euro 5 0 5 0 ≡ (1, 4)
unfolding trim_from trim_step whitespace utf8_next lead continue_value refused
trim-euro = refl

surrogate_refused : utf8_valid (0xed ∷ 0xa0 ∷ 0x80 ∷ []) ≡ false
unfolding utf8_valid valid_from sequence_length continuation
surrogate_refused = refl

euro_stands : StartsWith euro 1 (encoding 0x20ac)
unfolding encoding
euro_stands zero h = refl
euro_stands (suc zero) h = refl
euro_stands (suc (suc zero)) h = refl
euro_stands (suc (suc (suc k))) h = absurd (omega arith)

euro_fits : 1 + length (encoding 0x20ac) ≤ 5
unfolding encoding
euro_fits = omega arith

utf8_next-encoding_example : utf8_next euro 5 1 ≡ some (0x20ac, 1 + length (encoding 0x20ac))
utf8_next-encoding_example =
    utf8_next-encoding euro euro-IsBytes 5 1 (omega arith) 0x20ac (omega arith, inl (omega arith))
      euro_fits euro_stands

utf8_next-EncodedAt_example : EncodedAt euro 5 1 0x20ac 4
utf8_next-EncodedAt_example = utf8_next-EncodedAt euro euro-IsBytes 5 1 (omega arith) utf8_next-euro

utf8_valid-encoded_example :
    (utf8_valid euro ≡ true → (cs : List ℕ) × All IsScalar cs × (euro ≡ encode_all cs))
    × ((cs : List ℕ) → All IsScalar cs → euro ≡ encode_all cs → utf8_valid euro ≡ true)
utf8_valid-encoded_example = utf8_valid-encoded euro euro-IsBytes
