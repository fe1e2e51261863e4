-- ===== src/Text/Search/Laws.antt =====
-- What the two searches find.
use beagle.Base.{
  ℕ, zero, suc, ◌+◌, ◌-◌, ◌≤◌, ◌<◌, ◌≡◌, refl, ap₂, take, length-drop, arith, inl, inr, true, false,
  Option, none, some, [], ◌∷◌, ok, length, drop, dec_lt, Bool-cases,
}
use beagle.Base.Int.{int_max}
use mathlib.Core.Path.{subst}
use beagle.Text.{memcmp, is_equal, blob, Bytes, text_length, text_bytes}
use beagle.Text.Search.{matches_at, found, scan_up, index_of, scan_down, last_index_of}

memcmp-take :
    (xs ys : Bytes)
    → length ys ≤ length xs
    → is_equal (memcmp xs ys (length ys)) ≡ true
    → take (length ys) xs ≡ ys
unfolding memcmp
memcmp-take xs [] room h = refl
memcmp-take [] (y ∷ ys) room h = absurd (omega arith)
memcmp-take (x ∷ xs) (y ∷ ys) room h = elim (dec_lt x y) [
  | yes below ↦ absurd (ground arith)
  | no least ↦ elim (dec_lt y x) [
    | yes above ↦ absurd (ground arith)
    | no most ↦ ap₂ (λ b bs. b ∷ bs) (omega arith) (memcmp-take xs ys (omega arith) (ground arith))
  ]
]

take-memcmp :
    (xs ys : Bytes)
    → length ys ≤ length xs
    → take (length ys) xs ≡ ys
    → is_equal (memcmp xs ys (length ys)) ≡ true
unfolding memcmp
take-memcmp xs ys room e =
    let n = length ys in subst (λ zs. is_equal (memcmp xs zs n) ≡ true) e (same n xs)
  where
    same : (n : ℕ) (xs : Bytes) → is_equal (memcmp xs (take n xs) n) ≡ true
    same zero xs = refl
    same (suc n) [] = refl
    same (suc n) (x ∷ xs) = ground (arith, same n xs)

-- The search returned nothing, and there is no match below the bound, or a match with no earlier
-- one.
abbrev pub FirstFrom : Bytes → Bytes → ℕ → ℕ → Option ℕ → Type 0
FirstFrom source needle low high none =
    (i : ℕ) → low ≤ i → i < high → matches_at source needle i ≡ false
FirstFrom source needle low high (some k) =
    (low ≤ k)
    × (k < high)
    × (matches_at source needle k ≡ true)
    × ((i : ℕ) → low ≤ i → i < k → matches_at source needle i ≡ false)

-- The same downwards.
abbrev pub LastBelow : Bytes → Bytes → ℕ → Option ℕ → Type 0
LastBelow source needle top none = (i : ℕ) → i ≤ top → matches_at source needle i ≡ false
LastBelow source needle top (some k) =
    (k ≤ top)
    × (matches_at source needle k ≡ true)
    × ((i : ℕ) → k < i → i ≤ top → matches_at source needle i ≡ false)

module _ (source needle : Bytes) where
  scan_up-FirstFrom :
      (rounds index : ℕ)
      → index + rounds ≤ suc int_max
      → (r : Option ℕ) × (scan_up rounds index source needle ≡ ok r)
        × FirstFrom source needle index (index + rounds) r
  unfolding scan_up found
  scan_up-FirstFrom zero index small = (none, refl, λ i low high. absurd (omega arith))
  scan_up-FirstFrom (suc rounds) index small = elim (Bool-cases (matches_at source needle index)) [
    | inl hit ↦ (
      some index,
      ground (arith, hit),
      (omega arith, omega arith, hit, λ i low high. absurd (omega arith)),
    )
    | inr missed ↦
        let (r, e, first) = scan_up-FirstFrom rounds (index + 1) (omega arith) in
        (r, ground (arith, missed, e), further r missed first)
  ]
    where
      further :
          (r : Option ℕ)
          → matches_at source needle index ≡ false
          → FirstFrom source needle (index + 1) (index + 1 + rounds) r
          → FirstFrom source needle index (index + suc rounds) r
      further none missed first = λ i low high. elim (dec_lt index i) [
        | yes later ↦ first i (omega arith) (omega arith)
        | no here ↦ let same : i ≡ index = omega arith in rw same missed
      ]
      further (some k) missed (a, b, hit, first) = (
        omega arith,
        omega arith,
        hit,
        λ i low high. elim (dec_lt index i) [
          | yes later ↦ first i (omega arith) high
          | no here ↦ let same : i ≡ index = omega arith in rw same missed
        ],
      )

  -- The search for a needle that is not empty.
  scan_up-all :
      length source ≤ int_max
      → (r : Option ℕ) × (scan_up (length source - length needle + 1) 0 source needle ≡ ok r)
        × FirstFrom source needle 0 (length source - length needle + 1) r
  scan_up-all small =
      let rounds = length source - length needle + 1 in
      let zero_left : 0 + rounds ≡ rounds = omega arith in
      rw zero_left at (scan_up-FirstFrom rounds 0 (omega arith))

  scan_down-found :
      (n : ℕ)
      → n ≤ int_max
      → (r : Option ℕ) × (scan_down n source needle ≡ ok r) × LastBelow source needle n r
  unfolding scan_down found
  scan_down-found zero small = elim (Bool-cases (matches_at source needle 0)) [
    | inl hit ↦
        (some 0, ground (arith, hit), (omega arith, hit, λ i low high. absurd (omega arith)))
    | inr missed ↦
        (none, ground (arith, missed), λ i high. let same : i ≡ 0 = omega arith in rw same missed)
  ]
  scan_down-found (suc n) small = elim (Bool-cases (matches_at source needle (suc n))) [
    | inl hit ↦
        (some (suc n), ground (arith, hit), (omega arith, hit, λ i low high. absurd (omega arith)))
    | inr missed ↦
        let (r, e, last) = scan_down-found n (omega arith) in
        (r, ground (arith, missed, e), further r missed last)
  ]
    where
      further :
          (r : Option ℕ)
          → matches_at source needle (suc n) ≡ false
          → LastBelow source needle n r
          → LastBelow source needle (suc n) r
      further none missed last = λ i high. elim (dec_lt n i) [
        | yes top ↦ let same : i ≡ suc n = omega arith in rw same missed
        | no below ↦ last i (omega arith)
      ]
      further (some k) missed (a, hit, last) = (
        omega arith,
        hit,
        λ i low high. elim (dec_lt n i) [
          | yes top ↦ let same : i ≡ suc n = omega arith in rw same missed
          | no below ↦ last i low (omega arith)
        ],
      )

-- The needle stands at an index of the source.
abbrev pub Occurs : Bytes → Bytes → ℕ → Type 0
Occurs source needle i = take (length needle) (drop i source) ≡ needle

-- Nothing, where the needle stands nowhere, or the first index at which it stands.
abbrev pub FirstOccurs : Bytes → Bytes → Option ℕ → Type 0
FirstOccurs source needle none =
    (i : ℕ) → i + length needle ≤ length source → ¬ Occurs source needle i
FirstOccurs source needle (some k) =
    (k + length needle ≤ length source)
    × Occurs source needle k
    × ((i : ℕ) → i < k → ¬ Occurs source needle i)

-- The same for the last index.
abbrev pub LastOccurs : Bytes → Bytes → Option ℕ → Type 0
LastOccurs source needle none =
    (i : ℕ) → i + length needle ≤ length source → ¬ Occurs source needle i
LastOccurs source needle (some k) =
    (k + length needle ≤ length source)
    × Occurs source needle k
    × ((i : ℕ) → k < i → i + length needle ≤ length source → ¬ Occurs source needle i)

-- Where a needle has room, the test of both searches says whether it stands there.
pub matches_at-occurs :
    (source needle : Bytes) (i : ℕ)
    → i + length needle ≤ length source
    → (matches_at source needle i ≡ true → take (length needle) (drop i source) ≡ needle)
      × (take (length needle) (drop i source) ≡ needle → matches_at source needle i ≡ true)
unfolding matches_at
matches_at-occurs source needle i room =
    let enough : length needle ≤ length (drop i source) = omega (arith, length-drop i source) in
    (memcmp-take (drop i source) needle enough, take-memcmp (drop i source) needle enough)

missed :
    (source needle : Bytes) (i : ℕ)
    → i + length needle ≤ length source
    → matches_at source needle i ≡ false
    → ¬ Occurs source needle i
missed source needle i room unmatched o =
    let matched = (matches_at-occurs source needle i room).1 o in cc

first-FirstOccurs :
    (source needle : Bytes) (r : Option ℕ)
    → FirstFrom source needle 0 (length source + 1 - length needle) r
    → FirstOccurs source needle r
first-FirstOccurs source needle none h =
    λ i room. missed source needle i room (h i (omega arith) (omega arith))
first-FirstOccurs source needle (some k) (_, below, hit, first) = (
  omega arith,
  (matches_at-occurs source needle k (omega arith)).0 hit,
  λ i l. missed source needle i (omega arith) (first i (omega arith) l),
)

last-LastOccurs :
    (source needle : Bytes) (r : Option ℕ)
    → length needle ≤ length source
    → LastBelow source needle (length source - length needle) r
    → LastOccurs source needle r
last-LastOccurs source needle none fits h =
    λ i room. missed source needle i room (h i (omega arith))
last-LastOccurs source needle (some k) fits (below, hit, last) = (
  omega arith,
  (matches_at-occurs source needle k (omega arith)).0 hit,
  λ i l room. missed source needle i room (last i l (omega arith)),
)

-- `native_text_index_of` for a needle that is not empty in a text shorter than 2 ^ 63 bytes returns:
-- the first place where the needle stands, or nothing where it stands at no place that has room.
pub index_of-first :
    (p q : ℕ) (source needle : Bytes)
    → length source ≤ int_max
    → 0 < length needle
    → (r : Option ℕ) × (index_of (blob p source) (blob q needle) ≡ ok r)
      × FirstOccurs source needle r
unfolding index_of text_length text_bytes
index_of-first p q source needle small filled = elim (dec_lt (length source) (length needle)) [
  | yes longer ↦ (none, ground arith, λ i room. absurd (omega arith))
  | no fits ↦
      let (r, e, first) = scan_up-all source needle small in
      let bound : length source - length needle + 1 ≡ length source + 1 - length needle =
        omega arith in
      (r, ground (arith, e), first-FirstOccurs source needle r (rw bound at first))
]

-- `native_text_last_index_of` for a needle that is not empty, in a text shorter than 2 ^ 63 bytes
-- that is no shorter than the needle, returns: the last place where the needle stands, or nothing
-- where it stands at no place that has room.
pub last_index_of-last :
    (p q : ℕ) (source needle : Bytes)
    → length source ≤ int_max
    → 0 < length needle
    → length needle ≤ length source
    → (r : Option ℕ) × (last_index_of (blob p source) (blob q needle) ≡ ok r)
      × LastOccurs source needle r
unfolding last_index_of text_length text_bytes found
last_index_of-last p q source needle small filled fits =
    let (r, e, last) =
      scan_down-found source needle (length source - length needle) (omega arith) in
    (r, ground (arith, e), last-LastOccurs source needle r fits last)
