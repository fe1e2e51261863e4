-- ===== src/Text/Order.antt =====
-- Comparing texts: `native_text_eq` is equality of the bytes, and `native_text_compare` the
-- lexicographic order.
use beagle.Base.{
  ℕ, zero, suc, ◌≡◌, refl, ap₂, sym, arith, true, [], ◌∷◌, ltb, if◌then◌else◌, length, dec_lt,
}
use beagle.Text.{Bytes, Sign, less, equal, greater, memcmp, is_equal, eq_bytes, compare_bytes}

pub memcmp-same : (xs : Bytes) (n : ℕ) → memcmp xs xs n ≡ equal
unfolding memcmp
memcmp-same xs zero = refl
memcmp-same [] (suc n) = refl
memcmp-same (x ∷ xs) (suc n) = ground (arith, memcmp-same xs n)

pub memcmp-equal :
    (xs ys : Bytes) → length xs ≡ length ys → is_equal (memcmp xs ys (length xs)) ≡ true → xs ≡ ys
unfolding memcmp
memcmp-equal [] [] e h = refl
memcmp-equal [] (y ∷ ys) e h = absurd (omega (arith, e))
memcmp-equal (x ∷ xs) [] e h = absurd (omega (arith, e))
memcmp-equal (x ∷ xs) (y ∷ ys) e h = elim (dec_lt x y) [
  | yes below ↦ absurd (ground arith)
  | no least ↦ elim (dec_lt y x) [
    | yes above ↦ absurd (ground arith)
    | no most ↦
        ap₂ (λ b bs. b ∷ bs) (omega arith) (memcmp-equal xs ys (omega (arith, e)) (ground arith))
  ]
]

-- Two texts are equal for `native_text_eq` exactly when they have the same bytes.
pub eq_bytes-equal :
    (xs ys : Bytes) → (eq_bytes xs ys ≡ true → xs ≡ ys) × (xs ≡ ys → eq_bytes xs ys ≡ true)
unfolding eq_bytes
eq_bytes-equal xs ys = (forth xs ys, λ e. rw (sym e) (ground (arith, memcmp-same xs (length xs))))
  where
    forth : (xs ys : Bytes) → eq_bytes xs ys ≡ true → xs ≡ ys
    forth [] [] h = refl
    forth [] (y ∷ ys) h = absurd (ground arith)
    forth (x ∷ xs) ys h = memcmp-equal (x ∷ xs) ys (ground arith) (ground arith)

-- The lexicographic order on byte strings, a prefix before what it begins.
abbrev pub lexicographic : Bytes → Bytes → Sign
lexicographic [] [] = equal
lexicographic [] (y ∷ ys) = less
lexicographic (x ∷ xs) [] = greater
lexicographic (x ∷ xs) (y ∷ ys) =
    if ltb x y then less else if ltb y x then greater else lexicographic xs ys

-- `native_text_compare` decides the lexicographic order.
pub compare_bytes-lexicographic : (xs ys : Bytes) → compare_bytes xs ys ≡ lexicographic xs ys
unfolding compare_bytes memcmp
compare_bytes-lexicographic [] [] = refl
compare_bytes-lexicographic [] (y ∷ ys) = ground arith
compare_bytes-lexicographic (x ∷ xs) [] = ground arith
compare_bytes-lexicographic (x ∷ xs) (y ∷ ys) =
    let a = length xs in
    let b = length ys in
    let shared : (if ltb (suc a) (suc b) then suc a else suc b) ≡ suc (if ltb a b then a else b) =
      ground arith in
    rw (compare_bytes, shared) (ground (arith, compare_bytes-lexicographic xs ys))
