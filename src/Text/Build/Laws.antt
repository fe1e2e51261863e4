-- ===== src/Text/Build/Laws.antt =====
-- What the texts that are put together hold.
use beagle.Base.{
  ℕ, zero, suc, ◌+◌, ◌-◌, ◌*◌, ◌/◌, ◌≤◌, ◌≡◌, refl, ap, sym, ◌∙◌, arith, Bool, true, false, not,
  ◌||◌, ◌&&◌, List, [], ◌∷◌, ◌++◌, ltb, ◌==◌, if◌then◌else◌, ok, >>=-eq-ok, >>-eq-ok, ok-injective,
  length, drop, copy_into, length-append, length-drop, length-replicate, copy_into-append,
  append-nil, append_assoc, overflow,
}
use beagle.Base.Int.{pos}
use beagle.Arena.{Arena, word_max}
use beagle.Text.{Text, null, blob, Bytes, text_length, text_bytes, text_alloc, blank}
use beagle.Text.Build.{
  total_length, fill_parts, concat, join_length, join_fill, join, repeat_fill, repeat,
}

-- The bytes of the texts, one behind the other.
abbrev pub joined : List Text → Bytes
joined [] = []
joined (null ∷ ts) = joined ts
joined (blob p bs ∷ ts) = bs ++ joined ts

abbrev pub Present : List Text → Type 0
Present [] = Unit
Present (null ∷ ts) = ⊥
Present (blob p bs ∷ ts) = Present ts

total_length_lem :
    (ts : List Text) (total n : ℕ)
    → total_length ts total ≡ ok n
    → Present ts × (n ≡ total + length (joined ts))
unfolding total_length text_length
total_length_lem [] total n h = (tt, omega (arith, ok-injective h))
total_length_lem (null ∷ ts) total n h = absurd (cc)
total_length_lem (blob p bs ∷ ts) total n h =
    let (fits, rest) = >>-eq-ok (ltb (word_max - total) (length bs)) overflow _ h in
    let (there, e) = total_length_lem ts (total + length bs) n rest in
    (there, omega (arith, e, length-append bs (joined ts)))

-- Copying a text right behind what is done; an empty one may be passed over.
place :
    (empty : Bool) (done to bs : Bytes)
    → length bs ≤ length to
    → (empty ≡ true → bs ≡ [])
    → (if empty then done ++ to else copy_into (done ++ to) (length done) bs)
      ≡ (done ++ bs) ++ drop (length bs) to
place true done to bs room nothing = rw (nothing refl) (ap (λ t. t ++ to) (sym (append-nil done)))
place false done to bs room nothing = copy_into-append done to bs room

place_if :
    (filled : Bool) (done to bs : Bytes)
    → length bs ≤ length to
    → (filled ≡ false → bs ≡ [])
    → (if filled then copy_into (done ++ to) (length done) bs else done ++ to)
      ≡ (done ++ bs) ++ drop (length bs) to
place_if false done to bs room nothing = place true done to bs room (λ _. nothing refl)
place_if true done to bs room nothing = place false done to bs room (λ e. absurd (cc))

length-zero : (bs : Bytes) → length bs ≡ 0 → bs ≡ []
length-zero [] h = refl
length-zero (b ∷ bs) h = absurd (omega (arith, h))

fill_parts_lem :
    (ts : List Text) (done to : Bytes)
    → Present ts
    → length to ≡ length (joined ts)
    → fill_parts ts (length done) (done ++ to) ≡ ok (done ++ joined ts)
unfolding fill_parts text_length text_bytes
fill_parts_lem [] done to there room = ap (λ t. ok (done ++ t)) (length-zero to room)
fill_parts_lem (null ∷ ts) done to there room = absurd there
fill_parts_lem (blob p bs ∷ ts) done to there room =
    let long = length-append bs (joined ts) in
    let step =
      place (length bs == 0) done to bs (omega (arith, room, long))
        (λ none_left. length-zero bs (ground arith)) in
    let moved : length done + length bs ≡ length (done ++ bs) = sym (length-append done bs) in
    let rest =
      fill_parts_lem ts (done ++ bs) (drop (length bs) to) there
        (omega (arith, room, long, length-drop (length bs) to)) in
    rw (fill_parts, step, moved) (rest ∙ ap ok (append_assoc done bs (joined ts)))

-- `native_text_concat` returns a text of the bytes of the parts, one behind the other, and none of
-- the parts was NULL.
pub concat-joined :
    (a : Arena) (parts : List Text) (t : Text) (a' : Arena)
    → concat a parts ≡ ok (t, a')
    → Present parts × ((p : ℕ) × (t ≡ blob p (joined parts)))
unfolding concat
concat-joined a parts t a' h =
    let (total, counted, h₁) = >>=-eq-ok (total_length parts 0) _ h in
    let ((p, a₁), given, h₂) = >>=-eq-ok (text_alloc a total) _ h₁ in
    let (there, e) = total_length_lem parts 0 total counted in
    let filled =
      fill_parts_lem parts [] (blank total) there (length-replicate total 0 ∙ omega (arith, e)) in
    (there, (p, ap (λ (r : Text × Arena). r.0) (sym (ok-injective (rw filled at h₂)))))

-- The parts with a separator before each but the first.
abbrev pub separated : Bytes → Bool → List Text → Bytes
separated separator first [] = []
separated separator first (null ∷ ts) = separated separator false ts
separated separator first (blob p bs ∷ ts) =
    (if first then [] else separator) ++ (bs ++ separated separator false ts)

join_length_lem :
    (separator : Bytes) (first : Bool) (ts : List Text) (total n : ℕ)
    → join_length (length separator) first ts total ≡ ok n
    → Present ts × (n ≡ total + length (separated separator first ts))
unfolding join_length text_length
join_length_lem separator first [] total n h = (tt, omega (arith, ok-injective h))
join_length_lem separator first (null ∷ ts) total n h = absurd (cc)
join_length_lem separator first (blob p bs ∷ ts) total n h =
    let delimiter = if first then 0 else length separator in
    let (fits, rest) =
      >>-eq-ok (ltb (word_max - total) delimiter || ltb (word_max - total - delimiter) (length bs))
        overflow _ h in
    let (there, e) = join_length_lem separator false ts (total + (delimiter + length bs)) n rest in
    (
      there,
      omega (
        arith,
        e,
        delimited first,
        length-append (if first then [] else separator) (bs ++ separated separator false ts),
        length-append bs (separated separator false ts),
      ),
    )
  where
    delimited :
        (first : Bool)
        → length (if first then [] else separator) ≡ (if first then 0 else length separator)
    delimited true = refl
    delimited false = refl

abbrev delimiter_of : Bytes → Bool → Bytes
delimiter_of separator first = if first then [] else separator

-- The delimiter before a part, and where the part goes.
place_delimiter :
    (separator : Bytes) (first : Bool) (done to : Bytes)
    → length (delimiter_of separator first) ≤ length to
    → (if not first && ltb 0 (length separator)
        then copy_into (done ++ to) (length done) separator
        else done ++ to)
      ≡ (done ++ delimiter_of separator first) ++ drop (length (delimiter_of separator first)) to
place_delimiter separator true done to room = place true done to [] room (λ _. refl)
place_delimiter separator false done to room =
    place_if (ltb 0 (length separator)) done to separator room
      (λ none_left. length-zero separator (ground arith))

delimiter_offset :
    (separator : Bytes) (first : Bool) (done : Bytes)
    → (if not first && ltb 0 (length separator)
        then length done + length separator
        else length done)
      ≡ length (done ++ delimiter_of separator first)
delimiter_offset separator true done = ap length (sym (append-nil done))
delimiter_offset separator false done = ground (arith, length-append done separator)

join_fill_lem :
    (separator : Bytes) (first : Bool) (ts : List Text) (done to : Bytes)
    → Present ts
    → length to ≡ length (separated separator first ts)
    → join_fill separator first ts (length done) (done ++ to)
      ≡ ok (done ++ separated separator first ts)
unfolding join_fill text_length text_bytes
join_fill_lem separator first [] done to there room = ap (λ t. ok (done ++ t)) (length-zero to room)
join_fill_lem separator first (null ∷ ts) done to there room = absurd there
join_fill_lem separator first (blob p bs ∷ ts) done to there room =
    let d = delimiter_of separator first in
    let more = separated separator false ts in
    let long = length-append d (bs ++ more) in
    let long₂ = length-append bs more in
    let first_step = place_delimiter separator first done to (omega (arith, room, long)) in
    let offset = delimiter_offset separator first done in
    let to₁ = drop (length d) to in
    let left = length-drop (length d) to in
    let second_step =
      place_if (ltb 0 (length bs)) (done ++ d) to₁ bs (omega (arith, room, long, long₂, left))
        (λ none_left. length-zero bs (ground arith)) in
    let moved : length (done ++ d) + length bs ≡ length ((done ++ d) ++ bs) =
      sym (length-append (done ++ d) bs) in
    let rest =
      join_fill_lem separator false ts ((done ++ d) ++ bs) (drop (length bs) to₁) there
        (omega (arith, room, long, long₂, left, length-drop (length bs) to₁)) in
    rw (join_fill, first_step, offset, second_step, moved)
      (rest ∙ ap ok (append_assoc (done ++ d) bs more ∙ append_assoc done d (bs ++ more)))

-- `native_text_join` returns the bytes of the parts with the separator's between each two of them,
-- and neither a part nor the separator was NULL.
pub join-separated :
    (a : Arena) (separator : Text) (parts : List Text) (t : Text) (a' : Arena)
    → join a separator parts ≡ ok (t, a')
    → Present parts
      × ((p q : ℕ) × (bs : Bytes) × (separator ≡ blob q bs)
          × (t ≡ blob p (separated bs true parts)))
unfolding join text_length text_bytes
join-separated a null parts t a' h = absurd (cc)
join-separated a (blob q bs) parts t a' h =
    let (total, counted, h₁) = >>=-eq-ok (join_length (length bs) true parts 0) _ h in
    let ((p, a₁), given, h₂) = >>=-eq-ok (text_alloc a total) _ h₁ in
    let (there, e) = join_length_lem bs true parts 0 total counted in
    let filled =
      join_fill_lem bs true parts [] (blank total) there
        (length-replicate total 0 ∙ omega (arith, e)) in
    (there, (p, q, bs, refl, ap (λ (r : Text × Arena). r.0) (sym (ok-injective (rw filled at h₂)))))

abbrev pub repeated : ℕ → Bytes → Bytes
repeated zero bs = []
repeated (suc n) bs = bs ++ repeated n bs

length-repeated : (n : ℕ) (bs : Bytes) → length (repeated n bs) ≡ length bs * n
length-repeated zero bs = omega arith
length-repeated (suc n) bs =
    length-append bs (repeated n bs)
    ∙ (ap (λ k. length bs + k) (length-repeated n bs) ∙ omega arith)

repeat_fill_lem :
    (rounds index : ℕ) (bs done to : Bytes)
    → length done ≡ index * length bs
    → length to ≡ length (repeated rounds bs)
    → repeat_fill rounds index bs (done ++ to) ≡ done ++ repeated rounds bs
unfolding repeat_fill
repeat_fill_lem zero index bs done to at room = ap (λ t. done ++ t) (length-zero to room)
repeat_fill_lem (suc rounds) index bs done to at room =
    let long = length-append bs (repeated rounds bs) in
    let moved : length (done ++ bs) ≡ (index + 1) * length bs =
      length-append done bs ∙ omega (arith, at) in
    let copied : (if ltb 0 (length bs)
          then copy_into (done ++ to) (index * length bs) bs
          else done ++ to)
        ≡ (done ++ bs) ++ drop (length bs) to =
      rw (← at) (
        place_if (ltb 0 (length bs)) done to bs (omega (arith, room, long))
          (λ none_left. length-zero bs (ground arith))) in
    let rest =
      repeat_fill_lem rounds (index + 1) bs (done ++ bs) (drop (length bs) to) moved
        (omega (arith, room, long, length-drop (length bs) to)) in
    rw (repeat_fill, copied) (rest ∙ append_assoc done bs (repeated rounds bs))

-- `native_text_repeat` of a text returns the text of its bytes, so many times.
pub repeat-repeated :
    (a : Arena) (q : ℕ) (bs : Bytes) (n : ℕ) (t : Text) (a' : Arena)
    → repeat a (blob q bs) (pos n) ≡ ok (t, a')
    → (p : ℕ) × (t ≡ blob p (repeated n bs))
unfolding repeat text_length text_bytes
repeat-repeated a q bs n t a' h =
    let (fits, h₁) = >>-eq-ok (not (length bs == 0) && ltb (word_max / length bs) n) overflow _ h in
    let ((p, a₁), given, h₂) = >>=-eq-ok (text_alloc a (length bs * n)) _ h₁ in
    let filled =
      repeat_fill_lem n 0 bs [] (blank (length bs * n)) (omega arith)
        (length-replicate (length bs * n) 0 ∙ sym (length-repeated n bs)) in
    (p, ap (λ (r : Text × Arena). r.0) (sym (ok-injective (rw filled at h₂))))
