-- ===== src/Vec/Examples.antt =====
-- Two appends to one vector, a replacement, and what is made of the results.
use beagle.Base.{
  ℕ, ◌-◌, ◌≤◌, ◌<◌, ◌≡◌, refl, arith, false, Option, none, some, List, [], ◌∷◌, ◌++◌, true, ok,
  take, drop, set, inr,
}
use beagle.Base.Int.{pos}
use beagle.Arena.{Arena, alloc, bump}
use beagle.Buffer.{dense_bytes}
use beagle.Vec.{
  Machine, Vec, reserve, new_storage, new_mark, header, set_length, new_backed, new, assoc,
  push_in_place, push_copy, push, tip_is_free,
}
use beagle.Vec.Live.{IsGood}
use beagle.Vec.Push.{Pushed, push-Pushed}
use beagle.Vec.Copied.{Copied, assoc-Copied}
use beagle.Vec.Bulk.{concat, slice, slice_copy, reverse, reverse_from}
use beagle.Vec.Bulk.Contents.{concat-Copied, slice-Copied}
use beagle.Vec.Transient.{
  TransientVec, bad_builder, builder_contents, make_room, transient_push, freeze_mark,
  transient_freeze,
}
use beagle.Vec.Transient.Contents.{IsOpen, Frozen, transient_push-appends, transient_freeze-Frozen}
use beagle.Vec.History.{Member, here, there, pushed, History, done, then, Live, Kept, History-Kept}

abbrev room : Arena
room = record {
  bytes = 4096;
  capacity = 65536;
  offset = 0;
  chunks = [];
  buffer_registry = none;
  growth_floor = 0;
  growable = false;
  allocation_count = 0;
  buffer_storage_allocation_count = 0;
  buffer_storage_current_bytes = 0;
  buffer_storage_high_water_bytes = 0;
  heap = record { answers = []; given = []; freed = [] };
}

-- A vector of two numbers over storage for four.
abbrev machine : Machine ℕ
machine = record {
  arena = room;
  blocks = (some 10 ∷ some 20 ∷ none ∷ none ∷ []) ∷ [];
  marks = 2 ∷ [];
  storage_allocations = 1;
}

abbrev pair : Vec
pair = record { elements = some 0; length = 2; capacity = 4; watermark = some 0 }

pair-IsGood : IsGood machine pair
pair-IsGood = record {
  fits = omega arith;
  backed = inr (0, refl, omega arith, refl);
  marked = inr (0, refl, omega arith, omega arith);
}

-- The first append goes in place, the second one onto a copy.
abbrev triple : Vec
triple = record { elements = some 0; length = 3; capacity = 4; watermark = some 0 }

abbrev after_push : Machine ℕ
after_push = record {
  arena = record room { offset = 32; allocation_count = 1 };
  blocks = (some 10 ∷ some 20 ∷ some 30 ∷ none ∷ []) ∷ [];
  marks = 3 ∷ [];
  storage_allocations = 1;
}

push-pair : push machine pair 30 (pos 8) 8 ≡ ok (triple, after_push)
unfolding push tip_is_free push_in_place header reserve alloc bump
push-pair = refl

push-Pushed_example : Pushed machine after_push pair triple 30
push-Pushed_example = push-Pushed machine pair 30 (pos 8) 8 triple after_push pair-IsGood push-pair

abbrev other : Vec
other = record { elements = some 1; length = 3; capacity = 4; watermark = some 1 }

abbrev after_both : Machine ℕ
after_both = record {
  arena = record room { offset = 104; allocation_count = 4 };
  blocks =
      (some 10 ∷ some 20 ∷ some 30 ∷ none ∷ []) ∷ (some 10 ∷ some 20 ∷ some 40 ∷ none ∷ []) ∷ [];
  marks = 3 ∷ 3 ∷ [];
  storage_allocations = 2;
}

push-pair_again : push after_push pair 40 (pos 8) 8 ≡ ok (other, after_both)
unfolding push tip_is_free push_copy new new_backed new_storage new_mark set_length reserve alloc
    bump dense_bytes
push-pair_again = refl

pair-Live : Live machine (pair ∷ [])
pair-Live = record { good = good; together = together }
  where
    good : (u : Vec) → Member u (pair ∷ []) → IsGood machine u
    good _ here = pair-IsGood
    good u (there at) = elim at [ ]

    together :
        (u w : Vec)
        → Member u (pair ∷ [])
        → Member w (pair ∷ [])
        → (e : ℕ) → u.elements ≡ some e
        → w.elements ≡ some e
        → u.watermark ≡ w.watermark
    together _ _ here here = λ e _ _. refl
    together _ w here (there at) = elim at [ ]
    together u _ (there at) _ = elim at [ ]

two_pushes : History machine (pair ∷ []) after_both (other ∷ triple ∷ pair ∷ [])
two_pushes =
    then (pushed pair 30 (pos 8) 8 here push-pair)
      (then (pushed pair 40 (pos 8) 8 (there here) push-pair_again) done)

History-Kept_example : Kept machine after_both (pair ∷ []) (other ∷ triple ∷ pair ∷ [])
History-Kept_example = History-Kept pair-Live two_pushes

-- What a copy of this length leaves.
abbrev copied : ℕ → ℕ → List (Option ℕ) → Machine ℕ
copied offset n block = record {
  arena = record room { offset = offset; allocation_count = 3 };
  blocks = (some 10 ∷ some 20 ∷ none ∷ none ∷ []) ∷ block ∷ [];
  marks = 2 ∷ n ∷ [];
  storage_allocations = 2;
}

abbrev copy_header : ℕ → Vec
copy_header n = record { elements = some 1; length = n; capacity = n; watermark = some 1 }

assoc-pair :
    assoc machine pair (pos 1) 99 (pos 8) 8
    ≡ ok (copy_header 2, copied 56 2 (some 10 ∷ some 99 ∷ []))
unfolding assoc new new_backed new_storage new_mark set_length reserve alloc bump dense_bytes
assoc-pair = refl

assoc-Copied_example :
    (i : ℕ) × (pos 1 ≡ pos i)
    × (i < 2)
    × Copied machine
        (copied 56 2 (some 10 ∷ some 99 ∷ []))
        (copy_header 2)
        (set (some 10 ∷ some 20 ∷ []) i (some 99))
assoc-Copied_example =
    assoc-Copied machine pair (pos 1) 99 (pos 8) 8 (copy_header 2)
      (copied 56 2 (some 10 ∷ some 99 ∷ [])) pair-IsGood assoc-pair

concat-pair :
    concat machine pair pair (pos 8) 8
    ≡ ok (copy_header 4, copied 72 4 (some 10 ∷ some 20 ∷ some 10 ∷ some 20 ∷ []))
unfolding concat new new_backed new_storage new_mark set_length reserve alloc bump dense_bytes
concat-pair = refl

concat-Copied_example :
    Copied machine
      (copied 72 4 (some 10 ∷ some 20 ∷ some 10 ∷ some 20 ∷ []))
      (copy_header 4)
      (some 10 ∷ some 20 ∷ some 10 ∷ some 20 ∷ [])
concat-Copied_example =
    concat-Copied machine pair pair (pos 8) 8 (copy_header 4)
      (copied 72 4 (some 10 ∷ some 20 ∷ some 10 ∷ some 20 ∷ [])) pair-IsGood pair-IsGood concat-pair

slice-pair :
    slice machine pair (pos 1) (pos 2) (pos 8) 8 ≡ ok (copy_header 1, copied 48 1 (some 20 ∷ []))
unfolding slice slice_copy new new_backed new_storage new_mark set_length reserve alloc bump
    dense_bytes
slice-pair = refl

slice-Copied_example :
    (i j : ℕ) × (pos 1 ≡ pos i)
    × (pos 2 ≡ pos j)
    × (i ≤ j)
    × (j ≤ 2)
    × Copied machine
        (copied 48 1 (some 20 ∷ []))
        (copy_header 1)
        (take (j - i) (drop i (some 10 ∷ some 20 ∷ [])))
slice-Copied_example =
    slice-Copied machine pair (pos 1) (pos 2) (pos 8) 8 (copy_header 1) (copied 48 1 (some 20 ∷ []))
      pair-IsGood slice-pair

reverse-pair :
    reverse machine pair (pos 8) 8 ≡ ok (copy_header 2, copied 56 2 (some 20 ∷ some 10 ∷ []))
unfolding reverse reverse_from new new_backed new_storage new_mark set_length reserve alloc bump
    dense_bytes
reverse-pair = refl

-- A builder of the pair, a push that moves it to larger storage, and the frozen vector.
abbrev builder : TransientVec
builder = record {
  elements = some 0;
  length = 2;
  capacity = 2;
  stride = pos 8;
  alignment = 8;
  frozen = false;
}

abbrev with_builder : Machine ℕ
with_builder = record {
  arena = room;
  blocks = (some 10 ∷ some 20 ∷ []) ∷ [];
  marks = [];
  storage_allocations = 1;
}

builder-IsOpen : IsOpen with_builder builder
builder-IsOpen = record { fits = omega arith; backed = inr (0, refl, omega arith, refl) }

abbrev moved : TransientVec
moved = record {
  elements = some 1;
  length = 3;
  capacity = 4;
  stride = pos 8;
  alignment = 8;
  frozen = false;
}

abbrev with_moved : Machine ℕ
with_moved = record {
  arena = record room { offset = 32; allocation_count = 1 };
  blocks = (some 10 ∷ some 20 ∷ []) ∷ (some 10 ∷ some 20 ∷ some 30 ∷ none ∷ []) ∷ [];
  marks = [];
  storage_allocations = 2;
}

transient_push-builder : transient_push with_builder builder 30 ≡ ok (moved, with_moved)
unfolding transient_push bad_builder make_room new_storage reserve alloc bump dense_bytes
transient_push-builder = refl

transient_push-appends_example :
    IsOpen with_moved moved
    × (builder_contents with_moved moved ≡ (some 10 ∷ some 20 ∷ []) ++ (some 30 ∷ []))
    × (false ≡ false)
transient_push-appends_example =
    transient_push-appends with_builder builder 30 moved with_moved builder-IsOpen
      transient_push-builder

moved-IsOpen : IsOpen with_moved moved
moved-IsOpen = record { fits = omega arith; backed = inr (1, refl, omega arith, refl) }

abbrev frozen_vec : Vec
frozen_vec = record { elements = some 1; length = 3; capacity = 4; watermark = some 0 }

abbrev with_frozen : Machine ℕ
with_frozen = record with_moved {
  arena = record room { offset = 72; allocation_count = 3 };
  marks = 3 ∷ [];
}

transient_freeze-moved :
    transient_freeze with_moved moved ≡ ok (frozen_vec, record moved { frozen = true }, with_frozen)
unfolding transient_freeze bad_builder freeze_mark new_mark header reserve alloc bump
transient_freeze-moved = refl

transient_freeze-Frozen_example :
    Frozen with_moved with_frozen moved (record moved { frozen = true }) frozen_vec
transient_freeze-Frozen_example =
    transient_freeze-Frozen with_moved moved frozen_vec (record moved { frozen = true }) with_frozen
      moved-IsOpen transient_freeze-moved
