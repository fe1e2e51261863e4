-- ===== src/Set.antt =====
-- native-core/shim/native_shim.c, sets: elements in the order of insertion, found by a scan. As for
-- maps, a set is a value: a persistent set is never written again, and the transient set that a
-- call writes to is what it returns. Pointers are not NULL where the code traps on NULL, and lengths
-- are not negative.
pub mod Valid
pub mod Changed
pub mod Edited
pub mod Session
mod Examples
use beagle.Base.{
  ℕ, zero, suc, ◌+◌, ◌-◌, Bool, true, false, not, ◌||◌, ◌&&◌, Option, none, some, List, [], ◌∷◌,
  ltb, leb, ◌==◌, if◌then◌else◌, Run, ok, trap, trap_if, ◌>>=◌, ◌>>◌, invalid_argument, overflow,
  out_of_range, length, get_elem?, take,
}
use beagle.Base.Int.{ℤ, pos, negsuc, eq_int, int_max}
use beagle.Arena.{Arena}
use beagle.Vec.{not_positive}
use beagle.Collection.{
  Equality, State, is_persistent, is_transient, persistent, transient, retired, Storage, store,
  is_none, collection_bytes, grown_capacity, take_bytes, new_storage, scan,
}
use beagle.Map.{owned_by, pointer_alignment}
use beagle.Map.Change.{all_but}

-- `native_set`; an edit arena is named by its address.
pub record Set {ℓ} (A : Type ℓ) : Type ℓ where
  pub elements : Storage A
  pub length : ℕ
  pub capacity : ℕ
  pub stride : ℤ
  pub state : State
  pub edit_arena : Option ℕ

abbrev pub set_size : ℕ
set_size = 48

module _ {ℓ} {A : Type ℓ} where
  unfoldable pub new : Arena → ℕ → ℤ → ℕ → Run (Set A × Arena)
  new a capacity stride alignment = do
    bytes ← collection_bytes (pos capacity) stride
    a₁ ← take_bytes a set_size pointer_alignment
    (elements, a₂) ← new_storage a₁ bytes alignment
    ok (
      record {
        elements = elements;
        length = 0;
        capacity = capacity;
        stride = stride;
        state = persistent;
        edit_arena = none;
      },
      a₂,
    )

  -- The condition of `native_set_check`.
  unfoldable pub broken : Set A → Bool
  broken s =
      ltb s.capacity s.length
      || not_positive s.stride
      || (s.capacity == 0 && not s.elements.null)
      || (ltb 0 s.capacity && s.elements.null)
      || (is_persistent s.state && not (is_none s.edit_arena))
      || (is_transient s.state && is_none s.edit_arena)
      || (not (is_persistent s.state) && not (is_transient s.state))

  unfoldable pub check : Set A → Run (Unit {0})
  check s = trap_if (broken s) invalid_argument

  unfoldable pub check_persistent : Set A → Run (Unit {0})
  unfolding check
  check_persistent s = do check s; trap_if (not (is_persistent s.state)) invalid_argument

  unfoldable pub check_transient : Set A → ℕ → Run (Unit {0})
  unfolding check
  check_transient s owner = do
    check s
    trap_if (not (is_transient s.state) || not (owned_by s.edit_arena owner)) invalid_argument

  unfoldable pub check_shape : Set A → ℤ → Run (Unit {0})
  unfolding check
  check_shape s stride = do check s; trap_if (not (eq_int s.stride stride)) invalid_argument

  unfoldable pub check_persistent_shape : Set A → ℤ → Run (Unit {0})
  unfolding check_shape
  check_persistent_shape s stride = do
    check_shape s stride
    trap_if (not (is_persistent s.state)) invalid_argument

  unfoldable pub count : Set A → Run ℕ
  unfolding check
  count s = do check s; ok s.length

  -- The elements that the length covers.
  abbrev pub live : Set A → List A
  live s = take s.length s.elements.items

  -- The element at an index, as it is read through the address that the call returns.
  unfoldable pub item_at : Set A → ℤ → Run (Option A)
  unfolding check
  item_at s (negsuc n) = do check s; trap out_of_range
  item_at s (pos i) = do
    check s
    trap_if (leb s.length i) out_of_range
    _ ← collection_bytes (pos i) s.stride
    ok (get_elem? s.elements.items i)

  -- `memcpy` of an element behind the others.
  abbrev pub put_last : Set A → A → Set A
  put_last s x = record s { elements = store s.elements s.length x; length = s.length + 1 }

  -- Storage for twice as many elements, with a copy of the elements.
  unfoldable pub enlarge : Arena → Set A → ℤ → ℕ → Run (Set A × Arena)
  enlarge a s stride alignment = do
    grown ← grown_capacity s.capacity
    bytes ← collection_bytes (pos grown) stride
    a' ← take_bytes a bytes alignment
    ok (record s { elements = record { null = false; items = live s }; capacity = grown }, a')

  unfoldable pub transient_open : Arena → ℕ → Set A → ℕ → Run (Set A × Arena)
  unfolding check_persistent
  transient_open a owner source alignment = do
    check_persistent source
    trap_if (not (source.length == 0)) invalid_argument
    (s, a') ← new a 4 source.stride alignment
    ok (record s { state = transient; edit_arena = some owner }, a')

  -- The persistent set, and the source as it is left.
  unfoldable pub persistent_close : Arena → ℕ → Set A → Run (Set A × Set A × Arena)
  unfolding check_transient
  persistent_close a owner source = do
    check_transient source owner
    a' ← take_bytes a set_size pointer_alignment
    ok (
      record source { state = persistent; edit_arena = none },
      record source { state = retired; edit_arena = none },
      a',
    )

module _ {ℓ} {A : Type ℓ} (e : Equality A) where
  unfoldable pub find : Set A → A → Run (Option ℕ)
  unfolding check scan
  find s x = do check s; e.validate x; scan e (live s) 0 x

  unfoldable pub contains : Set A → A → Run Bool
  unfolding find
  contains s x = do found ← find s x; ok (not (is_none found))

  -- The loop of `native_set_from_array`.
  unfoldable pub add_all : Set A → List A → Run (Set A)
  add_all s [] = ok s
  add_all s (x ∷ xs) = do found ← find s x; add_all (if is_none found then put_last s x else s) xs

  unfoldable pub from_array : Arena → List A → ℤ → ℕ → Run (Set A × Arena)
  from_array a values stride alignment = do
    e.check
    (s, a') ← new a (length values) stride alignment
    s' ← add_all s values
    ok (s', a')

  -- The elements of a set with one more, in a new set that has room for them.
  abbrev pub extended : Set A → Set A → A → Set A
  extended fresh s x =
      let copied = record fresh {
        elements = record fresh.elements { items = live s };
        length = s.length;
      } in
      put_last copied x

  unfoldable pub conj : Arena → Set A → A → ℤ → ℕ → Run (Set A × Arena)
  conj a s x stride alignment = do
    check_persistent_shape s stride
    found ← find s x
    elim found [
      | some i ↦ ok (s, a)
      | none ↦ do
        trap_if (s.length == int_max) overflow
        (fresh, a') ← new a (s.length + 1) stride alignment
        ok (extended fresh s x, a')
    ]

  unfoldable pub conj_transient : Arena → ℕ → Set A → A → ℤ → ℕ → Run (Set A × Arena)
  conj_transient a owner s x stride alignment = do
    check_shape s stride
    check_transient s owner
    found ← find s x
    elim found [
      | some i ↦ ok (s, a)
      | none ↦ do
        trap_if (s.length == int_max) overflow
        (roomy, a') ← if s.length == s.capacity then enlarge a s stride alignment else ok (s, a)
        ok (put_last roomy x, a')
    ]

  unfoldable pub disj : Arena → Set A → A → ℤ → ℕ → Run (Set A × Arena)
  disj a s x stride alignment = do
    check_persistent_shape s stride
    removed ← find s x
    elim removed [
      | none ↦ ok (s, a)
      | some i ↦ do
        (fresh, a') ← new a (s.length - 1) stride alignment
        ok (
          record fresh {
            elements = record fresh.elements { items = all_but i 0 (live s) };
            length = s.length - 1;
          },
          a',
        )
    ]
