-- ===== src/Collection.antt =====
-- native-core/shim/native_shim.c, what maps and sets share: how keys are compared and hashed, byte
-- counts, growth, the states of a collection, and its storage. The equality that a call is given is
-- a record of operations; Collection/Keys.antt has the one of the code.
pub mod Lawful
pub mod Scan
pub mod Keys
pub mod Samples
mod Examples
use beagle.Base.{
  ℕ, zero, suc, ◌+◌, ◌*◌, ◌/◌, Bool, true, false, ◌||◌, Option, none, some, List, [], ◌∷◌, ltb,
  ◌==◌, if◌then◌else◌, Run, ok, trap, trap_if, ◌>>=◌, ◌>>◌, invalid_argument, overflow, length,
}
use beagle.Base.Int.{ℤ, pos, negsuc, int_max}
use beagle.Arena.{Arena, alloc, word_max}

-- `native_collection_equality_kind`
pub data Kind : Type 0 where
  of_bool of_i64 of_f64 of_text of_keyword of_structural of_dynamic_structural : Kind

abbrev pub kind_code : Kind → ℕ
kind_code of_bool = 1
kind_code of_i64 = 2
kind_code of_f64 = 3
kind_code of_text = 4
kind_code of_keyword = 5
kind_code of_structural = 6
kind_code of_dynamic_structural = 7

-- What a `native_collection_equality` does: `native_collection_check_equality`,
-- `native_collection_validate_candidate`, `native_collection_equal` and `native_map_hash_key`,
-- which gives no hash for a key that cannot be hashed.
pub record Equality {ℓ} (K : Type ℓ) : Type ℓ where
  pub kind : Kind
  pub check : Run (Unit {0})
  pub validate : K → Run (Unit {0})
  pub equal : K → K → Run Bool
  pub hash : K → Run (Option ℕ)

-- `native_collection_state`
pub data State : Type 0 where
  persistent transient retired : State

abbrev pub is_persistent : State → Bool
is_persistent persistent = true
is_persistent _ = false

abbrev pub is_transient : State → Bool
is_transient transient = true
is_transient _ = false

-- Element storage: whether its pointer is NULL, and the elements written so far. Each write goes
-- to an element or right behind the last one.
pub record Storage {ℓ} (A : Type ℓ) : Type ℓ where
  pub null : Bool
  pub items : List A

abbrev pub is_none {ℓ} : {A : Type ℓ} → Option A → Bool
is_none none = true
is_none (some x) = false

unfoldable pub collection_bytes : ℤ → ℤ → Run ℕ
collection_bytes (negsuc n) stride = trap invalid_argument
collection_bytes (pos count) (negsuc n) = trap invalid_argument
collection_bytes (pos count) (pos stride) = do
  trap_if (stride == 0) invalid_argument
  trap_if (ltb (word_max / stride) count) overflow
  ok (count * stride)

unfoldable pub grown_capacity : ℕ → Run ℕ
grown_capacity capacity = do
  trap_if (ltb (int_max / 2) capacity) overflow
  ok (if capacity == 0 then 4 else capacity * 2)

-- `native_arena_alloc` for its effect on the arena.
unfoldable pub take_bytes : Arena → ℕ → ℕ → Run Arena
take_bytes a size alignment = do (_, a') ← alloc a size alignment; ok a'

module _ {ℓ} {A : Type ℓ} where
  unfoldable pub write : List A → ℕ → A → List A
  write [] zero x = x ∷ []
  write [] (suc i) x = []
  write (y ∷ ys) zero x = x ∷ ys
  write (y ∷ ys) (suc i) x = y ∷ write ys i x

  abbrev pub store : Storage A → ℕ → A → Storage A
  store s i x = record s { items = write s.items i x }

  -- Storage for so many bytes, or NULL for none.
  unfoldable pub new_storage : Arena → ℕ → ℕ → Run (Storage A × Arena)
  new_storage a bytes alignment =
      let taken = take_bytes a bytes alignment in
      if bytes == 0
      then ok (record { null = true; items = [] }, a)
      else (taken >>= λ a'. ok (record { null = false; items = [] }, a'))

-- The loop that compares each element with a key, from number `index` on: the number of the first
-- equal one. `none` is -1.
module _ {ℓ} {K : Type ℓ} (e : Equality K) where
  unfoldable pub scan : List K → ℕ → K → Run (Option ℕ)
  scan [] index key = ok none
  scan (k ∷ ks) index key =
      let rest = scan ks (index + 1) key in
      e.equal k key >>= λ same. if same then ok (some index) else rest
