-- ===== src/Slices/ThreadSafe.antt =====
-- pkg/slices/threadsafe.go: a slice behind a lock. A method holds the lock from its first to its
-- last line, so it is one step on the slice; the result of a method comes before the new slice.
-- Indices are the ones that are not negative: a negative one is refused as one behind the end is.
pub mod NoDoubles
use golibs.Prelude.{
  ℕ, zero, suc, Bool, true, false, Option, List, [], ◌∷◌, ◌++◌, Key, if◌then◌else◌, ltb, length,
  get_elem?,
}
use golibs.Slices.{contains, remove_index}

module _ {ℓ} {T : Type ℓ} where
  -- Add
  unfoldable pub add : T → List T → List T
  add value data_ = data_ ++ (value ∷ [])

  -- Get
  unfoldable pub get : ℕ → List T → Option T
  get index data_ = get_elem? data_ index

  -- Delete
  unfoldable pub delete : ℕ → List T → Bool × List T
  unfolding remove_index
  delete index data_ =
      if ltb index (length data_) then (true, remove_index data_ index) else (false, data_)

  -- data[index] = value
  unfoldable pub set_at : List T → ℕ → T → List T
  set_at [] index value = []
  set_at (x ∷ xs) zero value = value ∷ xs
  set_at (x ∷ xs) (suc index) value = x ∷ set_at xs index value

  -- Update
  unfoldable pub update : ℕ → T → List T → Bool × List T
  unfolding set_at
  update index value data_ =
      if ltb index (length data_) then (true, set_at data_ index value) else (false, data_)

  -- Clear
  abbrev pub clear : List T → List T
  clear data_ = []

module _ {ℓ} {T : Type ℓ} ⦃o : Key T⦄ where
  -- AddIfNotExists
  unfoldable pub add_if_not_exists : T → List T → Bool × List T
  unfolding contains
  add_if_not_exists value data_ =
      if contains data_ value then (false, data_) else (true, data_ ++ (value ∷ []))

  -- DeleteByValue: slices.DeleteFunc, whose test also sets `found`.
  unfoldable pub delete_by_value : T → List T → Bool × List T
  delete_by_value value [] = (false, [])
  delete_by_value value (v ∷ data_) =
      let r = delete_by_value value data_ in if o.eqb v value then (true, r.1) else (r.0, v ∷ r.1)

-- The methods that change the slice, except Add and Update, which may store an element twice.
pub data Call {ℓ} (T : Type ℓ) : Type ℓ where
  call_add_if_not_exists call_delete_by_value : T → Call T
  call_delete : ℕ → Call T
  call_clear : Call T

module _ {ℓ} {T : Type ℓ} ⦃o : Key T⦄ where
  -- A sequence of calls, in the order in which they get the lock.
  unfoldable pub run : List (Call T) → List T → List T
  unfolding add_if_not_exists delete_by_value delete
  run [] s = s
  run (call_add_if_not_exists v ∷ cs) s = run cs (add_if_not_exists v s).1
  run (call_delete_by_value v ∷ cs) s = run cs (delete_by_value v s).1
  run (call_delete i ∷ cs) s = run cs (delete i s).1
  run (call_clear ∷ cs) s = run cs (clear s)
