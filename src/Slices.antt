-- ===== src/Slices.antt =====
-- pkg/slices/slices.go. The types whose values the code compares are instances of Key; where the
-- code needs no order, the order is not used. A slice that a function writes through a pointer is
-- an argument, and the slice it is afterwards the result; nil and empty slices are not told apart.
pub mod Sets
pub mod Unique
pub mod Removal
pub mod Counting
pub mod Members
pub mod ThreadSafe
mod Examples
use golibs.Prelude.{
  ℕ, zero, suc, ◌+◌, Bool, true, false, not, ◌&&◌, Option, none, some, List, [], ◌∷◌, ◌++◌, Key,
  if◌then◌else◌, map,
}
use golibs.GoMap.{GoMap, lookup}
use golibs.GoMap

module _ {ℓ} {E : Type ℓ} where
  -- Filter
  unfoldable pub filter : List E → (E → Bool) → List E
  filter [] keep = []
  filter (item ∷ s) keep = let rest = filter s keep in if keep item then item ∷ rest else rest

  -- RemoveFunc
  unfoldable pub remove_func : List E → (E → Bool) → List E
  unfolding filter
  remove_func [] f = []
  remove_func (x ∷ s) f = filter (x ∷ s) (λ item. not (f item))

  -- RemoveIndex, for an index that is not negative; a negative one leaves the slice as it is.
  unfoldable pub remove_index : List E → ℕ → List E
  remove_index [] index = []
  remove_index (x ∷ s) zero = s
  remove_index (x ∷ s) (suc index) = x ∷ remove_index s index

  -- Transform
  unfoldable pub transform : {B : Type ℓ} → List E → (E → B) → List B
  transform [] trans = []
  transform (item ∷ s) trans = trans item ∷ transform s trans

  -- FlatMap
  unfoldable pub flat_map : {B : Type ℓ} → List E → (E → List B) → List B
  flat_map [] f = []
  flat_map (v ∷ s) f = f v ++ flat_map s f

module _ {ℓ} {E : Type ℓ} ⦃o : Key E⦄ where
  -- Contains
  unfoldable pub contains : List E → E → Bool
  contains [] v = false
  contains (x ∷ s) v = if o.eqb x v then true else contains s v

  -- MatchAny
  unfoldable pub match_any : List E → List E → Option E
  unfolding contains
  match_any collection [] = none
  match_any collection (v ∷ subset) =
      let rest = match_any collection subset in if contains collection v then some v else rest

  -- IsSubset
  unfoldable pub is_subset : List E → List E → Bool
  unfolding contains
  is_subset [] b = true
  is_subset (item ∷ a) b = let rest = is_subset a b in if not (contains b item) then false else rest

  -- Overlap
  unfoldable pub overlap : List E → List E → List E
  unfolding contains
  overlap [] b = []
  overlap (item ∷ a) b = let rest = overlap a b in if contains b item then item ∷ rest else rest

  -- Difference
  unfoldable pub difference : List E → List E → List E
  unfolding contains
  difference [] b = []
  difference (item ∷ a) b =
      let rest = difference a b in if not (contains b item) then item ∷ rest else rest

  -- SymmetricDifference
  unfoldable pub symmetric_difference : List E → List E → List E
  unfolding difference
  symmetric_difference a b = difference a b ++ difference b a

  -- Remove
  unfoldable pub remove : List E → E → List E
  unfolding remove_func
  remove s item = remove_func s (λ current. o.eqb current item)

-- The new count of an item, from its count so far.
abbrev pub next_count : Option ℕ → ℕ
next_count (some count) = count + 1
next_count none = 1

module _ {E : Type 0} ⦃o : Key E⦄ where
  -- Count, behind the items that are counted already.
  unfoldable pub count_from : GoMap E ℕ → List E → GoMap E ℕ
  count_from counts [] = counts
  count_from counts (item ∷ s) =
      count_from (GoMap.store item (next_count (lookup item counts)) counts) s

  -- Count
  unfoldable pub count : List E → GoMap E ℕ
  unfolding count_from
  count s = count_from [] s

module _ {ℓ} {E T : Type ℓ} ⦃o : Key T⦄ where
  -- The loop of UniqueCmp; of the map `exists` only the keys are read, and they are `seen`.
  unfoldable pub unique_from : List T → List E → (E → T) → List E
  unfolding contains
  unique_from seen [] serialize = []
  unique_from seen (item ∷ s) serialize =
      let known = unique_from seen s serialize in
      let rest = unique_from (serialize item ∷ seen) s serialize in
      if contains seen (serialize item) then known else item ∷ rest

  -- UniqueCmp
  unfoldable pub unique_cmp : List E → (E → T) → List E
  unfolding unique_from
  unique_cmp s serialize = unique_from [] s serialize

  -- The second loop of DifferenceCmp; of the map `lookup` only the keys are read.
  unfoldable pub not_among : List T → List E → (E → T) → List E
  unfolding contains
  not_among found [] comp = []
  not_among found (v ∷ a) comp =
      let rest = not_among found a comp in if not (contains found (comp v)) then v ∷ rest else rest

  -- DifferenceCmp
  unfoldable pub difference_cmp : List E → List E → (E → T) → List E
  unfolding not_among transform
  difference_cmp a b comp = not_among (transform b comp) a comp

  -- SymmetricDifferenceCmp
  unfoldable pub symmetric_difference_cmp : List E → List E → (E → T) → List E
  unfolding difference_cmp
  symmetric_difference_cmp a b comp = difference_cmp a b comp ++ difference_cmp b a comp

  -- Map, behind the items that are stored already.
  unfoldable pub map_from : GoMap T E → List E → (E → T) → GoMap T E
  map_from mapped [] key = mapped
  map_from mapped (item ∷ s) key = map_from (GoMap.store (key item) item mapped) s key

  -- Map
  unfoldable pub to_map : List E → (E → T) → GoMap T E
  unfolding map_from
  to_map s key = map_from [] s key

module _ {ℓ} {E : Type ℓ} ⦃o : Key E⦄ where
  -- Unique
  unfoldable pub unique : List E → List E
  unfolding unique_cmp
  unique s = unique_cmp s (λ e. e)

  -- slices.Concat of the standard library, and Concat.
  unfoldable pub concat : List (List E) → List E
  unfolding unique flat_map
  concat s = unique (flat_map s (λ x. x))
