-- ===== src/Slices/Removal.antt =====
-- RemoveIndex by index, and Filter by element.
use golibs.Prelude.{
  ℕ, zero, suc, ◌-◌, ◌||◌, List, [], ◌∷◌, ◌≡◌, refl, arith, if◌then◌else◌, length, get_elem?, ltb,
  leb, Bool-cases, inl, inr,
}
use golibs.Slices.{remove_index}

module _ {ℓ} {E : Type ℓ} where
  -- RemoveIndex takes away the entry at an index of the slice: the entries before it keep their
  -- index, and those behind it move forward by one. Behind the end it changes nothing.
  pub get_elem?-remove_index :
      (s : List E) (i j : ℕ)
      → get_elem? (remove_index s i) j
        ≡ (if ltb j i || leb (length s) i then get_elem? s j else get_elem? s (suc j))
  unfolding remove_index
  get_elem?-remove_index [] i j = elim (Bool-cases (ltb j i || leb 0 i)) [
    | inl e ↦ rw e refl
    | inr e ↦ rw e refl
  ]
  get_elem?-remove_index (x ∷ s) zero zero = ground arith
  get_elem?-remove_index (x ∷ s) zero (suc j) = ground arith
  get_elem?-remove_index (x ∷ s) (suc i) zero = ground arith
  get_elem?-remove_index (x ∷ s) (suc i) (suc j) = ground (arith, get_elem?-remove_index s i j)

  pub length-remove_index :
      (s : List E) (i : ℕ)
      → length (remove_index s i) ≡ (if ltb i (length s) then length s - 1 else length s)
  unfolding remove_index
  length-remove_index [] i = ground arith
  length-remove_index (x ∷ s) zero = ground arith
  length-remove_index (x ∷ s) (suc i) = ground (arith, length-remove_index s i)
