-- ===== src/Slices/Sets.antt =====
-- The operations on slices as operations on sets.
use golibs.Prelude.{
  true, not, ◌&&◌, ◌||◌, List, [], ◌∷◌, ◌++◌, ◌≡◌, ◌↔◌, refl, ◌∙◌, sym, ap, ap₂, Key, arith,
  Bool-cases, inl, inr, eqb_refl,
}
use golibs.Slices.{
  contains, is_subset, overlap, difference, symmetric_difference, difference_cmp,
  symmetric_difference_cmp, not_among, remove, remove_func, filter, transform,
}

module _ {ℓ} {E : Type ℓ} ⦃o : Key E⦄ where
  pub contains-append :
      (a b : List E) (v : E) → contains (a ++ b) v ≡ (contains a v || contains b v)
  unfolding contains
  contains-append [] b v = refl
  contains-append (x ∷ a) b v = ground (arith, contains-append a b v)

  pub contains-same : (s : List E) (x v : E) → o.eqb x v ≡ true → contains s v ≡ contains s x
  contains-same s x v h = ap (contains s) (sym ((o.eqb_iff x v).0 h))

  -- An element is in the overlap exactly if it is in both slices.
  pub contains-overlap :
      (a b : List E) (v : E) → contains (overlap a b) v ≡ (contains a v && contains b v)
  unfolding contains overlap
  contains-overlap [] b v = refl
  contains-overlap (x ∷ a) b v = ground (arith, contains-overlap a b v, contains-same b x v)

  pub contains-difference :
      (a b : List E) (v : E) → contains (difference a b) v ≡ (contains a v && not (contains b v))
  unfolding contains difference
  contains-difference [] b v = refl
  contains-difference (x ∷ a) b v = ground (arith, contains-difference a b v, contains-same b x v)

  -- An element is in the symmetric difference exactly if it is in one slice and not in the other.
  pub contains-symmetric_difference :
      (a b : List E) (v : E)
      → contains (symmetric_difference a b) v
        ≡ ((contains a v && not (contains b v)) || (contains b v && not (contains a v)))
  unfolding symmetric_difference
  contains-symmetric_difference a b v =
      rw
        (
          contains-append (difference a b) (difference b a) v,
          contains-difference a b v,
          contains-difference b a v,
        )
        refl

  -- IsSubset says yes exactly if all elements of the first slice are in the second.
  pub is_subset_iff :
      (a b : List E)
      → (is_subset a b ≡ true) ↔ ((v : E) → contains a v ≡ true → contains b v ≡ true)
  unfolding is_subset contains
  is_subset_iff a b = (all_in a, in_all a)
    where
      all_in :
          (a : List E) → is_subset a b ≡ true → (v : E) → contains a v ≡ true → contains b v ≡ true
      all_in [] h v e = cc
      all_in (x ∷ a) h v e = elim (Bool-cases (o.eqb x v)) [
        | inl q ↦ contains-same b x v q ∙ ground arith
        | inr q ↦ all_in a (ground arith) v (ground arith)
      ]

      in_all :
          (a : List E)
          → ((v : E) → contains a v ≡ true → contains b v ≡ true)
          → is_subset a b ≡ true
      in_all [] h = refl
      in_all (x ∷ a) h =
          ground (arith, in_all a (λ v e. h v (ground arith)), h x (ground (arith, eqb_refl x)))

  -- The difference of two slices by the elements themselves is their difference, and so for the
  -- symmetric difference: DifferenceCmp and SymmetricDifferenceCmp compute what Difference and
  -- SymmetricDifference do.
  pub difference_cmp-id :
      (a b : List E)
      → (difference_cmp a b (λ e. e) ≡ difference a b)
        × (symmetric_difference_cmp a b (λ e. e) ≡ symmetric_difference a b)
  unfolding difference_cmp symmetric_difference_cmp symmetric_difference not_among difference
      transform
  difference_cmp-id a b = (by_id a b, ap₂ ◌++◌ (by_id a b) (by_id b a))
    where
      transform-id : (s : List E) → transform s (λ e. e) ≡ s
      transform-id [] = refl
      transform-id (x ∷ s) = ap (◌∷◌ x) (transform-id s)

      among : (a b : List E) → not_among b a (λ e. e) ≡ difference a b
      among [] b = refl
      among (x ∷ a) b = rw (among a b) refl

      by_id : (a b : List E) → difference_cmp a b (λ e. e) ≡ difference a b
      by_id a b = rw (transform-id b) (among a b)

  filter-gone :
      (s : List E) (x v : E)
      → contains (filter s (λ c. not (o.eqb c x))) v ≡ (contains s v && not (o.eqb x v))
  unfolding contains filter
  filter-gone [] x v = refl
  filter-gone (y ∷ s) x v =
      ground (arith, filter-gone s x v, o.eqb_iff y x, o.eqb_iff y v, o.eqb_iff x v)

  -- Remove takes away all occurrences of its element, and no other element.
  pub contains-remove :
      (s : List E) (x v : E) → contains (remove s x) v ≡ (contains s v && not (o.eqb x v))
  unfolding remove remove_func contains
  contains-remove [] x v = refl
  contains-remove (y ∷ s) x v = filter-gone (y ∷ s) x v
