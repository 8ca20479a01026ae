-- ===== src/Slices/ThreadSafe/NoDoubles.antt =====
-- Sets kept in a slice: AddIfNotExists never stores an element twice.
use golibs.Prelude.{
  ℕ, zero, suc, false, not, ◌&&◌, List, [], ◌∷◌, ◌++◌, ◌≡◌, refl, ◌∙◌, arith, Key, ltb, length,
  Bool-cases, inl, inr,
}
use golibs.Slices.{contains, remove_index}
use golibs.Slices.Sets.{contains-append}
use golibs.Slices.Unique.{Distinct}
use golibs.Slices.ThreadSafe.{
  Call, call_add_if_not_exists, call_delete_by_value, call_delete, call_clear, add_if_not_exists,
  delete_by_value, delete, run,
}

module _ {ℓ} {T : Type ℓ} ⦃o : Key T⦄ where
  Distinct-append :
      (s : List T) (v : T) → contains s v ≡ false → Distinct s → Distinct (s ++ (v ∷ []))
  unfolding contains
  Distinct-append [] v h d = (refl, tt)
  Distinct-append (x ∷ s) v h d = (
    contains-append s (v ∷ []) x ∙ ground (arith, d.0, o.eqb_iff x v, o.eqb_iff v x),
    Distinct-append s v (ground arith) d.1,
  )

  contains-remove_index :
      (s : List T) (i : ℕ) (v : T) → contains s v ≡ false → contains (remove_index s i) v ≡ false
  unfolding contains remove_index
  contains-remove_index [] i v h = refl
  contains-remove_index (x ∷ s) zero v h = ground arith
  contains-remove_index (x ∷ s) (suc i) v h = ground (arith, contains-remove_index s i v)

  Distinct-remove_index : (s : List T) (i : ℕ) → Distinct s → Distinct (remove_index s i)
  unfolding remove_index
  Distinct-remove_index [] i d = tt
  Distinct-remove_index (x ∷ s) zero d = d.1
  Distinct-remove_index (x ∷ s) (suc i) d =
      (contains-remove_index s i x d.0, Distinct-remove_index s i d.1)

  -- DeleteByValue says whether its value was there, and leaves all other values and none of it.
  pub delete_by_value_lem :
      (v : T) (s : List T)
      → ((delete_by_value v s).0 ≡ contains s v)
        × ((x : T) → contains (delete_by_value v s).1 x ≡ (contains s x && not (o.eqb v x)))
  unfolding delete_by_value contains
  delete_by_value_lem v [] = (refl, λ x. refl)
  delete_by_value_lem v (y ∷ s) =
      let h = delete_by_value_lem v s in
      elim (Bool-cases (o.eqb y v)) [
        | inl e ↦
            rw e (refl, λ x. h.1 x ∙ ground (arith, o.eqb_iff y v, o.eqb_iff y x, o.eqb_iff v x))
        | inr e ↦
            rw e (h.0, λ x. ground (arith, h.1 x, o.eqb_iff y v, o.eqb_iff y x, o.eqb_iff v x))
      ]

  Distinct-delete_by_value : (v : T) (s : List T) → Distinct s → Distinct (delete_by_value v s).1
  unfolding delete_by_value
  Distinct-delete_by_value v [] d = tt
  Distinct-delete_by_value v (y ∷ s) d = elim (Bool-cases (o.eqb y v)) [
    | inl e ↦ rw e (Distinct-delete_by_value v s d.1)
    | inr e ↦
        rw e ((delete_by_value_lem v s).1 y ∙ ground (arith, d.0), Distinct-delete_by_value v s d.1)
  ]

  Distinct-delete : (i : ℕ) (s : List T) → Distinct s → Distinct (delete i s).1
  unfolding delete
  Distinct-delete i s d = elim (Bool-cases (ltb i (length s))) [
    | inl e ↦ rw e (Distinct-remove_index s i d)
    | inr e ↦ rw e d
  ]

  Distinct-add : (v : T) (s : List T) → Distinct s → Distinct (add_if_not_exists v s).1
  unfolding add_if_not_exists
  Distinct-add v s d = elim (Bool-cases (contains s v)) [
    | inl e ↦ rw e d
    | inr e ↦ rw e (Distinct-append s v e d)
  ]

  -- A slice without doubles stays so in every sequence of calls of AddIfNotExists, Delete,
  -- DeleteByValue and Clear, in whatever order they get the lock.
  pub run-Distinct : (cs : List (Call T)) (s : List T) → Distinct s → Distinct (run cs s)
  unfolding run
  run-Distinct [] s d = d
  run-Distinct (call_add_if_not_exists v ∷ cs) s d = run-Distinct cs _ (Distinct-add v s d)
  run-Distinct (call_delete_by_value v ∷ cs) s d =
      run-Distinct cs _ (Distinct-delete_by_value v s d)
  run-Distinct (call_delete i ∷ cs) s d = run-Distinct cs _ (Distinct-delete i s d)
  run-Distinct (call_clear ∷ cs) s d = run-Distinct cs [] tt
