-- ===== src/Slices/Members.antt =====
-- The elements of filtered, flattened and unique slices, and what MatchAny finds.
use golibs.Prelude.{
  Bool, true, false, ◌&&◌, none, some, List, [], ◌∷◌, ◌≡◌, ◌⊎◌, inl, inr, refl, ◌∙◌, ap, Key, arith,
  Bool-cases, eqb_refl,
}
use golibs.Slices.{contains, filter, transform, unique, match_any, unique_cmp}
use golibs.Slices.Sets.{contains-same}
use golibs.Slices.Unique.{unique_cmp_lem}

module _ {ℓ} {E : Type ℓ} where
  transform_same : (s : List E) → transform s (λ e. e) ≡ s
  unfolding transform
  transform_same [] = refl
  transform_same (x ∷ s) = ap (λ t. x ∷ t) (transform_same s)

module _ {ℓ} {E : Type ℓ} ⦃o : Key E⦄ where
  pub contains-filter :
      (s : List E) (p : E → Bool) (v : E) → contains (filter s p) v ≡ (contains s v && p v)
  unfolding contains filter
  contains-filter [] p v = refl
  contains-filter (x ∷ s) p v = elim (Bool-cases (o.eqb x v)) [
    | inl q ↦ rw ((o.eqb_iff x v).0 q) (ground (arith, contains-filter s p v, eqb_refl v))
    | inr q ↦ ground (arith, contains-filter s p v)
  ]

  pub contains-unique : (s : List E) (v : E) → contains (unique s) v ≡ contains s v
  unfolding unique
  contains-unique s v =
      rw (← transform_same (unique_cmp s (λ e. e)))
        ((unique_cmp_lem s (λ e. e)).1 v ∙ rw (transform_same s) refl)

  -- What MatchAny finds is in both slices, and it finds nothing only where they share nothing.
  pub match_any-shared :
      (collection subset : List E)
      → ((v : E) × (match_any collection subset ≡ some v)
          × (contains collection v ≡ true)
          × (contains subset v ≡ true))
        ⊎ ((match_any collection subset ≡ none)
            × ((v : E) → contains subset v ≡ true → contains collection v ≡ false))
  unfolding match_any contains
  match_any-shared collection [] = inr (refl, λ v h. cc)
  match_any-shared collection (x ∷ s) = elim (Bool-cases (contains collection x)) [
    | inl q ↦ inl (x, rw q refl, q, rw (eqb_refl x) refl)
    | inr q ↦ elim (match_any-shared collection s) [
      | inl (v, e, h, k) ↦ inl (v, rw q e, h, ground arith)
      | inr (e, h) ↦ inr (
        rw q e,
        λ v k. elim (Bool-cases (o.eqb x v)) [
          | inl r ↦ contains-same collection x v r ∙ q
          | inr r ↦ h v (ground arith)
        ],
      )
    ]
  ]
