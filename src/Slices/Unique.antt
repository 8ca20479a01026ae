-- ===== src/Slices/Unique.antt =====
-- Unique keeps one entry of each, the first one.
use golibs.Prelude.{
  true, false, not, ◌&&◌, List, [], ◌∷◌, ◌≡◌, refl, ◌∙◌, Key, arith, Bool-cases, inl, inr, eqb_refl,
}
use golibs.Slices.{contains, unique_from, unique_cmp, transform}
use golibs.Slices.Sets.{contains-same}

module _ {ℓ} {T : Type ℓ} ⦃o : Key T⦄ where
  -- No element twice.
  abbrev pub Distinct : List T → Type ℓ
  Distinct [] = Unit
  Distinct (x ∷ s) = (contains s x ≡ false) × Distinct s

module _ {ℓ} {E T : Type ℓ} ⦃o : Key T⦄ where
  -- What is left of a slice without the entries that some `seen` serial has.
  contains-unique_from :
      (seen : List T) (s : List E) (f : E → T) (v : T)
      → contains (transform (unique_from seen s f) f) v
        ≡ (contains (transform s f) v && not (contains seen v))
  unfolding contains unique_from transform
  contains-unique_from seen [] f v = refl
  contains-unique_from seen (x ∷ s) f v = elim (Bool-cases (contains seen (f x))) [
    | inl q ↦ rw q (ground (arith, contains-unique_from seen s f v, contains-same seen (f x) v))
    | inr q ↦
        rw q (ground (arith, contains-unique_from (f x ∷ seen) s f v, contains-same seen (f x) v))
  ]

  Distinct-unique_from :
      (seen : List T) (s : List E) (f : E → T) → Distinct (transform (unique_from seen s f) f)
  unfolding unique_from transform contains
  Distinct-unique_from seen [] f = tt
  Distinct-unique_from seen (x ∷ s) f = elim (Bool-cases (contains seen (f x))) [
    | inl q ↦ rw q (Distinct-unique_from seen s f)
    | inr q ↦ rw q (
      ground (arith, contains-unique_from (f x ∷ seen) s f (f x), eqb_refl (f x)),
      Distinct-unique_from (f x ∷ seen) s f,
    )
  ]

  -- UniqueCmp keeps every serial that an entry of the slice has, and no serial twice.
  pub unique_cmp_lem :
      (s : List E) (serialize : E → T)
      → Distinct (transform (unique_cmp s serialize) serialize)
        × ((v : T)
            → contains (transform (unique_cmp s serialize) serialize) v
              ≡ contains (transform s serialize) v)
  unfolding unique_cmp contains
  unique_cmp_lem s f =
      (Distinct-unique_from [] s f, λ v. ground (arith, contains-unique_from [] s f v))

  -- Entries whose serials are distinct are kept as they are, in their order.
  unique_from-Distinct :
      (seen : List T) (s : List E) (f : E → T)
      → Distinct (transform s f)
      → ((v : T) → contains seen v ≡ true → contains (transform s f) v ≡ false)
      → unique_from seen s f ≡ s
  unfolding unique_from transform contains
  unique_from-Distinct seen [] f d h = refl
  unique_from-Distinct seen (x ∷ s) f d h = elim (Bool-cases (contains seen (f x))) [
    | inl q ↦ ground (arith, h (f x) q, eqb_refl (f x))
    | inr q ↦ rw (q, unique_from-Distinct (f x ∷ seen) s f d.1 (λ v e. later v e)) refl
  ]
    where
      later : (v : T) → contains (f x ∷ seen) v ≡ true → contains (transform s f) v ≡ false
      later v e = elim (Bool-cases (o.eqb (f x) v)) [
        | inl q ↦ contains-same (transform s f) (f x) v q ∙ d.0
        | inr q ↦ ground (arith, h v (ground arith))
      ]

  -- UniqueCmp applied to its own result changes nothing.
  pub unique_cmp-idempotent :
      (s : List E) (serialize : E → T)
      → unique_cmp (unique_cmp s serialize) serialize ≡ unique_cmp s serialize
  unfolding unique_cmp contains
  unique_cmp-idempotent s f =
      unique_from-Distinct [] (unique_cmp s f) f (Distinct-unique_from [] s f) (λ v e. cc)
