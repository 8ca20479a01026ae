-- ===== src/Store/Labels/Labeller/Contents.antt =====
-- The values of a listing whose items all carry the immutable labels.
use golibs.Prelude.{
  Option, none, some, List, [], ◌∷◌, ◌≡◌, refl, arith, Key, bytes_key, Option-cases, Bool-cases,
  inl, inr, eqb_refl,
}
use golibs.Store.{ListItem}
use golibs.Store.Listing.{find, find-Above, Above, Ascending}
use golibs.Store.Labels.{LabelMap}
use golibs.Store.Labels.Labeller.{LabeledData}
use golibs.Store.Labels.Labeller.Selection.{Carries}

module _ {K V : Type 0} ⦃o : Key K⦄ where
  -- The value that a client of the labelled store sees.
  abbrev pub bare : Option (Option (LabeledData K V)) → Option V
  bare none = none
  bare (some none) = none
  bare (some (some x)) = some x.content

  abbrev pub with_content : K → Option (LabeledData K V) → List (ListItem K V) → List (ListItem K V)
  with_content k none rest = rest
  with_content k (some x) rest = record { key = k; value = x.content } ∷ rest

  unfoldable pub contents : List (ListItem K (Option (LabeledData K V))) → List (ListItem K V)
  contents [] = []
  contents (x ∷ xs) = with_content x.key x.value (contents xs)

  module _ (immutable : LabelMap) where
    -- No nil pointer, and all the immutable labels.
    abbrev pub Sound : Option (Option (LabeledData K V)) → Type 0
    Sound none = Unit
    Sound (some none) = ⊥
    Sound (some (some x)) = Carries immutable x.labels

    abbrev pub AllSound : List (ListItem K (Option (LabeledData K V))) → Type 0
    AllSound [] = Unit
    AllSound (x ∷ xs) = Sound (some x.value) × AllSound xs

    Sound-tail :
        (x : ListItem K (Option (LabeledData K V)))
        (xs : List (ListItem K (Option (LabeledData K V)))) (k : K)
        → Above x.key xs
        → Sound (find k (x ∷ xs))
        → Sound (find k xs)
    unfolding find
    Sound-tail x xs k a h = elim (Bool-cases (o.eqb x.key k)) [
      | inl t ↦
          let e : find k xs ≡ none = ground (arith, o.eqb_iff x.key k, find-Above x.key xs a) in
          rw e tt
      | inr f ↦ rw f at h
    ]

    pub all_sound :
        (xs : List (ListItem K (Option (LabeledData K V))))
        → Ascending xs
        → ((k : K) → Sound (find k xs))
        → AllSound xs
    unfolding find
    all_sound [] a h = tt
    all_sound (x ∷ xs) a h =
        ((rw (eqb_refl x.key) at (h x.key)), all_sound xs a.1 (λ k. Sound-tail x xs k a.0 (h k)))

    pub find-contents :
        (k : K) (xs : List (ListItem K (Option (LabeledData K V))))
        → AllSound xs
        → find k (contents xs) ≡ bare (find k xs)
    unfolding find contents
    find-contents k [] h = refl
    find-contents k (x ∷ xs) h = elim (Option-cases x.value) [
      | inl e ↦ let never : ⊥ = rw e at h.0 in absurd never
      | inr (w, e) ↦ rw e (ground (arith, find-contents k xs h.1))
    ]

    Above-contents :
        (k : K) (xs : List (ListItem K (Option (LabeledData K V))))
        → Above k xs
        → Above k (contents xs)
    unfolding contents
    Above-contents k [] a = tt
    Above-contents k (x ∷ xs) a = elim (Option-cases x.value) [
      | inl e ↦ rw e (Above-contents k xs a.1)
      | inr (w, e) ↦ rw e (a.0, Above-contents k xs a.1)
    ]

    pub Ascending-contents :
        (xs : List (ListItem K (Option (LabeledData K V)))) → Ascending xs → Ascending (contents xs)
    unfolding contents
    Ascending-contents [] a = tt
    Ascending-contents (x ∷ xs) a = elim (Option-cases x.value) [
      | inl e ↦ rw e (Ascending-contents xs a.1)
      | inr (w, e) ↦ rw e (Above-contents x.key xs a.0, Ascending-contents xs a.1)
    ]

    module _ {S : Type 0} (Inv : S → Type 0)
        (view : S → K → Option (Option (LabeledData K V))) where
      -- Nothing but values with the immutable labels is stored.
      abbrev pub Labelled : S → Type 0
      Labelled s = Inv s × ((k : K) → Sound (view s k))

  -- What a client of the labelled store sees.
  abbrev pub unlabelled :
      {S : Type 0} → (S → K → Option (Option (LabeledData K V))) → S → K → Option V
  unlabelled view s k = bare (view s k)
