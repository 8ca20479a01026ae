-- ===== src/Store/Labels/Labeller/Selection.antt =====
-- What a labelled store writes as labels, and the selector of a listing that asks for none.
use golibs.Prelude.{
  true, none, some, List, [], ◌∷◌, append-nil, ◌≡◌, refl, ap, ◌∙◌, arith, Bytes, bytes_key, is_some,
}
use golibs.GoMap.{lookup, IsMap}
use golibs.Exec.{Result, ok}
use golibs.Store.Options.{nil}
use golibs.Store.Labels.{
  LabelMap, Selectors, build_labels, enriched, generate_label_selector, match_labels,
}
use golibs.Store.Labels.Merged.{Merged, merged, clash, first_of, build_labels-Merged}
use golibs.Store.Labels.Labeller.{Config}

-- `n` has all the labels of `m`.
abbrev pub Carries : LabelMap → LabelMap → Type 0
Carries m n = (k v : Bytes) → lookup k m ≡ some v → lookup k n ≡ some v

-- What Kubernetes documents of its selectors: the empty string selects everything, and the
-- selector of a set selects what has all labels of the set.
pub record Documented {Sel Req : Type 0} (k8s : Selectors Sel Req) : Type 0 where
  pub everything : Sel
  pub set_requirements : LabelMap → List Req
  pub parse_empty : k8s.parse [] ≡ ok everything
  pub everything_requires : k8s.requirements everything ≡ some []
  pub everything_matches : (m : LabelMap) → k8s.matches everything m ≡ true
  pub set_requires : (m : LabelMap) → k8s.requirements (k8s.from_set m) ≡ some (set_requirements m)
  pub set_matches :
      (m n : LabelMap)
      → IsMap m
      → Carries m n
      → k8s.matches (k8s.of_requirements (set_requirements m)) n ≡ true

-- An enricher that gives `own` for a value, none of them under an immutable key.
pub record Enriches {V : Type 0} (cfg : Config V) (v : V) : Type 0 where
  pub own : LabelMap
  pub gives : enriched cfg.labels_enricher v ≡ ok own
  pub is_map : IsMap own
  pub apart : (k : Bytes) → is_some (lookup k cfg.immutable_labels) ≡ true → lookup k own ≡ none

module _ {V : Type 0} (cfg : Config V) where
  merged-Carries :
      (own : LabelMap) (r : Result LabelMap)
      → Merged cfg.immutable_labels [] own r
      → ((k : Bytes) → is_some (lookup k cfg.immutable_labels) ≡ true → lookup k own ≡ none)
      → (m : LabelMap) × (r ≡ ok m) × Carries cfg.immutable_labels m
  unfolding lookup
  merged-Carries own _ (merged m f g) h =
      (m, refl, λ k v e. f k ∙ ap (λ x. first_of x (lookup k own)) e)
  merged-Carries own _ (clash c) h =
      let e : lookup c.key own ≡ none = h c.key c.fixed in
      let never : ⊥ = ground (arith, c.other) in absurd never

  pub build_labels-nil :
      (v : V)
      → Enriches cfg v
      → IsMap cfg.immutable_labels
      → (m : LabelMap) × (build_labels v cfg.immutable_labels cfg.labels_enricher nil ≡ (ok m, nil))
        × Carries cfg.immutable_labels m
  unfolding build_labels match_labels
  build_labels-nil v n i =
      let c =
        merged-Carries n.own _
          (build_labels-Merged v cfg.immutable_labels n.own cfg.labels_enricher nil n.gives n.is_map
            tt i)
          n.apart in
      (c.0, ap (λ x. (x, nil)) c.1, c.2)

module _ {Sel Req : Type 0} (k8s : Selectors Sel Req) (d : Documented k8s) where
  abbrev Selects : LabelMap → Result Sel → Type 0
  Selects immutable r =
      (sel : Sel) × (r ≡ ok sel) × ((m : LabelMap) → Carries immutable m → k8s.matches sel m ≡ true)

  -- The selector of a listing that asks for none.
  pub generate_label_selector-empty :
      (immutable : LabelMap)
      → IsMap immutable
      → Selects immutable (generate_label_selector k8s immutable [])
  unfolding generate_label_selector
  generate_label_selector-empty [] i =
      rw d.parse_empty (d.everything, refl, λ m c. d.everything_matches m)
  generate_label_selector-empty (x ∷ xs) i =
      rw
        (
          d.parse_empty,
          d.everything_requires,
          d.set_requires (x ∷ xs),
          append-nil (d.set_requirements (x ∷ xs)),
        )
        (
          k8s.of_requirements (d.set_requirements (x ∷ xs)),
          refl,
          λ m c. d.set_matches (x ∷ xs) m i c,
        )
