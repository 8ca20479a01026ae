-- ===== src/Store/Labels/Merged.antt =====
-- Which labels a value comes to carry.
use golibs.Prelude.{
  true, false, ◌||◌, Option, none, some, [], ◌∷◌, ◌≡◌, refl, ◌∙◌, ap, arith, Key, Bytes, bytes_key,
  bytes_eqb_iff, is_some, value_or, Bool-cases, inl, inr,
}
use golibs.GoMap.{GoMap, lookup, store, copy, IsMap}
use golibs.GoMap.Laws.{lookup-store}
use golibs.Exec.{Result, ok, err}
use golibs.Store.Options.{StoreOptions}
use golibs.Store.Labels.{
  LabelMap, copy_all, merge_map, overrides, checked_merge, build_labels, enriched, match_labels,
  err_immutable,
}

-- The first that is there.
abbrev pub first_of {ℓ} : {A : Type ℓ} → Option A → Option A → Option A
first_of none y = y
first_of (some x) y = some x

module _ {ℓ} {K V : Type ℓ} ⦃o : Key K⦄ where
  pub lookup-copy :
      (k : K) (m n : GoMap K V) → IsMap n → lookup k (copy m n) ≡ first_of (lookup k n) (lookup k m)
  unfolding lookup copy
  lookup-copy k m [] h = refl
  lookup-copy k m ((j, v) ∷ n) h =
      lookup-copy k (store j v m) n h.1 ∙ ground (arith, o.eqb_iff j k, lookup-store j k v m, h.0)

pub lookup-merge_map :
    (k : Bytes) (own custom immutable : LabelMap)
    → IsMap own
    → IsMap custom
    → IsMap immutable
    → lookup k (merge_map own (custom ∷ immutable ∷ []))
      ≡ first_of (lookup k immutable) (first_of (lookup k custom) (lookup k own))
unfolding merge_map copy_all lookup
lookup-merge_map k own custom immutable h i j =
    lookup-copy k (copy (copy [] own) custom) immutable j
    ∙ ap (first_of (lookup k immutable)) (
        lookup-copy k (copy [] own) custom i
        ∙ ap (first_of (lookup k custom)) (lookup-copy k [] own h ∙ ground arith))

-- A key of the immutable labels that is among the others too.
pub record Clash (immutable custom own : LabelMap) : Type 0 where
  pub key : Bytes
  pub fixed : is_some (lookup key immutable) ≡ true
  pub other : (is_some (lookup key custom) || is_some (lookup key own)) ≡ true

lookup-head :
    (j k : Bytes) (v : Bytes) (m : LabelMap)
    → is_some (lookup k m) ≡ true
    → is_some (lookup k ((j, v) ∷ m)) ≡ true
unfolding lookup
lookup-head j k v m h = ground (arith, bytes_eqb_iff j k)

later :
    {custom own : LabelMap} (j v : Bytes) (m : LabelMap)
    → Clash m custom own
    → Clash ((j, v) ∷ m) custom own
later j v m c = record { key = c.key; fixed = lookup-head j c.key v m c.fixed; other = c.other }

overrides-Clash :
    (immutable custom own : LabelMap)
    → overrides immutable custom own ≡ true
    → Clash immutable custom own
unfolding overrides lookup
overrides-Clash [] custom own h = let never : ⊥ = cc h in absurd never
overrides-Clash ((k, v) ∷ m) custom own h = elim (Bool-cases (overrides m custom own)) [
  | inl t ↦ later k v m (overrides-Clash m custom own t)
  | inr f ↦ record { key = k; fixed = ground (arith, bytes_eqb_iff k k); other = ground (arith) }
]

overrides-none :
    (immutable custom own : LabelMap) (k : Bytes)
    → overrides immutable custom own ≡ false
    → is_some (lookup k immutable) ≡ true
    → (lookup k custom ≡ none) × (lookup k own ≡ none)
unfolding overrides lookup
overrides-none [] custom own k h i = let never : ⊥ = cc i in absurd never
overrides-none ((j, v) ∷ m) custom own k h i =
    ground (arith, bytes_eqb_iff j k, overrides-none m custom own k)

-- Either each label is the immutable one of its key, or the custom one, or the own one, in this
-- order, and no immutable label stands in for another; or the labels are refused for a clash.
pub data Merged (immutable custom own : LabelMap) : Result LabelMap → Type 0 where
  merged :
      (m : LabelMap)
      → ((k : Bytes)
          → lookup k m ≡ first_of (lookup k immutable) (first_of (lookup k custom) (lookup k own)))
      → ((k : Bytes)
          → is_some (lookup k immutable) ≡ true
          → (lookup k custom ≡ none) × (lookup k own ≡ none))
      → Merged immutable custom own (ok m)
  clash : Clash immutable custom own → Merged immutable custom own (err err_immutable)

checked-Merged :
    (immutable custom own : LabelMap)
    → IsMap own
    → IsMap custom
    → IsMap immutable
    → Merged immutable custom own (checked_merge immutable custom own)
unfolding checked_merge
checked-Merged immutable custom own h i j = elim (Bool-cases (overrides immutable custom own)) [
  | inl t ↦ rw t (clash (overrides-Clash immutable custom own t))
  | inr f ↦ rw f (
      merged (merge_map own (custom ∷ immutable ∷ []))
        (λ k. lookup-merge_map k own custom immutable h i j)
        (λ k p. overrides-none immutable custom own k f p))
]

-- Where the enricher gives `own`: BuildLabels returns in each key the immutable label, or else the
-- custom one of the options, or else the enricher's, and no immutable label then takes the place of
-- another label; or it fails, and some key of the immutable labels is among the custom ones or the
-- enricher's.
pub build_labels-Merged {ℓ} :
    {V : Type ℓ} (obj : V) (immutable own : LabelMap) (enricher : Option (V → Result LabelMap))
    (opts : StoreOptions)
    → enriched enricher obj ≡ ok own
    → IsMap own
    → IsMap (value_or (match_labels opts).0 [])
    → IsMap immutable
    → Merged immutable
        (value_or (match_labels opts).0 [])
        own
        (build_labels obj immutable enricher opts).0
unfolding build_labels
build_labels-Merged obj immutable own enricher opts e h i j =
    rw e (checked-Merged immutable (value_or (match_labels opts).0 []) own h i j)
