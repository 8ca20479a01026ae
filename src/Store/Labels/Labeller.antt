-- ===== src/Store/Labels/Labeller.antt =====
-- pkg/store/backends/labels/labels.go: a store of values over a store of values with labels. The
-- values of the store behind are pointers; a nil pointer is `none`, and reading through it, which
-- is a panic in Go, is an error of its own.
pub mod Selection
pub mod Contents
pub mod Refines
use golibs.Prelude.{Bool, Option, none, some, List, [], ◌∷◌, Bytes, if◌then◌else◌, value_or}
use golibs.Errors.{Error, invalid, wrap}
use golibs.Exec.{Result, ok, err, Exec, continue}
use golibs.Store.{Store, ListItem}
use golibs.Store.Options.{StoreOptions}
use golibs.Store.Labels.{
  LabelMap, Selectors, generate_label_selector, match_label_selector, build_labels,
}

pub record LabeledData (K V : Type 0) : Type 0 where
  pub name : K
  pub labels : LabelMap
  pub content : V

pub record Config (V : Type 0) : Type 0 where
  pub immutable_labels : LabelMap
  pub labels_enricher : Option (V → Result LabelMap)

abbrev pub err_nil_pointer : Error
err_nil_pointer = invalid 63

abbrev pub item_data : {K V : Type 0} → Option (LabeledData K V) → Result V
item_data none = err err_nil_pointer
item_data (some d) = ok d.content

-- `append` in front of what the rest of the loop returns.
abbrev pub on_rest : {A : Type 0} → A → Result (List A) → Result (List A)
on_rest x (ok xs) = ok (x ∷ xs)
on_rest x (err e) = err e

-- The items of a listing; List does not look at its error.
abbrev pub listed_items {ℓ} : {A : Type ℓ} → Result (List A) → List A
listed_items (ok items) = items
listed_items (err e) = []

module _ {K V Sel Req : Type 0} (k8s : Selectors Sel Req) where
  abbrev pub filter_item :
      Sel
      → K
      → Option (LabeledData K V)
      → Result (List (ListItem K V))
      → Result (List (ListItem K V))
  filter_item sel k none rest = err err_nil_pointer
  filter_item sel k (some d) rest =
      if k8s.matches sel d.labels
      then on_rest (record { key = k; value = d.content }) rest
      else rest

  -- The loop of List.
  unfoldable pub filter_items :
      Sel → List (ListItem K (Option (LabeledData K V))) → Result (List (ListItem K V))
  filter_items sel [] = ok []
  filter_items sel (x ∷ xs) = let rest = filter_items sel xs in filter_item sel x.key x.value rest

  module _ {S : Type 0} (cfg : Config V) (inner : Store S K (Option (LabeledData K V))) where
    abbrev pub list_selected : StoreOptions → Result Sel → Exec S (List (ListItem K V))
    unfolding filter_items
    list_selected opts (err e) s = (err (wrap e), s)
    list_selected opts (ok sel) s =
        let r = inner.list opts s in (filter_items sel (listed_items r.0), r.1)

    -- List
    unfoldable pub labeller_list : StoreOptions → Exec S (List (ListItem K V))
    unfolding match_label_selector generate_label_selector list_selected
    labeller_list opts s =
        let m = match_label_selector opts in
        list_selected m.1 (generate_label_selector k8s cfg.immutable_labels (value_or m.0 [])) s

module _ {S K V : Type 0} where
  -- Read
  unfoldable pub labeller_read : Store S K (Option (LabeledData K V)) → K → StoreOptions → Exec S V
  labeller_read inner key opts s =
      continue (inner.read key opts s) (λ enriched t. (item_data enriched, t))

  abbrev pub with_built :
      K
      → V
      → (K → Option (LabeledData K V) → StoreOptions → Exec S (Unit {0}))
      → Result LabelMap × StoreOptions
      → Exec S (Unit {0})
  with_built key value method (err e, opts) s = (err e, s)
  with_built key value method (ok lbls, opts) s =
      method key (some (record { name = key; labels = lbls; content = value })) opts s

  -- What Create, Update and Apply have in common.
  unfoldable pub labelling :
      Config V
      → (K → Option (LabeledData K V) → StoreOptions → Exec S (Unit {0}))
      → K
      → V
      → StoreOptions
      → Exec S (Unit {0})
  unfolding build_labels
  labelling cfg method key value opts s =
      with_built key value method (build_labels value cfg.immutable_labels cfg.labels_enricher opts)
        s

-- New
abbrev pub labeller :
    {S K V Sel Req : Type 0}
    → Selectors Sel Req
    → Config V
    → Store S K (Option (LabeledData K V))
    → Store S K V
labeller k8s cfg inner = record {
  create = labelling cfg inner.create;
  read = labeller_read inner;
  update = labelling cfg inner.update;
  apply = labelling cfg inner.apply;
  delete = inner.delete;
  list = labeller_list k8s cfg inner;
}
