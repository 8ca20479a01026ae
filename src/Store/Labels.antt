-- ===== src/Store/Labels.antt =====
-- pkg/store/backends/labels (util.go, labels.go): labels on the values of a store. A map of labels is
-- a Go map. The selectors are those of Kubernetes: what the code uses of them is a record of
-- operations.
pub mod Merged
pub mod Labeller
mod Examples
use golibs.Prelude.{
  ℕ, Bool, true, false, ◌||◌, ◌&&◌, Option, none, some, List, [], ◌∷◌, ◌++◌, Bytes, bytes_key,
  bytes_eqb, codes, Key, if◌then◌else◌, is_some, value_or, is_empty,
}
use golibs.GoMap.{GoMap, lookup, copy}
use golibs.Errors.{Error, invalid, wrap}
use golibs.Exec.{Result, ok, err, Exec, continue}
use golibs.Store.{Store, ListItem}
use golibs.Store.Options.{
  StoreOption, StoreOptions, map_option, string_option, match_map, match_string, append_option,
}

abbrev pub LabelMap : Type 0
LabelMap = GoMap Bytes Bytes

-- The loop of slices.MergeMap.
unfoldable pub copy_all : LabelMap → List LabelMap → LabelMap
unfolding copy
copy_all c [] = c
copy_all c (b ∷ bs) = copy_all (copy c b) bs

-- slices.MergeMap
unfoldable pub merge_map : LabelMap → List LabelMap → LabelMap
unfolding copy_all copy
merge_map a bs = copy_all (copy [] a) bs

unfoldable pub match_labels : StoreOptions → Option LabelMap × StoreOptions
unfolding match_map
match_labels = match_map (codes "labels")

unfoldable pub match_label_selector : StoreOptions → Option Bytes × StoreOptions
unfolding match_string
match_label_selector = match_string (codes "labelSelector")

abbrev pub with_labels : LabelMap → StoreOption
with_labels m = map_option (codes "labels") m

abbrev pub with_label_selector : Bytes → StoreOption
with_label_selector s = string_option (codes "labelSelector") s

abbrev pub err_immutable : Error
err_immutable = invalid 60

abbrev pub err_override : Error
err_override = invalid 61

abbrev pub err_not_selectable : Error
err_not_selectable = invalid 62

-- The loop of BuildLabels: a key of the immutable labels is among the others.
unfoldable pub overrides : LabelMap → LabelMap → LabelMap → Bool
unfolding lookup
overrides [] custom own = false
overrides ((k, v) ∷ m) custom own =
    is_some (lookup k custom) || (is_some (lookup k own) || overrides m custom own)

unfoldable pub checked_merge : LabelMap → LabelMap → LabelMap → Result LabelMap
unfolding overrides merge_map
checked_merge immutable custom own =
    if overrides immutable custom own
    then err err_immutable
    else ok (merge_map own (custom ∷ immutable ∷ []))

abbrev then_merge : LabelMap → LabelMap → Result LabelMap → Result LabelMap
then_merge immutable custom (ok own) = checked_merge immutable custom own
then_merge immutable custom (err e) = err e

-- A nil enricher is `none`.
abbrev pub enriched {ℓ} : {V : Type ℓ} → Option (V → Result LabelMap) → V → Result LabelMap
enriched none obj = ok []
enriched (some f) obj = f obj

-- BuildLabels
unfoldable pub build_labels {ℓ} :
    {V : Type ℓ}
    → V
    → LabelMap
    → Option (V → Result LabelMap)
    → StoreOptions
    → Result LabelMap × StoreOptions
unfolding match_labels checked_merge
build_labels obj immutable enricher opts =
    let m = match_labels opts in
    (then_merge immutable (value_or m.0 []) (enriched enricher obj), m.1)

-- The loop of EnrichWithLabelsOption, over the values of the custom labels.
unfoldable pub value_is_key : LabelMap → LabelMap → Bool
unfolding lookup
value_is_key immutable [] = false
value_is_key immutable ((k, v) ∷ m) = is_some (lookup v immutable) || value_is_key immutable m

-- EnrichWithLabelsOption
unfoldable pub enrich_with_labels_option : LabelMap → StoreOptions → Option Error × StoreOptions
unfolding match_labels value_is_key merge_map
enrich_with_labels_option immutable opts =
    let m = match_labels opts in
    let custom = value_or m.0 [] in
    if value_is_key immutable custom
    then (some err_immutable, m.1)
    else (none, append_option m.1 (with_labels (merge_map custom (immutable ∷ []))))

-- labels.Selector and labels.Requirement of Kubernetes.
pub record Selectors (Sel Req : Type 0) : Type 0 where
  pub parse : Bytes → Result Sel
  pub from_set : LabelMap → Sel
  pub requirements : Sel → Option (List Req)
  pub requirement_key : Req → Bytes
  pub of_requirements : List Req → Sel
  pub to_string : Sel → Bytes
  pub matches : Sel → LabelMap → Bool

module _ {Sel Req : Type 0} (k8s : Selectors Sel Req) where
  unfoldable pub has_key : Bytes → List Req → Bool
  has_key key [] = false
  has_key key (r ∷ rs) = bytes_eqb key (k8s.requirement_key r) || has_key key rs

  -- The two loops of GenerateLabelSelector.
  unfoldable pub shares_key : List Req → List Req → Bool
  unfolding has_key
  shares_key base [] = false
  shares_key base (a ∷ rs) = has_key (k8s.requirement_key a) base || shares_key base rs

  abbrev pub add_requirements : List Req → List Req → Result Sel
  unfolding shares_key
  add_requirements base additional =
      if shares_key base additional
      then err err_override
      else ok (k8s.of_requirements (base ++ additional))

  abbrev pub combine : Option (List Req) → Option (List Req) → Result Sel
  unfolding add_requirements
  combine none additional = err err_not_selectable
  combine (some base) none = err err_not_selectable
  combine (some base) (some additional) = add_requirements base additional

  abbrev pub on_parsed : LabelMap → Result Sel → Result Sel
  unfolding combine
  on_parsed immutable (err e) = err e
  on_parsed immutable (ok additional) =
      if is_empty immutable
      then ok additional
      else combine (k8s.requirements (k8s.from_set immutable)) (k8s.requirements additional)

  -- GenerateLabelSelector
  unfoldable pub generate_label_selector : LabelMap → Bytes → Result Sel
  unfolding on_parsed
  generate_label_selector immutable additional = on_parsed immutable (k8s.parse additional)

  abbrev pub on_selector : StoreOptions → Result Sel → Option Error × StoreOptions
  on_selector opts (err e) = (some e, opts)
  on_selector opts (ok s) = (none, append_option opts (with_label_selector (k8s.to_string s)))

  -- EnrichWithLabelSelectorOption
  unfoldable pub enrich_with_label_selector_option :
      LabelMap → StoreOptions → Option Error × StoreOptions
  unfolding match_label_selector generate_label_selector append_option
  enrich_with_label_selector_option immutable opts =
      let m = match_label_selector opts in
      on_selector m.1 (generate_label_selector immutable (value_or m.0 []))
