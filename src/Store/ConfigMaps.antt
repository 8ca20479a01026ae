-- ===== src/Store/ConfigMaps.antt =====
-- pkg/store/backends/configmap/configmap.go: a store with a Kubernetes ConfigMap for each key. The
-- client and the lister of Kubernetes, its selectors, and json.Marshal and Unmarshal are records of
-- operations. Update takes its options out of the array that it shares with Apply; the model of that
-- array is for options that are no slices themselves.
pub mod Shared
mod Examples
use golibs.Prelude.{
  Bool, true, false, not, ◌&&◌, ◌||◌, Option, none, some, List, [], ◌∷◌, Bytes, bytes_key, codes,
  has_prefix, is_empty, value_or, if◌then◌else◌,
}
use golibs.Errors.{Error, wrap, err_not_found, is_not_found}
use golibs.Exec.{Result, ok, err, Exec, continue, from_error, refuse}
use golibs.Store.{Store, ListItem}
use golibs.Store.Options.{
  StoreOptions, nil, cons, match_dry_run, match_prefix, match_list_key_only,
  check_options_exhausted, err_unsupported_option, is_nil,
}
use golibs.Store.Labels.{
  LabelMap, Selectors, match_labels, match_label_selector, build_labels, generate_label_selector,
}

-- A ConfigMap, with the payload of its data.
pub record ConfigMap : Type 0 where
  pub name : Bytes
  pub labels : LabelMap
  pub payload : Bytes

-- The operations of the client, with their dry-run option, those of the lister, and
-- apierrors.IsNotFound.
pub record Api (S Sel : Type 0) : Type 0 where
  pub create_map : ConfigMap → Bool → S → Option Error × S
  pub update_map : ConfigMap → Bool → S → Option Error × S
  pub delete_map : Bytes → Bool → S → Option Error × S
  pub get_map : Bytes → S → Result ConfigMap
  pub list_maps : Sel → S → Result (List ConfigMap)
  pub api_not_found : Error → Bool

pub record Config (V : Type 0) : Type 0 where
  pub immutable_labels : LabelMap
  pub labels_enricher : Option (V → Result LabelMap)
  pub marshal : V → Result Bytes
  pub unmarshal : Bytes → Result V

-- A slice whose array holds a shorter one from its start on.
unfoldable pub overlay : StoreOptions → StoreOptions → StoreOptions
overlay nil old = old
overlay (cons x xs) nil = nil
overlay (cons x xs) (cons y ys) = cons x (overlay xs ys)

-- ErrNotFound in place of the API's error.
abbrev pub renamed : {S : Type 0} → (Error → Bool) → Option Error × S → Result (Unit {0}) × S
renamed missing (none, s) = (ok tt, s)
renamed missing (some e, s) = (if missing e then err err_not_found else err e, s)

abbrev pub returned : {S : Type 0} → Option Error × S → Result (Unit {0}) × S
returned (e, s) = (from_error e, s)

-- The object of a key, from what json.Marshal and BuildLabels return.
abbrev pub object : Bytes → Result Bytes → Result LabelMap → Result ConfigMap
object key (err e) labels = err e
object key (ok raw) (err e) = err e
object key (ok raw) (ok labels) = ok (record { name = key; labels = labels; payload = raw })

-- The dry-run option, the check of the options, and the call of the client.
abbrev pub written :
    {S : Type 0}
    → (ConfigMap → Bool → S → Result (Unit {0}) × S)
    → Result ConfigMap
    → StoreOptions
    → S
    → Result (Unit {0}) × S
written write (err e) opts s = (err e, s)
written write (ok c) opts s =
    let d = match_dry_run opts in
    if is_nil d.1 then write c (value_or d.0 false) s else (err err_unsupported_option, s)

abbrev pub taken : StoreOptions → StoreOptions → Result Bytes → Result LabelMap → StoreOptions
taken opts rest (err e) labels = opts
taken opts rest (ok raw) (err e) = overlay rest opts
taken opts rest (ok raw) (ok labels) = overlay (match_dry_run rest).1 (overlay rest opts)

module _ {S Sel Req V : Type 0} (api : Api S Sel) (k8s : Selectors Sel Req) (cfg : Config V) where
  abbrev pub built : V → StoreOptions → Result LabelMap × StoreOptions
  built value opts = build_labels value cfg.immutable_labels cfg.labels_enricher opts

  -- Create
  unfoldable pub config_map_create : Bytes → V → StoreOptions → Exec S (Unit {0})
  config_map_create key value opts s =
      let b = built value opts in
      written (λ c dry_run t. returned (api.create_map c dry_run t))
        (object key (cfg.marshal value) b.0) b.1 s

  -- Update
  unfoldable pub config_map_update : Bytes → V → StoreOptions → Exec S (Unit {0})
  config_map_update key value opts s =
      let b = built value opts in
      written (λ c dry_run t. renamed api.api_not_found (api.update_map c dry_run t))
        (object key (cfg.marshal value) b.0) b.1 s

  -- What the caller of Update finds in its own slice of options afterwards, none of them a slice.
  unfoldable pub left_by_update : V → StoreOptions → StoreOptions
  unfolding overlay
  left_by_update value opts = let b = built value opts in taken opts b.1 (cfg.marshal value) b.0

  abbrev pub created_if : Bytes → V → StoreOptions → Result (Unit {0}) × S → Result (Unit {0}) × S
  created_if key value opts (ok u, s) = (ok u, s)
  created_if key value opts (err e, s) =
      if is_not_found api.api_not_found e then config_map_create key value opts s else (err e, s)

  -- Apply
  unfoldable pub config_map_apply : Bytes → V → StoreOptions → Exec S (Unit {0})
  unfolding left_by_update
  config_map_apply key value opts s =
      created_if key value (left_by_update value opts) (config_map_update key value opts s)

  -- Delete
  unfoldable pub config_map_delete : Bytes → StoreOptions → Exec S (Unit {0})
  config_map_delete key opts s =
      let d = match_dry_run opts in
      if is_nil d.1
      then renamed api.api_not_found (api.delete_map key (value_or d.0 false) s)
      else (err err_unsupported_option, s)

  abbrev pub wrapped : Result V → Result V
  wrapped (ok v) = ok v
  wrapped (err e) = err (wrap e)

  abbrev pub unmarshaled : Result ConfigMap → Result V
  unmarshaled (err e) = if api.api_not_found e then err err_not_found else err e
  unmarshaled (ok c) = wrapped (cfg.unmarshal c.payload)

  -- Read
  unfoldable pub config_map_read : Bytes → StoreOptions → Exec S V
  config_map_read key opts s =
      if is_nil opts then (unmarshaled (api.get_map key s), s) else (err err_unsupported_option, s)

  module _ (zero : V) where
    abbrev pub item_value : Bool → ConfigMap → Result V
    item_value true c = ok zero
    item_value false c = wrapped (cfg.unmarshal c.payload)

    abbrev pub with_item :
        Bytes → Result V → Result (List (ListItem Bytes V)) → Result (List (ListItem Bytes V))
    with_item name (err e) rest = err e
    with_item name (ok v) (err e) = err e
    with_item name (ok v) (ok items) = ok (record { key = name; value = v } ∷ items)

    -- The loop of List.
    unfoldable pub listed : Bytes → Bool → List ConfigMap → Result (List (ListItem Bytes V))
    listed prefix keys_only [] = ok []
    listed prefix keys_only (c ∷ maps) =
        let rest = listed prefix keys_only maps in
        if is_empty prefix || has_prefix c.name prefix
        then with_item c.name (item_value keys_only c) rest
        else rest

    abbrev pub listed_from :
        Bytes → Bool → Result (List ConfigMap) → Result (List (ListItem Bytes V))
    listed_from prefix keys_only (err e) = err e
    listed_from prefix keys_only (ok maps) = listed prefix keys_only maps

    abbrev pub list_selected : Bytes → Bool → Result Sel → Exec S (List (ListItem Bytes V))
    list_selected prefix keys_only (err e) s = (err (wrap e), s)
    list_selected prefix keys_only (ok sel) s =
        (listed_from prefix keys_only (api.list_maps sel s), s)

    -- List
    unfoldable pub config_map_list : StoreOptions → Exec S (List (ListItem Bytes V))
    unfolding listed
    config_map_list opts =
        let l = match_label_selector opts in
        let p = match_prefix l.1 in
        let q = match_list_key_only p.1 in
        refuse (check_options_exhausted q.1) (
          list_selected (value_or p.0 []) (value_or q.0 false)
            (generate_label_selector k8s cfg.immutable_labels (value_or l.0 [])))

    abbrev pub config_map_store : Store S Bytes V
    config_map_store = record {
      create = config_map_create;
      read = config_map_read;
      update = config_map_update;
      apply = config_map_apply;
      delete = config_map_delete;
      list = config_map_list;
    }
