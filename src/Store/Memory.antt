-- ===== src/Store/Memory.antt =====
-- pkg/store/backends/memory/memory.go: a store over a Go map.
pub mod Refines
pub mod DryRun
pub mod ByPrefix
use golibs.Prelude.{
  ℕ, Bool, true, false, ◌&&◌, not, Option, none, some, List, [], ◌∷◌, Key, Bytes, has_prefix,
  if◌then◌else◌, is_some, value_or, is_empty, ◌||◌,
}
use golibs.Errors.{Error, wrap, sentinel, not_exist, err_conflict, err_not_found, is_error}
use golibs.GoMap.{GoMap, lookup, remove}
use golibs.GoMap
use golibs.Exec.{Result, ok, err, Exec, refuse}
use golibs.Store.{Store, ListItem}
use golibs.Store.Listing.{sort_items}
use golibs.Store.Options.{
  StoreOptions, nil, match_dry_run, match_prefix, match_list_key_only, check_options_exhausted,
  err_unsupported_option, is_nil,
}

-- What a dry run of Create makes of the outcome of a read.
abbrev create_dry_run {ℓ} : {V : Type ℓ} → Result V → Result (Unit {0})
create_dry_run (ok v) = err err_conflict
create_dry_run (err e) =
    if is_error e err_not_found || is_error e (sentinel not_exist) then ok tt else err e

abbrev error_of {ℓ} : {V : Type ℓ} → Result V → Result (Unit {0})
error_of (ok v) = ok tt
error_of (err e) = err e

abbrev found {ℓ} : {V : Type ℓ} → Option V → Result V
found none = err err_not_found
found (some v) = ok v

module _ {ℓ} {K V : Type ℓ} ⦃o : Key K⦄ where
  -- Read
  unfoldable pub memory_read : K → StoreOptions → Exec (GoMap K V) V
  memory_read key opts = refuse (check_options_exhausted opts) (λ m. (found (lookup key m), m))

  create_entry : K → V → Exec (GoMap K V) (Unit {0})
  create_entry key value m =
      if is_some (lookup key m) then (err err_conflict, m) else (ok tt, GoMap.store key value m)

  -- Create
  unfoldable pub memory_create : K → V → StoreOptions → Exec (GoMap K V) (Unit {0})
  unfolding memory_read create_entry
  memory_create key value opts m =
      let d = match_dry_run opts in
      if value_or d.0 false
      then (create_dry_run (memory_read key nil m).0, m)
      else refuse (check_options_exhausted d.1) (create_entry key value) m

  update_entry : K → V → Exec (GoMap K V) (Unit {0})
  update_entry key value m =
      if is_some (lookup key m) then (ok tt, GoMap.store key value m) else (err err_not_found, m)

  -- Update
  unfoldable pub memory_update : K → V → StoreOptions → Exec (GoMap K V) (Unit {0})
  unfolding memory_read update_entry
  memory_update key value opts m =
      let d = match_dry_run opts in
      if value_or d.0 false
      then (error_of (memory_read key nil m).0, m)
      else (if is_nil d.1 then update_entry key value m else (err err_unsupported_option, m))

  -- Apply
  unfoldable pub memory_apply : K → V → StoreOptions → Exec (GoMap K V) (Unit {0})
  memory_apply key value opts m =
      let d = match_dry_run opts in
      if value_or d.0 false
      then (ok tt, m)
      else refuse (check_options_exhausted d.1) (λ n. (ok tt, GoMap.store key value n)) m

  delete_entry : K → Exec (GoMap K V) (Unit {0})
  delete_entry key m =
      if is_some (lookup key m) then (ok tt, remove key m) else (err err_not_found, m)

  -- Delete
  unfoldable pub memory_delete : K → StoreOptions → Exec (GoMap K V) (Unit {0})
  unfolding memory_read delete_entry
  memory_delete key opts m =
      let d = match_dry_run opts in
      if value_or d.0 false
      then (error_of (memory_read key nil m).0, m)
      else refuse (check_options_exhausted d.1) (delete_entry key) m

module _ {ℓ} {K : Type ℓ} ⦃o : Key K⦄ where
  abbrev pub skipped : Bytes → K → Bool
  skipped prefix k = not (is_empty prefix) && not (has_prefix (value_or (o.as_string k) []) prefix)

module _ {ℓ} {K V : Type ℓ} ⦃o : Key K⦄ where
  -- `zero` is the zero value of V.
  module _ (zero : V) where
    -- The loop of List over the map.
    unfoldable pub collect : Bytes → Bool → GoMap K V → List (ListItem K V)
    collect prefix keys_only [] = []
    collect prefix keys_only ((k, v) ∷ m) =
        let rest = collect prefix keys_only m in
        if skipped prefix k
        then rest
        else record { key = k; value = if keys_only then zero else v } ∷ rest

    -- List
    unfoldable pub memory_list : StoreOptions → Exec (GoMap K V) (List (ListItem K V))
    unfolding collect
    memory_list opts m =
        let p = match_prefix opts in
        let prefix = value_or p.0 [] in
        let q = match_list_key_only p.1 in
        if not (is_empty prefix) && not (is_some (o.as_string o.zero_key))
        then (err (wrap err_unsupported_option), m)
        else refuse (check_options_exhausted q.1)
            (λ n. (ok (sort_items (collect prefix (value_or q.0 false) n)), n)) m

    abbrev pub memory : Store (GoMap K V) K V
    memory = record {
      create = memory_create;
      read = memory_read;
      update = memory_update;
      apply = memory_apply;
      delete = memory_delete;
      list = memory_list;
    }
