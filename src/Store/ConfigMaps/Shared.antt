-- ===== src/Store/ConfigMaps/Shared.antt =====
-- Apply of a missing key, with one option and with two.
use golibs.Prelude.{
  Bool, true, false, Option, none, some, [], ◌∷◌, ◌≡◌, refl, Bytes, bytes_key, bytes_eqb, arith,
}
use golibs.Errors.{Error, err_not_found, is_not_found, is_error}
use golibs.Exec.{ok, err}
use golibs.GoMap.{lookup}
use golibs.Store.Options.{nil, cons, match_dry_run, with_dry_run, err_unsupported_option}
use golibs.Store.Labels.{
  LabelMap, Selectors, with_labels, match_labels, build_labels, overrides, checked_merge, merge_map,
}
use golibs.Store.ConfigMaps.{
  ConfigMap, Api, Config, renamed, returned, config_map_create, config_map_update, config_map_apply,
  left_by_update,
}

no_override : (immutable : LabelMap) → overrides immutable [] [] ≡ false
unfolding overrides lookup
no_override [] = refl
no_override ((k, v) ∷ m) = no_override m

renamed-missing :
    {S : Type 0}
    → (missing : Error → Bool) (r : Option Error × S) (e : Error) → r.0 ≡ some e
    → missing e ≡ true
    → renamed missing r ≡ (err err_not_found, r.1)
renamed-missing missing (none, s) e h f = cc
renamed-missing missing (some x, s) e h f = ground arith

abbrev pub labeled : {V : Type 0} → Config V → Bytes → LabelMap → Bytes → ConfigMap
labeled cfg key custom raw = record {
  name = key;
  labels = merge_map [] (custom ∷ cfg.immutable_labels ∷ []);
  payload = raw;
}

module _ {S Sel Req V : Type 0} (api : Api S Sel) (k8s : Selectors Sel Req) (cfg : Config V) where
  updates_two :
      (key raw : Bytes) (v : V) (custom : LabelMap) (b : Bool) (s : S) (e : Error)
      → cfg.marshal v ≡ ok raw
      → cfg.labels_enricher ≡ none
      → overrides cfg.immutable_labels custom [] ≡ false
      → (api.update_map (labeled cfg key custom raw) b s).0 ≡ some e
      → api.api_not_found e ≡ true
      → config_map_update api k8s cfg key v
          (cons (with_labels custom) (cons (with_dry_run b) nil))
          s
        ≡ (err err_not_found, (api.update_map (labeled cfg key custom raw) b s).1)
  unfolding config_map_update build_labels match_labels match_dry_run checked_merge bytes_eqb
  updates_two key raw v custom b s e m n o u f =
      rw (m, n, o)
        (renamed-missing api.api_not_found (api.update_map (labeled cfg key custom raw) b s) e u f)

  updates_one :
      (key raw : Bytes) (v : V) (custom : LabelMap) (s : S) (e : Error)
      → cfg.marshal v ≡ ok raw
      → cfg.labels_enricher ≡ none
      → overrides cfg.immutable_labels custom [] ≡ false
      → (api.update_map (labeled cfg key custom raw) false s).0 ≡ some e
      → api.api_not_found e ≡ true
      → config_map_update api k8s cfg key v (cons (with_labels custom) nil) s
        ≡ (err err_not_found, (api.update_map (labeled cfg key custom raw) false s).1)
  unfolding config_map_update build_labels match_labels match_dry_run checked_merge bytes_eqb
  updates_one key raw v custom s e m n o u f =
      rw (m, n, o)
        (renamed-missing api.api_not_found (api.update_map (labeled cfg key custom raw) false s) e u
          f)

  -- Apply of a missing key with labels and nothing else creates the ConfigMap with these labels. With
  -- labels and a dry-run option behind them it fails with ErrUnsupportedOption, dry run or not, and
  -- creates nothing: Update has taken the labels out of the array that it shares with Apply, where
  -- Create then finds the dry-run option twice. That is for a configuration without an enricher,
  -- labels that override no immutable one, and a value that json.Marshal takes.
  pub config_map_apply-shares :
      (key raw : Bytes) (v : V) (custom : LabelMap) (b : Bool) (s : S) (e : Error)
      → cfg.marshal v ≡ ok raw
      → cfg.labels_enricher ≡ none
      → overrides cfg.immutable_labels custom [] ≡ false
      → ((d : Bool) → (api.update_map (labeled cfg key custom raw) d s).0 ≡ some e)
      → api.api_not_found e ≡ true
      → (config_map_apply api k8s cfg key v (cons (with_labels custom) nil) s
          ≡ returned (
              api.create_map
                (labeled cfg key custom raw)
                false
                (api.update_map (labeled cfg key custom raw) false s).1))
        × (config_map_apply api k8s cfg key v
              (cons (with_labels custom) (cons (with_dry_run b) nil))
              s
            ≡ (err err_unsupported_option, (api.update_map (labeled cfg key custom raw) b s).1))
  unfolding config_map_apply config_map_create left_by_update build_labels match_labels
      match_dry_run checked_merge bytes_eqb is_not_found is_error
  config_map_apply-shares key raw v custom b s e m n o u f = (
    rw (updates_one key raw v custom s e m n o (u false) f) (rw (m, n, o, o) refl),
    rw (updates_two key raw v custom b s e m n o (u b) f)
        (rw (m, n, o, no_override cfg.immutable_labels) refl),
  )
