-- ===== src/Store/ConfigMaps/Examples.antt =====
-- A ConfigMap store without ConfigMaps, whose values are their own encoding.
use golibs.Prelude.{
  Bool, true, false, ◌==◌, Option, none, some, List, [], ◌∷◌, ◌≡◌, refl, Bytes, bytes_eqb, codes,
}
use golibs.Errors.{Error, api_status}
use golibs.Exec.{ok, err}
use golibs.Store.Options.{nil, cons, with_dry_run, err_unsupported_option}
use golibs.Store.Labels.{LabelMap, Selectors, with_labels, overrides}
use golibs.Store.ConfigMaps.{ConfigMap, Api, Config, returned, config_map_apply}
use golibs.Store.ConfigMaps.Shared.{labeled, config_map_apply-shares}

abbrev is_missing : Error → Bool
is_missing (api_status c) = c == 404
is_missing _ = false

abbrev added : ConfigMap → Bool → List ConfigMap → Option Error × List ConfigMap
added c true maps = (none, maps)
added c false maps = (none, c ∷ maps)

abbrev no_maps : Api (List ConfigMap) LabelMap
no_maps = record {
  create_map = added;
  update_map = λ c d maps. (some (api_status 404), maps);
  delete_map = λ n d maps. (some (api_status 404), maps);
  get_map = λ n maps. err (api_status 404);
  list_maps = λ sel maps. ok maps;
  api_not_found = is_missing;
}

abbrev no_selectors : Selectors LabelMap (Bytes × Bytes)
no_selectors = record {
  parse = λ s. ok [];
  from_set = λ m. m;
  requirements = λ m. some m;
  requirement_key = λ r. r.0;
  of_requirements = λ rs. rs;
  to_string = λ m. [];
  matches = λ m n. true;
}

abbrev own : Config Bytes
own = record {
  immutable_labels = (codes "app", codes "shop") ∷ [];
  labels_enricher = none;
  marshal = λ v. ok v;
  unmarshal = λ b. ok b;
}

config_map_apply-shares_example :
    (config_map_apply no_maps no_selectors own
        (codes "a")
        (codes "1")
        (cons (with_labels ((codes "team", codes "x") ∷ [])) nil)
        []
      ≡ returned (
          no_maps.create_map
            (labeled own (codes "a") ((codes "team", codes "x") ∷ []) (codes "1"))
            false
            []))
    × (config_map_apply no_maps no_selectors own
          (codes "a")
          (codes "1")
          (cons (with_labels ((codes "team", codes "x") ∷ [])) (cons (with_dry_run false) nil))
          []
        ≡ (err err_unsupported_option, []))
unfolding overrides bytes_eqb
config_map_apply-shares_example =
    config_map_apply-shares no_maps no_selectors own (codes "a") (codes "1") (codes "1")
      ((codes "team", codes "x") ∷ []) false [] (api_status 404) refl refl refl (λ d. refl) refl
