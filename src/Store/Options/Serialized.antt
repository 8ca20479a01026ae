-- ===== src/Store/Options/Serialized.antt =====
-- pkg/store/serialize_options.go and the Serialize methods of pkg/store/options.go: options as pairs of
-- strings, and back. `set_string` and `parse_set` are labels.Set.String and
-- labels.ConvertSelectorToLabelsMap of Kubernetes. The registry is a Go map.
pub mod RoundTrip
mod Examples
use golibs.Prelude.{
  Bool, true, false, Option, none, some, List, [], ◌∷◌, Bytes, bytes_key, bytes_eqb, codes,
  if◌then◌else◌,
}
use golibs.GoMap.{GoMap, lookup}
use golibs.GoMap
use golibs.Errors.{Error, sentinel, not_serializable, wrap, join}
use golibs.Exec.{Result, ok, err}
use golibs.Store.Options.{
  StoreOption, StoreOptions, nil, cons, nil_option, bool_option, string_option, map_option,
  skip_cache, rollback, other, nested, err_unsupported_option,
}

abbrev pub Registry : Type 0
Registry = GoMap Bytes (Bytes → Result StoreOption)

abbrev pub bool_string : Bool → Bytes
bool_string true = codes "true"
bool_string false = codes "false"

-- The Serialize methods; `none` is an option without one.
unfoldable pub serialize : (List (Bytes × Bytes) → Bytes) → StoreOption → Option (Bytes × Bytes)
serialize set_string (bool_option key b) = some (key, bool_string b)
serialize set_string (string_option key s) = some (key, s)
serialize set_string (map_option key m) = some (key, set_string m)
serialize set_string (skip_cache b) = some (codes "skipCache", bool_string b)
serialize set_string nil_option = none
serialize set_string rollback = none
serialize set_string (other n) = none
serialize set_string (nested opts) = none

-- What the builders of options put in the registry.
unfoldable pub register_bool : Bytes → Registry → Registry
unfolding bytes_eqb
register_bool key = GoMap.store key (λ val. ok (bool_option key (bytes_eqb val (codes "true"))))

unfoldable pub register_string : Bytes → Registry → Registry
register_string key = GoMap.store key (λ val. ok (string_option key val))

abbrev parsed_map : Bytes → Result (List (Bytes × Bytes)) → Result StoreOption
parsed_map key (ok m) = ok (map_option key m)
parsed_map key (err e) = err e

unfoldable pub register_map : (Bytes → Result (List (Bytes × Bytes))) → Bytes → Registry → Registry
register_map parse_set key = GoMap.store key (λ val. parsed_map key (parse_set val))

abbrev pub err_not_serializable : Error
err_not_serializable = sentinel not_serializable

-- The loop of SerializeOptions.
unfoldable pub serialize_from :
    (List (Bytes × Bytes) → Bytes) → GoMap Bytes Bytes → StoreOptions → Result (GoMap Bytes Bytes)
unfolding serialize
serialize_from set_string m nil = ok m
serialize_from set_string m (cons x rest) = elim (serialize set_string x) [
  | none ↦ err err_not_serializable
  | some p ↦ serialize_from set_string (GoMap.store p.0 p.1 m) rest
]

-- SerializeOptions
unfoldable pub serialize_options :
    (List (Bytes × Bytes) → Bytes) → StoreOptions → Result (GoMap Bytes Bytes)
unfolding serialize_from
serialize_options set_string = serialize_from set_string []

abbrev deserialized : Result StoreOption → Result StoreOption
deserialized (ok x) = ok x
deserialized (err e) = err (join (wrap err_unsupported_option) e)

abbrev deserialize_with : Option (Bytes → Result StoreOption) → Bytes → Result StoreOption
deserialize_with none val = err (wrap err_unsupported_option)
deserialize_with (some f) val = deserialized (f val)

-- The body of the loop of UnserializeOptions.
unfoldable pub deserialize : Registry → Bytes → Bytes → Result StoreOption
deserialize registry key val = deserialize_with (lookup key registry) val

abbrev pub append_to : Result StoreOption → Result StoreOptions → Result StoreOptions
append_to (err e) rest = err e
append_to (ok x) (ok opts) = ok (cons x opts)
append_to (ok x) (err e) = err e

-- UnserializeOptions, in the order in which the map is visited.
unfoldable pub unserialize_options : Registry → GoMap Bytes Bytes → Result StoreOptions
unfolding deserialize
unserialize_options registry [] = ok nil
unserialize_options registry ((key, val) ∷ params) =
    let rest = unserialize_options registry params in append_to (deserialize registry key val) rest
