-- ===== src/Store/Options/Serialized/Examples.antt =====
-- The round trip of options, one of them given twice.
use golibs.Prelude.{true, false, List, [], ◌≡◌, refl, Bytes, bytes_key, bytes_eqb, codes}
use golibs.GoMap.{GoMap, lookup, store, IsMap, Same}
use golibs.Exec.{ok}
use golibs.Store.Options.{StoreOptions, nil, cons, with_dry_run, with_prefix}
use golibs.Store.Options.Serialized.{
  Registry, register_bool, register_string, serialize, serialize_options, deserialize,
}
use golibs.Store.Options.Serialized.RoundTrip.{AllRegistered, ComesBack, unserialize-serialize}

abbrev no_set : List (Bytes × Bytes) → Bytes
no_set m = []

unfoldable known : Registry
unfolding register_bool register_string
known = register_bool (codes "dryRun") (register_string (codes "prefix") [])

abbrev options : StoreOptions
options = cons (with_dry_run true) (cons (with_prefix (codes "a")) (cons (with_dry_run false) nil))

options-Registered : AllRegistered no_set known options
unfolding known serialize deserialize lookup store bytes_eqb
options-Registered = (
  record { key = codes "dryRun"; val = codes "true"; serializes = refl; comes_back = refl },
  (
    record { key = codes "prefix"; val = codes "a"; serializes = refl; comes_back = refl },
    (
      record { key = codes "dryRun"; val = codes "false"; serializes = refl; comes_back = refl },
      tt,
    ),
  ),
)

unserialize-serialize_example :
    (m : GoMap Bytes Bytes) × (serialize_options no_set options ≡ ok m)
    × ((n : GoMap Bytes Bytes) → Same m n → IsMap n → ComesBack no_set known options n)
unserialize-serialize_example = unserialize-serialize no_set known options options-Registered
