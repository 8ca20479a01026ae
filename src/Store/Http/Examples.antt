-- ===== src/Store/Http/Examples.antt =====
-- The client and the handlers over the in-memory store, with values that are their own names.
use golibs.Prelude.{
  ℕ, true, false, Option, none, some, List, [], ◌∷◌, ◌≡◌, refl, subst, Bytes, bytes_key, bytes_eqb,
  codes, if◌then◌else◌,
}
use golibs.GoMap.{GoMap, IsMap}
use golibs.Errors.{Error}
use golibs.Exec.{Result, ok}
use golibs.Store.{Store, ListItem}
use golibs.Store.Options.{StoreOptions, nil}
use golibs.Store.Memory.{memory}
use golibs.Store.Memory.Refines.{view, memory-Implements}
use golibs.Store.Labels.{LabelMap, Selectors}
use golibs.Store.Http.{Web, Config, Write, json, status_only, Route, collection, item, elsewhere}
use golibs.Store.Http.Client.{item_url}
use golibs.Store.Http.Served.{Documented, Bare}
use golibs.Store.Http.Responses.{Serves}
use golibs.Store.Http.Refines.{remote_store, client-Serves}

data Body : Type 0 where
  one : Bytes → Body
  many : List (ListItem Bytes Bytes) → Body
  problem : Error → Body
  nothing : Body

abbrev base : Bytes
base = codes "/v1/things"

abbrev to_value : Body → Result Bytes
to_value (one v) = ok v
to_value b = ok []

abbrev to_items : Body → Result (List (ListItem Bytes Bytes))
to_items (many xs) = ok xs
to_items b = ok []

abbrev first_sent : List (Write Body) → ℕ × Body
first_sent [] = (200, nothing)
first_sent (json c w ∷ ws) = (c, w)
first_sent (status_only c ∷ ws) = (c, nothing)

abbrev routed : Bytes → Route
unfolding bytes_eqb
routed url =
    if bytes_eqb url base
    then collection
    else (if bytes_eqb url (item_url base (codes "a")) then item (codes "a") else elsewhere)

abbrev site : Web Body Bytes
unfolding routed
site = record {
  marshal = λ v. ok (one v);
  unmarshal = to_value;
  unmarshal_items = to_items;
  render = one;
  render_items = many;
  render_error = problem;
  query = λ q. [];
  encode = λ values. [];
  url_error = λ url. none;
  route = routed;
  unrouted = status_only 404 ∷ [];
  sent = first_sent;
}

abbrev AName : Bytes → Type 0
AName k = codes "a" ≡ k

site-Documented : Documented site base AName
unfolding bytes_eqb
site-Documented = record {
  marshals = λ v. refl;
  round_trip = λ v. refl;
  round_trip_items = λ xs. refl;
  no_query = refl;
  sends_first = λ c w ws. refl;
  sends_body = λ c w. refl;
  sends_status = λ c. refl;
  builds_resource = refl;
  builds_items = λ name e. refl;
  routes_resource = refl;
  routes_items = λ name e. subst (λ k. routed (item_url base k) ≡ item k) e refl;
}

abbrev no_selectors : Selectors LabelMap Bytes
no_selectors = record {
  parse = λ s. ok [];
  from_set = λ m. m;
  requirements = λ m. none;
  requirement_key = λ r. r;
  of_requirements = λ rs. [];
  to_string = λ m. [];
  matches = λ m n. true;
}

abbrev parse_none : GoMap Bytes Bytes → Result StoreOptions
parse_none params = ok nil

abbrev config : Config
config = record {
  option_parser = some parse_none;
  plural_resource_name = codes "things";
  resource_version = codes "v1";
  use_labels = false;
}

config-Bare : Bare config
config-Bare = record { parser = parse_none; parses = refl; nothing = refl; no_labels = refl }

abbrev plain : Store (GoMap Bytes Bytes) Bytes Bytes
plain = memory []

abbrev valid : Bytes → Option Error
valid v = none

abbrev own_name : Bytes → Bytes
own_name v = v

site-lenient : (e : Error) → (v : Bytes) × (site.unmarshal (site.render_error e) ≡ ok v)
unfolding site
site-lenient e = ([], refl)

client-Serves_example : Serves IsMap view valid own_name AName (
    remote_store site no_selectors config plain valid own_name base AName site-Documented IsMap view
      config-Bare
      (λ opts. ok [])
      refl
      []
      site-lenient
      (memory-Implements []))
client-Serves_example =
    client-Serves site no_selectors config plain valid own_name base AName site-Documented IsMap
      view config-Bare (λ opts. ok []) refl [] site-lenient (memory-Implements [])
