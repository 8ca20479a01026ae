-- ===== src/Store/Http.antt =====
-- pkg/store/backends/http (server/server.go): a store behind HTTP handlers. `W` is the type of bodies,
-- JSON text. What the handlers use of gin, net/url and encoding/json is a record of operations. A
-- handler returns what it writes to the response, in order.
pub mod Client
pub mod Served
pub mod Outcomes
pub mod Responses
pub mod Refines
mod Examples
use golibs.Prelude.{
  ℕ, Bool, true, false, Option, none, some, List, [], ◌∷◌, ◌++◌, Bytes, bytes_key, bytes_eqb, codes,
  if◌then◌else◌,
}
use golibs.GoMap.{GoMap}
use golibs.GoMap
use golibs.Errors.{Error, is_error, err_conflict, err_not_found, invalid}
use golibs.Exec.{Result, ok, err}
use golibs.Http.{Method, get, post, put, delete, Request}
use golibs.Store.{Store, ListItem}
use golibs.Store.Options.{StoreOptions, err_unsupported_option}
use golibs.Store.Labels.{
  LabelMap, Selectors, enrich_with_labels_option, enrich_with_label_selector_option,
}

-- c.JSON with a status and a body, and c.Status.
pub data Write (W : Type 0) : Type 0 where
  json : ℕ → W → Write W
  status_only : ℕ → Write W

-- Where a URL leads in the router: the resource, one of its items by name, or elsewhere.
pub data Route : Type 0 where
  collection : Route
  item : Bytes → Route
  elsewhere : Route

-- json.Marshal, json.Unmarshal, the bodies of gin, `URL.Query`, `Values.Encode`, the router, what it
-- writes where no handler is registered, and the response that a list of writes becomes.
pub record Web (W V : Type 0) : Type 0 where
  pub marshal : V → Result W
  pub unmarshal : W → Result V
  pub unmarshal_items : W → Result (List (ListItem Bytes V))
  pub render : V → W
  pub render_items : List (ListItem Bytes V) → W
  pub render_error : Error → W
  pub query : Bytes → GoMap Bytes (List Bytes)
  pub encode : GoMap Bytes (List Bytes) → Bytes
  pub url_error : Bytes → Option Error
  pub route : Bytes → Route
  pub unrouted : List (Write W)
  pub sent : List (Write W) → ℕ × W

pub record Config : Type 0 where
  pub option_parser : Option (GoMap Bytes Bytes → Result StoreOptions)
  pub plural_resource_name : Bytes
  pub resource_version : Bytes
  pub use_labels : Bool

abbrev pub err_empty_option_parser : Error
err_empty_option_parser = invalid 80

abbrev pub err_name_mismatch : Error
err_name_mismatch = invalid 81

abbrev pub err_empty_body : Error
err_empty_body = invalid 82

-- GetLabels
unfoldable pub get_labels : Config → LabelMap
get_labels cfg =
    (codes "resourceVersion", cfg.resource_version)
    ∷ (codes "pluralResourceName", cfg.plural_resource_name)
    ∷ []

-- SetLabelsIfNeeded
unfoldable pub set_labels_if_needed : Config → StoreOptions → Option Error × StoreOptions
unfolding enrich_with_labels_option get_labels
set_labels_if_needed cfg opts =
    if cfg.use_labels then enrich_with_labels_option (get_labels cfg) opts else (none, opts)

abbrev first_value : List Bytes → Bytes
first_value [] = []
first_value (v ∷ vs) = v

-- The loop of GetOptions.
unfoldable pub flatten : GoMap Bytes Bytes → GoMap Bytes (List Bytes) → GoMap Bytes Bytes
flatten flat [] = flat
flatten flat ((key, values) ∷ query) = flatten (GoMap.store key (first_value values) flat) query

abbrev with_parser :
    Option (GoMap Bytes Bytes → Result StoreOptions) → GoMap Bytes Bytes → Result StoreOptions
with_parser none flat = err err_empty_option_parser
with_parser (some parser) flat = parser flat

-- The status of an error of the store in create, in read, update and delete, and in list and apply.
abbrev pub conflict_status : Error → ℕ
unfolding is_error
conflict_status e =
    if is_error e err_conflict
    then 409
    else (if is_error e err_unsupported_option then 400 else 500)

abbrev pub missing_status : Error → ℕ
unfolding is_error
missing_status e =
    if is_error e err_not_found
    then 404
    else (if is_error e err_unsupported_option then 400 else 500)

abbrev pub other_status : Error → ℕ
unfolding is_error
other_status e = if is_error e err_unsupported_option then 400 else 500

module _ {S W V Sel Req : Type 0} (web : Web W V) (k8s : Selectors Sel Req) (cfg : Config)
    (inner : Store S Bytes V) (validate : V → Option Error) (get_name : V → Bytes) where
  abbrev pub Handler : Type 0
  Handler = S → List (Write W) × S

  -- GetOptions
  unfoldable pub get_options : Request W → Result StoreOptions
  unfolding flatten
  get_options r = with_parser cfg.option_parser (flatten [] (web.query r.raw_query))

  abbrev bad_request : Error → Write W
  bad_request e = json 400 (web.render_error e)

  -- `if err != nil { c.JSON(400); return }`
  abbrev or_bad_request : {A : Type 0} → Result A → (A → Handler) → Handler
  or_bad_request (ok a) f s = f a s
  or_bad_request (err e) f s = (bad_request e ∷ [], s)

  -- `if err != nil { c.JSON(400) }`, and on.
  abbrev note_bad_request : Option Error × StoreOptions → (StoreOptions → Handler) → Handler
  note_bad_request (none, opts) f s = f opts s
  note_bad_request (some e, opts) f s = let r = f opts s in (bad_request e ∷ r.0, r.1)

  abbrev unless_invalid : V → Option Error → (V → Handler) → Handler
  unless_invalid v none f s = f v s
  unless_invalid v (some e) f s = (bad_request e ∷ [], s)

  abbrev bind_json : Option W → Result V
  bind_json none = err err_empty_body
  bind_json (some w) = web.unmarshal w

  -- The value in the body of a request, if it is valid.
  abbrev with_body : Request W → (V → Handler) → Handler
  with_body r f = or_bad_request (bind_json r.body) (λ v. unless_invalid v (validate v) f)

  -- What is written behind a call of the store that succeeds, and after an error.
  abbrev pub reply :
      {A : Type 0}
      → (Error → ℕ)
      → (A → List (Write W))
      → List (Write W)
      → Result A × S
      → List (Write W) × S
  reply code success also (ok a, s) = (success a, s)
  reply code success also (err e, s) = (json (code e) (web.render_error e) ∷ also, s)

  -- create
  unfoldable pub server_create : Request W → Handler
  unfolding get_options set_labels_if_needed conflict_status
  server_create r = or_bad_request (get_options r) (λ o.
      note_bad_request (set_labels_if_needed cfg o) (λ opts. with_body r (λ v s.
        reply conflict_status (λ u. status_only 201 ∷ []) (status_only 201 ∷ [])
          (inner.create (get_name v) v opts s))))

  -- read
  unfoldable pub server_read : Bytes → Request W → Handler
  unfolding get_options missing_status
  server_read name r = or_bad_request (get_options r) (λ opts s.
      reply missing_status (λ v. json 200 (web.render v) ∷ []) [] (inner.read name opts s))

  -- update
  unfoldable pub server_update : Bytes → Request W → Handler
  unfolding get_options set_labels_if_needed missing_status
  server_update name r = or_bad_request (get_options r) (λ o.
      note_bad_request (set_labels_if_needed cfg o) (λ opts.
        with_body r (λ v s.
          reply missing_status (λ u. status_only 200 ∷ []) [] (inner.update name v opts s))))

  -- delete
  unfoldable pub server_delete : Bytes → Request W → Handler
  unfolding get_options missing_status
  server_delete name r =
      or_bad_request (get_options r)
        (λ opts s. reply missing_status (λ u. status_only 204 ∷ []) [] (inner.delete name opts s))

  abbrev set_selector_if_needed : StoreOptions → Option Error × StoreOptions
  unfolding get_labels enrich_with_label_selector_option
  set_selector_if_needed opts =
      if cfg.use_labels
      then enrich_with_label_selector_option k8s (get_labels cfg) opts
      else (none, opts)

  -- list
  unfoldable pub server_list : Request W → Handler
  unfolding get_options set_selector_if_needed other_status
  server_list r = or_bad_request (get_options r) (λ o.
      note_bad_request (set_selector_if_needed o) (λ opts s.
        reply other_status (λ items. json 200 (web.render_items items) ∷ []) []
          (inner.list opts s)))

  abbrev unless_renamed : Bytes → (V → Handler) → V → Handler
  unless_renamed name f v s =
      if bytes_eqb (get_name v) name then f v s else (bad_request err_name_mismatch ∷ [], s)

  -- apply
  unfoldable pub server_apply : Bytes → Request W → Handler
  unfolding get_options set_labels_if_needed other_status bytes_eqb
  server_apply name r = or_bad_request (get_options r) (λ o.
      note_bad_request (set_labels_if_needed cfg o) (λ opts. with_body r (
        unless_renamed name
          (λ v s. reply other_status (λ u. status_only 200 ∷ []) [] (inner.apply name v opts s)))))

  -- Register: the handler of a route and a method.
  unfoldable pub dispatch : Route → Method → Request W → Handler
  unfolding server_create server_read server_update server_delete server_list server_apply
  dispatch collection post r = server_create r
  dispatch collection get r = server_list r
  dispatch (item name) get r = server_read name r
  dispatch (item name) put r = server_update name r
  dispatch (item name) delete r = server_delete name r
  dispatch (item name) post r = server_apply name r
  dispatch _ _ r = λ s. (web.unrouted, s)

  -- The response to a request.
  unfoldable pub respond : Request W → S → (ℕ × W) × S
  unfolding dispatch
  respond r s = let w = dispatch (web.route r.url) r.method r s in (web.sent w.0, w.1)
