-- ===== src/Store/Http/Served.antt =====
-- What the handlers answer to the requests of the client.
use golibs.Prelude.{
  ℕ, false, Option, none, some, List, [], ◌∷◌, ◌≡◌, refl, Bytes, bytes_key, eqb_refl,
}
use golibs.GoMap.{GoMap}
use golibs.Errors.{Error}
use golibs.Exec.{Result, ok}
use golibs.Http.{Data, Request, Client, new_client}
use golibs.Store.{Store, ListItem}
use golibs.Store.Options.{StoreOptions, nil}
use golibs.Store.Labels.{Selectors}
use golibs.Store.Http.{
  Web, Config, Write, json, status_only, collection, item, respond, get_options, flatten, reply,
  server_create, server_read, server_update, server_delete, server_list, server_apply,
  set_labels_if_needed, conflict_status, missing_status, other_status,
}
use golibs.Store.Http.Client.{as_query, set_values, item_url, expect}

-- What is documented of encoding/json, net/url and gin: a value, a list and an empty query come back
-- as they were; c.JSON writes what json.Marshal makes of a value; the first status that is written with
-- a body is sent; the router finds the resource and the items under it.
pub record Documented {W V : Type 0} (web : Web W V) (url : Bytes) (Name : Bytes → Type 0)
    : Type 0 where
  pub marshals : (v : V) → web.marshal v ≡ ok (web.render v)
  pub round_trip : (v : V) → web.unmarshal (web.render v) ≡ ok v
  pub round_trip_items :
      (xs : List (ListItem Bytes V)) → web.unmarshal_items (web.render_items xs) ≡ ok xs
  pub no_query : web.query (web.encode []) ≡ []
  pub sends_first : (c : ℕ) (w : W) (ws : List (Write W)) → (web.sent (json c w ∷ ws)).0 ≡ c
  pub sends_body : (c : ℕ) (w : W) → (web.sent (json c w ∷ [])).1 ≡ w
  pub sends_status : (c : ℕ) → (web.sent (status_only c ∷ [])).0 ≡ c
  pub builds_resource : web.url_error url ≡ none
  pub builds_items : (name : Bytes) → Name name → web.url_error (item_url url name) ≡ none
  pub routes_resource : web.route url ≡ collection
  pub routes_items : (name : Bytes) → Name name → web.route (item_url url name) ≡ item name

-- A server that sets no labels, and whose parser of options finds none in an empty query.
pub record Bare (cfg : Config) : Type 0 where
  pub parser : GoMap Bytes Bytes → Result StoreOptions
  pub parses : cfg.option_parser ≡ some parser
  pub nothing : parser [] ≡ ok nil
  pub no_labels : cfg.use_labels ≡ false

-- The requests of a client that go to the handlers, and come back without an error of the network.
module _ {S W V Sel Req : Type 0} (web : Web W V) (k8s : Selectors Sel Req) (cfg : Config)
    (inner : Store S Bytes V) (validate : V → Option Error) (get_name : V → Bytes) where
  unfoldable pub network : Client S W
  unfolding respond
  network = new_client web.url_error (λ r s.
      let a = respond web k8s cfg inner validate get_name r s in (ok (a.0.0, a.0.1, none), a.1))

  abbrev pub response : List (Write W) → Data W
  response ws = record { raw = some (web.sent ws).1; status = (web.sent ws).0; error = none }

  abbrev pub replied : (Error → ℕ) → ℕ → List (Write W) → Result (Unit {0}) × S → List (Write W) × S
  replied code status also r =
      reply web k8s cfg inner validate get_name code (λ u. status_only status ∷ []) also r

  abbrev pub replied_with : {A : Type 0} → (Error → ℕ) → (A → W) → Result A × S → List (Write W) × S
  replied_with code render r =
      reply web k8s cfg inner validate get_name code (λ a. json 200 (render a) ∷ []) [] r

  -- What the client makes of the answer to a method that writes.
  unfoldable pub outcome :
      (Error → ℕ) → ℕ → List (Write W) → Result (Unit {0}) × S → Result (Unit {0}) × S
  unfolding expect
  outcome code status also r =
      let w = replied code status also r in (expect status (response w.0), w.1)

  module _ (url : Bytes) (Name : Bytes → Type 0) (d : Documented web url Name) (b : Bare cfg) where
    pub get_options-empty :
        (r : Request W)
        → r.raw_query ≡ as_query web []
        → get_options web k8s cfg inner validate get_name r ≡ ok nil
    unfolding get_options flatten as_query set_values
    get_options-empty r e = rw (e, d.no_query, b.parses, b.nothing) refl

    module _ (r : Request W) (e : r.raw_query ≡ as_query web []) where
      pub create-served :
          (v : V) (s : S)
          → r.body ≡ some (web.render v)
          → validate v ≡ none
          → server_create web k8s cfg inner validate get_name r s
            ≡ replied conflict_status 201 (status_only 201 ∷ []) (inner.create (get_name v) v nil s)
      unfolding server_create set_labels_if_needed
      create-served v s y t = rw (get_options-empty r e, b.no_labels, y, d.round_trip v, t) refl

      pub update-served :
          (k : Bytes) (v : V) (s : S)
          → r.body ≡ some (web.render v)
          → validate v ≡ none
          → server_update web k8s cfg inner validate get_name k r s
            ≡ replied missing_status 200 [] (inner.update k v nil s)
      unfolding server_update set_labels_if_needed
      update-served k v s y t = rw (get_options-empty r e, b.no_labels, y, d.round_trip v, t) refl

      pub apply-served :
          (v : V) (s : S)
          → r.body ≡ some (web.render v)
          → validate v ≡ none
          → server_apply web k8s cfg inner validate get_name (get_name v) r s
            ≡ replied other_status 200 [] (inner.apply (get_name v) v nil s)
      unfolding server_apply set_labels_if_needed
      apply-served v s y t =
          rw (get_options-empty r e, b.no_labels, y, d.round_trip v, t, eqb_refl (get_name v)) refl

      pub delete-served :
          (k : Bytes) (s : S)
          → server_delete web k8s cfg inner validate get_name k r s
            ≡ replied missing_status 204 [] (inner.delete k nil s)
      unfolding server_delete
      delete-served k s = rw (get_options-empty r e) refl

      pub read-served :
          (k : Bytes) (s : S)
          → server_read web k8s cfg inner validate get_name k r s
            ≡ replied_with missing_status web.render (inner.read k nil s)
      unfolding server_read
      read-served k s = rw (get_options-empty r e) refl

      pub list-served :
          (s : S)
          → server_list web k8s cfg inner validate get_name r s
            ≡ replied_with other_status web.render_items (inner.list nil s)
      unfolding server_list
      list-served s = rw (get_options-empty r e, b.no_labels) refl
