-- ===== src/Store/Http/Outcomes.antt =====
-- What each method of the client returns over the handlers, in terms of the store behind them.
use golibs.Prelude.{Option, none, some, [], ◌∷◌, ◌≡◌, refl, Bytes, bytes_key, bytes_eqb, eqb_refl}
use golibs.GoMap.{GoMap}
use golibs.Errors.{Error}
use golibs.Exec.{Result, ok}
use golibs.Http.{parse, Method, get, post, put, delete, Request, do_request, apply_opts, build}
use golibs.Store.{Store}
use golibs.Store.Options.{StoreOptions, nil}
use golibs.Store.Labels.{Selectors}
use golibs.Store.Http.{
  Web, Config, status_only, respond, dispatch, conflict_status, missing_status, other_status,
}
use golibs.Store.Http.Client.{
  parsed, as_query, item_url, client_create, client_update, client_apply, client_delete,
  client_read, client_list,
}
use golibs.Store.Http.Served.{
  Documented, Bare, network, response, replied_with, outcome, create-served, update-served,
  apply-served, delete-served, read-served, list-served,
}
use golibs.Store.Http.Client.{client}

module _ {S W V Sel Req : Type 0} (web : Web W V) (k8s : Selectors Sel Req) (cfg : Config)
    (inner : Store S Bytes V) (validate : V → Option Error) (get_name : V → Bytes) (url : Bytes)
    (Name : Bytes → Type 0) (d : Documented web url Name) (b : Bare cfg)
    (serializer : StoreOptions → Result (GoMap Bytes Bytes)) (q : serializer nil ≡ ok [])
    (zero : V) where
  abbrev request : Method → Bytes → Option W → Request W
  unfolding as_query
  request m target body = record {
    method = m;
    url = target;
    raw_query = as_query web [];
    body = body;
  }

  abbrev pub remote : Store S Bytes V
  remote = client web url (network web k8s cfg inner validate get_name) serializer get_name zero

  pub create-outcome :
      (v : V) (s : S)
      → validate v ≡ none
      → remote.create (get_name v) v nil s
        ≡ outcome web k8s cfg inner validate get_name conflict_status 201
            (status_only 201 ∷ [])
            (inner.create (get_name v) v nil s)
  unfolding client_create do_request build apply_opts network respond dispatch outcome bytes_eqb
      as_query
  create-outcome v s t =
      let e =
        create-served web k8s cfg inner validate get_name url Name d b
          (request post url (some (web.render v))) refl v s refl t in
      rw (eqb_refl (get_name v), q, d.marshals v, d.builds_resource, d.routes_resource, e) refl

  pub update-outcome :
      (v : V) (s : S)
      → Name (get_name v)
      → validate v ≡ none
      → remote.update (get_name v) v nil s
        ≡ outcome web k8s cfg inner validate get_name missing_status 200 []
            (inner.update (get_name v) v nil s)
  unfolding client_update do_request build apply_opts network respond dispatch outcome bytes_eqb
      as_query
  update-outcome v s n t =
      let e =
        update-served web k8s cfg inner validate get_name url Name d b
          (request put (item_url url (get_name v)) (some (web.render v))) refl (get_name v) v s refl
          t in
      rw
        (
          eqb_refl (get_name v),
          q,
          d.marshals v,
          d.builds_items (get_name v) n,
          d.routes_items (get_name v) n,
          e,
        )
        refl

  pub apply-outcome :
      (v : V) (s : S)
      → Name (get_name v)
      → validate v ≡ none
      → remote.apply (get_name v) v nil s
        ≡ outcome web k8s cfg inner validate get_name other_status 200 []
            (inner.apply (get_name v) v nil s)
  unfolding client_apply do_request build apply_opts network respond dispatch outcome bytes_eqb
      as_query
  apply-outcome v s n t =
      let e =
        apply-served web k8s cfg inner validate get_name url Name d b
          (request post (item_url url (get_name v)) (some (web.render v))) refl v s refl t in
      rw
        (
          eqb_refl (get_name v),
          q,
          d.marshals v,
          d.builds_items (get_name v) n,
          d.routes_items (get_name v) n,
          e,
        )
        refl

  pub delete-outcome :
      (k : Bytes) (s : S)
      → Name k
      → remote.delete k nil s
        ≡ outcome web k8s cfg inner validate get_name missing_status 204 [] (inner.delete k nil s)
  unfolding client_delete do_request build apply_opts network respond dispatch outcome as_query
  delete-outcome k s n =
      let e =
        delete-served web k8s cfg inner validate get_name url Name d b
          (request delete (item_url url k) none) refl k s in
      rw (q, d.builds_items k n, d.routes_items k n, e) refl

  pub read-outcome :
      (k : Bytes) (s : S)
      → Name k
      → let w =
          replied_with web k8s cfg inner validate get_name missing_status web.render
            (inner.read k nil s) in
        remote.read k nil s ≡ (
          parsed zero (parse web.unmarshal (response web k8s cfg inner validate get_name w.0)),
          w.1,
        )
  unfolding client_read do_request build apply_opts network respond dispatch as_query
  read-outcome k s n =
      let e =
        read-served web k8s cfg inner validate get_name url Name d b
          (request get (item_url url k) none) refl k s in
      rw (q, d.builds_items k n, d.routes_items k n, e) refl

  pub list-outcome :
      (s : S)
      → let w =
          replied_with web k8s cfg inner validate get_name other_status web.render_items
            (inner.list nil s) in
        remote.list nil s ≡ (
          parsed [] (parse web.unmarshal_items (response web k8s cfg inner validate get_name w.0)),
          w.1,
        )
  unfolding client_list do_request build apply_opts network respond dispatch as_query
  list-outcome s =
      let e =
        list-served web k8s cfg inner validate get_name url Name d b (request get url none) refl
          s in
      rw (q, d.builds_resource, d.routes_resource, e) refl
