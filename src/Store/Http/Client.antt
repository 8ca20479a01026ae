-- ===== src/Store/Http/Client.antt =====
-- pkg/store/backends/http/client/client.go: a store whose methods are HTTP requests to a server.
use golibs.Prelude.{
  ℕ, Option, none, some, List, [], ◌∷◌, ◌++◌, Bytes, bytes_key, bytes_eqb, codes, ◌==◌,
  if◌then◌else◌, value_or,
}
use golibs.GoMap.{GoMap}
use golibs.GoMap
use golibs.Errors.{Error, invalid}
use golibs.Exec.{Result, ok, err, Exec, from_error, continue}
use golibs.Http.{
  Method, get, post, put, delete, Data, RequestOption, Client, do_request, with_raw_query, parse,
  response_error,
}
use golibs.Store.{Store, ListItem}
use golibs.Store.Options.{StoreOptions}
use golibs.Store.Http.{Web}

abbrev pub err_key_mismatch : Error
err_key_mismatch = invalid 83

-- The loop of AsQuery: `values.Set` on each entry.
unfoldable pub set_values : GoMap Bytes (List Bytes) → GoMap Bytes Bytes → GoMap Bytes (List Bytes)
set_values values [] = values
set_values values ((k, v) ∷ s) = set_values (GoMap.store k (v ∷ []) values) s

-- The URL of an item.
abbrev pub item_url : Bytes → Bytes → Bytes
item_url url key = url ++ (codes "/" ++ key)

-- `resp.Error()` in place of a status that says that it worked.
unfoldable pub expect : {W : Type 0} → ℕ → Data W → Result (Unit {0})
unfolding response_error
expect code resp = if resp.status == code then ok tt else from_error (response_error resp)

-- The value that was parsed, unless the response has an error.
unfoldable pub parsed : {W A : Type 0} → A → Option A × Data W → Result A
unfolding response_error
parsed zero p = elim (response_error p.1) [ none ↦ ok (value_or p.0 zero) | some e ↦ err e ]

module _ {W V : Type 0} (web : Web W V) where
  -- SerializedOptions.AsQuery
  unfoldable pub as_query : GoMap Bytes Bytes → Bytes
  unfolding set_values
  as_query s = web.encode (set_values [] s)

  abbrev query_options : GoMap Bytes Bytes → List (Option (RequestOption W))
  unfolding as_query
  query_options q = some (with_raw_query (as_query q)) ∷ []

  module _ {S : Type 0} (url : Bytes) (http : Client S W)
      (serializer : StoreOptions → Result (GoMap Bytes Bytes)) (get_name : V → Bytes)
      (zero : V) where
    abbrev sent_with :
        StoreOptions
        → Method
        → Bytes
        → Option (Result W)
        → (Data W → Result (Unit {0}))
        → Exec S (Unit {0})
    unfolding query_options do_request
    sent_with opts method target body f s =
        continue (serializer opts, s)
          (λ q t. let r = do_request http method target body (query_options q) t in (f r.0, r.1))

    abbrev unless_renamed : Bytes → V → Exec S (Unit {0}) → Exec S (Unit {0})
    unfolding bytes_eqb
    unless_renamed key value m s =
        if bytes_eqb key (get_name value) then m s else (err err_key_mismatch, s)

    -- Create
    unfoldable pub client_create : Bytes → V → StoreOptions → Exec S (Unit {0})
    unfolding sent_with unless_renamed expect
    client_create key value opts =
        unless_renamed key value (sent_with opts post url (some (web.marshal value)) (expect 201))

    -- Read
    unfoldable pub client_read : Bytes → StoreOptions → Exec S V
    unfolding query_options do_request
    client_read key opts s =
        continue (serializer opts, s)
          (λ q t.
            let r = do_request http get (item_url url key) none (query_options q) t in
            (parsed zero (parse web.unmarshal r.0), r.1))

    -- Update
    unfoldable pub client_update : Bytes → V → StoreOptions → Exec S (Unit {0})
    unfolding sent_with unless_renamed expect
    client_update key value opts =
        unless_renamed key value
          (sent_with opts put (item_url url key) (some (web.marshal value)) (expect 200))

    -- Apply
    unfoldable pub client_apply : Bytes → V → StoreOptions → Exec S (Unit {0})
    unfolding sent_with unless_renamed expect
    client_apply key value opts =
        unless_renamed key value
          (sent_with opts post (item_url url key) (some (web.marshal value)) (expect 200))

    -- Delete
    unfoldable pub client_delete : Bytes → StoreOptions → Exec S (Unit {0})
    unfolding sent_with expect
    client_delete key opts = sent_with opts delete (item_url url key) none (expect 204)

    -- List
    unfoldable pub client_list : StoreOptions → Exec S (List (ListItem Bytes V))
    unfolding query_options do_request
    client_list opts s =
        continue (serializer opts, s)
          (λ q t.
            let r = do_request http get url none (query_options q) t in
            (parsed [] (parse web.unmarshal_items r.0), r.1))

    -- New
    abbrev pub client : Store S Bytes V
    client = record {
      create = client_create;
      read = client_read;
      update = client_update;
      apply = client_apply;
      delete = client_delete;
      list = client_list;
    }
