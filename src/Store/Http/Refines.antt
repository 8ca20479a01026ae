-- ===== src/Store/Http/Refines.antt =====
-- The client over the handlers, through a network that loses nothing, shows the map of the store
-- behind the handlers.
use golibs.Prelude.{
  ℕ, false, Option, none, some, List, [], ◌∷◌, ◌≡◌, refl, ap, ◌∙◌, ◌==◌, Bytes, bytes_key,
  Option-cases, inl, inr,
}
use golibs.GoMap.{GoMap}
use golibs.Errors.{Error}
use golibs.Exec.{Result, ok, err}
use golibs.Http.{parse}
use golibs.Store.{Store, ListItem}
use golibs.Store.Options.{StoreOptions, nil}
use golibs.Store.Labels.{Selectors}
use golibs.Store.Http.{Web, Config, Write, json, status_only, missing_status, other_status}
use golibs.Store.Http.Client.{parsed}
use golibs.Store.Http.Served.{Documented, Bare, response, replied_with, outcome}
use golibs.Errors.{status_code_as_err, has_code, is_error, err_conflict, err_not_found}
use golibs.Store.Spec.{spec_create, spec_read, spec_update, spec_delete, Agrees, Lists, Implements}
use golibs.Store.Http.Outcomes.{
  remote, create-outcome, update-outcome, apply-outcome, delete-outcome, read-outcome, list-outcome,
}
use golibs.Store.Http.Responses.{Serves, expect-same, expect-error, parsed-ok, parsed-status}

module _ {S W V Sel Req : Type 0} (web : Web W V) (k8s : Selectors Sel Req) (cfg : Config)
    (inner : Store S Bytes V) (validate : V → Option Error) (get_name : V → Bytes) (url : Bytes)
    (Name : Bytes → Type 0) (d : Documented web url Name) (Inv : S → Type 0)
    (view : S → Bytes → Option V) where
  outcome-ok :
      (code : Error → ℕ) (c : ℕ) (also : List (Write W)) (r : Result (Unit {0}) × S)
      (m : Bytes → Option V)
      → Agrees Inv view r (ok tt, m)
      → Agrees Inv view (outcome web k8s cfg inner validate get_name code c also r) (ok tt, m)
  unfolding outcome
  outcome-ok code c also (err e, t) m g = let never : ⊥ = cc g.result in absurd never
  outcome-ok code c also (ok v, t) m g = record {
    result = expect-same c _ (web.sent (status_only c ∷ [])).1 (d.sends_status c);
    holds = g.holds;
    valid = g.valid;
  }

  outcome-err :
      (code : Error → ℕ) (c n : ℕ) (also : List (Write W)) (e : Error) (r : Result (Unit {0}) × S)
      (m : Bytes → Option V)
      → code e ≡ n
      → status_code_as_err n ≡ some e
      → (n == c) ≡ false
      → Agrees Inv view r (err e, m)
      → Agrees Inv view (outcome web k8s cfg inner validate get_name code c also r) (err e, m)
  unfolding outcome
  outcome-err code c n also e (ok v, t) m h k l g = let never : ⊥ = cc g.result in absurd never
  outcome-err code c n also e (err x, t) m h k l g =
      let p : x ≡ e = cc g.result in
      record {
        result =
            expect-error c _ n (web.sent (json (code x) (web.render_error x) ∷ also)).1 e
              (d.sends_first (code x) (web.render_error x) also ∙ ap code p ∙ h) k l;
        holds = g.holds;
        valid = g.valid;
      }

  module _ (b : Bare cfg) (serializer : StoreOptions → Result (GoMap Bytes Bytes))
      (q : serializer nil ≡ ok []) (zero : V)
      (lenient : (e : Error) → (v : V) × (web.unmarshal (web.render_error e) ≡ ok v))
      (good : Implements Inv view inner) where
    abbrev pub remote_store : Store S Bytes V
    remote_store = remote web k8s cfg inner validate get_name url Name d b serializer q zero

    creates_lem :
        (v : V) (s : S)
        → validate v ≡ none
        → Inv s
        → Agrees Inv view
            (remote_store.create (get_name v) v nil s)
            (spec_create (get_name v) v (view s) (view s (get_name v)))
    unfolding is_error status_code_as_err has_code
    creates_lem v s t h =
        let k = get_name v in
        rw (create-outcome web k8s cfg inner validate get_name url Name d b serializer q zero v s t)
          (elim (Option-cases (view s k)) [
            | inl e ↦ rw e (outcome-ok _ 201 _ _ _ (rw e at (good.creates k v s h)))
            | inr (w, e) ↦ rw e (
                outcome-err _ 201 409 _ err_conflict _ _ refl refl refl
                  (rw e at (good.creates k v s h)))
          ])

    updates_lem :
        (v : V) (s : S)
        → Name (get_name v)
        → validate v ≡ none
        → Inv s
        → Agrees Inv view
            (remote_store.update (get_name v) v nil s)
            (spec_update (get_name v) v (view s) (view s (get_name v)))
    unfolding is_error status_code_as_err has_code
    updates_lem v s n t h =
        let k = get_name v in
        rw
          (update-outcome web k8s cfg inner validate get_name url Name d b serializer q zero v s n
            t)
          (elim (Option-cases (view s k)) [
            | inr (w, e) ↦ rw e (outcome-ok _ 200 _ _ _ (rw e at (good.updates k v s h)))
            | inl e ↦ rw e (
                outcome-err _ 200 404 _ err_not_found _ _ refl refl refl
                  (rw e at (good.updates k v s h)))
          ])

    deletes_lem :
        (k : Bytes) (s : S)
        → Name k
        → Inv s
        → Agrees Inv view (remote_store.delete k nil s) (spec_delete k (view s) (view s k))
    unfolding is_error status_code_as_err has_code
    deletes_lem k s n h =
        rw (delete-outcome web k8s cfg inner validate get_name url Name d b serializer q zero k s n)
          (elim (Option-cases (view s k)) [
            | inr (w, e) ↦ rw e (outcome-ok _ 204 _ _ _ (rw e at (good.deletes k s h)))
            | inl e ↦ rw e (
                outcome-err _ 204 404 _ err_not_found _ _ refl refl refl
                  (rw e at (good.deletes k s h)))
          ])

    abbrev read_back : Result V × S → Result V × S
    read_back r =
        let w = replied_with web k8s cfg inner validate get_name missing_status web.render r in
        (parsed zero (parse web.unmarshal (response web k8s cfg inner validate get_name w.0)), w.1)

    read_back-ok :
        (a : V) (m : Bytes → Option V) (r : Result V × S)
        → Agrees Inv view r (ok a, m)
        → Agrees Inv view (read_back r) (ok a, m)
    read_back-ok a m (err e, t) g = let never : ⊥ = cc g.result in absurd never
    read_back-ok a m (ok x, t) g =
        let e : x ≡ a = cc g.result in
        record {
          result =
              parsed-ok web.unmarshal zero a _ _ (d.sends_first 200 (web.render x) [])
                (ap web.unmarshal (d.sends_body 200 (web.render x)) ∙ d.round_trip x ∙ ap ok e);
          holds = g.holds;
          valid = g.valid;
        }

    read_back-missing :
        (m : Bytes → Option V) (r : Result V × S)
        → Agrees Inv view r (err err_not_found, m)
        → Agrees Inv view (read_back r) (err err_not_found, m)
    unfolding is_error status_code_as_err has_code
    read_back-missing m (ok x, t) g = let never : ⊥ = cc g.result in absurd never
    read_back-missing m (err x, t) g =
        let e : x ≡ err_not_found = cc g.result in
        record {
          result =
              parsed-status web.unmarshal zero (lenient x).0 _ _ 404 err_not_found
                (d.sends_first (missing_status x) (web.render_error x) [] ∙ ap missing_status e)
                (ap web.unmarshal (d.sends_body (missing_status x) (web.render_error x))
                  ∙ (lenient x).1)
                refl;
          holds = g.holds;
          valid = g.valid;
        }

    reads_lem :
        (k : Bytes) (s : S)
        → Name k
        → Inv s
        → Agrees Inv view (remote_store.read k nil s) (spec_read (view s) (view s k))
    reads_lem k s n h =
        rw (read-outcome web k8s cfg inner validate get_name url Name d b serializer q zero k s n)
          (elim (Option-cases (view s k)) [
            | inr (w, e) ↦ rw e (read_back-ok w (view s) _ (rw e at (good.reads k s h)))
            | inl e ↦ rw e (read_back-missing (view s) _ (rw e at (good.reads k s h)))
          ])

    list_back :
        (s : S) (r : Result (List (ListItem Bytes V)) × S)
        → Lists Inv view r (view s) (view s)
        → let w =
            replied_with web k8s cfg inner validate get_name other_status web.render_items r in
          Lists Inv view
            (
              parsed []
                  (parse web.unmarshal_items (response web k8s cfg inner validate get_name w.0)),
              w.1,
            )
            (view s)
            (view s)
    list_back s (err e, t) g = let never : ⊥ = cc g.result in absurd never
    list_back s (ok xs, t) g =
        let e : xs ≡ g.items = cc g.result in
        record {
          items = g.items;
          result =
              parsed-ok web.unmarshal_items [] g.items _ _
                (d.sends_first 200 (web.render_items xs) [])
                (ap web.unmarshal_items (d.sends_body 200 (web.render_items xs))
                  ∙ d.round_trip_items xs
                  ∙ ap ok e);
          ascending = g.ascending;
          listed = g.listed;
          holds = g.holds;
          valid = g.valid;
        }

    -- Over a server that sets no labels, in front of a store that implements a map, and a network that
    -- loses nothing: the client shows the map of that store. Create, Update, Apply and Delete have the
    -- effect and the result that the map gives them, with the errors for a key that is missing or
    -- taken, for valid values under their names; Read returns what was stored, and List lists the map
    -- in ascending order. The names are those that can stand in a URL, but for Create and List. That
    -- is for values that all marshal and come back as they were, for bodies of errors that all
    -- unmarshal into a value without an error, for URLs that NewRequest takes, and for calls without
    -- options, which serialize to no parameters, and which the server parses as no options.
    pub client-Serves : Serves Inv view validate get_name Name remote_store
    client-Serves = record {
      creates = creates_lem;
      reads = reads_lem;
      updates = updates_lem;
      applies = λ v s n t h.
          rw
            (apply-outcome web k8s cfg inner validate get_name url Name d b serializer q zero v s n
              t)
            (outcome-ok _ 200 _ _ _ (good.applies (get_name v) v s h));
      deletes = deletes_lem;
      lists = λ s h.
          rw (list-outcome web k8s cfg inner validate get_name url Name d b serializer q zero s)
            (list_back s _ (good.lists s h));
    }
