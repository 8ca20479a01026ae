-- ===== src/Store/Memory/Refines.antt =====
-- The in-memory store implements a partial map.
use golibs.Prelude.{
  ap, sym, subst, is_some, Bool, true, false, ◌&&◌, not, Option, none, some, List, [], ◌∷◌, ◌≡◌,
  refl, Key, arith, if◌then◌else◌, Bool-cases, Option-cases, inl, inr, ◌∙◌, Bytes, is_empty,
  value_or,
}
use golibs.GoMap.{GoMap, lookup, remove, IsMap}
use golibs.GoMap
use golibs.Errors.{Error}
use golibs.GoMap.Laws.{lookup-store, lookup-remove, store-IsMap, remove-IsMap}
use golibs.Exec.{Result, ok, err}
use golibs.Store.{ListItem}
use golibs.Store.Listing.{find, Ascending, sort_items, find-insert_item, Ascending-insert_item}
use golibs.Store.Spec.{
  put, spec_create, spec_read, spec_update, spec_delete, Agrees, Lists, Implements,
}
use golibs.Store.Options.{
  StoreOptions, nil, match_dry_run, match_prefix, match_list_key_only, check_options_exhausted,
}
use golibs.Store.Memory.{
  memory, memory_create, memory_read, memory_update, memory_apply, memory_delete, memory_list,
  collect, skipped, refuse,
}

abbrev pub shown {ℓ} : {V : Type ℓ} → V → Bool → Option V → Option V
shown zero keys_only none = none
shown zero keys_only (some v) = some (if keys_only then zero else v)

pub shown-false {ℓ} : {V : Type ℓ} (zero : V) (w : Option V) → shown zero false w ≡ w
shown-false zero none = refl
shown-false zero (some v) = refl

-- A method that lists behind two refusals: when it succeeds, it lists.
gate {ℓ κ} :
    {S : Type ℓ} {A : Type κ} (b : Bool) (c : Error) (e : Option Error) (f : S → A) (s : S) (a : A)
    → (if b then (err c, s) else refuse e (λ n. (ok (f n), n)) s).0 ≡ ok a
    → (f s ≡ a) × ((if b then (err c, s) else refuse e (λ n. (ok (f n), n)) s).1 ≡ s)
gate true c e f s a h = cc
gate false c (some x) f s a h = cc
gate false c none f s a h = ground arith

module _ {ℓ} {K V : Type ℓ} ⦃o : Key K⦄ where
  abbrev pub view : GoMap K V → K → Option V
  view m k = lookup k m

  unchanged {κ} :
      {A : Type κ} (m : GoMap K V) (r : Result A) → IsMap m → Agrees IsMap view (r, m) (r, view m)
  unchanged m r h = record { result = refl; holds = λ j. refl; valid = h }

  stored :
      (k : K) (v : V) (m : GoMap K V)
      → IsMap m
      → Agrees IsMap view (ok (tt {0}), GoMap.store k v m) (ok tt, put k v (view m))
  stored k v m h = record {
    result = refl;
    holds = λ j. lookup-store k j v m;
    valid = store-IsMap k v m h;
  }

  creates_lem :
      (k : K) (v : V) (m : GoMap K V)
      → IsMap m
      → Agrees IsMap view (memory_create k v nil m) (spec_create k v (view m) (view m k))
  unfolding memory_create match_dry_run check_options_exhausted
  creates_lem k v m h = elim (Option-cases (lookup k m)) [
    | inl e ↦ rw e (stored k v m h)
    | inr (w, e) ↦ rw e (unchanged m _ h)
  ]

  reads_lem :
      (k : K) (m : GoMap K V)
      → IsMap m
      → Agrees IsMap view (memory_read k nil m) (spec_read (view m) (view m k))
  unfolding memory_read check_options_exhausted
  reads_lem k m h = elim (Option-cases (lookup k m)) [
    | inl e ↦ rw e (unchanged m _ h)
    | inr (w, e) ↦ rw e (unchanged m _ h)
  ]

  updates_lem :
      (k : K) (v : V) (m : GoMap K V)
      → IsMap m
      → Agrees IsMap view (memory_update k v nil m) (spec_update k v (view m) (view m k))
  unfolding memory_update match_dry_run
  updates_lem k v m h = elim (Option-cases (lookup k m)) [
    | inl e ↦ rw e (unchanged m _ h)
    | inr (w, e) ↦ rw e (stored k v m h)
  ]

  applies_lem :
      (k : K) (v : V) (m : GoMap K V)
      → IsMap m
      → Agrees IsMap view (memory_apply k v nil m) (ok tt, put k v (view m))
  unfolding memory_apply match_dry_run check_options_exhausted
  applies_lem k v m h = stored k v m h

  deletes_lem :
      (k : K) (m : GoMap K V)
      → IsMap m
      → Agrees IsMap view (memory_delete k nil m) (spec_delete k (view m) (view m k))
  unfolding memory_delete match_dry_run check_options_exhausted
  deletes_lem k m h = elim (Option-cases (lookup k m)) [
    | inl e ↦ rw e (unchanged m _ h)
    | inr (w, e) ↦
        rw e
          (record { result = refl; holds = λ j. lookup-remove k j m; valid = remove-IsMap k m h })
  ]

  module _ (zero : V) where
    -- What a listing with a prefix and with or without values shows of a map.
    abbrev pub listed_view : Bytes → Bool → GoMap K V → K → Option V
    listed_view prefix keys_only m j =
        if skipped prefix j then none else shown zero keys_only (lookup j m)

    abbrev entry : Bool → K → V → ListItem K V
    entry keys_only k v = record { key = k; value = if keys_only then zero else v }

    pub find-collect :
        (prefix : Bytes) (keys_only : Bool) (m : GoMap K V) (j : K)
        → IsMap m
        → find j (sort_items (collect zero prefix keys_only m)) ≡ listed_view prefix keys_only m j
    unfolding collect sort_items find lookup
    find-collect prefix keys_only [] j h = ground arith
    find-collect prefix keys_only ((k, v) ∷ m) j h = elim (Bool-cases (skipped prefix k)) [
      | inl e ↦ rw e (ground (arith, find-collect prefix keys_only m j h.1, o.eqb_iff k j))
      | inr e ↦ rw e (
          ground (
            arith,
            find-collect prefix keys_only m j h.1,
            find-collect prefix keys_only m k h.1,
            find-insert_item j (entry keys_only k v) (sort_items (collect zero prefix keys_only m)),
            o.eqb_iff k j,
          ))
    ]

    pub Ascending-collect :
        (prefix : Bytes) (keys_only : Bool) (m : GoMap K V)
        → IsMap m
        → Ascending (sort_items (collect zero prefix keys_only m))
    unfolding collect sort_items lookup
    Ascending-collect prefix keys_only [] h = tt
    Ascending-collect prefix keys_only ((k, v) ∷ m) h = elim (Bool-cases (skipped prefix k)) [
      | inl e ↦ rw e (Ascending-collect prefix keys_only m h.1)
      | inr e ↦ rw e (
          Ascending-insert_item (entry keys_only k v) (sort_items (collect zero prefix keys_only m))
            (ground (arith, find-collect prefix keys_only m k h.1))
            (Ascending-collect prefix keys_only m h.1))
    ]

    -- A listing that succeeds, with any options, is in ascending order; it holds the keys with the
    -- prefix that the options ask for, all keys if they ask for none, with the values of the map,
    -- or with zero values if the options ask for the keys only. It leaves the map as it is.
    pub memory_list-listed :
        (opts : StoreOptions) (m : GoMap K V) (items : List (ListItem K V))
        → IsMap m
        → (memory_list zero opts m).0 ≡ ok items
        → let p = match_prefix opts in
          Ascending items
          × ((j : K)
              → find j items
                ≡ listed_view (value_or p.0 []) (value_or (match_list_key_only p.1).0 false) m j)
          × ((memory_list zero opts m).1 ≡ m)
    unfolding memory_list
    memory_list-listed opts m items h e =
        let p = match_prefix opts in
        let prefix = value_or p.0 [] in
        let q = match_list_key_only p.1 in
        let g =
          gate (not (is_empty prefix) && not (is_some (o.as_string o.zero_key))) _
            (check_options_exhausted q.1)
            (λ (n : GoMap K V). sort_items (collect zero prefix (value_or q.0 false) n)) m items
            e in
        (
          subst Ascending g.0 (Ascending-collect prefix (value_or q.0 false) m h),
          λ j. ap (find j) (sym g.0) ∙ find-collect prefix (value_or q.0 false) m j h,
          g.1,
        )

    lists_lem :
        (m : GoMap K V) → IsMap m → Lists IsMap view (memory_list zero nil m) (view m) (view m)
    unfolding memory_list match_prefix match_list_key_only check_options_exhausted
    lists_lem m h = record {
      items = sort_items (collect zero [] false m);
      result = refl;
      ascending = Ascending-collect [] false m h;
      listed = λ j. find-collect [] false m j h ∙ shown-false zero (lookup j m);
      holds = λ j. refl;
      valid = h;
    }

    -- The in-memory store, without options, behaves as a partial map: each method has the result
    -- and the effect that the map gives it, errors included, and List is in ascending order.
    pub memory-Implements : Implements IsMap view (memory zero)
    memory-Implements = record {
      creates = creates_lem;
      reads = reads_lem;
      updates = updates_lem;
      applies = applies_lem;
      deletes = deletes_lem;
      lists = lists_lem;
    }
