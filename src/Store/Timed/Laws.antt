-- ===== src/Store/Timed/Laws.antt =====
-- A timed store shows the values of the store behind it.
use golibs.Prelude.{
  ℕ, Option, none, some, List, [], ◌∷◌, ◌≡◌, refl, ap, ◌∙◌, Key, arith, if◌then◌else◌, Option-cases,
  inl, inr, Bool-cases,
}
use golibs.Errors.{err_not_found}
use golibs.Exec.{Result, ok, err, continue, pure, ◌>>◌}
use golibs.Store.{Store, ListItem}
use golibs.Store.Options.{nil}
use golibs.Store.Listing.{find, Above, Ascending}
use golibs.Store.Spec.{
  put, drop, spec_create, spec_read, spec_update, spec_delete, Agrees, Lists, Implements,
}
use golibs.Store.Timed.{
  Config, CacheItem, new_cache_item, refresh_timestamp, values, timed, timed_read, timed_list,
}

abbrev pub bare {ℓ} : {V : Type ℓ} → Option (CacheItem V) → Option V
bare none = none
bare (some x) = some x.value

module _ {ℓ} {K V : Type ℓ} ⦃o : Key K⦄ where
  find-values :
      (j : K) (xs : List (ListItem K (CacheItem V))) → find j (values xs) ≡ bare (find j xs)
  unfolding find values
  find-values j [] = refl
  find-values j (x ∷ xs) = ground (arith, find-values j xs)

  Above-values : (k : K) (xs : List (ListItem K (CacheItem V))) → Above k xs → Above k (values xs)
  unfolding values
  Above-values k [] h = tt
  Above-values k (x ∷ xs) h = (h.0, Above-values k xs h.1)

  Ascending-values : (xs : List (ListItem K (CacheItem V))) → Ascending xs → Ascending (values xs)
  unfolding values
  Ascending-values [] h = tt
  Ascending-values (x ∷ xs) h = (Above-values x.key xs h.0, Ascending-values xs h.1)

  module _ {S : Type ℓ} (Inv : S → Type ℓ) (view : S → K → Option (CacheItem V)) where
    -- What a client of the timed store sees.
    abbrev pub untimed : S → K → Option V
    untimed s j = bare (view s j)

    Agrees-bare {κ} :
        {A : Type κ} {r : Result A × S} (a : Result A) (m : K → Option (CacheItem V))
        (n : K → Option V)
        → Agrees Inv view r (a, m)
        → ((j : K) → bare (m j) ≡ n j)
        → Agrees Inv untimed r (a, n)
    Agrees-bare a m n g h = record {
      result = g.result;
      holds = λ j. ap bare (g.holds j) ∙ h j;
      valid = g.valid;
    }

    bare-put :
        (k : K) (x : CacheItem V) (m : K → Option (CacheItem V)) (j : K)
        → bare (put k x m j) ≡ put k x.value (λ i. bare (m i)) j
    bare-put k x m j = ground (arith)

    bare-drop :
        (k : K) (m : K → Option (CacheItem V)) (j : K)
        → bare (drop k m j) ≡ drop k (λ i. bare (m i)) j
    bare-drop k m j = ground (arith)

    module _ (cfg : Config) (now : ℕ) (inner : Store S K (CacheItem V))
        (good : Implements Inv view inner) where
      creates_lem :
          (k : K) (v : V) (s : S)
          → Inv s
          → Agrees Inv untimed
              ((timed inner cfg now).create k v nil s)
              (spec_create k v (untimed s) (untimed s k))
      creates_lem k v s h = elim (Option-cases (view s k)) [
        | inl e ↦ rw e (
            Agrees-bare _ _ _ (rw e at (good.creates k (new_cache_item now v) s h))
              (bare-put k (new_cache_item now v) (view s)))
        | inr (w, e) ↦
            rw e
              (Agrees-bare _ _ _ (rw e at (good.creates k (new_cache_item now v) s h)) (λ j. refl))
      ]

      updates_lem :
          (k : K) (v : V) (s : S)
          → Inv s
          → Agrees Inv untimed
              ((timed inner cfg now).update k v nil s)
              (spec_update k v (untimed s) (untimed s k))
      updates_lem k v s h = elim (Option-cases (view s k)) [
        | inl e ↦
            rw e
              (Agrees-bare _ _ _ (rw e at (good.updates k (new_cache_item now v) s h)) (λ j. refl))
        | inr (w, e) ↦ rw e (
            Agrees-bare _ _ _ (rw e at (good.updates k (new_cache_item now v) s h))
              (bare-put k (new_cache_item now v) (view s)))
      ]

      deletes_lem :
          (k : K) (s : S)
          → Inv s
          → Agrees Inv untimed (inner.delete k nil s) (spec_delete k (untimed s) (untimed s k))
      deletes_lem k s h = elim (Option-cases (view s k)) [
        | inl e ↦ rw e (Agrees-bare _ _ _ (rw e at (good.deletes k s h)) (λ j. refl))
        | inr (w, e) ↦
            rw e (Agrees-bare _ _ _ (rw e at (good.deletes k s h)) (bare-drop k (view s)))
      ]

      put_back :
          (k : K) (x : CacheItem V) (m : K → Option (CacheItem V)) (j : K)
          → m k ≡ some x
          → bare (put k (refresh_timestamp now x) m j) ≡ bare (m j)
      put_back k x m j e = ground (arith, o.eqb_iff k j)

      values-Lists :
          (s : S) (r : Result (List (ListItem K (CacheItem V))) × S)
          → Lists Inv view r (view s) (view s)
          → Lists Inv untimed (continue r (λ items. pure (values items))) (untimed s) (untimed s)
      values-Lists s (err e, t) g = let never : ⊥ = cc g.result in absurd never
      values-Lists s (ok xs, t) g = record {
        items = values g.items;
        result = let p : xs ≡ g.items = cc g.result in rw p refl;
        ascending = Ascending-values g.items g.ascending;
        listed = λ j. find-values j g.items ∙ ap bare (g.listed j);
        holds = λ j. ap bare (g.holds j);
        valid = g.valid;
      }

      answered :
          (a : V) (m n : K → Option (CacheItem V)) (r : Result (Unit {0}) × S)
          → Agrees Inv view r (ok tt, m)
          → ((j : K) → m j ≡ n j)
          → Agrees Inv view (continue r (λ _. pure a)) (ok a, n)
      answered a m n (err e, w) g h = let never : ⊥ = cc g.result in absurd never
      answered a m n (ok u, w) g h = record {
        result = refl;
        holds = λ j. g.holds j ∙ h j;
        valid = g.valid;
      }

      put-view :
          (k : K) (x : CacheItem V) (m n : K → Option (CacheItem V)) (j : K)
          → ((i : K) → m i ≡ n i)
          → put k x m j ≡ put k x n j
      put-view k x m n j h = rw (h j)

      -- The update that renews the age of an item.
      pub refreshed :
          (k : K) (x : CacheItem V) (m : K → Option (CacheItem V)) (w : S)
          → Inv w
          → ((j : K) → view w j ≡ m j)
          → m k ≡ some x
          → Agrees Inv view
              ((inner.update k (refresh_timestamp now x) nil >> pure x.value) w)
              (ok x.value, put k (refresh_timestamp now x) m)
      refreshed k x m w i h e =
          let g = rw (h k ∙ e) at (good.updates k (refresh_timestamp now x) w i) in
          answered x.value _ _ _ g (λ j. put-view k (refresh_timestamp now x) (view w) m j h)

      reads_behind :
          (k : K) (m : K → Option (CacheItem V)) (r : Result (CacheItem V) × S)
          (x : Option (CacheItem V))
          → Agrees Inv view r (spec_read m x)
          → m k ≡ x
          → Agrees Inv untimed
              (continue r (λ item.
                if cfg.refresh_age_on_read
                then (inner.update k (refresh_timestamp now item) nil >> pure item.value)
                else pure item.value))
              (spec_read (λ j. bare (m j)) (bare x))
      reads_behind k m (ok c, w) none g e = let never : ⊥ = cc g.result in absurd never
      reads_behind k m (err c, w) (some y) g e = let never : ⊥ = cc g.result in absurd never
      reads_behind k m (err c, w) none g e = record {
        result = let p : c ≡ err_not_found = cc g.result in rw p refl;
        holds = λ j. ap bare (g.holds j);
        valid = g.valid;
      }
      reads_behind k m (ok c, w) (some y) g e =
          let p : c ≡ y = cc g.result in
          elim (Bool-cases cfg.refresh_age_on_read) [
            | inl b ↦
                rw (b, p)
                  (Agrees-bare _ _ _ (refreshed k y m w g.valid g.holds e)
                    (λ j. put_back k y m j e))
            | inr b ↦
                rw (b, p)
                  (record { result = refl; holds = λ j. ap bare (g.holds j); valid = g.valid })
          ]

      reads_lem :
          (k : K) (s : S)
          → Inv s
          → Agrees Inv untimed
              (timed_read inner cfg now k nil s)
              (spec_read (untimed s) (untimed s k))
      unfolding timed_read
      reads_lem k s h = reads_behind k (view s) _ (view s k) (good.reads k s h) refl

      lists_lem :
          (s : S) → Inv s → Lists Inv untimed (timed_list inner nil s) (untimed s) (untimed s)
      unfolding timed_list
      lists_lem s h = values-Lists s _ (good.lists s h)

      -- Over a store of items that implements a map, the timed store implements the map of their
      -- values, whatever the clock says and whether or not a read renews the age of its item.
      pub timed-Implements : Implements Inv untimed (timed inner cfg now)
      timed-Implements = record {
        creates = creates_lem;
        reads = reads_lem;
        updates = updates_lem;
        applies = λ k v s h.
            Agrees-bare _ _ _ (good.applies k (new_cache_item now v) s h)
              (bare-put k (new_cache_item now v) (view s));
        deletes = deletes_lem;
        lists = lists_lem;
      }
