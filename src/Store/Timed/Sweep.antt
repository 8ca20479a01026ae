-- ===== src/Store/Timed/Sweep.antt =====
-- What DeleteItemsOlderThan leaves.
use golibs.Prelude.{
  ℕ, true, Option, none, some, List, [], ◌∷◌, ◌≡◌, refl, sym, ◌∙◌, Key, arith, if◌then◌else◌, inl,
  inr, Bool-cases, eqb_refl, ◌+◌, ◌/◌, ◌<◌,
}
use golibs.Exec.{Result, ok, err, continue, pure, ◌>>◌}
use golibs.Store.{Store, ListItem}
use golibs.Store.Options.{nil}
use golibs.Store.Listing.{find, find-Above, Ascending}
use golibs.Store.Spec.{put, Agrees, Lists, Implements}
use golibs.Store.DefaultMap.Laws.{then_Agrees, Agrees-view}
use golibs.Store.Timed.Laws.{refreshed}
use golibs.Store.Timed.{
  refresh_timestamp, timed_read, ℤ, pos, Config, CacheItem, is_expired, nanoseconds, delete_expired,
  delete_items_older_than,
}

module _ {ℓ} {K V : Type ℓ} ⦃o : Key K⦄ (age : ℤ) (clock : K → ℕ) where
  -- An item that is not too old when the clock is read for it.
  abbrev pub fresh : K → Option (CacheItem V) → Option (CacheItem V)
  fresh j none = none
  fresh j (some x) = if is_expired (clock j) x.timestamp age then none else some x

  abbrev swept : K → Option (CacheItem V) → Option (CacheItem V) → Option (CacheItem V)
  swept j none v = v
  swept j (some x) v = fresh j (some x)

  swept_same : (j : K) (v : Option (CacheItem V)) → swept j v v ≡ fresh j v
  swept_same j none = refl
  swept_same j (some x) = refl

  module _ {S : Type ℓ} (Inv : S → Type ℓ) (view : S → K → Option (CacheItem V))
      (inner : Store S K (CacheItem V)) (good : Implements Inv view inner) where
    delete_expired-Agrees :
        (xs : List (ListItem K (CacheItem V))) (w : S)
        → Inv w
        → Ascending xs
        → ((j : K) (x : CacheItem V) → find j xs ≡ some x → view w j ≡ some x)
        → Agrees Inv view
            (delete_expired inner age clock xs w)
            (ok tt, λ j. swept j (find j xs) (view w j))
    unfolding delete_expired find
    delete_expired-Agrees [] w h a f = record { result = refl; holds = λ j. refl; valid = h }
    delete_expired-Agrees (x ∷ xs) w h a f =
        let there : view w x.key ≡ some x.value = f x.key x.value (rw (eqb_refl x.key) refl) in
        let alone : find x.key xs ≡ none = find-Above x.key xs a.0 in
        elim (Bool-cases (is_expired (clock x.key) x.value.timestamp age)) [
          | inl e ↦ rw e (
              then_Agrees Inv view _ _ _ _ (rw there at (good.deletes x.key w h)) (λ u hu q.
                Agrees-view Inv view _ _ _ _
                  (delete_expired-Agrees xs u hu a.1 (λ j y p.
                    (q j ∙ ground (arith, o.eqb_iff x.key j))
                    ∙ f j y (ground (arith, o.eqb_iff x.key j))))
                  (λ j. ground (arith, q j, o.eqb_iff x.key j))))
          | inr e ↦ rw e (
              Agrees-view Inv view _ _ _ _
                (delete_expired-Agrees xs w h a.1
                  (λ j y p. f j y (ground (arith, o.eqb_iff x.key j))))
                (λ j. ground (arith, o.eqb_iff x.key j)))
        ]

    sweep_listed :
        (s : S) (r : Result (List (ListItem K (CacheItem V))) × S)
        → Lists Inv view r (view s) (view s)
        → Agrees Inv view
            (continue r (delete_expired inner age clock))
            (ok tt, λ j. fresh j (view s j))
    sweep_listed s (err e, t) g = let never : ⊥ = cc g.result in absurd never
    sweep_listed s (ok xs, t) g =
        let p : xs ≡ g.items = cc g.result in
        rw p (
          Agrees-view Inv view _ _ _ _
            (delete_expired-Agrees g.items t g.valid g.ascending
              (λ j x e. g.holds j ∙ sym (g.listed j) ∙ e))
            (λ j. rw (g.listed j, g.holds j) (swept_same j (view s j))))

    -- Over a store of items that implements a map, DeleteItemsOlderThan succeeds, and leaves
    -- exactly the items that are not expired by the clock as it stands when they are looked at.
    pub delete_items_older_than-Agrees :
        (s : S)
        → Inv s
        → Agrees Inv view
            (delete_items_older_than inner age clock s)
            (ok tt, λ j. fresh j (view s j))
    unfolding delete_items_older_than
    delete_items_older_than-Agrees s h = sweep_listed s _ (good.lists s h)

module _ {ℓ} {S K V : Type ℓ} ⦃o : Key K⦄ (Inv : S → Type ℓ) (view : S → K → Option (CacheItem V))
    (inner : Store S K (CacheItem V)) (good : Implements Inv view inner) (cfg : Config)
    (renews : cfg.refresh_age_on_read ≡ true) (now : ℕ) where
  renewed :
      (k : K) (x : CacheItem V) (m : K → Option (CacheItem V)) (r : Result (CacheItem V) × S)
      → Agrees Inv view r (ok x, m)
      → m k ≡ some x
      → Agrees Inv view
          (continue r (λ item.
            if cfg.refresh_age_on_read
            then (inner.update k (refresh_timestamp now item) nil >> pure item.value)
            else pure item.value))
          (ok x.value, put k (refresh_timestamp now x) m)
  renewed k x m (err e, w) g h = let never : ⊥ = cc g.result in absurd never
  renewed k x m (ok c, w) g h =
      let p : c ≡ x = cc g.result in
      rw (renews, p) (refreshed Inv view cfg now inner good k x m w g.valid g.holds h)

  timed_read-renews :
      (k : K) (x : CacheItem V) (s : S)
      → Inv s
      → view s k ≡ some x
      → Agrees Inv view
          (timed_read inner cfg now k nil s)
          (ok x.value, put k (refresh_timestamp now x) (view s))
  unfolding timed_read
  timed_read-renews k x s h e = renewed k x (view s) _ (rw e at (good.reads k s h)) e

  -- Where reads renew the age, and over a store of items that implements a map: an item that is
  -- read in the second `now` is still there, with that second as its age, after a sweep for the
  -- age of n nanoseconds that looks at it before the whole seconds of n are over since then.
  pub read-survives :
      (k : K) (x : CacheItem V) (n : ℕ) (clock : K → ℕ) (s : S)
      → Inv s
      → view s k ≡ some x
      → clock k < now + n / nanoseconds
      → let read = timed_read inner cfg now k nil s in
        let after = delete_items_older_than inner (pos n) clock read.1 in
        (read.0 ≡ ok x.value)
        × (after.0 ≡ ok tt)
        × (view after.1 k ≡ some (refresh_timestamp now x))
  unfolding is_expired
  read-survives k x n clock s h e c =
      let g = timed_read-renews k x s h e in
      let f = delete_items_older_than-Agrees (pos n) clock Inv view inner good _ g.valid in
      let r : view (timed_read inner cfg now k nil s).1 k ≡ some (refresh_timestamp now x) =
        g.holds k ∙ rw (eqb_refl k) refl in
      (g.result, f.result, f.holds k ∙ rw r (ground arith))
