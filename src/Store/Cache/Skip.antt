-- ===== src/Store/Cache/Skip.antt =====
-- How a cache comes to hold what its store holds, and that a listing past the cache does not renew
-- it.
use golibs.Prelude.{true, Option, none, some, ◌≡◌, refl, sym, ap, subst, ◌∙◌, Key}
use golibs.Exec.{Result, ok, err, continue}
use golibs.Store.{Store}
use golibs.Store.Options.{nil, cons, skip_cache, match_skip_cache}
use golibs.Store.Spec.{Agrees, Lists, Implements}
use golibs.Store.Lift.{on_left, on_right, right, left-Implements, right-Implements}
use golibs.Store.DefaultMap.Clone.{copied, clone-Agrees}
use golibs.Store.Cache.{cache_list, cache_new, newer}
use golibs.Store.Cache.Coherent.{Coherent}

module _ {ℓ} {S T K V : Type ℓ} ⦃o : Key K⦄ (Inv : S → Type ℓ) (view : S → K → Option V)
    (Inw : T → Type ℓ) (wiew : T → K → Option V) where
  copied-newer : (ours theirs : Option V) → copied newer ours theirs ≡ theirs
  copied-newer ours none = refl
  copied-newer none (some v) = refl
  copied-newer (some u) (some v) = refl

  module _ (persistent : Store S K V) (local : Store T K V) (good : Implements Inv view persistent)
      (also : Implements Inw wiew local) where
    -- The store is valid and shows the map `m`.
    abbrev Fixed : (K → Option V) → S → Type ℓ
    Fixed m s = Inv s × ((j : K) → view s j ≡ m j)

    copy_persistent :
        (m : K → Option V) (w : S × T)
        → Fixed m w.0 × Inw w.1
        → Agrees
            (λ x. Fixed m x.0 × Inw x.1)
            (λ x. wiew x.1)
            (cache_new persistent local w)
            (ok tt, λ j. copied newer (wiew w.1 j) (m j))
    unfolding cache_new
    copy_persistent m w h =
        clone-Agrees (λ x. Fixed m x.0 × Inw x.1) (λ x. wiew x.1) (on_right local)
          (on_left persistent) (right-Implements Inw wiew local also (Fixed m)) newer (λ x. m)
          (λ x hx.
            let g = good.lists x.0 hx.0.0 in
            record {
              items = g.items;
              result = g.result;
              ascending = g.ascending;
              listed = λ j. g.listed j ∙ hx.0.1 j;
              holds = λ j. refl;
              valid = ((g.valid, λ j. g.holds j ∙ hx.0.1 j), hx.1);
            })
          w h

    -- New succeeds over any two stores that implement maps, whatever the cache held before: it
    -- leaves the map of the store as it is, and the cache holds the same map.
    pub cache_new-Coherent :
        (s : S) (t : T)
        → Inv s
        → Inw t
        → let r = cache_new persistent local (s, t) in
          (r.0 ≡ ok tt) × Coherent Inv view Inw wiew r.1 × ((j : K) → view r.1.0 j ≡ view s j)
    cache_new-Coherent s t h k =
        let g = copy_persistent (view s) (s, t) ((h, λ j. refl), k) in
        (
          g.result,
          record {
            store_valid = g.valid.0.0;
            cache_valid = g.valid.1;
            equal = λ j. g.holds j ∙ copied-newer (wiew t j) (view s j) ∙ sym (g.valid.0.1 j);
          },
          g.valid.0.1,
        )

    listed_behind :
        (t : T) (r : Result (Unit {0}) × (S × T)) (m : K → Option V)
        → Inw t
        → Agrees (λ x. Inv x.0 × (x.1 ≡ t)) (λ x. view x.0) r (ok tt, m)
        → Lists
            (λ x. Inv x.0 × Inw x.1)
            (λ x. wiew x.1)
            (continue r (λ _. right (local.list nil)))
            (wiew t)
            (wiew t)
    listed_behind t (ok x, (s, u)) m h g =
        let f = also.lists u (subst Inw (sym g.valid.1) h) in
        record {
          items = f.items;
          result = f.result;
          ascending = f.ascending;
          listed = λ j. f.listed j ∙ ap (λ y. wiew y j) g.valid.1;
          holds = λ j. f.holds j ∙ ap (λ y. wiew y j) g.valid.1;
          valid = (g.valid.0, f.valid);
        }
    listed_behind t (err x, w) m h g = let never : ⊥ = cc g.result in absurd never

    -- Over two stores that implement maps: a listing that asks to skip the cache, and carries no other option, lists the map of the
    -- cache, and leaves that map as it is, whatever the store holds.
    pub list-skip_stale :
        (s : S) (t : T)
        → Inv s
        → Inw t
        → Lists
            (λ x. Inv x.0 × Inw x.1)
            (λ x. wiew x.1)
            (cache_list persistent local (cons (skip_cache true) nil) (s, t))
            (wiew t)
            (wiew t)
    unfolding cache_list match_skip_cache
    list-skip_stale s t h k = listed_behind t _ _ k (
        clone-Agrees (λ x. Inv x.0 × (x.1 ≡ t)) (λ x. view x.0) (on_left persistent)
          (on_left persistent) (left-Implements Inv view persistent good (λ u. u ≡ t)) newer
          (λ x. view x.0)
          (λ x hx. (left-Implements Inv view persistent good (λ u. u ≡ t)).lists x hx) (s, t)
          (h, refl))
