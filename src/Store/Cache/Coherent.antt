-- ===== src/Store/Cache/Coherent.antt =====
-- A cache that holds what its store holds goes on to do so, and cannot be seen.
use golibs.Prelude.{Option, none, some, ◌≡◌, refl, sym, subst, fun_ext, ◌∙◌, Key}
use golibs.Errors.{Error}
use golibs.Exec.{Result, ok, err, Exec}
use golibs.Store.{Store}
use golibs.Store.Options.{nil, match_skip_cache}
use golibs.Store.Spec.{
  put, spec_create, spec_read, spec_update, spec_delete, Agrees, Lists, Implements,
}
use golibs.Store.Cache.{
  write_through, or_persistent, cache_create, cache_read, cache_update, cache_apply, cache_delete,
  cache_list, cached,
}

module _ {ℓ} {S T K V : Type ℓ} ⦃o : Key K⦄ (Inv : S → Type ℓ) (view : S → K → Option V)
    (Inw : T → Type ℓ) (wiew : T → K → Option V) where
  -- Both parts are valid, and the cache holds what the store holds.
  pub record Coherent (w : S × T) : Type ℓ where
    pub store_valid : Inv w.0
    pub cache_valid : Inw w.1
    pub equal : (j : K) → wiew w.1 j ≡ view w.0 j

  abbrev pub shown : S × T → K → Option V
  shown w = view w.0

  -- A write that both parts do in the same way, and that changes nothing where it fails.
  both_write :
      (r : Result (Unit {0}) × S) (local : Exec T (Unit {0})) (t : T)
      (e : Result (Unit {0}) × (K → Option V)) (m : K → Option V)
      → ((j : K) → wiew t j ≡ m j)
      → Inw t
      → Agrees Inv view r e
      → Agrees Inw wiew (local t) e
      → ((x : Error) → e.0 ≡ err x → (j : K) → e.1 j ≡ m j)
      → Agrees Coherent shown (write_through r local t) e
  both_write (ok x, s) local t e m h i g f keeps = record {
    result = g.result;
    holds = g.holds;
    valid = record {
      store_valid = g.valid;
      cache_valid = f.valid;
      equal = λ j. f.holds j ∙ sym (g.holds j);
    };
  }
  both_write (err x, s) local t e m h i g f keeps = record {
    result = g.result;
    holds = g.holds;
    valid = record {
      store_valid = g.valid;
      cache_valid = i;
      equal = λ j. h j ∙ sym (g.holds j ∙ keeps x (sym g.result) j);
    };
  }

  module _ (persistent : Store S K V) (local : Store T K V) (good : Implements Inv view persistent)
      (also : Implements Inw wiew local) where
    creates_lem :
        (k : K) (v : V) (w : S × T)
        → Coherent w
        → Agrees Coherent shown
            (cache_create persistent local k v nil w)
            (spec_create k v (shown w) (shown w k))
    unfolding cache_create
    creates_lem k v (s, t) c =
        both_write _ _ t _ (view s) c.equal c.cache_valid (good.creates k v s c.store_valid)
          (subst
            (λ (m : K → Option V).
              Agrees Inw wiew (local.create k v nil t) (spec_create k v m (m k)))
            (fun_ext c.equal) (also.creates k v t c.cache_valid))
          (keeps (view s k))
      where
        keeps :
            (o : Option V) (x : Error)
            → (spec_create k v (view s) o).0 ≡ err x
            → (j : K) → (spec_create k v (view s) o).1 j ≡ view s j
        keeps none x e j = cc
        keeps (some y) x e j = refl

    updates_lem :
        (k : K) (v : V) (w : S × T)
        → Coherent w
        → Agrees Coherent shown
            (cache_update persistent local k v nil w)
            (spec_update k v (shown w) (shown w k))
    unfolding cache_update
    updates_lem k v (s, t) c =
        both_write _ _ t _ (view s) c.equal c.cache_valid (good.updates k v s c.store_valid)
          (subst
            (λ (m : K → Option V).
              Agrees Inw wiew (local.update k v nil t) (spec_update k v m (m k)))
            (fun_ext c.equal) (also.updates k v t c.cache_valid))
          (keeps (view s k))
      where
        keeps :
            (o : Option V) (x : Error)
            → (spec_update k v (view s) o).0 ≡ err x
            → (j : K) → (spec_update k v (view s) o).1 j ≡ view s j
        keeps none x e j = refl
        keeps (some y) x e j = cc

    deletes_lem :
        (k : K) (w : S × T)
        → Coherent w
        → Agrees Coherent shown
            (cache_delete persistent local k nil w)
            (spec_delete k (shown w) (shown w k))
    unfolding cache_delete
    deletes_lem k (s, t) c =
        both_write _ _ t _ (view s) c.equal c.cache_valid (good.deletes k s c.store_valid)
          (subst
            (λ (m : K → Option V). Agrees Inw wiew (local.delete k nil t) (spec_delete k m (m k)))
            (fun_ext c.equal) (also.deletes k t c.cache_valid))
          (keeps (view s k))
      where
        keeps :
            (o : Option V) (x : Error)
            → (spec_delete k (view s) o).0 ≡ err x
            → (j : K) → (spec_delete k (view s) o).1 j ≡ view s j
        keeps none x e j = refl
        keeps (some y) x e j = cc

    applies_lem :
        (k : K) (v : V) (w : S × T)
        → Coherent w
        → Agrees Coherent shown (cache_apply persistent local k v nil w) (ok tt, put k v (shown w))
    unfolding cache_apply
    applies_lem k v (s, t) c =
        both_write _ _ t _ (view s) c.equal c.cache_valid (good.applies k v s c.store_valid)
          (subst (λ (m : K → Option V). Agrees Inw wiew (local.apply k v nil t) (ok tt, put k v m))
            (fun_ext c.equal) (also.applies k v t c.cache_valid))
          (λ x e j. cc)

    -- A read of the cache, and of the store if the cache has no value.
    behind_cache :
        (k : K) (s : S) (q : Result V × T) (x : Option V)
        → Inv s
        → Agrees Inw wiew q (spec_read (view s) x)
        → view s k ≡ x
        → Agrees Coherent shown (or_persistent q (persistent.read k nil) s) (spec_read (view s) x)
    behind_cache k s (ok v, t) none i f e = let never : ⊥ = cc f.result in absurd never
    behind_cache k s (ok v, t) (some y) i f e = record {
      result = f.result;
      holds = λ j. refl;
      valid = record { store_valid = i; cache_valid = f.valid; equal = f.holds };
    }
    behind_cache k s (err z, t) none i f e =
        let g = rw e at (good.reads k s i) in
        record {
          result = g.result;
          holds = g.holds;
          valid = record {
            store_valid = g.valid;
            cache_valid = f.valid;
            equal = λ j. f.holds j ∙ sym (g.holds j);
          };
        }
    behind_cache k s (err z, t) (some y) i f e = let never : ⊥ = cc f.result in absurd never

    reads_lem :
        (k : K) (w : S × T)
        → Coherent w
        → Agrees Coherent shown
            (cache_read persistent local k nil w)
            (spec_read (shown w) (shown w k))
    unfolding cache_read match_skip_cache
    reads_lem k (s, t) c =
        behind_cache k s (local.read k nil t) (view s k) c.store_valid
          (subst (λ (m : K → Option V). Agrees Inw wiew (local.read k nil t) (spec_read m (m k)))
            (fun_ext c.equal) (also.reads k t c.cache_valid))
          refl

    lists_lem :
        (w : S × T)
        → Coherent w
        → Lists Coherent shown (cache_list persistent local nil w) (shown w) (shown w)
    unfolding cache_list match_skip_cache
    lists_lem (s, t) c =
        let f = also.lists t c.cache_valid in
        record {
          items = f.items;
          result = f.result;
          ascending = f.ascending;
          listed = λ j. f.listed j ∙ c.equal j;
          holds = λ j. refl;
          valid = record {
            store_valid = c.store_valid;
            cache_valid = f.valid;
            equal = λ j. f.holds j ∙ c.equal j;
          };
        }

    -- Over two stores that implement maps, and where the cache holds what the store holds: the
    -- store with its cache implements the map of the store, for calls without options, and the
    -- cache goes on to hold what the store holds, also behind a call that fails.
    pub cached-Implements : Implements Coherent shown (cached persistent local)
    cached-Implements = record {
      creates = creates_lem;
      reads = reads_lem;
      updates = updates_lem;
      applies = applies_lem;
      deletes = deletes_lem;
      lists = lists_lem;
    }
