-- ===== src/Store/Cache.antt =====
-- pkg/store/middleware/cache: a persistent store with a local cache, side by side in one state.
pub mod Coherent
pub mod Skip
pub mod Replies
use golibs.Prelude.{Bool, true, false, ◌&&◌, not, none, some, List, Key, if◌then◌else◌, value_or}
use golibs.Exec.{Result, ok, err, Exec, ◌>>=◌, ◌>>◌}
use golibs.Store.{Store, ListItem}
use golibs.Store.Options.{StoreOptions, match_skip_cache, is_nil}
use golibs.Store.Lift.{left, right, on_left, on_right}
use golibs.Store.DefaultMap.{clone}

abbrev pub newer {ℓ} : {V : Type ℓ} → V → V → V
newer old new = new

-- A write to the cache behind a write to the store; an error of the cache is dropped.
abbrev pub write_through {ℓ} :
    {S T : Type ℓ} → Result (Unit {0}) × S → Exec T (Unit {0}) → T → Result (Unit {0}) × (S × T)
write_through (err e, s) local t = (err e, (s, t))
write_through (ok x, s) local t = (ok tt, (s, (local t).1))

-- What Read makes of the answer of the cache.
abbrev pub or_persistent {ℓ} : {S T V : Type ℓ} → Result V × T → Exec S V → S → Result V × (S × T)
or_persistent (ok v, t) persistent s = (ok v, (s, t))
or_persistent (err e, t) persistent s = let r = persistent s in (r.0, (r.1, t))

module _ {ℓ} {S T K V : Type ℓ} where
  module _ (persistent : Store S K V) (local : Store T K V) where
    unfoldable pub cache_create : K → V → StoreOptions → Exec (S × T) (Unit {0})
    cache_create key value opts (s, t) =
        write_through (persistent.create key value opts s) (local.create key value opts) t

    unfoldable pub cache_read : K → StoreOptions → Exec (S × T) V
    cache_read key opts (s, t) =
        let m = match_skip_cache opts in
        if value_or m.0 false
        then left (persistent.read key m.1) (s, t)
        else or_persistent (local.read key m.1 t) (persistent.read key m.1) s

    unfoldable pub cache_update : K → V → StoreOptions → Exec (S × T) (Unit {0})
    cache_update key value opts (s, t) =
        write_through (persistent.update key value opts s) (local.update key value opts) t

    unfoldable pub cache_apply : K → V → StoreOptions → Exec (S × T) (Unit {0})
    cache_apply key value opts (s, t) =
        write_through (persistent.apply key value opts s) (local.apply key value opts) t

    unfoldable pub cache_delete : K → StoreOptions → Exec (S × T) (Unit {0})
    cache_delete key opts (s, t) =
        write_through (persistent.delete key opts s) (local.delete key opts) t

module _ {ℓ} {S T K V : Type ℓ} ⦃o : Key K⦄ (persistent : Store S K V) (local : Store T K V) where
  -- New: the cache becomes a copy of the store.
  unfoldable pub cache_new : Exec (S × T) (Unit {0})
  cache_new = clone (on_right local) (on_left persistent) newer

  -- List. The map that is to take over the data of the store is a map over the store itself.
  unfoldable pub cache_list : StoreOptions → Exec (S × T) (List (ListItem K V))
  cache_list opts w =
      let m = match_skip_cache opts in
      let skip = value_or m.0 false in
      if skip && not (is_nil m.1)
      then left (persistent.list m.1) w
      else (if skip
          then (clone (on_left persistent) (on_left persistent) newer >>= λ _.
                right (local.list m.1))
              w
          else right (local.list m.1) w)

  abbrev pub cached : Store (S × T) K V
  cached = record {
    create = cache_create persistent local;
    read = cache_read persistent local;
    update = cache_update persistent local;
    apply = cache_apply persistent local;
    delete = cache_delete persistent local;
    list = cache_list;
  }
