-- ===== src/Store/Cache/Replies.antt =====
-- A store behind its cache, from New on, seen from its clients.
use golibs.Prelude.{Option, List, ◌≡◌, Key}
use golibs.Store.{Store}
use golibs.Store.Spec.{Implements}
use golibs.Store.History.{Call, replies, replies-Same}
use golibs.Store.Cache.{cached, cache_new}
use golibs.Store.Cache.Coherent.{Coherent, shown, cached-Implements}
use golibs.Store.Cache.Skip.{cache_new-Coherent}

module _ {ℓ} {S T K V : Type ℓ} ⦃o : Key K⦄ (Inv : S → Type ℓ) (view : S → K → Option V)
    (Inw : T → Type ℓ) (wiew : T → K → Option V) (persistent : Store S K V) (local : Store T K V)
    (good : Implements Inv view persistent) (also : Implements Inw wiew local) where
  -- Over two stores that implement maps, and whatever the cache holds when New is called, the
  -- cached store gives to every sequence of calls without options the replies that the store
  -- without its cache would have given.
  pub replies-cached :
      (cs : List (Call K V)) (s : S) (t : T)
      → Inv s
      → Inw t
      → replies (cached persistent local) cs (cache_new persistent local (s, t)).1
        ≡ replies persistent cs s
  replies-cached cs s t h k =
      let c = cache_new-Coherent Inv view Inw wiew persistent local good also s t h k in
      replies-Same (Coherent Inv view Inw wiew) (shown Inv view Inw wiew) Inv view
        (cached persistent local) persistent
        (cached-Implements Inv view Inw wiew persistent local good also) good cs _ s
        (record { left = c.1; right = h; shows = c.2 })
