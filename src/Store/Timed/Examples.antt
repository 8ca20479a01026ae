-- ===== src/Store/Timed/Examples.antt =====
-- Guarded and timed stores, and a store behind its cache, at concrete states and calls.
use golibs.Prelude.{
  ℕ, true, Option, none, some, List, [], ◌∷◌, ◌≡◌, refl, nat_key, ltb, if◌then◌else◌,
}
use golibs.Errors.{Error, invalid}
use golibs.GoMap.{GoMap, IsMap, lookup, store, remove}
use golibs.Exec.{ok}
use golibs.Store.{Store}
use golibs.Store.Options.{match_dry_run, match_prefix, match_list_key_only, check_options_exhausted}
use golibs.Store.Spec.{Agrees, Implements}
use golibs.Store.Memory.{memory, memory_create, memory_apply, memory_delete, memory_list}
use golibs.Store.Memory.Refines.{view, memory-Implements}
use golibs.Store.History.{Call, call, replies, final}
use golibs.Store.History
use golibs.Store.Cache.{cached, cache_new}
use golibs.Store.Cache.Replies.{replies-cached}
use golibs.Store.Guarded.{name_check, validating}
use golibs.Store.Guarded.Admitted.{named-own_name}
use golibs.Store.Timed.{pos, Config, CacheItem, timed, delete_items_older_than}
use golibs.Store.Timed.Laws.{untimed, timed-Implements}
use golibs.Store.Timed.Sweep.{fresh, delete_items_older_than-Agrees}

abbrev plain : Store (GoMap ℕ ℕ) ℕ ℕ
plain = memory 0

abbrev entries : GoMap ℕ ℕ
entries = (2, 2) ∷ (1, 1) ∷ []

entries-IsMap : IsMap entries
unfolding lookup
entries-IsMap = (refl, (refl, tt))

abbrev calls : List (Call ℕ ℕ)
calls =
    History.create 3 3
    ∷ History.update 1 7
    ∷ History.apply 2 2
    ∷ History.create 9 8
    ∷ History.list
    ∷ History.delete 2
    ∷ []

abbrev small : ℕ → Option Error
small n = if ltb n 5 then none else some (invalid 40)

replies-cached_example :
    replies (cached plain plain) calls (cache_new plain plain (entries, (4, 40) ∷ [])).1
    ≡ replies plain calls entries
unfolding lookup
replies-cached_example =
    replies-cached IsMap view IsMap view plain plain (memory-Implements 0) (memory-Implements 0)
      calls entries ((4, 40) ∷ []) entries-IsMap (refl, tt)

-- The calls with the values 7 and 8 are refused.
refused_calls : final (validating small plain) calls entries ≡ (1, 1) ∷ (3, 3) ∷ []
unfolding final call lookup store remove memory_create memory_apply memory_delete memory_list
    match_dry_run match_prefix match_list_key_only check_options_exhausted
refused_calls = refl

abbrev three : ℕ
three = 3

named-own_name_example : three ≡ 3
unfolding lookup store call final name_check memory_create match_dry_run check_options_exhausted
named-own_name_example =
    named-own_name (λ n. n) IsMap view plain (memory-Implements 0)
      (History.create 3 3 ∷ History.apply 4 5 ∷ []) [] tt (λ j v p. cc) 3 3 refl

abbrev items : GoMap ℕ (CacheItem ℕ)
items = (2, record { value = 20; timestamp = 100 }) ∷ (1, record { value = 10; timestamp = 7 }) ∷ []

items-IsMap : IsMap items
unfolding lookup
items-IsMap = (refl, (refl, tt))

abbrev item_store : Store (GoMap ℕ (CacheItem ℕ)) ℕ (CacheItem ℕ)
item_store = memory (record { value = 0; timestamp = 0 })

abbrev renewing : Config
renewing = record {
  refresh_age_on_read = true;
  sync_period = pos 1000000000;
  max_age = pos 60000000000;
}

timed-Implements_example : Implements IsMap (untimed IsMap view) (timed item_store renewing 101)
timed-Implements_example =
    timed-Implements IsMap view renewing 101 item_store
      (memory-Implements (record { value = 0; timestamp = 0 }))

delete_items_older_than-Agrees_example :
    Agrees IsMap view
      (delete_items_older_than item_store (pos 60000000000) (λ k. 101) items)
      (ok tt, λ j. fresh (pos 60000000000) (λ k. 101) j (view items j))
delete_items_older_than-Agrees_example =
    delete_items_older_than-Agrees (pos 60000000000) (λ k. 101) IsMap view item_store
      (memory-Implements (record { value = 0; timestamp = 0 })) items items-IsMap
