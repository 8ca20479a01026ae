-- ===== src/Store/Examples.antt =====
-- The theorems on stores at concrete stores, states and calls.
use golibs.Prelude.{
  ℕ, Bool, true, List, [], ◌∷◌, ◌≡◌, refl, codes, Bytes, bytes_key, nat_key, has_prefix, bytes_eqb,
  ◌+◌,
}
use golibs.GoMap.{GoMap, IsMap, lookup, store}
use golibs.Exec.{ok}
use golibs.Store.{Store, ListItem, as_map}
use golibs.Store.Options
use golibs.Store.Options.{
  StoreOption, StoreOptions, nil, cons, nested, nil_option, bool_option, with_dry_run, dry_run,
  with_prefix, with_list_key_only, as_bool_option, match_option_by, check_options_exhausted,
  match_dry_run, match_skip_cache, match_prefix, match_list_key_only,
}
use golibs.Store.Listing.{sort_items}
use golibs.Store.Spec.{Agrees, Lists, Implements}
use golibs.Store.Memory.{memory, memory_list, memory_update, memory_read}
use golibs.Store.Memory.Refines.{view, memory-Implements}
use golibs.Store.Memory.ByPrefix.{memory-ListsByPrefix}
use golibs.Store.Prefix.{prefixed}
use golibs.Store.Prefix.Refines.{under, prefixed-Implements, prefixed_isolates}
use golibs.Store.History.{Call, Same, replies, replies-Same}
use golibs.Store.History
use golibs.Store.DefaultMap.{update_with, update_all, delete_missing, merge, clone}
use golibs.Store.DefaultMap.Laws.{joined}
use golibs.Store.DefaultMap.Clone.{copied, merge-Agrees, clone-Agrees}
use golibs.Store.Lift.{on_left, on_right, BesideLeft, left-Implements}
use golibs.Store.Cache.{cached, cache_new, cache_list}
use golibs.Store.Cache.Coherent.{Coherent, cached-Implements}
use golibs.Store.Cache.Skip.{cache_new-Coherent, list-skip_stale}

-- Stores from numbers to numbers.
abbrev numbers : Store (GoMap ℕ ℕ) ℕ ℕ
numbers = memory 0

abbrev two_entries : GoMap ℕ ℕ
two_entries = (2, 20) ∷ (1, 10) ∷ []

abbrev stale : GoMap ℕ ℕ
stale = (3, 30) ∷ []

two_entries-IsMap : IsMap two_entries
unfolding lookup
two_entries-IsMap = (refl, (refl, tt))

stale-IsMap : IsMap stale
unfolding lookup
stale-IsMap = (refl, tt)

memory-Implements_example : Implements IsMap view numbers
memory-Implements_example = memory-Implements 0

cached-Implements_example :
    Implements (Coherent IsMap view IsMap view) (λ w. view w.0) (cached numbers numbers)
cached-Implements_example =
    cached-Implements IsMap view IsMap view numbers numbers (memory-Implements 0)
      (memory-Implements 0)

abbrev some_calls : List (Call ℕ ℕ)
some_calls =
    History.create 1 11
    ∷ History.create 5 50
    ∷ History.list
    ∷ History.read 2
    ∷ History.delete 7
    ∷ []

cache_new-Coherent_example :
    let r = cache_new numbers numbers (two_entries, stale) in
    (r.0 ≡ ok tt)
    × Coherent IsMap view IsMap view r.1
    × ((j : ℕ) → view r.1.0 j ≡ view two_entries j)
cache_new-Coherent_example =
    cache_new-Coherent IsMap view IsMap view numbers numbers (memory-Implements 0)
      (memory-Implements 0) two_entries stale two_entries-IsMap stale-IsMap

list-skip_stale_example :
    Lists
      (λ x. IsMap x.0 × IsMap x.1)
      (λ x. view x.1)
      (cache_list numbers numbers (cons (Options.skip_cache true) nil) (two_entries, stale))
      (view stale)
      (view stale)
list-skip_stale_example =
    list-skip_stale IsMap view IsMap view numbers numbers (memory-Implements 0)
      (memory-Implements 0) two_entries stale two_entries-IsMap stale-IsMap

-- What the listing above returns, though the store holds other entries.
stale_listing :
    (cache_list numbers numbers (cons (Options.skip_cache true) nil) (two_entries, stale)).0
    ≡ ok (record { key = 3; value = 30 } ∷ [])
unfolding cache_list clone memory_list match_skip_cache as_map match_prefix check_options_exhausted
    match_list_key_only update_all sort_items store update_with memory_read lookup memory_update
    match_dry_run delete_missing
stale_listing = refl

-- Two stores of numbers in one state: the map is the left one, and merges from the right one.
abbrev BothMaps : GoMap ℕ ℕ × GoMap ℕ ℕ → Type 0
BothMaps = BesideLeft IsMap view numbers (memory-Implements 0) IsMap

right-Lists :
    (w : GoMap ℕ ℕ × GoMap ℕ ℕ)
    → BothMaps w
    → Lists BothMaps (λ x. view x.0) ((on_right numbers).list nil w) (view w.0) (view w.1)
right-Lists w h =
    let g = (memory-Implements 0).lists w.1 h.1 in
    record {
      items = g.items;
      result = g.result;
      ascending = g.ascending;
      listed = g.listed;
      holds = λ j. refl;
      valid = (h.0, g.valid);
    }

merge-Agrees_example :
    Agrees BothMaps
      (λ x. view x.0)
      (merge (on_left numbers) (on_right numbers) ◌+◌ (two_entries, stale))
      (ok tt, λ j. joined ◌+◌ (view two_entries j) (view stale j))
merge-Agrees_example =
    merge-Agrees BothMaps (λ x. view x.0) (on_left numbers) (on_right numbers)
      (left-Implements IsMap view numbers (memory-Implements 0) IsMap) ◌+◌ (λ w. view w.1)
      right-Lists (two_entries, stale) (two_entries-IsMap, stale-IsMap)

clone-Agrees_example :
    Agrees BothMaps
      (λ x. view x.0)
      (clone (on_left numbers) (on_right numbers) ◌+◌ (two_entries, stale))
      (ok tt, λ j. copied ◌+◌ (view two_entries j) (view stale j))
clone-Agrees_example =
    clone-Agrees BothMaps (λ x. view x.0) (on_left numbers) (on_right numbers)
      (left-Implements IsMap view numbers (memory-Implements 0) IsMap) ◌+◌ (λ w. view w.1)
      right-Lists (two_entries, stale) (two_entries-IsMap, stale-IsMap)

-- Stores from strings to numbers.
abbrev named_numbers : Store (GoMap Bytes ℕ) Bytes ℕ
named_numbers = memory 0

abbrev named_entries : GoMap Bytes ℕ
named_entries = (codes "b/x", 3) ∷ (codes "a/y", 2) ∷ (codes "a/x", 1) ∷ []

named_entries-IsMap : IsMap named_entries
unfolding lookup bytes_eqb
named_entries-IsMap = (refl, (refl, (refl, tt)))

prefixed-Implements_example :
    Implements IsMap (under IsMap view (codes "a/")) (prefixed named_numbers (codes "a/"))
prefixed-Implements_example =
    prefixed-Implements IsMap view (codes "a/") named_numbers (memory-Implements 0)
      (memory-ListsByPrefix 0)

prefixed_isolates_example :
    let st = prefixed named_numbers (codes "a/") in
    (view (st.create (codes "x") 9 nil named_entries).1 (codes "b/x")
      ≡ view named_entries (codes "b/x"))
    × (view (st.update (codes "x") 9 nil named_entries).1 (codes "b/x")
        ≡ view named_entries (codes "b/x"))
    × (view (st.apply (codes "x") 9 nil named_entries).1 (codes "b/x")
        ≡ view named_entries (codes "b/x"))
    × (view (st.delete (codes "x") nil named_entries).1 (codes "b/x")
        ≡ view named_entries (codes "b/x"))
unfolding has_prefix
prefixed_isolates_example =
    prefixed_isolates IsMap view (codes "a/") named_numbers (memory-Implements 0) (codes "x")
      (codes "b/x") 9 named_entries named_entries-IsMap refl

abbrev prefix_keys : StoreOptions
prefix_keys = cons (with_prefix (codes "a/")) (cons (with_list_key_only true) nil)

-- The keys with the prefix, in ascending order, without their values.
abbrev a_keys : List (ListItem Bytes ℕ)
a_keys = record { key = codes "a/x"; value = 0 } ∷ record { key = codes "a/y"; value = 0 } ∷ []

-- A dry-run option in a nested slice, behind another option.
abbrev nested_options : StoreOptions
nested_options =
    cons (with_prefix (codes "p")) (cons (nested (cons nil_option (cons dry_run nil))) nil)

abbrev any_key : Bytes × Bool → Bool
any_key v = true
