-- ===== src/Store/Memory/ByPrefix.antt =====
-- The in-memory store with string keys lists by prefix.
use golibs.Prelude.{
  false, none, [], ◌∷◌, ◌≡◌, refl, ◌∙◌, arith, Bytes, bytes_key, has_prefix, has_prefix-nil,
  if◌then◌else◌,
}
use golibs.GoMap.{GoMap, IsMap, lookup}
use golibs.Exec.{ok}
use golibs.Store.Options.{
  nil, cons, with_prefix, match_prefix, match_list_key_only, check_options_exhausted,
}
use golibs.Store.Listing.{sort_items}
use golibs.Store.Spec.{Lists}
use golibs.Store.Prefix.Refines.{ListsByPrefix}
use golibs.Store.Memory.{memory, memory_list, collect}
use golibs.Store.Memory.Refines.{view, find-collect, Ascending-collect, listed_view, shown-false}

module _ {V : Type 0} (zero : V) where
  by_prefix :
      (p : Bytes) (m : GoMap Bytes V) (j : Bytes)
      → listed_view zero p false m j ≡ (if has_prefix j p then lookup j m else none)
  by_prefix [] m j = shown-false zero (lookup j m) ∙ rw (has_prefix-nil j)
  by_prefix (c ∷ p) m j = rw (shown-false zero (lookup j m)) (ground arith)

  listing :
      (p : Bytes) (m : GoMap Bytes V)
      → memory_list zero (cons (with_prefix p) nil) m
        ≡ (ok (sort_items (collect zero p false m)), m)
  unfolding memory_list match_prefix match_list_key_only check_options_exhausted
  listing [] m = refl
  listing (c ∷ p) m = refl

  lists_prefix_lem :
      (p : Bytes) (m : GoMap Bytes V)
      → IsMap m
      → Lists IsMap view
          (memory_list zero (cons (with_prefix p) nil) m)
          (view m)
          (λ j. if has_prefix j p then view m j else none)
  lists_prefix_lem p m h = rw (listing p m) (record {
    items = sort_items (collect zero p false m);
    result = refl;
    ascending = Ascending-collect zero p false m h;
    listed = λ j. find-collect zero p false m j h ∙ by_prefix p m j;
    holds = λ j. refl;
    valid = h;
  })

  pub memory-ListsByPrefix : ListsByPrefix IsMap view (memory zero)
  memory-ListsByPrefix = record { lists_prefix = lists_prefix_lem }
