-- ===== src/Store/Memory/DryRun.antt =====
-- Dry runs of the in-memory store.
use golibs.Prelude.{true, some, ◌≡◌, Key, Option-cases, inl, inr}
use golibs.GoMap.{GoMap, lookup}
use golibs.Errors.{is_error}
use golibs.Store.Options.{StoreOptions, nil, match_dry_run, check_options_exhausted}
use golibs.Store.Memory.{memory_create, memory_read, memory_update, memory_apply, memory_delete}

-- The options ask for a dry run.
abbrev pub AsksDryRun : StoreOptions → Type 0
AsksDryRun opts = (match_dry_run opts).0 ≡ some true

module _ {ℓ} {K V : Type ℓ} ⦃o : Key K⦄ (k : K) (v : V) (opts : StoreOptions) (m : GoMap K V)
    (asks : AsksDryRun opts) where
  create_dry : memory_create k v opts m ≡ ((memory_create k v nil m).0, m)
  unfolding memory_create memory_read match_dry_run check_options_exhausted is_error
  create_dry = rw asks (elim (Option-cases (lookup k m)) [ inl e ↦ rw e | inr (w, e) ↦ rw e ])

  update_dry : memory_update k v opts m ≡ ((memory_update k v nil m).0, m)
  unfolding memory_update memory_read match_dry_run check_options_exhausted
  update_dry = rw asks (elim (Option-cases (lookup k m)) [ inl e ↦ rw e | inr (w, e) ↦ rw e ])

  apply_dry : memory_apply k v opts m ≡ ((memory_apply k v nil m).0, m)
  unfolding memory_apply match_dry_run check_options_exhausted
  apply_dry = rw asks

  delete_dry : memory_delete {V = V} k opts m ≡ ((memory_delete {V = V} k nil m).0, m)
  unfolding memory_delete memory_read match_dry_run check_options_exhausted
  delete_dry = rw asks (elim (Option-cases (lookup k m)) [ inl e ↦ rw e | inr (w, e) ↦ rw e ])

  -- With options, of any other kind too, that ask for a dry run, Create, Update, Apply and Delete leave the map as it is,
  -- and return what the call without options would return at that map.
  pub dry_run_predicts :
      (memory_create k v opts m ≡ ((memory_create k v nil m).0, m))
      × (memory_update k v opts m ≡ ((memory_update k v nil m).0, m))
      × (memory_apply k v opts m ≡ ((memory_apply k v nil m).0, m))
      × (memory_delete {V = V} k opts m ≡ ((memory_delete {V = V} k nil m).0, m))
  dry_run_predicts = (create_dry, update_dry, apply_dry, delete_dry)
