-- ===== src/Store/DefaultMap.antt =====
-- pkg/store/utilities/defaultmap/defaultmap.go: a store with a collision function. The map and the
-- store that it merges from are stores over one state, so that they can be parts of it or the same.
pub mod Laws
pub mod Clone
use golibs.Prelude.{Bool, true, false, none, some, List, [], ◌∷◌, Key, if◌then◌else◌, is_some}
use golibs.Errors.{Error, err_not_found, is_error}
use golibs.GoMap.{GoMap, lookup}
use golibs.Exec.{Result, ok, err, Exec, ◌>>=◌, ◌>>◌, pure}
use golibs.Store.{Store, as_map}
use golibs.Store.Options.{nil}

module _ {ℓ} {W K V : Type ℓ} ⦃o : Key K⦄ (d : Store W K V) where
  -- Update, behind the read of the current value.
  abbrev pub update_read : K → V → (V → V → V) → Result V × W → Result (Unit {0}) × W
  update_read key new collision (ok current, w) = d.update key (collision current new) nil w
  update_read key new collision (err e, w) =
      if is_error e err_not_found then d.create key new nil w else (err e, w)

  -- Update
  unfoldable pub update_with : K → V → (V → V → V) → Exec W (Unit {0})
  update_with key new collision w = update_read key new collision (d.read key nil w)

  -- Apply
  unfoldable pub set_value : K → V → Exec W (Unit {0})
  unfolding update_with
  set_value key new = update_with key new (λ old n. n)

  -- The loop of Merge over the entries of a map.
  unfoldable pub update_all : (V → V → V) → GoMap K V → Exec W (Unit {0})
  update_all collision [] = pure tt
  update_all collision ((k, v) ∷ m) =
      let rest = update_all collision m in update_with k v collision >> rest

  -- Merge
  unfoldable pub merge : Store W K V → (V → V → V) → Exec W (Unit {0})
  merge other collision = do items ← as_map other nil; update_all collision items

  -- The loop of Clone that deletes what `theirs` does not hold.
  unfoldable pub delete_missing : GoMap K V → GoMap K V → Exec W (Unit {0})
  delete_missing theirs [] = pure tt
  delete_missing theirs ((k, v) ∷ m) =
      let rest = delete_missing theirs m in
      if is_some (lookup k theirs) then rest else (d.delete k nil >> rest)

  -- Clone
  unfoldable pub clone : Store W K V → (V → V → V) → Exec W (Unit {0})
  clone other collision = do
    theirs ← as_map other nil
    update_all collision theirs
    ours ← as_map d nil
    delete_missing theirs ours
