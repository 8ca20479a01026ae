-- ===== src/Store/ClaimLock.antt =====
-- pkg/store/utilities/claimlock/claimlock.go: locks whose owner is gone are claimed. The pods of
-- Kubernetes, and the Claimer with its locks, their owners and the claims, are functions over a state.
pub mod Orphans
mod Examples
use golibs.Prelude.{
  ℕ, Bool, true, false, not, Option, none, some, List, [], ◌∷◌, ◌==◌, Bytes, bytes_key, is_empty,
  is_some, map, if◌then◌else◌,
}
use golibs.Errors.{Error, invalid}
use golibs.GoMap.{GoMap, lookup}
use golibs.Exec.{Result, ok, err, Exec, continue, pure, ◌>>◌, ◌>>=◌}
use golibs.Slices.{transform, to_map}
use golibs.Store.{ListItem}

-- Durations are nanoseconds.
pub record Config : Type 0 where
  pub latency : ℕ
  pub watch_timeout : ℕ
  pub label_selector : Bytes

abbrev pub minute : ℕ
minute = 60000000000

abbrev pub err_no_label_selector : Error
err_no_label_selector = invalid 90

-- ApplyDefaults
unfoldable pub apply_defaults : Config → Config
apply_defaults c = record {
  latency = if c.latency == 0 then minute else c.latency;
  watch_timeout = if c.watch_timeout == 0 then 3600 else c.watch_timeout;
  label_selector = c.label_selector;
}

-- Validate: its error, and the configuration that it leaves.
unfoldable pub validate : Config → Option Error × Config
unfolding apply_defaults
validate c =
    let d = apply_defaults c in
    (if is_empty d.label_selector then some err_no_label_selector else none, d)

pub record Claimer (S V : Type 0) : Type 0 where
  pub get_locks : Exec S (List (ListItem Bytes V))
  pub get_lock_owner : V → Exec S Bytes
  pub claim_lock : Bytes → V → Exec S (Unit {0})

module _ {S V : Type 0} (claimer : Claimer S V) where
  -- The end of the loop's body for a lock of this owner, and the rest of the loop.
  abbrev claim_unless_owned :
      GoMap Bytes Bytes → ListItem Bytes V → Exec S (Unit {0}) → Bytes → Exec S (Unit {0})
  unfolding lookup
  claim_unless_owned controllers lock rest owner s =
      if is_empty owner
      then rest s
      else (if is_some (lookup owner controllers)
          then rest s
          else (claimer.claim_lock lock.key lock.value >> rest) s)

  -- The loop of CheckLocks.
  unfoldable pub check_each : GoMap Bytes Bytes → List (ListItem Bytes V) → Exec S (Unit {0})
  unfolding claim_unless_owned
  check_each controllers [] s = (ok tt, s)
  check_each controllers (lock ∷ locks) s =
      continue (claimer.get_lock_owner lock.value s)
        (claim_unless_owned controllers lock (check_each controllers locks))

  -- CheckLocks; `list_pods` lists the names of the running pods.
  unfoldable pub check_locks : Exec S (List Bytes) → Exec S (Unit {0})
  unfolding check_each to_map
  check_locks list_pods s =
      continue (list_pods s)
        (λ names. claimer.get_locks >>= check_each (to_map names (λ name. name)))
