-- ===== src/Store/ClaimLock/Examples.antt =====
-- The theorem on claims for locks whose values are their owners.
use golibs.Prelude.{List, [], ◌∷◌, ◌≡◌, refl, Bytes, codes}
use golibs.Exec.{ok, Exec}
use golibs.Slices.{filter}
use golibs.Store.{ListItem}
use golibs.Store.ClaimLock.{Claimer, check_locks}
use golibs.Store.ClaimLock.Orphans.{claim_all, orphan, check_locks-orphans}

abbrev locks : List (ListItem Bytes Bytes)
locks =
    record { key = codes "a"; value = codes "pod1" }
    ∷ record { key = codes "b"; value = codes "gone" }
    ∷ record { key = codes "c"; value = [] }
    ∷ []

-- The state is the keys that are claimed, the last one first.
abbrev claimer : Claimer (List Bytes) Bytes
claimer = record {
  get_locks = λ s. (ok locks, s);
  get_lock_owner = λ v s. (ok v, s);
  claim_lock = λ k v s. (ok tt, k ∷ s);
}

abbrev owner : Bytes → Bytes
owner v = v

abbrev pods : Exec (List Bytes) (List Bytes)
pods s = (ok (codes "pod1" ∷ []), s)

check_locks-orphans_example :
    check_locks claimer pods []
    ≡ claim_all claimer (filter locks (orphan (codes "pod1" ∷ []) owner)) []
check_locks-orphans_example =
    check_locks-orphans claimer owner (λ v s. refl) (codes "pod1" ∷ []) pods locks [] refl refl
