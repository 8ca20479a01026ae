-- ===== src/Store/ClaimLock/Orphans.antt =====
-- Which locks are claimed.
use golibs.Prelude.{
  Bool, not, ◌&&◌, ◌||◌, List, [], ◌∷◌, ◌≡◌, refl, ap, fun_ext, ◌∙◌, arith, Bytes, bytes_key,
  bytes_eqb_iff, is_empty, is_some, Bool-cases, inl, inr,
}
use golibs.GoMap.{GoMap, lookup, store}
use golibs.GoMap.Laws.{lookup-store}
use golibs.Exec.{ok, Exec, continue}
use golibs.Slices.{filter, contains, to_map, map_from}
use golibs.Store.{ListItem}
use golibs.Store.ClaimLock.{Claimer, check_each, check_locks}

module _ {S V : Type 0} (claimer : Claimer S V) where
  -- The claims of some locks, in order, up to the first that fails.
  unfoldable pub claim_all : List (ListItem Bytes V) → Exec S (Unit {0})
  claim_all [] s = (ok tt, s)
  claim_all (lock ∷ locks) s =
      continue (claimer.claim_lock lock.key lock.value s) (λ u. claim_all locks)

known-map_from :
    (k : Bytes) (m : GoMap Bytes Bytes) (names : List Bytes)
    → is_some (lookup k (map_from m names (λ name. name)))
      ≡ (is_some (lookup k m) || contains names k)
unfolding map_from contains
known-map_from k m [] = ground arith
known-map_from k m (n ∷ names) =
    known-map_from k (store n n m) names ∙ ground (arith, lookup-store n k n m, bytes_eqb_iff n k)

-- A lock that has an owner, who is not among the names.
abbrev pub orphan : {V : Type 0} → List Bytes → (V → Bytes) → ListItem Bytes V → Bool
orphan names owner lock =
    not (is_empty (owner lock.value)) && not (contains names (owner lock.value))

known :
    (names : List Bytes) (k : Bytes)
    → is_some (lookup k (to_map names (λ name. name))) ≡ contains names k
unfolding to_map lookup
known names k = known-map_from k [] names ∙ ground arith

module _ {S V : Type 0} (claimer : Claimer S V) (owner : V → Bytes)
    (told : (v : V) (s : S) → claimer.get_lock_owner v s ≡ (ok (owner v), s))
    (names : List Bytes) where
  check_each-orphans :
      (locks : List (ListItem Bytes V)) (s : S)
      → check_each claimer (to_map names (λ name. name)) locks s
        ≡ claim_all claimer (filter locks (orphan names owner)) s
  unfolding check_each claim_all filter
  check_each-orphans [] s = refl
  check_each-orphans (lock ∷ locks) s =
      let k = known names (owner lock.value) in
      rw (told lock.value s) (elim (Bool-cases (is_empty (owner lock.value))) [
        | inl t ↦ rw t (check_each-orphans locks s)
        | inr f ↦ elim (Bool-cases (contains names (owner lock.value))) [
          | inl c ↦ rw (f, k, c) (check_each-orphans locks s)
          | inr c ↦
              rw (f, k, c)
                (ap (continue (claimer.claim_lock lock.key lock.value s))
                  (fun_ext (λ u. fun_ext (check_each-orphans locks))))
        ]
      ])

  -- Where the owners can be told, and telling them changes nothing: CheckLocks claims, in order and up
  -- to the first claim that fails, exactly the locks that have an owner who is not among the running
  -- pods.
  pub check_locks-orphans :
      (list_pods : Exec S (List Bytes)) (locks : List (ListItem Bytes V)) (s : S)
      → list_pods s ≡ (ok names, s)
      → claimer.get_locks s ≡ (ok locks, s)
      → check_locks claimer list_pods s ≡ claim_all claimer (filter locks (orphan names owner)) s
  unfolding check_locks
  check_locks-orphans list_pods locks s p q = rw (p, q) (check_each-orphans locks s)
