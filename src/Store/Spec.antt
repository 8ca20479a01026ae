-- ===== src/Store/Spec.antt =====
-- What a store promises: it behaves as a partial map from keys to values. The methods on the
-- partial map itself, and what it is for a store to implement them.
use golibs.Prelude.{Option, none, some, List, ◌≡◌, Key, bytes_key, if◌then◌else◌}
use golibs.Errors.{err_conflict, err_not_found}
use golibs.Exec.{Result, ok, err}
use golibs.Store.{Store, ListItem}
use golibs.Store.Options.{nil}
use golibs.Store.Listing.{find, Ascending}

module _ {ℓ} {K V : Type ℓ} ⦃o : Key K⦄ where
  abbrev pub put : K → V → (K → Option V) → K → Option V
  put k v m j = if o.eqb k j then some v else m j

  abbrev pub drop : K → (K → Option V) → K → Option V
  drop k m j = if o.eqb k j then none else m j

  abbrev pub spec_create : K → V → (K → Option V) → Option V → Result (Unit {0}) × (K → Option V)
  spec_create k v m none = (ok tt, put k v m)
  spec_create k v m (some w) = (err err_conflict, m)

  abbrev pub spec_read : (K → Option V) → Option V → Result V × (K → Option V)
  spec_read m none = (err err_not_found, m)
  spec_read m (some w) = (ok w, m)

  abbrev pub spec_update : K → V → (K → Option V) → Option V → Result (Unit {0}) × (K → Option V)
  spec_update k v m none = (err err_not_found, m)
  spec_update k v m (some w) = (ok tt, put k v m)

  abbrev pub spec_delete : K → (K → Option V) → Option V → Result (Unit {0}) × (K → Option V)
  spec_delete k m none = (err err_not_found, m)
  spec_delete k m (some w) = (ok tt, drop k m)

  module _ {S : Type ℓ} (Inv : S → Type ℓ) (view : S → K → Option V) where
    -- The result is the expected one, the state shows the expected map, and it is valid.
    pub record Agrees {κ} {A : Type κ} (r : Result A × S) (e : Result A × (K → Option V))
        : Type (ℓ ⊔ κ) where
      pub result : r.0 ≡ e.0
      pub holds : (j : K) → view r.1 j ≡ e.1 j
      pub valid : Inv r.1

    -- The list is in ascending order, holds what the map holds, and the state shows the map.
    pub record Lists (r : Result (List (ListItem K V)) × S) (m n : K → Option V) : Type ℓ where
      pub items : List (ListItem K V)
      pub result : r.0 ≡ ok items
      pub ascending : Ascending items
      pub listed : (j : K) → find j items ≡ n j
      pub holds : (j : K) → view r.1 j ≡ m j
      pub valid : Inv r.1

    -- Without options, each method does to the map what its specification says.
    pub record Implements (st : Store S K V) : Type ℓ where
      pub creates :
          (k : K) (v : V) (s : S)
          → Inv s
          → Agrees (st.create k v nil s) (spec_create k v (view s) (view s k))
      pub reads : (k : K) (s : S) → Inv s → Agrees (st.read k nil s) (spec_read (view s) (view s k))
      pub updates :
          (k : K) (v : V) (s : S)
          → Inv s
          → Agrees (st.update k v nil s) (spec_update k v (view s) (view s k))
      pub applies :
          (k : K) (v : V) (s : S) → Inv s → Agrees (st.apply k v nil s) (ok tt, put k v (view s))
      pub deletes :
          (k : K) (s : S) → Inv s → Agrees (st.delete k nil s) (spec_delete k (view s) (view s k))
      pub lists : (s : S) → Inv s → Lists (st.list nil s) (view s) (view s)
