-- ===== src/GoMap/Laws.antt =====
-- What a map holds after a store or a delete, and that no key comes to have two entries.
use golibs.Prelude.{◌≡◌, refl, none, some, [], ◌∷◌, arith, Key, if◌then◌else◌}
use golibs.GoMap.{GoMap, lookup, store, remove, IsMap}

module _ {ℓ} {K V : Type ℓ} ⦃o : Key K⦄ where
  pub lookup-store :
      (k j : K) (v : V) (m : GoMap K V)
      → lookup j (store k v m) ≡ (if o.eqb k j then some v else lookup j m)
  unfolding lookup store
  lookup-store k j v [] = refl
  lookup-store k j v ((i, w) ∷ m) =
      ground (arith, o.eqb_iff k j, o.eqb_iff i k, o.eqb_iff i j, lookup-store k j v m)

  pub lookup-remove :
      (k j : K) (m : GoMap K V) → lookup j (remove k m) ≡ (if o.eqb k j then none else lookup j m)
  unfolding lookup remove
  lookup-remove k j [] = ground arith
  lookup-remove k j ((i, w) ∷ m) =
      ground (arith, o.eqb_iff k j, o.eqb_iff i k, o.eqb_iff i j, lookup-remove k j m)

  pub store-IsMap : (k : K) (v : V) (m : GoMap K V) → IsMap m → IsMap (store k v m)
  unfolding lookup store
  store-IsMap k v [] h = (refl, tt)
  store-IsMap k v ((i, w) ∷ m) h =
      ground (arith, o.eqb_iff i k, o.eqb_iff k i, lookup-store k i v m, store-IsMap k v m h.1)

  pub remove-IsMap : (k : K) (m : GoMap K V) → IsMap m → IsMap (remove k m)
  unfolding remove
  remove-IsMap k [] h = tt
  remove-IsMap k ((i, w) ∷ m) h = ground (arith, lookup-remove k i m, remove-IsMap k m h.1)
