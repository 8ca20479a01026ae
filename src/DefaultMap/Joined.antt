-- ===== src/DefaultMap/Joined.antt =====
-- What a DefaultMap holds behind Set, Update and Merge.
use golibs.Prelude.{
  true, false, Option, none, some, [], ◌∷◌, ◌≡◌, ◌⊎◌, refl, ◌∙◌, subst, Key, if◌then◌else◌,
  Bool-cases, inl, inr,
}
use golibs.GoMap.{GoMap, lookup, IsMap}
use golibs.GoMap.Laws.{lookup-store}
use golibs.DefaultMap.{resolve, update, set, merge}

-- What a key holds once their entry, if there is one, is merged in.
abbrev pub joined {ℓ} : {V : Type ℓ} → (V → V → V) → Option V → Option V → Option V
joined collision ours none = ours
joined collision ours (some new) = some (resolve collision new ours)

module _ {ℓ} {K V : Type ℓ} ⦃o : Key K⦄ where
  -- Set overwrites its key, and leaves all other keys as they are.
  pub lookup-set :
      (d : GoMap K V) (k j : K) (new : V)
      → lookup j (set d k new) ≡ (if o.eqb k j then some new else lookup j d)
  unfolding set update
  lookup-set d k j new = lookup-store k j _ d ∙ held (lookup k d)
    where
      held :
          (x : Option V)
          → (if o.eqb k j then some (resolve (λ old n. n) new x) else lookup j d)
            ≡ (if o.eqb k j then some new else lookup j d)
      held none = refl
      held (some y) = refl

  -- Merge leaves in each key of the other map its value there, or what the collision function
  -- makes of the old and the new value, and in every other key what was there: the order in which
  -- the other map is visited does not matter.
  pub lookup-merge :
      (d other : GoMap K V) (collision : V → V → V) (j : K)
      → IsMap other
      → lookup j (merge d other collision) ≡ joined collision (lookup j d) (lookup j other)
  unfolding merge update lookup
  lookup-merge d [] f j h = refl
  lookup-merge d ((k, v) ∷ m) f j h =
      lookup-merge (update d k v f) m f j h.1
      ∙ rw (lookup-store k j (resolve f v (lookup k d)) d) (split (Bool-cases (o.eqb k j)))
    where
      split :
          (o.eqb k j ≡ true) ⊎ (o.eqb k j ≡ false)
          → joined f
              (if o.eqb k j then some (resolve f v (lookup k d)) else lookup j d)
              (lookup j m)
            ≡ joined f (lookup j d) (if o.eqb k j then some v else lookup j m)
      split (inl e) =
          let p : k ≡ j = (o.eqb_iff k j).0 e in
          let q : lookup j m ≡ none = subst (λ x. lookup x m ≡ none) p h.0 in rw (e, q, p) refl
      split (inr e) = rw e refl
