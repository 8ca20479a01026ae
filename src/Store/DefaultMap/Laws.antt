-- ===== src/Store/DefaultMap/Laws.antt =====
-- What Update and the loops of Merge and Clone do to a store that implements a partial map.
use golibs.Prelude.{
  true, Option, none, some, [], ◌∷◌, ◌≡◌, refl, sym, ap, ◌∙◌, arith, Key, if◌then◌else◌,
  Option-cases, inl, inr, is_some, Bool-cases, eqb_refl, ◌&&◌, not,
}
use golibs.Errors.{err_not_found, is_error}
use golibs.GoMap.{GoMap, lookup, IsMap}
use golibs.Exec.{Result, ok, err, Exec, continue}
use golibs.Store.{Store}
use golibs.Store.Options.{nil}
use golibs.Store.Spec.{put, drop, spec_read, Agrees, Implements}
use golibs.Store.DefaultMap.{update_read, update_with, update_all, delete_missing}

-- A value that is there, and a new one for it.
abbrev pub merged {ℓ} : {V : Type ℓ} → (V → V → V) → Option V → V → V
merged collision none new = new
merged collision (some old) new = collision old new

-- What a key holds once their entry, if there is one, is merged in.
abbrev pub joined {ℓ} : {V : Type ℓ} → (V → V → V) → Option V → Option V → Option V
joined collision ours none = ours
joined collision ours (some new) = some (merged collision ours new)

module _ {ℓ} {W K V : Type ℓ} ⦃o : Key K⦄ (Inv : W → Type ℓ) (view : W → K → Option V) where
  -- A second step behind a first one that succeeds.
  pub then_Agrees :
      (m : K → Option V) (e : Result (Unit {0}) × (K → Option V)) (r : Result (Unit {0}) × W)
      (f : Exec W (Unit {0}))
      → Agrees Inv view r (ok tt, m)
      → ((w : W) → Inv w → ((j : K) → view w j ≡ m j) → Agrees Inv view (f w) e)
      → Agrees Inv view (continue r (λ _. f)) e
  then_Agrees m e (ok tt, w) f g h = h w g.valid g.holds
  then_Agrees m e (err x, w) f g h = let never : ⊥ = cc g.result in absurd never

  -- The expected map may be written in another way.
  pub Agrees-view {κ} :
      {A : Type κ} (r : Result A × W) (a : Result A) (m n : K → Option V)
      → Agrees Inv view r (a, m)
      → ((j : K) → m j ≡ n j)
      → Agrees Inv view r (a, n)
  Agrees-view r a m n g h = record {
    result = g.result;
    holds = λ j. g.holds j ∙ h j;
    valid = g.valid;
  }

  module _ (d : Store W K V) (good : Implements Inv view d) (collision : V → V → V) where
    put-view :
        (k : K) (v : V) (m n : K → Option V) (j : K)
        → ((i : K) → m i ≡ n i)
        → put k v m j ≡ put k v n j
    put-view k v m n j h = rw (h j)

    replaced :
        (k : K) (c y v : V) (w : W) (m : K → Option V)
        → Inv w
        → ((j : K) → view w j ≡ m j)
        → some y ≡ m k
        → c ≡ y
        → Agrees Inv view (d.update k (collision c v) nil w) (ok (tt {0}), put k (collision y v) m)
    replaced k c y v w m i h e p =
        let g = rw (h k ∙ sym e) at (good.updates k (collision c v) w i) in
        Agrees-view _ _ _ _ g (λ j.
          ap (λ t. put k (collision t v) (view w) j) p ∙ put-view k (collision y v) (view w) m j h)

    added :
        (k : K) (v : V) (w : W) (m : K → Option V)
        → Inv w
        → ((j : K) → view w j ≡ m j)
        → none ≡ m k
        → Agrees Inv view (d.create k v nil w) (ok (tt {0}), put k v m)
    added k v w m i h e =
        let g = rw (h k ∙ sym e) at (good.creates k v w i) in
        Agrees-view _ _ _ _ g (λ j. put-view k v (view w) m j h)

    behind_read :
        (k : K) (v : V) (m : K → Option V) (r : Result V × W) (x : Option V)
        → Agrees Inv view r (spec_read m x)
        → x ≡ m k
        → Agrees Inv view
            (update_read d k v collision r)
            (ok (tt {0}), put k (merged collision x v) m)
    unfolding is_error
    behind_read k v m (ok c, w) none g e = let never : ⊥ = cc g.result in absurd never
    behind_read k v m (ok c, w) (some y) g e = replaced k c y v w m g.valid g.holds e (cc g.result)
    behind_read k v m (err x, w) none g e =
        let p : x ≡ err_not_found = cc g.result in rw p (added k v w m g.valid g.holds e)
    behind_read k v m (err x, w) (some y) g e = let never : ⊥ = cc g.result in absurd never

    -- Over a store that implements a map, Update stores the new value, or what the collision function makes of the old and the new
    -- one; it succeeds, and leaves all other keys as they are.
    pub update_with-Agrees :
        (k : K) (v : V) (w : W)
        → Inv w
        → Agrees Inv view
            (update_with d k v collision w)
            (ok tt, put k (merged collision (view w k) v) (view w))
    unfolding update_with
    update_with-Agrees k v w h =
        behind_read k v (view w) (d.read k nil w) (view w k) (good.reads k w h) refl

    -- Each entry of a map without doubles is merged in once.
    pub update_all-Agrees :
        (m : GoMap K V) (w : W)
        → Inv w
        → IsMap m
        → Agrees Inv view
            (update_all d collision m w)
            (ok tt, λ j. joined collision (view w j) (lookup j m))
    unfolding update_all lookup
    update_all-Agrees [] w h i = record { result = refl; holds = λ j. refl; valid = h }
    update_all-Agrees ((k, v) ∷ m) w h i =
        then_Agrees _ _ _ _ (update_with-Agrees k v w h) (λ u hu e.
          Agrees-view _ _ _ _ (update_all-Agrees m u hu i.1)
            (λ j. ground (arith, e j, o.eqb_iff k j, i.0)))

    deletes_present :
        (k : K) (w : W)
        → Inv w
        → is_some (view w k) ≡ true
        → Agrees Inv view (d.delete k nil w) (ok (tt {0}), drop k (view w))
    deletes_present k w h s = elim (Option-cases (view w k)) [
      | inl e ↦ ground arith
      | inr (x, e) ↦ rw e at (good.deletes k w h)
    ]

    -- What is not among theirs is deleted, where ours are keys that the store has.
    pub delete_missing-Agrees :
        (theirs ours : GoMap K V) (w : W)
        → Inv w
        → IsMap ours
        → ((j : K) → is_some (lookup j ours) ≡ true → is_some (view w j) ≡ true)
        → Agrees Inv view (delete_missing d theirs ours w) (
          ok tt,
          λ j.
              if is_some (lookup j ours) && not (is_some (lookup j theirs)) then none else view w j,
        )
    unfolding delete_missing lookup
    delete_missing-Agrees theirs [] w h i c = record { result = refl; holds = λ j. refl; valid = h }
    delete_missing-Agrees theirs ((k, v) ∷ m) w h i c =
        elim (Bool-cases (is_some (lookup k theirs))) [
          | inl e ↦ rw e (
              Agrees-view _ _ _ _
                (delete_missing-Agrees theirs m w h i.1 (λ j s. c j (ground arith)))
                (λ j. ground (arith, o.eqb_iff k j)))
          | inr e ↦ rw e (
              then_Agrees _ _ _ _ (deletes_present k w h (c k (ground (arith, eqb_refl k))))
                (λ u hu q.
                  Agrees-view _ _ _ _
                    (delete_missing-Agrees theirs m u hu i.1
                      (λ j s. ground (arith, q j, c j, o.eqb_iff k j, i.0)))
                    (λ j. ground (arith, q j, o.eqb_iff k j, i.0))))
        ]
