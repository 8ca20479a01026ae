-- ===== src/Store/DefaultMap/Clone.antt =====
-- Merge and Clone over stores that implement partial maps.
use golibs.Prelude.{Option, none, some, List, ◌≡◌, ap, ◌∙◌, arith, Key}
use golibs.GoMap.{GoMap, lookup, IsMap}
use golibs.Exec.{Result, ok, err, Exec, continue}
use golibs.Store.{Store, ListItem, as_map, items_as_map}
use golibs.Store.Options.{nil}
use golibs.Store.Listing.{lookup-items_as_map, items_as_map-IsMap}
use golibs.Store.Spec.{Agrees, Lists, Implements}
use golibs.Store.DefaultMap.{merge, clone}
use golibs.Store.DefaultMap.Laws.{
  merged, joined, then_Agrees, Agrees-view, update_all-Agrees, delete_missing-Agrees,
}

-- What a key holds in a copy of their map: nothing if they have no entry.
abbrev pub copied {ℓ} : {V : Type ℓ} → (V → V → V) → Option V → Option V → Option V
copied collision ours none = none
copied collision ours (some new) = some (merged collision ours new)

module _ {ℓ} {W K V : Type ℓ} ⦃o : Key K⦄ (Inv : W → Type ℓ) (view : W → K → Option V) where
  -- The rest of a method behind AsMap.
  behind_map :
      (m n : K → Option V) (e : Result (Unit {0}) × (K → Option V))
      (r : Result (List (ListItem K V)) × W) (f : GoMap K V → Exec W (Unit {0}))
      → Lists Inv view r m n
      → ((t : GoMap K V) (w : W)
          → Inv w
          → IsMap t
          → ((j : K) → view w j ≡ m j)
          → ((j : K) → lookup j t ≡ n j)
          → Agrees Inv view (f t w) e)
      → Agrees Inv view (continue (continue r (λ xs s. (ok (items_as_map xs), s))) f) e
  behind_map m n e (ok xs, w) f g h =
      h (items_as_map xs) w g.valid (items_as_map-IsMap xs) g.holds (λ j.
        ap (λ t. lookup j (items_as_map t)) (ground (arith, g.result))
        ∙ lookup-items_as_map j g.items g.ascending
        ∙ g.listed j)
  behind_map m n e (err x, w) f g h = let never : ⊥ = cc g.result in absurd never

  module _ (d other : Store W K V) (good : Implements Inv view d) (collision : V → V → V)
      (theirs : W → K → Option V)
      (lists : (w : W) → Inv w → Lists Inv view (other.list nil w) (view w) (theirs w)) where
    -- Merge into a store that implements a map, from a store that lists `theirs` and changes nothing
    -- in doing so, succeeds, and leaves in each key of theirs the new
    -- value, or what the collision function makes of the old and the new one, and in every other
    -- key what was there.
    pub merge-Agrees :
        (w : W)
        → Inv w
        → Agrees Inv view
            (merge d other collision w)
            (ok tt, λ j. joined collision (view w j) (theirs w j))
    unfolding merge as_map
    merge-Agrees w h = behind_map _ _ _ _ _ (lists w h) (λ t u hu i e l.
        Agrees-view _ _ _ _ _ _ (update_all-Agrees _ _ d good collision t u hu i)
          (λ j. rw (e j, l j)))

    -- Clone into a store that implements a map, from a store that lists `theirs` and changes nothing
    -- in doing so, succeeds, and leaves exactly their keys: in each of them the new value, or what the collision function makes of the old and the new one.
    pub clone-Agrees :
        (w : W)
        → Inv w
        → Agrees Inv view
            (clone d other collision w)
            (ok tt, λ j. copied collision (view w j) (theirs w j))
    unfolding clone as_map
    clone-Agrees w h = behind_map _ _ _ _ _ (lists w h) (λ t u hu i e l.
        then_Agrees _ _ _ _ _ _ (update_all-Agrees _ _ d good collision t u hu i) (λ x hx q.
          behind_map _ _ _ _ _ (good.lists x hx) (λ ours y hy iy ey ly.
            Agrees-view _ _ _ _ _ _
              (delete_missing-Agrees _ _ d good collision t ours y hy iy
                (λ j s. ground (arith, ey j, ly j)))
              (λ j. ground (arith, ey j, ly j, q j, e j, l j)))))
