-- ===== src/Store.antt =====
-- pkg/store/store.go: the interface of a key-value store, and what is written over the interface.
-- A store is a record of methods over a state of type S; middleware is a function from stores to
-- stores, so a stack of middleware is a composition of such functions.
pub mod Options
pub mod Listing
pub mod Spec
pub mod Memory
pub mod Prefix
pub mod History
pub mod DefaultMap
pub mod Files
pub mod ConfigMaps
pub mod Lift
pub mod Cache
pub mod Guarded
pub mod Timed
pub mod Labels
pub mod Kafka
pub mod ClaimLock
pub mod Replicate
pub mod Http
mod Examples
use golibs.Prelude.{List, [], ◌∷◌, Key, Option, none, some, map}
use golibs.GoMap.{GoMap}
use golibs.GoMap
use golibs.Exec.{Result, ok, err, Exec, ◌>>=◌, ◌>>◌, pure}
use Options.{StoreOptions, nil}

pub record ListItem {ℓ} (K V : Type ℓ) : Type ℓ where
  pub key : K
  pub value : V

pub record Store {ℓ} (S K V : Type ℓ) : Type ℓ where
  pub create : K → V → StoreOptions → Exec S (Unit {0})
  pub read : K → StoreOptions → Exec S V
  pub update : K → V → StoreOptions → Exec S (Unit {0})
  pub apply : K → V → StoreOptions → Exec S (Unit {0})
  pub delete : K → StoreOptions → Exec S (Unit {0})
  pub list : StoreOptions → Exec S (List (ListItem K V))

module _ {ℓ} {K V : Type ℓ} ⦃o : Key K⦄ where
  -- ListItems.Keys
  unfoldable pub keys : List (ListItem K V) → List K
  keys [] = []
  keys (x ∷ xs) = x.key ∷ keys xs

  -- The loop of ListItems.AsMap.
  unfoldable pub store_items : GoMap K V → List (ListItem K V) → GoMap K V
  store_items m [] = m
  store_items m (x ∷ xs) = store_items (GoMap.store x.key x.value m) xs

  unfoldable pub items_as_map : List (ListItem K V) → GoMap K V
  unfolding store_items
  items_as_map = store_items []

  module _ {S : Type ℓ} (st : Store S K V) where
    -- AsMap
    unfoldable pub as_map : StoreOptions → Exec S (GoMap K V)
    unfolding items_as_map
    as_map opts = do items ← st.list opts; pure (items_as_map items)

    -- The loop of Reset.
    unfoldable pub delete_items : List (ListItem K V) → Exec S (Unit {0})
    delete_items [] = pure tt
    delete_items (x ∷ xs) = let rest = delete_items xs in st.delete x.key nil >> rest

    unfoldable pub reset : Exec S (Unit {0})
    unfolding delete_items
    reset = do items ← st.list nil; delete_items items

abbrev then_build {ℓ} : {A B : Type ℓ} → Result A → (A → Result B) → Result B
then_build (ok a) f = f a
then_build (err e) f = err e

module _ {ℓ} {S K V : Type ℓ} where
  -- The loop of New over the middleware.
  unfoldable pub build :
      Store S K V → List (Store S K V → Result (Store S K V)) → Result (Store S K V)
  build st [] = ok st
  build st (b ∷ bs) = elim (b st) [ ok next ↦ build next bs | err e ↦ err e ]

  pub new_store :
      Result (Store S K V) → List (Store S K V → Result (Store S K V)) → Result (Store S K V)
  unfolding build
  new_store outer middleware = then_build outer (λ st. build st middleware)
