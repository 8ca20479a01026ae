-- ===== src/GoMap.antt =====
-- Go's built-in map as a list of entries; the order of the list stands for the order of a visit,
-- which Go leaves open. `store` overwrites in place, as a map has one entry for a key.
pub mod Laws
use golibs.Prelude.{
  Bool, true, false, Option, none, some, List, [], ◌∷◌, Key, if◌then◌else◌, is_some, ◌≡◌,
}

abbrev pub GoMap {ℓ} : Type ℓ → Type ℓ → Type ℓ
GoMap K V = List (K × V)

module _ {ℓ} {K V : Type ℓ} ⦃o : Key K⦄ where
  -- v, ok := m[k]
  unfoldable pub lookup : K → GoMap K V → Option V
  lookup k [] = none
  lookup k ((j, v) ∷ m) = if o.eqb j k then some v else lookup k m

  -- m[k] = v
  unfoldable pub store : K → V → GoMap K V → GoMap K V
  store k v [] = (k, v) ∷ []
  store k v ((j, w) ∷ m) = if o.eqb j k then (j, v) ∷ m else (j, w) ∷ store k v m

  -- delete(m, k)
  unfoldable pub remove : K → GoMap K V → GoMap K V
  remove k [] = []
  remove k ((j, w) ∷ m) = let rest = remove k m in if o.eqb j k then rest else (j, w) ∷ rest

  -- No key has two entries.
  abbrev pub IsMap : GoMap K V → Type ℓ
  IsMap [] = Unit
  IsMap ((k, v) ∷ m) = (lookup k m ≡ none) × IsMap m

  -- Two maps that hold the same entries, whatever their order.
  abbrev pub Same : GoMap K V → GoMap K V → Type ℓ
  Same m n = (k : K) → lookup k m ≡ lookup k n

  -- maps.Copy
  unfoldable pub copy : GoMap K V → GoMap K V → GoMap K V
  unfolding store
  copy m [] = m
  copy m ((k, v) ∷ n) = copy (store k v m) n
