-- ===== src/DefaultMap.antt =====
-- pkg/defaultmap/defaultmap.go: a Go map with a collision function.
pub mod Joined
mod Examples
use golibs.Prelude.{Option, none, some, [], ◌∷◌, Key}
use golibs.GoMap.{GoMap, lookup}
use golibs.GoMap

-- What Update stores for a key, given what the key holds.
abbrev pub resolve {ℓ} : {V : Type ℓ} → (V → V → V) → V → Option V → V
resolve collision new none = new
resolve collision new (some current) = collision current new

module _ {ℓ} {K V : Type ℓ} ⦃o : Key K⦄ where
  -- Update
  unfoldable pub update : GoMap K V → K → V → (V → V → V) → GoMap K V
  update d key new collision = GoMap.store key (resolve collision new (lookup key d)) d

  -- Set
  unfoldable pub set : GoMap K V → K → V → GoMap K V
  unfolding update
  set d key new = update d key new (λ old n. n)

  -- Merge
  unfoldable pub merge : GoMap K V → GoMap K V → (V → V → V) → GoMap K V
  unfolding update
  merge d [] collision = d
  merge d ((k, v) ∷ other) collision = merge (update d k v collision) other collision
