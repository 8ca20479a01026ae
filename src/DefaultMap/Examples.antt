-- ===== src/DefaultMap/Examples.antt =====
-- The theorems on DefaultMap at concrete maps.
use golibs.Prelude.{ℕ, [], ◌∷◌, nat_key}
use golibs.GoMap.{GoMap}

abbrev sums : GoMap ℕ ℕ
sums = (1, 10) ∷ (2, 20) ∷ []

abbrev more : GoMap ℕ ℕ
more = (2, 5) ∷ (3, 7) ∷ []
