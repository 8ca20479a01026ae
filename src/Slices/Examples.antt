-- ===== src/Slices/Examples.antt =====
-- The theorems on slices at concrete slices.
use golibs.Prelude.{ℕ, List, [], ◌∷◌, nat_key, ◌+◌}
use golibs.Slices.ThreadSafe.{Call, call_add_if_not_exists, call_delete_by_value, call_delete}

abbrev some_numbers : List ℕ
some_numbers = 4 ∷ 2 ∷ 4 ∷ 9 ∷ []

abbrev others : List ℕ
others = 2 ∷ 7 ∷ []

abbrev double : ℕ → ℕ
double n = n + n

abbrev slice_calls : List (Call ℕ)
slice_calls =
    call_add_if_not_exists 7
    ∷ call_add_if_not_exists 2
    ∷ call_delete 0
    ∷ call_delete_by_value 7
    ∷ call_add_if_not_exists 8
    ∷ []
