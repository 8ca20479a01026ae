-- ===== src/Slices/Counting.antt =====
-- Count gives each element the number of its occurrences, and Map each key its last entry.
use golibs.Prelude.{
  ℕ, ◌+◌, ◌==◌, true, false, Option, none, some, List, [], ◌∷◌, ◌≡◌, ◌⊎◌, refl, ◌∙◌, arith,
  if◌then◌else◌, Key, Bool-cases, inl, inr,
}
use golibs.GoMap.{GoMap, lookup}
use golibs.GoMap
use golibs.GoMap.Laws.{lookup-store}
use golibs.Slices.{next_count, count_from, count}

-- A count that is added to what may be there.
abbrev added : Option ℕ → ℕ → Option ℕ
added none n = if n == 0 then none else some n
added (some m) n = some (m + n)

added-zero : (x : Option ℕ) → x ≡ added x 0
added-zero none = refl
added-zero (some n) = ground arith

added-next : (x : Option ℕ) (n : ℕ) → added (some (next_count x)) n ≡ added x (n + 1)
added-next none n = ground arith
added-next (some m) n = ground arith

module _ {E : Type 0} ⦃o : Key E⦄ where
  -- How often an element occurs.
  unfoldable pub occurrences : E → List E → ℕ
  occurrences v [] = 0
  occurrences v (x ∷ s) = let rest = occurrences v s in if o.eqb x v then rest + 1 else rest

  lookup-count_from :
      (m : GoMap E ℕ) (s : List E) (v : E)
      → lookup v (count_from m s) ≡ added (lookup v m) (occurrences v s)
  unfolding count_from occurrences
  lookup-count_from m [] v = added-zero (lookup v m)
  lookup-count_from m (x ∷ s) v =
      lookup-count_from (GoMap.store x (next_count (lookup x m)) m) s v
      ∙ rw (lookup-store x v (next_count (lookup x m)) m) (counted (Bool-cases (o.eqb x v)))
    where
      counted :
          (o.eqb x v ≡ true) ⊎ (o.eqb x v ≡ false)
          → added
              (if o.eqb x v then some (next_count (lookup x m)) else lookup v m)
              (occurrences v s)
            ≡ added (lookup v m) (if o.eqb x v then occurrences v s + 1 else occurrences v s)
      counted (inl e) =
          let p : x ≡ v = (o.eqb_iff x v).0 e in
          rw (e, p) (added-next (lookup v m) (occurrences v s))
      counted (inr e) = rw e refl

  -- Count has an entry for exactly the elements of the slice: the number of their occurrences.
  pub lookup-count :
      (s : List E) (v : E)
      → lookup v (count s) ≡ (if occurrences v s == 0 then none else some (occurrences v s))
  unfolding count lookup
  lookup-count s v = lookup-count_from [] s v
