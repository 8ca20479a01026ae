-- ===== src/Access/Examples.antt =====
-- The theorems on access at concrete scopes.
use golibs.Prelude.{true, [], ◌∷◌, codes, ◌≡◌, refl, ◌||◌, bytes_eqb}
use golibs.Access.{match_scope}
use golibs.Access.Node.{empty, wildcard, find, insert_all}
use golibs.Access.Node.Laws.{any_matches, find-insert_all}
use golibs.Access.Basic.{BasicScope, as_labels, as_scope}
use golibs.Access.Basic.Laws.{all_covered, match_scope-covered}

abbrev developer : BasicScope
developer = record {
  actions = codes "POST" ∷ codes "GET" ∷ [];
  environments = codes "dev" ∷ [];
  teams = codes "red" ∷ codes "blue" ∷ [];
  roles = codes "user" ∷ [];
}

abbrev reader : BasicScope
reader = record {
  actions = codes "GET" ∷ [];
  environments = wildcard ∷ [];
  teams = codes "red" ∷ [];
  roles = wildcard ∷ [];
}

abbrev question : BasicScope
question = record {
  actions = codes "GET" ∷ [];
  environments = codes "dev" ∷ codes "prd" ∷ [];
  teams = codes "red" ∷ [];
  roles = codes "user" ∷ [];
}

match_scope-covered_example :
    match_scope (as_scope developer ∷ as_scope reader ∷ []) (as_scope question)
    ≡ all_covered (developer ∷ reader ∷ []) question
match_scope-covered_example =
    match_scope-covered (developer ∷ reader ∷ []) (refl, (refl, tt)) question refl

-- Neither scope alone covers the request.
question_allowed :
    match_scope (as_scope developer ∷ as_scope reader ∷ []) (as_scope question) ≡ true
unfolding match_scope as_labels bytes_eqb
question_allowed = refl

find-insert_all_example :
    find (codes "red" ∷ codes "dev" ∷ []) (insert_all ((codes "red" ∷ wildcard ∷ []) ∷ []) empty)
    ≡ (find (codes "red" ∷ codes "dev" ∷ []) empty
        || any_matches ((codes "red" ∷ wildcard ∷ []) ∷ []) (codes "red" ∷ codes "dev" ∷ []))
find-insert_all_example =
    find-insert_all ((codes "red" ∷ wildcard ∷ []) ∷ []) (codes "red" ∷ codes "dev" ∷ []) empty
      (tt, tt)

abbrev fits : Unit {0} × ((Unit {0} × Unit {0}) × Unit {0})
fits = (tt, ((tt, tt), tt))
