-- ===== src/Health/Statuses.antt =====
-- What the availability of jobs adds up to.
use golibs.Prelude.{
  Bool, true, false, not, ◌&&◌, ◌||◌, List, [], ◌∷◌, ◌≡◌, refl, arith, is_empty, nat_key,
  if◌then◌else◌,
}
use golibs.Slices.{transform, contains}
use golibs.Health.{
  JobResult, is_successful, has_errors, get_availability, get_status_response, status_ok,
  status_partially_available, status_unavailable,
}

unfoldable pub any : {A : Type 0} → (A → Bool) → List A → Bool
any p [] = false
any p (x ∷ xs) = p x || any p xs

-- A job that has failed and may not fail.
abbrev pub fatal : JobResult → Bool
fatal r = not r.may_fail && has_errors r

abbrev pub unsuccessful : JobResult → Bool
unsuccessful r = not (is_successful r)

contains-unavailable :
    (rs : List JobResult) → contains (transform rs get_availability) 503 ≡ any fatal rs
unfolding contains transform get_availability any
contains-unavailable [] = refl
contains-unavailable (r ∷ rs) = ground (arith, contains-unavailable rs)

contains-partial :
    (rs : List JobResult)
    → any fatal rs ≡ false
    → contains (transform rs get_availability) 206 ≡ any unsuccessful rs
unfolding contains transform get_availability any
contains-partial [] h = refl
contains-partial (r ∷ rs) h = ground (arith, contains-partial rs)

contains-ok :
    (r : JobResult) (rs : List JobResult)
    → any unsuccessful (r ∷ rs) ≡ false
    → contains (transform (r ∷ rs) get_availability) 200 ≡ true
unfolding contains transform get_availability any
contains-ok r rs h = ground (arith)

-- The status of some results: unavailable where there are none, or a job that may not fail has
-- failed; else partially available where some job is not successful; else OK.
pub get_status_response_lem :
    (rs : List JobResult)
    → get_status_response (transform rs get_availability) ≡ (
        if is_empty rs || any fatal rs
        then status_unavailable
        else (if any unsuccessful rs then status_partially_available else status_ok))
unfolding get_status_response transform
get_status_response_lem [] = refl
get_status_response_lem (r ∷ rs) =
    ground (arith, contains-unavailable (r ∷ rs), contains-partial (r ∷ rs), contains-ok r rs)
