-- ===== src/Health/Examples.antt =====
-- The theorems on health checks for two jobs and an in-memory cache.
use golibs.Prelude.{ℕ, true, false, none, List, [], ◌∷◌, ◌++◌, ◌≡◌, refl, nat_key, codes}
use golibs.GoMap.{GoMap, IsMap}
use golibs.Store.{Store}
use golibs.Store.Memory.{memory}
use golibs.Store.Memory.Refines.{view, memory-Implements}
use golibs.Health.{
  Job, JobResult, Turn, checked, timed_out, to_job_result, run_any, run_round, fetch_job_results,
}
use golibs.Health.Rounds.{fetch_job_results-round}

abbrev first_job : Job
first_job = record { name = codes "first"; description = []; may_fail = true; timeout = 5 }

abbrev second_job : Job
second_job = record { name = codes "second"; description = []; may_fail = false; timeout = 5 }

abbrev failing_turn : Turn
failing_turn = record { start = 10; now = 20; ending = timed_out }

abbrev passing_turn : Turn
passing_turn = record { start = 11; now = 12; ending = checked none }

abbrev front : List (Job × Turn)
front = (first_job, failing_turn) ∷ []

abbrev back : List (Job × Turn)
back = (second_job, passing_turn) ∷ []

abbrev cache : Store (GoMap ℕ JobResult) ℕ JobResult
cache = memory (to_job_result first_job)

-- A fetch for the second job reports the result of the first.
fetch_job_results-round_example :
    (fetch_job_results cache (second_job ∷ []) (run_round cache (front ++ back) [])).0
    ≡ run_any front
fetch_job_results-round_example =
    fetch_job_results-round IsMap view cache (memory-Implements (to_job_result first_job)) front
      back (second_job ∷ []) [] tt refl

abbrev results : List JobResult
results = to_job_result first_job ∷ []
