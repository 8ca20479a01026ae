-- ===== src/Health.antt =====
-- pkg/task/job/job.go and pkg/healthcheck (healthcheck.go, handler.go): jobs, what their results say of
-- availability, and the endpoints that report them. The results are in a store behind a timed cache,
-- whose keys are positions. Times are what the clock says, and a zero time is `none`; the ids of
-- results are left out.
pub mod Statuses
pub mod Rounds
mod Examples
use golibs.Prelude.{
  ℕ, zero, suc, ◌+◌, Bool, true, false, not, ◌&&◌, ◌==◌, Option, none, some, List, [], ◌∷◌, ◌++◌,
  Bytes, bytes_key, nat_key, is_some, is_empty, if◌then◌else◌,
}
use golibs.Errors.{Error, invalid}
use golibs.Exec.{Result, ok, err, Exec}
use golibs.Slices.{transform, contains}
use golibs.Store.{Store}
use golibs.Store.Options.{nil}

-- Job; durations are nanoseconds. The check itself is what Run says of it, below.
pub record Job : Type 0 where
  pub name : Bytes
  pub description : Bytes
  pub may_fail : Bool
  pub timeout : ℕ

abbrev pub err_name_required : Error
err_name_required = invalid 100

abbrev pub err_job_not_started : Error
err_job_not_started = invalid 101

abbrev pub err_job_timeout : Error
err_job_timeout = invalid 102

abbrev pub err_job_panicked : Error
err_job_panicked = invalid 103

abbrev pub default_timeout : ℕ
default_timeout = 5000000000

-- Config.Validate
abbrev validate : Job → Option Error
validate j = if is_empty j.name then some err_name_required else none

-- Config.ApplyDefaults
abbrev apply_defaults : Job → Job
apply_defaults j = record j { timeout = if j.timeout == 0 then default_timeout else j.timeout }

abbrev checked_job : Job → Option Error → Result Job
checked_job j none = ok j
checked_job j (some e) = err e

-- New, for a check that is not nil.
unfoldable pub new_job : Job → Result Job
new_job j = checked_job (apply_defaults j) (validate (apply_defaults j))

pub data State : Type 0 where
  no_state success failed : State

pub record JobResult : Type 0 where
  pub name : Bytes
  pub description : Bytes
  pub timeout : ℕ
  pub may_fail : Bool
  pub started_at : Option ℕ
  pub finished_at : Option ℕ
  pub state : State
  pub error : Option Error

-- The values of Availability are HTTP status codes.
abbrev pub status_ok : ℕ
status_ok = 200

abbrev pub status_partially_available : ℕ
status_partially_available = 206

abbrev pub status_unavailable : ℕ
status_unavailable = 503

-- IsRunning
abbrev pub is_running : JobResult → Bool
is_running r = not (is_some r.finished_at)

-- HasErrors
abbrev pub has_errors : JobResult → Bool
has_errors r = is_some r.error

-- IsSuccessful
unfoldable pub is_successful : JobResult → Bool
is_successful r = if is_running r then false else not (has_errors r)

-- GetAvailability
unfoldable pub get_availability : JobResult → ℕ
unfolding is_successful
get_availability r =
    if is_successful r
    then status_ok
    else (if not r.may_fail && has_errors r then status_unavailable else status_partially_available)

-- ToJobResult
abbrev pub to_job_result : Job → JobResult
to_job_result j = record {
  name = j.name;
  description = j.description;
  timeout = j.timeout;
  may_fail = j.may_fail;
  started_at = none;
  finished_at = none;
  state = no_state;
  error = some err_job_not_started;
}

-- How the select of Run ends: the check returns, or panics, before its timeout; the timeout is over; or the context is done.
pub data Ending : Type 0 where
  checked : Option Error → Ending
  panicked : Ending
  timed_out : Ending
  done : Error → Ending

abbrev pub ending_error : Ending → Option Error
ending_error (checked e) = e
ending_error panicked = some err_job_panicked
ending_error timed_out = some err_job_timeout
ending_error (done e) = some e

-- MarkAsCompleted, at the time `now`.
unfoldable pub mark_as_completed : ℕ → JobResult → JobResult
unfolding is_successful
mark_as_completed now r =
    let f = record r { finished_at = some now } in
    record f { state = if is_successful f then success else failed }

-- Run, which starts at `start` and ends at `now`.
unfoldable pub run_job : ℕ → ℕ → Ending → Job → JobResult
unfolding mark_as_completed
run_job start now ending j =
    mark_as_completed now (record (record (to_job_result j) { started_at = some start }) {
      error = ending_error ending;
    })

-- How each job of a round starts and ends.
pub record Turn : Type 0 where
  pub start : ℕ
  pub now : ℕ
  pub ending : Ending

-- RunAny, for jobs with their turns.
unfoldable pub run_any : List (Job × Turn) → List JobResult
unfolding run_job
run_any [] = []
run_any ((j, t) ∷ jobs) = run_job t.start t.now t.ending j ∷ run_any jobs

-- getStatusResponse and AvailabilityFromString; a text of a status stands for its code.
unfoldable pub get_status_response : List ℕ → ℕ
unfolding contains
get_status_response [] = status_unavailable
get_status_response (s ∷ statuses) =
    if contains (s ∷ statuses) status_unavailable
    then status_unavailable
    else (if contains (s ∷ statuses) status_partially_available
        then status_partially_available
        else (if contains (s ∷ statuses) status_ok then status_ok else status_unavailable))

-- Check, with the job and its endpoints.
pub record Check : Type 0 where
  pub job : Job
  pub endpoint : List Bytes

-- HasEndpoint
unfoldable pub has_endpoint : Bytes → List Check → Bool
unfolding contains
has_endpoint e [] = false
has_endpoint e (c ∷ checks) = if contains c.endpoint e then true else has_endpoint e checks

-- AllChecks
unfoldable pub all_checks : List Check → List Job
all_checks [] = []
all_checks (c ∷ checks) = c.job ∷ all_checks checks

-- JobsForEndpoint
unfoldable pub jobs_for_endpoint : Bytes → List Check → List Job
unfolding contains
jobs_for_endpoint e [] = []
jobs_for_endpoint e (c ∷ checks) =
    let rest = jobs_for_endpoint e checks in if contains c.endpoint e then c.job ∷ rest else rest

module _ {S : Type 0} (cache : Store S ℕ JobResult) where
  abbrev pub cached_or : Job → Result JobResult → JobResult
  cached_or j (ok r) = r
  cached_or j (err e) = to_job_result j

  -- The loop of FetchJobResults, from the position `i` on.
  unfoldable pub fetch_from : ℕ → List Job → S → List JobResult × S
  fetch_from i [] s = ([], s)
  fetch_from i (j ∷ jobs) s =
      let r = cache.read i nil s in
      let rest = fetch_from (suc i) jobs r.1 in (cached_or j r.0 ∷ rest.0, rest.1)

  -- FetchJobResults
  unfoldable pub fetch_job_results : List Job → S → List JobResult × S
  unfolding fetch_from
  fetch_job_results = fetch_from 0

  -- The loop of RunBackground over the results of a round.
  unfoldable pub store_from : ℕ → List JobResult → S → S
  store_from i [] s = s
  store_from i (r ∷ results) s = store_from (suc i) results (cache.apply i r nil s).1

  -- A round of RunBackground.
  unfoldable pub run_round : List (Job × Turn) → S → S
  unfolding run_any store_from
  run_round jobs = store_from 0 (run_any jobs)

  -- run, newResponse and handle: the code of the response, and the results in it.
  unfoldable pub handle : List Job → S → (ℕ × List JobResult) × S
  unfolding fetch_job_results get_status_response get_availability transform
  handle jobs s =
      let r = fetch_job_results jobs s in
      ((get_status_response (transform r.0 get_availability), r.0), r.1)

  -- HandlerFuncStatus
  unfoldable pub handle_status : List Check → S → (ℕ × List JobResult) × S
  unfolding handle all_checks
  handle_status checks = handle (all_checks checks)

  -- HandlerFuncHealthz and HandlerFuncReadyz, for their endpoints.
  unfoldable pub handle_endpoint : Bytes → List Check → S → (ℕ × List JobResult) × S
  unfolding handle jobs_for_endpoint
  handle_endpoint e checks = handle (jobs_for_endpoint e checks)
