-- ===== src/Http/Retrier.antt =====
-- pkg/http/tripperware/retry.go: requests that are made again after an error that is worth a retry.
-- Each attempt has a clone of the request, which as a value is the request. The reading of its body
-- is an argument, as is what each select finds of the context.
pub mod Attempts
mod Examples
use golibs.Prelude.{
  ℕ, zero, suc, ℤ, pos, negsuc, positive, ◌==◌, Bool, true, false, Option, none, some, ◌≡◌, refl,
  if◌then◌else◌, is_some, leb, not,
}
use golibs.Errors.{Error, invalid, is_retryable_error, wrap}
use golibs.Exec.{Result, ok, err}
use golibs.Http.{Data, Request, Endpoint, response_error}
use golibs.Retry.{Outcome, on_error}
use golibs.Workflow.{Waiting}

-- RetrierConfig; durations are nanoseconds.
pub record RetrierConfig : Type 0 where
  pub retries : ℤ
  pub duration : ℤ

abbrev pub default_retry_attempts : ℕ
default_retry_attempts = 3

abbrev pub default_retry_delay : ℕ
default_retry_delay = 100000000

abbrev pub err_retries : Error
err_retries = invalid 110

abbrev pub err_duration : Error
err_duration = invalid 111

abbrev pub err_nil_config : Error
err_nil_config = invalid 112

abbrev or_default : ℕ → ℤ → ℤ
or_default d (pos zero) = pos d
or_default d (pos (suc n)) = pos (suc n)
or_default d (negsuc n) = negsuc n

-- ApplyDefaultRetrierConfig
unfoldable pub apply_default_retrier_config : RetrierConfig → RetrierConfig
apply_default_retrier_config c = record {
  retries = or_default default_retry_attempts c.retries;
  duration = or_default default_retry_delay c.duration;
}

-- Validate
unfoldable pub validate : RetrierConfig → Option Error
validate c =
    if not (positive c.retries)
    then some err_retries
    else (if not (positive c.duration) then some err_duration else none)

abbrev checked : RetrierConfig → Option Error → Result RetrierConfig
checked c none = ok c
checked c (some e) = err (wrap e)

-- NewRetrierForConfig up to the options: the configuration that the backoff is made of.
unfoldable pub retrier_config : Option RetrierConfig → Result RetrierConfig
unfolding apply_default_retrier_config validate
retrier_config none = err err_nil_config
retrier_config (some c) =
    checked (apply_default_retrier_config c) (validate (apply_default_retrier_config c))

-- Retrier; `rounds` bounds the loop of a backoff that runs forever.
pub record Retrier (B : Type 0) : Type 0 where
  pub retryable_error : Error → Bool
  pub backoff : B
  pub run_forever : Bool
  pub rounds : ℕ

-- `if resp != nil && resp.Err == nil { resp.Err = err }`
abbrev pub with_error : {W : Type 0} → Option (Data W) → Option Error → Option (Data W)
with_error none e = none
with_error (some d) e = some (if is_some d.error then d else record d { error = e })

abbrev pub ended : {S W : Type 0} → Outcome × (S × Option (Data W)) → Option (Option (Data W)) × S
ended (none, (s, resp)) = (none, s)
ended (some e, (s, resp)) = (some (with_error resp e), s)

module _ {S W : Type 0} (next : Endpoint S W) (request : Request W) where
  -- The function that OnError calls. It sets the variable `resp`, which starts as nil.
  unfoldable pub try_request : S × Option (Data W) → Option Error × (S × Option (Data W))
  unfolding response_error
  try_request (s, resp) = let r = next request s in (response_error r.0, (r.1, some r.0))

  module _ {B : Type 0} (w : Waiting B) (r : Retrier B) (before during : ℕ → Option Error) where
    abbrev pub retried : S → Outcome × (S × Option (Data W))
    unfolding on_error try_request
    retried s =
        on_error w.steps w.step r.run_forever before during w.wait_timeout w.is_interrupted r.rounds
          r.backoff (λ t. r.retryable_error) try_request (s, none)

abbrev with_body : {W : Type 0} → Request W → Result W → Result (Request W)
with_body request (ok b) = ok (record request { body = some b })
with_body request (err e) = err e

-- NewClonedRequest: the request with the body that io.ReadAll has read.
unfoldable pub new_cloned_request : {W : Type 0} → (W → Result W) → Request W → Result (Request W)
new_cloned_request read_all request = elim request.body [
  | none ↦ ok request
  | some b ↦ with_body request (read_all b)
]

module _ {S W B : Type 0} (read_all : W → Result W) (next : Endpoint S W) (w : Waiting B)
    (r : Retrier B) (before during : ℕ → Option Error) where
  abbrev pub cloned : Result (Request W) → S → Option (Option (Data W)) × S
  unfolding retried
  cloned (err e) s = (some (some (record { raw = none; status = 0; error = some e })), s)
  cloned (ok request) s = ended (retried next request w r before during s)

  -- Tripperware; `none` where the rounds are over, `some none` is a nil response.
  unfoldable pub retrier_tripperware : Request W → S → Option (Option (Data W)) × S
  unfolding new_cloned_request cloned
  retrier_tripperware request = cloned (new_cloned_request read_all request)
