-- ===== src/Http/Retrier/Examples.antt =====
-- The theorem on retried requests for a server that is unavailable at first.
use golibs.Prelude.{
  ℕ, suc, ◌-◌, ◌==◌, ◌<◌, false, Option, none, some, [], refl, arith, codes, if◌then◌else◌,
}
use golibs.Errors.{Error, sentinel, wait_timeout, same, status}
use golibs.Http.{Request, Endpoint, get}
use golibs.Exec.{Result, ok}
use golibs.Workflow.{Waiting}
use golibs.Http.Retrier.{Retrier, new_cloned_request, retrier_tripperware}
use golibs.Http.Retrier.Attempts.{Answers, retrier_tripperware-Succeeds}

unfoldable counting : Waiting ℕ
counting = record {
  steps = λ b. b;
  step = λ b. b - 1;
  wait_timeout = sentinel wait_timeout;
  is_interrupted = λ e. same e (sentinel wait_timeout);
  counts_down = λ b. omega arith;
  timeout_interrupts = refl;
}

abbrev three : Retrier ℕ
three = record {
  retryable_error = λ e. same e (status 503);
  backoff = 3;
  run_forever = false;
  rounds = 4;
}

abbrev request : Request ℕ
request = record { method = get; url = codes "/"; raw_query = []; body = some 7 }

-- The state counts the requests; the third one is answered.
abbrev busy : Endpoint ℕ ℕ
busy r n = (record { raw = some n; status = if n == 2 then 200 else 503; error = none }, suc n)

enough : counting.steps three.backoff < three.rounds
unfolding counting
enough = omega arith

abbrev readable : ℕ → Result ℕ
readable b = ok b

abbrev alive : ℕ → Option Error
alive i = none

retrier_tripperware-Succeeds_example :
    Answers readable busy counting three alive alive 0
      (new_cloned_request readable request)
      (retrier_tripperware readable busy counting three alive alive request 0)
retrier_tripperware-Succeeds_example =
    retrier_tripperware-Succeeds readable busy counting three alive alive request 0 refl enough
