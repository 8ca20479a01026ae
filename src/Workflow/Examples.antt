-- ===== src/Workflow/Examples.antt =====
-- The theorem on chains of activities for a backoff that is the number of its steps.
use golibs.Prelude.{ℕ, zero, suc, ◌-◌, true, false, [], ◌∷◌, none, some, refl, arith, codes}
use golibs.Errors.{sentinel, wait_timeout, invalid, same}
use golibs.Workflow.{Waiting, Options, Activity, Watch, alive, returned, panicked, execute}
use golibs.Workflow.Runs.{Ends, execute-Ends}

abbrev counting : Waiting ℕ
counting = record {
  steps = λ b. b;
  step = λ b. b - 1;
  wait_timeout = sentinel wait_timeout;
  is_interrupted = λ e. same e (sentinel wait_timeout);
  counts_down = λ b. omega arith;
  timeout_interrupts = refl;
}

abbrev twice : Options ℕ
twice = record { backoff = 2; run_forever = false; is_retriable = λ e. true; rounds = 3 }

-- An activity that adds one, one that fails and changes nothing, and one that panics.
abbrev adds : Activity ℕ
adds = record { name = codes "adds"; run = λ n. (returned none, suc n); interrupted = λ n. n }

abbrev fails : Activity ℕ
fails = record {
  name = codes "fails";
  run = λ n. (returned (some (invalid 1)), n);
  interrupted = λ n. n;
}

abbrev panics : Activity ℕ
panics = record { name = codes "panics"; run = λ n. (panicked, n); interrupted = λ n. n }

-- The context is done by the second attempt of the second activity.
abbrev canceled_late : ℕ → Watch
canceled_late (suc zero) (suc i) = record {
  before = some (invalid 2);
  awaiting = some (invalid 2);
  testing = some (invalid 2);
  during = some (invalid 2);
}
canceled_late _ _ = alive 0

execute-Ends_example :
    Ends counting twice canceled_late
      (adds ∷ fails ∷ panics ∷ [])
      5
      (execute counting twice canceled_late (adds ∷ fails ∷ panics ∷ []) 5)
execute-Ends_example =
    execute-Ends counting twice refl (omega arith) canceled_late (adds ∷ fails ∷ panics ∷ []) 5
