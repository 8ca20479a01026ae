-- ===== src/Workflow.antt =====
-- pkg/task/workflow and pkg/task/runnable/task.go: chains of activities, each with retries. What each
-- select finds of the context is an argument; Stop cancels this context, too. The callbacks and log
-- lines of a workflow change no state that an activity reads. A concurrent workflow runs its
-- activities one by one, each on its own part of the state, and its context is not done.
pub mod Attempts
pub mod Runs
mod Examples
use golibs.Prelude.{
  ℕ, suc, ◌-◌, ◌≤◌, ◌&&◌, not, Bool, true, false, Option, none, some, List, [], ◌∷◌, ◌++◌, ◌≡◌,
  Bytes, is_some,
}
use golibs.Errors.{Error, status, wrap}
use golibs.Retry.{Outcome, on_error}

-- wait.Backoff of Kubernetes with what the code relies on: `steps` reads Steps, `step` is the
-- backoff behind a call of Step, which takes one from Steps, or all of them at the Cap, `wait_timeout` is wait.ErrWaitTimeout, `is_interrupted` is
-- wait.Interrupted.
pub record Waiting (B : Type 0) : Type 0 where
  pub steps : B → ℕ
  pub step : B → B
  pub wait_timeout : Error
  pub is_interrupted : Error → Bool
  pub counts_down : (b : B) → steps (step b) ≤ steps b - 1
  pub timeout_interrupts : is_interrupted wait_timeout ≡ true

-- How a function ends: it returns an error or nil, or it panics.
pub data Ending : Type 0 where
  returned : Option Error → Ending
  panicked : Ending

-- `interrupted` is what an activity that still runs has done when nobody waits for it any more.
pub record Activity (S : Type 0) : Type 0 where
  pub name : Bytes
  pub run : S → Ending × S
  pub interrupted : S → S

-- WorkflowOpts; `rounds` bounds the loop of a backoff that runs forever.
pub record Options (B : Type 0) : Type 0 where
  pub backoff : B
  pub run_forever : Bool
  pub is_retriable : Error → Bool
  pub rounds : ℕ

-- ErrInternalServerError
abbrev pub err_internal_server_error : Error
err_internal_server_error = status 500

-- The error of the context at each select of an attempt that finds it done: in front of the attempt,
-- beside the result of the activity, in the test of its error, and in the wait behind it.
pub record Moment : Type 0 where
  pub before : Option Error
  pub awaiting : Option Error
  pub testing : Option Error
  pub during : Option Error

-- The context in the attempts of an activity.
abbrev pub Watch : Type 0
Watch = ℕ → Moment

-- A context that is not done.
abbrev pub alive : Watch
alive i = record { before = none; awaiting = none; testing = none; during = none }

-- `fmt.Errorf("%s: %w", activity.Name(), err)`, where there is an error.
abbrev pub named_error : Outcome → Outcome
named_error (some (some e)) = some (some (wrap e))
named_error (some none) = some none
named_error none = none

abbrev pub recovered : Ending → Option Error
recovered (returned e) = e
recovered panicked = some err_internal_server_error

module _ {S : Type 0} where
  -- run: a panic is an internal server error.
  abbrev pub run_recovered : Activity S → S → Option Error × S
  run_recovered a s = let r = a.run s in (recovered r.0, r.1)

  -- `select { case <-ctx.Done(): ...; case err := <-workerChan: ... }`
  abbrev pub done_or : Option Error → S → Option Error × S → Option Error × S
  done_or (some e) interrupted result = (some e, interrupted)
  done_or none interrupted result = result

  -- The function that OnError calls; the number beside the state counts its calls.
  unfoldable pub await : Watch → Activity S → ℕ × S → Option Error × (ℕ × S)
  await watch a (i, s) =
      let r = done_or (watch i).awaiting (a.interrupted s) (run_recovered a s) in
      (r.0, (suc i, r.1))

  -- The function `retriable`, behind the call before the one that the number counts next.
  unfoldable pub retriable : Watch → (Error → Bool) → ℕ × S → Error → Bool
  retriable watch is_retriable (i, s) e = not (is_some (watch (i - 1)).testing) && is_retriable e

  -- Weave
  unfoldable pub weave : List (Activity S) → List (Activity S) → List (Activity S)
  weave [] acts = []
  weave (item ∷ c) acts = item ∷ (acts ++ weave c acts)

  module _ {B : Type 0} (w : Waiting B) (o : Options B) where
    -- executeActivity
    unfoldable pub execute_activity : Watch → Activity S → S → Outcome × S
    unfolding await retriable
    execute_activity watch a s =
        let r =
          on_error w.steps w.step o.run_forever (λ i. (watch i).before) (λ i. (watch i).during)
            w.wait_timeout w.is_interrupted o.rounds o.backoff (retriable watch o.is_retriable)
            (await watch a) (0, s) in
        (named_error r.0, r.1.1)

    -- The loop of Execute behind an activity that ended with `r`.
    abbrev pub then_rest : Outcome × S → Outcome × S → Outcome × S
    then_rest (some none, s) rest = rest
    then_rest (some (some e), s) rest = (some (some e), s)
    then_rest (none, s) rest = (none, s)

    -- Execute; `context k` is the context in the attempts of the activity k.
    unfoldable pub execute : (ℕ → Watch) → List (Activity S) → S → Outcome × S
    unfolding execute_activity
    execute context [] s = (some none, s)
    execute context (a ∷ chain) s =
        let r = execute_activity (context 0) a s in
        let rest = execute (λ k. context (suc k)) chain r.1 in then_rest r rest

    -- NewWorkflowFor and ExecuteConcurrent, with items that are parts of the state, for a context
    -- that is not done.
    unfoldable pub execute_for : Bytes → (S → Ending × S) → List S → List Outcome × List S
    unfolding execute_activity
    execute_for name work [] = ([], [])
    execute_for name work (s ∷ ss) =
        let r =
          execute_activity alive (record { name = name; run = work; interrupted = λ t. t }) s in
        let rest = execute_for name work ss in (r.0 ∷ rest.0, r.1 ∷ rest.1)

-- slices.Filter(errs, item != nil) on the errors of the activities that ended.
unfoldable pub filter_errors : List Outcome → List Error
filter_errors [] = []
filter_errors (some (some e) ∷ rs) = e ∷ filter_errors rs
filter_errors (some none ∷ rs) = filter_errors rs
filter_errors (none ∷ rs) = filter_errors rs

-- runnable.AnyError
unfoldable pub any_error : List (Option Error) → Bool
any_error [] = false
any_error (e ∷ es) = let rest = any_error es in elim e [ some x ↦ true | none ↦ rest ]
