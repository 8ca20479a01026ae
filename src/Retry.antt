-- ===== src/Retry.antt =====
-- pkg/retry/retry.go. `B` is wait.Backoff of Kubernetes: `steps` reads its Steps, where a negative
-- number is 0, and `step` is the backoff that a call of Step leaves. The context is asked before
-- each attempt and while the code waits; its answers are given for each attempt: `before i` and
-- `during i` are the error of a context that is done by then. `wait_timeout` is
-- wait.ErrWaitTimeout, and `is_interrupted` is wait.Interrupted. A nil error is `none`.
pub mod Bounds
pub mod Success
pub mod Twice
mod Examples
use golibs.Prelude.{ℕ, zero, suc, Bool, not, ◌&&◌, Option, none, some, ◌==◌, if◌then◌else◌, is_some}
use golibs.Errors.{Error}

-- What a condition returns: (true, nil), (false, nil), or an error.
pub data Verdict : Type 0 where
  finished retry_later : Verdict
  broken : Error → Verdict

-- The result of a loop that the fuel may cut off: `none` is a loop that goes on.
abbrev pub Outcome : Type 0
Outcome = Option (Option Error)

module _ {S : Type 0} where
  -- `case <-ctx.Done(): return ctx.Err()`
  abbrev pub unless : Option Error → S → Outcome × S → Outcome × S
  unless (some e) s rest = (some (some e), s)
  unless none s rest = rest

  -- `if ok, err := ...; err != nil || ok { return err }`
  abbrev pub on_verdict : Verdict × S → Outcome × S → Outcome × S
  on_verdict (finished, s) rest = (some none, s)
  on_verdict (broken e, s) rest = (some (some e), s)
  on_verdict (retry_later, s) rest = rest

  -- The condition that OnError makes of `fn`: beside the state of `fn` it keeps the last error.
  -- `retriable` may read the state, as a closure does.
  unfoldable pub attempt :
      (S → Error → Bool) → (S → Option Error × S) → S × Option Error → Verdict × (S × Option Error)
  attempt retriable fn (s, last) =
      let r = fn s in
      elim r.0 [
        | none ↦ (finished, (r.1, last))
        | some e ↦ if retriable r.1 e then (retry_later, (r.1, some e)) else (broken e, (r.1, last))
      ]

module _ (is_interrupted : Error → Bool) where
  -- `if wait.Interrupted(err) && lastErr != nil { err = lastErr }`
  abbrev pub or_last : Option Error → Outcome → Outcome
  or_last last none = none
  or_last last (some none) = some none
  or_last last (some (some e)) =
      if is_interrupted e && is_some last then some last else some (some e)

module _ {B : Type 0} (steps : B → ℕ) (step : B → B) (run_forever : Bool)
    (before during : ℕ → Option Error) (wait_timeout : Error) where
  -- `backoff.Steps == n && !backoff.RunForever`
  abbrev pub over : ℕ → B → Bool
  over n b = (steps b == n) && not run_forever

  -- ExponentialBackoffWithContext from the attempt i on, for as many rounds as there is fuel.
  unfoldable pub exponential_backoff :
      {S : Type 0} → ℕ → ℕ → B → (S → Verdict × S) → S → Outcome × S
  exponential_backoff zero i b condition s = (none, s)
  exponential_backoff (suc fuel) i b condition s =
      let r = condition s in
      let rest = exponential_backoff fuel (suc i) (step b) condition r.1 in
      if over 0 b
      then (some (some wait_timeout), s)
      else unless (before i) s (
          on_verdict r
            (if over 1 b then (some (some wait_timeout), r.1) else unless (during i) r.1 rest))

  module _ (is_interrupted : Error → Bool) where
    -- OnError
    unfoldable pub on_error :
        {S : Type 0} → ℕ → B → (S → Error → Bool) → (S → Option Error × S) → S → Outcome × S
    unfolding exponential_backoff attempt
    on_error fuel b retriable fn s =
        let r = exponential_backoff fuel 0 b (attempt retriable fn) (s, none) in
        (or_last is_interrupted r.1.1 r.0, r.1.0)
