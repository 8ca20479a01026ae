-- ===== src/Retry/Examples.antt =====
-- The theorems on retries for a backoff that is the number of its steps.
use golibs.Prelude.{
  ℕ, suc, ◌-◌, ◌+◌, ◌≤◌, true, false, Option, none, some, refl, ◌==◌, if◌then◌else◌, arith,
}
use golibs.Errors.{Error, invalid}
use golibs.Retry.{Verdict, retry_later, exponential_backoff, on_error}
use golibs.Retry.Bounds.{counted, exponential_backoff-attempts}
use golibs.Retry.Success.{Succeeds, on_error-Succeeds}

abbrev own_steps : ℕ → ℕ
own_steps b = b

abbrev one_less : ℕ → ℕ
one_less b = b - 1

abbrev alive : ℕ → Option Error
alive i = none

abbrev timeout_error : Error
timeout_error = invalid 90

-- A condition that counts its calls and never succeeds.
abbrev never_true : ℕ → Verdict × ℕ
never_true n = (retry_later, suc n)

-- A function that succeeds in its third call.
abbrev third_time : ℕ → Option Error × ℕ
third_time n = (if n == 2 then none else some (invalid 91), suc n)

exponential_backoff-attempts_example :
    (exponential_backoff own_steps one_less false alive alive timeout_error 9 0 3
      (counted never_true)
      (0, 0)).1.0
    ≤ 0 + 3
exponential_backoff-attempts_example =
    exponential_backoff-attempts own_steps one_less alive alive timeout_error (λ b. omega arith) 9 0
      3 never_true 0 0

on_error-Succeeds_example : Succeeds (λ n e. true) third_time 0 3
unfolding on_error
on_error-Succeeds_example =
    on_error-Succeeds own_steps one_less false alive alive timeout_error (λ n e. true) third_time
      (λ e. false) 9 5 0 refl
