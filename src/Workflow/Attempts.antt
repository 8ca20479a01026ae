-- ===== src/Workflow/Attempts.antt =====
-- What executeActivity makes of an activity that succeeds at once, or fails twice.
use golibs.Prelude.{ℕ, suc, true, false, none, some, ◌≡◌, refl}
use golibs.Errors.{Error, wrap}
use golibs.Retry.Twice.{on_error-once, on_error-twice}
use golibs.Workflow.{
  Waiting, Options, Activity, execute_activity, run_recovered, await, retriable, alive,
}

module _ {S B : Type 0} (w : Waiting B) (o : Options B) (a : Activity S) where
  -- At least one step, and rounds to take it: an activity that succeeds runs once.
  pub execute_activity-succeeds :
      (n m : ℕ) (s : S)
      → w.steps o.backoff ≡ suc n
      → o.rounds ≡ suc m
      → (run_recovered a s).0 ≡ none
      → execute_activity w o alive a s ≡ (some none, (run_recovered a s).1)
  unfolding execute_activity await retriable
  execute_activity-succeeds n m s h r e =
      rw
        (
          r,
          on_error-once (retriable alive o.is_retriable) (await alive a) w.steps w.step
              w.wait_timeout w.is_interrupted o.run_forever n m o.backoff (0, s) h e,
        )
        refl

  -- Two steps, one by one, and errors that are worth a retry: an activity that fails twice runs twice, and
  -- ends with its second error.
  pub execute_activity-fails :
      (m : ℕ) (s : S) (e d : Error)
      → w.steps o.backoff ≡ 2
      → w.steps (w.step o.backoff) ≡ 1
      → o.rounds ≡ suc (suc m)
      → o.run_forever ≡ false
      → ((x : Error) → o.is_retriable x ≡ true)
      → let once = run_recovered a s in
        let twice = run_recovered a once.1 in
        once.0 ≡ some e
        → twice.0 ≡ some d
        → execute_activity w o alive a s ≡ (some (some (wrap d)), twice.1)
  unfolding execute_activity await retriable
  execute_activity-fails m s e d h h1 r f t p q =
      rw
        (
          r,
          f,
          on_error-twice (retriable alive o.is_retriable) (await alive a) w.steps w.step
              w.wait_timeout w.is_interrupted m o.backoff (0, s) e d h h1 w.timeout_interrupts p q
              (t e) (t d),
        )
        refl
