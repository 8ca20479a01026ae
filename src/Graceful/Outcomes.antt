-- ===== src/Graceful/Outcomes.antt =====
-- What RunT returns.
use golibs.Prelude.{
  ℕ, suc, ◌+◌, ◌≤◌, true, ◌||◌, Option, none, some, is_some, ◌≡◌, ◌⊎◌, inl, inr, refl, arith, subst,
  sym,
}
use golibs.Errors.{Error}
use golibs.Graceful.{
  Outcome, Phase, waiting, stopping, ended, RunState, Step, wake, collect, give_up, Event, cancel,
  complete, Run, here, step, event, tick, value_of, error_of, err_shutdown_timeout, start,
}

module _ {T : Type 0} (timeout : ℕ) where
  -- What is returned: the outcome of `do`, or the error of the timeout behind at least so many ticks.
  abbrev pub Settles : ℕ → RunState T → Option T → Option Error → Type 0
  Settles n t v e =
      ((r : Outcome T) × (t.worker ≡ some r) × (v ≡ value_of (some r)) × (e ≡ error_of r))
      ⊎ ((e ≡ some err_shutdown_timeout) × (timeout ≤ n))

  module _ (now : ℕ) where
    abbrev Reached : ℕ → RunState T → Phase T → Type 0
    Reached n t waiting = Unit
    Reached n t (stopping d) = ((t.done || is_some t.worker) ≡ true) × (now + timeout ≤ d)
    Reached n t (ended v e) = ((t.done || is_some t.worker) ≡ true) × Settles n t v e

    record Holds (n : ℕ) (t : RunState T) : Type 0 where
      clock : t.clock ≡ now + n
      reached : Reached n t t.phase

    Holds-Step : {n : ℕ} {t u : RunState T} → Step timeout t u → Holds n t → Holds n u
    Holds-Step (wake t w r) h =
        let c = h.clock in record { clock = h.clock; reached = (r, omega arith) }
    Holds-Step {n} (collect t d r p w) h =
        let k = subst (Reached n t) p h.reached in
        record { clock = h.clock; reached = (k.0, inl (r, w, refl, refl)) }
    Holds-Step {n} (give_up t d p l) h =
        let k = subst (Reached n t) p h.reached in
        let c = h.clock in
        let late = k.1 in record { clock = h.clock; reached = (k.0, inr (refl, omega arith)) }

    canceled-Reached :
        (n : ℕ) (t : RunState T) (p : Phase T)
        → Reached n t p
        → Reached n (record t { done = true }) p
    canceled-Reached n t waiting h = tt
    canceled-Reached n t (stopping d) h = (refl, h.1)
    canceled-Reached n t (ended v e) h = (refl, h.1)

    completed-Reached :
        (n : ℕ) (t : RunState T) (r : Outcome T) (p : Phase T)
        → t.worker ≡ none
        → Reached n t p
        → Reached n (record t { worker = some r }) p
    completed-Reached n t r waiting w h = tt
    completed-Reached n t r (stopping d) w h = (ground arith, h.1)
    completed-Reached n t r (ended v e) w h =
        (ground arith, elim h.1 [ inl (o, has, a, b) ↦ absurd (cc (sym w, has)) | inr k ↦ inr k ])

    Holds-Event : {n : ℕ} {t u : RunState T} → Event t u → Holds n t → Holds n u
    Holds-Event {n} (cancel t) h = record {
      clock = h.clock;
      reached = canceled-Reached n t t.phase h.reached;
    }
    Holds-Event {n} (complete t r w) h = record {
      clock = h.clock;
      reached = completed-Reached n t r t.phase w h.reached;
    }

    ticked-Reached :
        (n : ℕ) (t : RunState T) (p : Phase T)
        → Reached n t p
        → Reached (suc n) (record t { clock = suc t.clock }) p
    ticked-Reached n t waiting h = tt
    ticked-Reached n t (stopping d) h = h
    ticked-Reached n t (ended v e) h =
        (h.0, elim h.1 [ inl k ↦ inl k | inr k ↦ inr (k.0, omega (arith, k.1)) ])

    Run-Holds : {n : ℕ} {t : RunState T} → Run timeout (start now none) n t → Holds n t
    unfolding start
    Run-Holds here = record { clock = omega arith; reached = tt }
    Run-Holds (step r st) = Holds-Step st (Run-Holds r)
    Run-Holds (event r ev) = Holds-Event ev (Run-Holds r)
    Run-Holds (tick {n} {t} r idle) =
        let h = Run-Holds r in
        let c = h.clock in
        record { clock = omega arith; reached = ticked-Reached n t t.phase h.reached }

  -- RunT, called with a context that is not done, returns only behind the end of `do` or of the
  -- context. It returns what `do` has returned and no error; or the zero value and the error of a
  -- recovered panic, if `do` has panicked; or the error of the timeout, and this only if at least as
  -- many ticks as the timeout have passed since the call.
  pub Run-Settles :
      (now : ℕ) {n : ℕ} {t : RunState T} {v : Option T} {e : Option Error}
      → Run timeout (start now none) n t
      → t.phase ≡ ended v e
      → ((t.done || is_some t.worker) ≡ true) × Settles n t v e
  Run-Settles now {n} {t} r p = subst (Reached now n t) p (Run-Holds now r).reached
