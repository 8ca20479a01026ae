-- ===== src/Graceful.antt =====
-- pkg/graceful/graceful.go: RunT as a step relation. The goroutine of `do`, the contexts and the timer
-- are the environment; time passes in ticks, and no tick passes while RunT itself has a step to make.
pub mod Bounded
pub mod Outcomes
pub mod All
mod Examples
use golibs.Prelude.{
  ℕ, suc, ◌+◌, ◌≤◌, Bool, true, false, ◌||◌, Option, none, some, is_some, ◌≡◌, leb, if◌then◌else◌,
}
use golibs.Errors.{Error, wrap, sentinel, deadline_exceeded, invalid}

-- What becomes of `do`: it returns a value, or it panics.
pub data Outcome (T : Type 0) : Type 0 where
  returned : T → Outcome T
  panicked : Outcome T

-- Where RunT stands: at its first select, at its second one with the moment of the timer, or behind
-- its return, with a value, where `none` is the zero value, and an error.
pub data Phase (T : Type 0) : Type 0 where
  waiting : Phase T
  stopping : ℕ → Phase T
  ended : Option T → Option Error → Phase T

-- `done` says that the context is done, of itself or by a signal; `worker` holds the variables that
-- the goroutine of `do` writes, once it has ended.
pub record RunState (T : Type 0) : Type 0 where
  pub clock : ℕ
  pub done : Bool
  pub worker : Option (Outcome T)
  pub phase : Phase T

abbrev pub err_panic_recovered : Error
err_panic_recovered = invalid 130

abbrev pub err_shutdown_timeout : Error
err_shutdown_timeout = wrap (sentinel deadline_exceeded)

module _ {T : Type 0} where
  abbrev pub value_of : Option (Outcome T) → Option T
  value_of (some (returned v)) = some v
  value_of (some panicked) = none
  value_of none = none

  abbrev pub error_of : Outcome T → Option Error
  error_of (returned v) = none
  error_of panicked = some (wrap err_panic_recovered)

  -- RunT up to its first select, at a moment and with the error of its context.
  unfoldable pub start : ℕ → Option Error → RunState T
  start now none = record { clock = now; done = false; worker = none; phase = waiting }
  start now (some e) = record {
    clock = now;
    done = true;
    worker = none;
    phase = ended none (some e);
  }

  -- The steps of RunT: `wake` leaves the first select, `collect` and `give_up` the second one.
  pub data Step (timeout : ℕ) : RunState T → RunState T → Type 0 where
    wake :
        (t : RunState T)
        → t.phase ≡ waiting
        → (t.done || is_some t.worker) ≡ true
        → Step timeout t (record t { phase = stopping (t.clock + timeout) })
    collect :
        (t : RunState T) (d : ℕ) (r : Outcome T)
        → t.phase ≡ stopping d
        → t.worker ≡ some r
        → Step timeout t (record t { phase = ended (value_of (some r)) (error_of r) })
    give_up :
        (t : RunState T) (d : ℕ)
        → t.phase ≡ stopping d
        → d ≤ t.clock
        → Step timeout t
            (record t { phase = ended (value_of t.worker) (some err_shutdown_timeout) })

  -- What happens around it: the context is done, `do` ends.
  pub data Event : RunState T → RunState T → Type 0 where
    cancel : (t : RunState T) → Event t (record t { done = true })
    complete :
        (t : RunState T) (r : Outcome T) → t.worker ≡ none → Event t (record t { worker = some r })

  abbrev pub phase_ready : ℕ → Bool → Bool → Phase T → Bool
  phase_ready clock done ran waiting = done || ran
  phase_ready clock done ran (stopping d) = ran || leb d clock
  phase_ready clock done ran (ended v e) = false

  -- RunT has a step to make.
  abbrev pub ready : RunState T → Bool
  ready t = phase_ready t.clock t.done (is_some t.worker) t.phase

  -- A run of some ticks.
  pub data Run (timeout : ℕ) (s : RunState T) : ℕ → RunState T → Type 0 where
    here : Run timeout s 0 s
    step : {n : ℕ} {t u : RunState T} → Run timeout s n t → Step timeout t u → Run timeout s n u
    event : {n : ℕ} {t u : RunState T} → Run timeout s n t → Event t u → Run timeout s n u
    tick :
        {n : ℕ} {t : RunState T}
        → Run timeout s n t
        → ready t ≡ false
        → Run timeout s (suc n) (record t { clock = suc t.clock })

  abbrev pub HasEnded : Phase T → Type 0
  HasEnded waiting = ⊥
  HasEnded (stopping d) = ⊥
  HasEnded (ended v e) = Unit

-- Run, of what RunT returns for a `do` that returns an error.
unfoldable pub run : Option (Option Error) → Option Error → Option Error
run v (some e) = some e
run none none = none
run (some r) none = r
