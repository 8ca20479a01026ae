-- ===== src/Graceful/Examples.antt =====
-- The theorems on graceful shutdown, for short runs.
use mathlib.Core.List.{Perm}
use golibs.Prelude.{
  ℕ, ◌<◌, true, false, not, ◌||◌, ◌&&◌, none, some, is_some, is_empty, List, [], ◌∷◌, ◌++◌, ◌≡◌,
  refl, length, arith,
}
use golibs.Errors.{Error, invalid}
use golibs.Graceful.{
  returned, waiting, stopping, ended, RunState, Run, here, step, event, tick, wake, collect,
  give_up, complete, HasEnded, ready, start, err_shutdown_timeout,
}
use golibs.Graceful.Bounded.{Moves, Run-HasEnded}
use golibs.Graceful.Outcomes.{Settles, Run-Settles}
use golibs.Graceful.All
use golibs.Graceful.All.{
  AllState, Task, running, failed, sending, leaving, start_all, all_over, run_all, context_done,
}
use golibs.Graceful.All.Tasks.{errors_of, any, is_sending, has_returned_error}
use golibs.Graceful.All.Collects.{Run-Collects}

-- The context is done, and `do` does not end.
abbrev asked : RunState ℕ
asked = record { clock = 5; done = true; worker = none; phase = waiting }

abbrev given_up : RunState ℕ
given_up = record {
  clock = 7;
  done = true;
  worker = none;
  phase = ended none (some err_shutdown_timeout);
}

two_ticks : Run 2 asked 2 given_up
two_ticks = step (tick (tick (step here (wake asked refl refl)) refl) refl) (
    give_up (record { clock = 7; done = true; worker = none; phase = stopping 7 }) 7 refl
      (omega arith))

abbrev later : RunState ℕ
later = record given_up { clock = 8 }

three_ticks : Run 2 asked 3 later
three_ticks = tick two_ticks refl

Run-HasEnded_example : (2 < 3 → HasEnded later.phase) × (ready later ≡ true → Moves 2 later)
Run-HasEnded_example = Run-HasEnded three_ticks refl refl

-- `do` returns at once.
abbrev answered : RunState ℕ
answered = record {
  clock = 5;
  done = false;
  worker = some (returned 9);
  phase = ended (some 9) none;
}

at_once : Run 2 (start 5 none) 0 answered
unfolding start
at_once =
    step
      (step
        (event here (
          complete (record { clock = 5; done = false; worker = none; phase = waiting }) (returned 9)
            refl))
        (wake (record { clock = 5; done = false; worker = some (returned 9); phase = waiting }) refl
          refl))
      (collect (record { clock = 5; done = false; worker = some (returned 9); phase = stopping 7 })
        7 (returned 9) refl refl)

Run-Settles_example :
    ((answered.done || is_some answered.worker) ≡ true) × Settles 2 0 answered (some 9) none
Run-Settles_example = Run-Settles 2 5 at_once refl

abbrev failure : Error
failure = invalid 131

abbrev fns : List ℕ
fns = 1 ∷ 2 ∷ []

-- The second function has failed, and its error has been received, before anything else happens.
abbrev one_failed : AllState
one_failed = record {
  tasks = running ∷ leaving (some failure) ∷ [];
  capacity = 2;
  buffer = [];
  received = failure ∷ [];
  parent_done = false;
  canceled = true;
  closed = false;
}

fails_fast : All.Run true (start_all fns) one_failed
fails_fast =
    let first : AllState = record (start_all fns) { tasks = running ∷ failed failure ∷ [] } in
    let second : AllState = record first {
      tasks = running ∷ sending failure ∷ [];
      canceled = true;
    } in
    let third : AllState = record second {
      tasks = running ∷ leaving (some failure) ∷ [];
      buffer = failure ∷ [];
    } in
    All.step
      (All.step
        (All.step (All.step All.here (All.fail (start_all fns) (running ∷ []) [] failure refl))
          (All.cancel first (running ∷ []) [] failure refl))
        (All.send second (running ∷ []) [] failure refl (omega arith)))
      (All.receive third failure [] refl)

Run-Collects_example :
    Perm (one_failed.received ++ one_failed.buffer) (errors_of one_failed.tasks)
    × (any is_sending one_failed.tasks ≡ true → length one_failed.buffer < one_failed.capacity)
    × (one_failed.closed ≡ true → all_over one_failed.tasks ≡ true)
    × (one_failed.closed ≡ true
        → one_failed.buffer ≡ []
        → is_some (run_all one_failed) ≡ any has_returned_error one_failed.tasks)
    × (context_done one_failed ≡ true
        → (one_failed.parent_done
            || (one_failed.closed || (true && any has_returned_error one_failed.tasks)))
          ≡ true)
    × ((true && not (is_empty (errors_of one_failed.tasks))) ≡ true → one_failed.canceled ≡ true)
Run-Collects_example = Run-Collects fns fails_fast
