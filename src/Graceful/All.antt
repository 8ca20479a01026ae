-- ===== src/Graceful/All.antt =====
-- pkg/graceful/graceful.go: RunAllBackground and RunAll, as steps. Each goroutine ends with what its
-- Run returns, in any order; the goroutine that waits for all of them closes the channel. A reader
-- may receive at any time, and the context that RunAllBackground is given may be done at any time.
pub mod Collects
pub mod Moves
pub mod Tasks
use golibs.Prelude.{
  ℕ, suc, ◌<◌, Bool, true, false, ◌||◌, Option, none, some, List, [], ◌∷◌, ◌++◌, ◌≡◌, length,
}
use golibs.Errors.{Error, wrap, join}

-- A goroutine: its Run goes on, or has returned an error; it is about to send this; it is about to
-- call wg.Done, or it is over, with the error that it has sent, if there was one.
pub data Task : Type 0 where
  running : Task
  failed sending : Error → Task
  leaving over : Option Error → Task

-- `buffer` is the channel with its capacity, and `received` what has come out of it. The common
-- context is done with its parent, or by a call of its `cancel`.
pub record AllState : Type 0 where
  pub tasks : List Task
  pub capacity : ℕ
  pub buffer : List Error
  pub received : List Error
  pub parent_done : Bool
  pub canceled : Bool
  pub closed : Bool

abbrev pub all_running : {A : Type 0} → List A → List Task
all_running [] = []
all_running (f ∷ fs) = running ∷ all_running fs

-- RunAllBackground, when it has started a goroutine for each function.
abbrev pub start_all : {A : Type 0} → List A → AllState
start_all fns = record {
  tasks = all_running fns;
  capacity = length fns;
  buffer = [];
  received = [];
  parent_done = false;
  canceled = false;
  closed = false;
}

-- Whether the common context is done.
abbrev pub context_done : AllState → Bool
context_done t = t.parent_done || t.canceled

abbrev pub all_over : List Task → Bool
all_over [] = true
all_over (running ∷ ts) = false
all_over (failed e ∷ ts) = false
all_over (sending e ∷ ts) = false
all_over (leaving e ∷ ts) = false
all_over (over e ∷ ts) = all_over ts

-- The goroutine of a function: Run returns nil or an error, the error cancels the common context if
-- all are to fail fast, and is sent when the buffer has a place for it. The last goroutine waits for
-- the others, closes the channel, and then cancels the context.
pub data Step (fail_fast : Bool) : AllState → AllState → Type 0 where
  finish :
      (t : AllState) (before after : List Task)
      → t.tasks ≡ before ++ running ∷ after
      → Step fail_fast t (record t { tasks = before ++ leaving none ∷ after })
  fail :
      (t : AllState) (before after : List Task) (e : Error)
      → t.tasks ≡ before ++ running ∷ after
      → Step fail_fast t (record t { tasks = before ++ failed e ∷ after })
  cancel :
      (t : AllState) (before after : List Task) (e : Error)
      → t.tasks ≡ before ++ failed e ∷ after
      → Step fail_fast t
          (record t { tasks = before ++ sending e ∷ after; canceled = t.canceled || fail_fast })
  send :
      (t : AllState) (before after : List Task) (e : Error)
      → t.tasks ≡ before ++ sending e ∷ after
      → length t.buffer < t.capacity
      → Step fail_fast t
          (record t { tasks = before ++ leaving (some e) ∷ after; buffer = t.buffer ++ e ∷ [] })
  done :
      (t : AllState) (before after : List Task) (e : Option Error)
      → t.tasks ≡ before ++ leaving e ∷ after
      → Step fail_fast t (record t { tasks = before ++ over e ∷ after })
  receive :
      (t : AllState) (e : Error) (rest : List Error)
      → t.buffer ≡ e ∷ rest
      → Step fail_fast t (record t { buffer = rest; received = t.received ++ e ∷ [] })
  parent : (t : AllState) → Step fail_fast t (record t { parent_done = true })
  close :
      (t : AllState)
      → all_over t.tasks ≡ true
      → t.closed ≡ false
      → Step fail_fast t (record t { closed = true })
  cancel_last : (t : AllState) → t.closed ≡ true → Step fail_fast t (record t { canceled = true })

pub data Run (fail_fast : Bool) (s : AllState) : AllState → Type 0 where
  here : Run fail_fast s s
  step : {t u : AllState} → Run fail_fast s t → Step fail_fast t u → Run fail_fast s u

-- errors.Join
unfoldable pub join_all : List Error → Option Error
join_all [] = none
join_all (e ∷ es) = elim (join_all es) [ none ↦ some (wrap e) | some f ↦ some (join e f) ]

-- RunAll, behind its loop over the channel.
unfoldable pub run_all : AllState → Option Error
unfolding join_all
run_all t = join_all t.received
