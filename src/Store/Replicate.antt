-- ===== src/Store/Replicate.antt =====
-- pkg/store/backends/replicate/replicate.go: one store over several, each call made to all of them by
-- a concurrent workflow. The stores are distinct; each has a state of its own. `w` is the backoff of
-- Kubernetes, `once` stands for RetryOnce and `default` for DefaultBackoff.
pub mod Coherent
pub mod Refines
mod Examples
use golibs.Prelude.{
  Bool, true, false, ◌&&◌, ◌||◌, not, Option, none, some, List, [], ◌∷◌, map, is_some,
  if◌then◌else◌, Bytes,
}
use golibs.Errors.{Error, wrap, join, sentinel, rollback_failed, is_error, err_not_found}
use golibs.Exec.{Result, ok, err, Exec}
use golibs.Retry.{Outcome}
use golibs.Store.{Store, ListItem}
use golibs.Store.Options.{StoreOption, StoreOptions, nil, rollback, match_option}
use golibs.Workflow.{Waiting, Options, Ending, returned, execute_for, filter_errors, any_error}

pub record Replica (S K V : Type 0) : Type 0 where
  pub store : Store S K V
  pub state : S

-- A replica in a call of Execute, with the entry that the map `didLock` has for it.
pub record Attempted (S K V : Type 0) : Type 0 where
  pub replica : Replica S K V
  pub did_lock : Option V

abbrev as_rollback : StoreOption → Option (Unit {0})
as_rollback rollback = some tt
as_rollback _ = none

-- matchWithRollback; the channel of the option is left out.
unfoldable pub match_rollback : StoreOptions → Option (Unit {0}) × StoreOptions
unfolding match_option
match_rollback = match_option as_rollback false

-- errors.Join
unfoldable pub join_errors : List Error → Option Error
join_errors [] = none
join_errors (e ∷ es) =
    let rest = join_errors es in elim rest [ none ↦ some (wrap e) | some f ↦ some (join e f) ]

-- ErrRollbackFailed with each error of a rollback.
abbrev pub rollback_error : Error → Error
rollback_error e = join (sentinel rollback_failed) e

abbrev pub all_ended : List Outcome → Bool
all_ended [] = true
all_ended (none ∷ rs) = false
all_ended (some e ∷ rs) = all_ended rs

unfoldable pub outcome_of : List Outcome → Outcome
unfolding filter_errors join_errors
outcome_of rs = if all_ended rs then some (join_errors (filter_errors rs)) else none

abbrev pub error_of : Result (Unit {0}) → Option Error
error_of (ok u) = none
error_of (err e) = some e

abbrev is_missing : Error → Bool
unfolding is_error
is_missing e = is_error e err_not_found

-- What Execute returns, what it sends through the channel of the rollback, and the stores behind it.
pub record Executed (S K V : Type 0) : Type 0 where
  pub outcome : Outcome
  pub sent : List Error
  pub replicas : List (Replica S K V)

-- What is done in a store and what takes it back; `do` returns a backup beside its error.
pub record Work (S K V : Type 0) : Type 0 where
  pub run : Store S K V → StoreOptions → S → (V × Option Error) × S
  pub take_back : Store S K V → V → StoreOptions → S → Option Error × S

module _ {S K V : Type 0} where
  abbrev pub start : Replica S K V → Attempted S K V
  start r = record { replica = r; did_lock = none }

  abbrev pub with_state : Attempted S K V → S → Attempted S K V
  with_state a s = record a { replica = record { store = a.replica.store; state = s } }

  abbrev pub noted : Attempted S K V → (V × Option Error) × S → Ending × Attempted S K V
  noted a ((backup, none), s) = (returned none, with_state a s)
  noted a ((backup, some e), s) =
      (returned (some e), record { replica = (with_state a s).replica; did_lock = some backup })

  -- The activity of the first workflow.
  abbrev pub attempt_work : Work S K V → StoreOptions → Attempted S K V → Ending × Attempted S K V
  attempt_work k opts a = noted a (k.run a.replica.store opts a.replica.state)

  abbrev taken_back : Attempted S K V → Option Error × S → Ending × Attempted S K V
  taken_back a (e, s) = (returned e, with_state a s)

  abbrev roll_back_from :
      Work S K V → StoreOptions → Attempted S K V → Option V → Ending × Attempted S K V
  roll_back_from k opts a none = (returned none, a)
  roll_back_from k opts a (some backup) =
      taken_back a (k.take_back a.replica.store backup opts a.replica.state)

  -- The activity of the workflow that rolls back.
  abbrev roll_back : Work S K V → StoreOptions → Attempted S K V → Ending × Attempted S K V
  roll_back k opts a = roll_back_from k opts a a.did_lock

  module _ {B : Type 0} (w : Waiting B) (once default : Options B) (name : Bytes) where
    abbrev finished : List Outcome × List (Attempted S K V) → Executed S K V
    unfolding outcome_of
    finished r = record { outcome = outcome_of r.0; sent = []; replicas = map (λ a. a.replica) r.1 }

    -- Behind a rollback; Execute returns the errors of the first workflow.
    abbrev rolled_back : List Outcome → List Outcome × List (Attempted S K V) → Executed S K V
    unfolding outcome_of filter_errors
    rolled_back first r = record {
      outcome = if all_ended r.0 then outcome_of first else none;
      sent = map rollback_error (filter_errors r.0);
      replicas = map (λ a. a.replica) r.1;
    }

    abbrev pub executed :
        Work S K V → Bool → StoreOptions → List Outcome × List (Attempted S K V) → Executed S K V
    unfolding rolled_back execute_for any_error filter_errors
    executed k use_rollback opts r =
        if use_rollback && any_error (map some (filter_errors r.0))
        then rolled_back r.0 (execute_for w default name (roll_back k opts) r.1)
        else finished r

    -- Execute
    unfoldable pub replicate_execute :
        Work S K V → StoreOptions → List (Replica S K V) → Executed S K V
    unfolding match_rollback executed execute_for
    replicate_execute k opts replicas =
        let m = match_rollback opts in
        executed k (is_some m.0) m.1
          (execute_for w once name (attempt_work k m.1) (map start replicas))

module _ {S K V : Type 0} (zero : V) (is_nil_value : V → Bool) (key : K) where
  abbrev pub with_backup : V → Result (Unit {0}) × S → (V × Option Error) × S
  with_backup backup (r, s) = ((backup, error_of r), s)

  abbrev pub undone : Result (Unit {0}) × S → Option Error × S
  undone (r, s) = (error_of r, s)

  -- The backup that is read first, where the options ask for a rollback. `passes` are the errors of the read that
  -- do not end the call.
  abbrev backed_up :
      (Error → Bool) → Result V × S → (V → S → (V × Option Error) × S) → (V × Option Error) × S
  backed_up passes (ok v, s) f = f v s
  backed_up passes (err e, s) f = if passes e then f zero s else ((zero, some e), s)

  abbrev pub with_rollback :
      (Error → Bool)
      → (Store S K V → StoreOptions → S → Result (Unit {0}) × S)
      → Store S K V
      → StoreOptions
      → S
      → (V × Option Error) × S
  unfolding match_rollback
  with_rollback passes method st opts s =
      let m = match_rollback opts in
      if is_some m.0
      then backed_up passes (st.read key nil s) (λ backup t. with_backup backup (method st m.1 t))
      else with_backup zero (method st m.1 s)

  -- The functions that Create, Update, Apply and Delete hand to Execute.
  unfoldable pub create_work : V → Work S K V
  create_work value = record {
    run = λ st opts s. with_backup zero (st.create key value opts s);
    take_back = λ st backup opts s. undone (st.delete key opts s);
  }

  unfoldable pub update_work : V → Work S K V
  unfolding with_rollback
  update_work value = record {
    run = with_rollback (λ e. false) (λ st opts s. st.update key value opts s);
    take_back = λ st backup opts s. undone (st.update key backup opts s);
  }

  unfoldable pub apply_work : V → Work S K V
  unfolding with_rollback is_missing
  apply_work value = record {
    run = with_rollback is_missing (λ st opts s. st.apply key value opts s);
    take_back = λ st backup opts s.
        if is_nil_value backup
        then undone (st.delete key opts s)
        else undone (st.update key backup opts s);
  }

  unfoldable pub delete_work : Work S K V
  unfolding with_rollback is_missing
  delete_work = record {
    run = with_rollback is_missing (λ st opts s. st.delete key opts s);
    take_back = λ st backup opts s.
        if is_nil_value backup then undone (st.apply key backup opts s) else (none, s);
  }

module _ {S K V : Type 0} where
  -- Read and List ask the first store; without one they panic, which is `none`.
  unfoldable pub first_store :
      {A : Type 0}
      → (Store S K V → Exec S A)
      → List (Replica S K V)
      → Option (Result A) × List (Replica S K V)
  first_store ask [] = (none, [])
  first_store ask (r ∷ rs) =
      let a = ask r.store r.state in (some a.0, record { store = r.store; state = a.1 } ∷ rs)
