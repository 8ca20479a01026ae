-- ===== src/Graceful/All/Collects.antt =====
-- What arrives through the channel of RunAllBackground.
use mathlib.Core.List.{Perm}
use mathlib.Core.List.Perm
use golibs.Prelude.{
  ◌<◌, Bool, true, false, not, ◌||◌, ◌&&◌, none, some, is_some, List, [], ◌∷◌, ◌++◌, ◌≡◌, refl, ◌∙◌,
  ap, arith, length, is_empty,
}
use golibs.Errors.{Error, wrap, join}
use golibs.Graceful.All.{
  AllState, context_done, start_all, all_over, Run, here, step, join_all, run_all,
}
use golibs.Graceful.All.Tasks.{
  has_returned_error, is_sending, past_cancel, errors_of, any, length-all_running,
  errors_of-all_running, any-all_running, room, all_sent, sent-past_cancel,
}
use golibs.Graceful.All.Moves.{Holds, Holds-Step}

Run-Holds :
    {fail_fast : Bool} {A : Type 0} (fns : List A) {t : AllState}
    → Run fail_fast (start_all fns) t
    → Holds fail_fast (length fns) t
Run-Holds {fail_fast} fns here = record {
  size = length-all_running fns;
  capacity = refl;
  sent = rw (errors_of-all_running fns) (Perm.refl []);
  count = rw (errors_of-all_running fns) refl;
  closed = λ c. cc c;
  only = refl;
  due = rw (any-all_running fns) (ground arith);
}
Run-Holds fns (step r st) = Holds-Step st (Run-Holds fns r)

join_all-none : (es : List Error) → is_some (join_all es) ≡ not (is_empty es)
unfolding join_all
join_all-none [] = refl
join_all-none (e ∷ es) =
    elim (join_all es)
      as (λ r. is_some (elim r [ none ↦ some (wrap e) | some f ↦ some (join e f) ]) ≡ true) [
        | none ↦ refl
        | some f ↦ refl
      ]

same_empty :
    {A B : Type 0} (xs : List A) (ys : List B) → length xs ≡ length ys → is_empty xs ≡ is_empty ys
same_empty [] [] h = refl
same_empty [] (y ∷ ys) h = absurd (omega (arith, h))
same_empty (x ∷ xs) [] h = absurd (omega (arith, h))
same_empty (x ∷ xs) (y ∷ ys) h = refl

context_only : (p c x : Bool) → (not c || x) ≡ true → (p || c) ≡ true → (p || x) ≡ true
context_only p c x h d = ground (arith, h, d)

due_now : (f a c : Bool) → (not (f && a) || c) ≡ true → f ≡ true → a ≡ true → c ≡ true
due_now f a c h p q = ground (arith, h, p, q)

and-both : (a b : Bool) → (a && not b) ≡ true → (a ≡ true) × (b ≡ false)
and-both a b h = (ground arith, ground arith)

-- Whatever the order of the steps: what has come out of the channel and what is in it are the errors
-- that the goroutines have sent, in some order. A goroutine that is about to send finds a place in
-- the buffer, whether anybody reads or not. The channel is closed only when all goroutines are over;
-- when it is closed and empty, RunAll returns an error exactly if a function did. The common context
-- is done only where its parent is, the channel is closed, or, if all are to fail fast, a function
-- has returned an error; and in that case it has been canceled before an error was sent.
pub Run-Collects :
    {fail_fast : Bool} {A : Type 0} (fns : List A) {t : AllState}
    → Run fail_fast (start_all fns) t
    → Perm (t.received ++ t.buffer) (errors_of t.tasks)
      × (any is_sending t.tasks ≡ true → length t.buffer < t.capacity)
      × (t.closed ≡ true → all_over t.tasks ≡ true)
      × (t.closed ≡ true → t.buffer ≡ [] → is_some (run_all t) ≡ any has_returned_error t.tasks)
      × (context_done t ≡ true
          → (t.parent_done || (t.closed || (fail_fast && any has_returned_error t.tasks))) ≡ true)
      × ((fail_fast && not (is_empty (errors_of t.tasks))) ≡ true → t.canceled ≡ true)
unfolding run_all
Run-Collects {fail_fast} fns {t} r =
    let h = Run-Holds fns r in
    (
      h.sent,
      λ s. omega (arith, h.count, h.size, h.capacity, room t.tasks s),
      h.closed,
      λ c e.
          join_all-none t.received
          ∙ ap not (same_empty t.received (errors_of t.tasks) (omega (arith, h.count, ap length e)))
          ∙ all_sent t.tasks (h.closed c),
      context_only t.parent_done t.canceled _ h.only,
      λ e.
          let (f, sent) = and-both fail_fast (is_empty (errors_of t.tasks)) e in
          due_now fail_fast (any past_cancel t.tasks) t.canceled h.due f
            (sent-past_cancel t.tasks sent),
    )
