-- ===== src/Workflow/Runs.antt =====
-- How Execute ends: all activities have succeeded, or one has failed and none behind it has run.
use golibs.Prelude.{
  ℕ, suc, ◌<◌, ◌∙◌, length, Option, Bool, true, false, none, some, List, [], ◌∷◌, ◌++◌, ◌≡◌, ◌⊎◌,
  inl, inr, refl, ap, is_some, subst,
}
use golibs.Errors.{Error}
use golibs.Retry.{Outcome}
use golibs.Retry.Bounds.{on_error-ends}
use golibs.Retry.Success.{Failures, on_error-Succeeds}
use golibs.Workflow.{
  Waiting, Options, Activity, execute, execute_activity, run_recovered, named_error, then_rest,
  Watch, await, retriable, done_or,
}

-- The activity has succeeded, in the state that calls which failed with an error that is worth a
-- retry have left, and led to the state t.
pub record Ran {S : Type 0} (is_retriable : Error → Bool) (watch : Watch) (a : Activity S) (s t : S)
    : Type 0 where
  pub calls : ℕ
  pub reached : S
  pub failures : Failures (retriable watch is_retriable) (await watch a) (0, s) (calls, reached)
  pub succeeds : (run_recovered a reached).0 ≡ none
  pub leaves : t ≡ (run_recovered a reached).1

-- Each activity of the chain succeeds, in its order, in the state that the one before it left.
pub data Completes {S : Type 0} (is_retriable : Error → Bool)
    : (ℕ → Watch) → List (Activity S) → S → S → Type 0 where
  all_done : (context : ℕ → Watch) (s : S) → Completes is_retriable context [] s s
  succeeded :
      (context : ℕ → Watch) (a : Activity S) (chain : List (Activity S)) (s t u : S)
      → Ran is_retriable (context 0) a s t
      → Completes is_retriable (λ k. context (suc k)) chain t u
      → Completes is_retriable context (a ∷ chain) s u

done_or-nil :
    {S : Type 0} (e : Option Error) (s : S) (r : Option Error × S)
    → (done_or e s r).0 ≡ none
    → (r.0 ≡ none) × (done_or e s r ≡ r)
done_or-nil none s r h = (h, refl)
done_or-nil (some e) s r h = cc

named-nil : (x : Outcome) → named_error x ≡ some none → x ≡ some none
named-nil none h = cc
named-nil (some none) h = refl
named-nil (some (some e)) h = cc

named-is_some : (x : Outcome) → is_some x ≡ true → is_some (named_error x) ≡ true
named-is_some none h = h
named-is_some (some none) h = refl
named-is_some (some (some e)) h = refl

module _ {S B : Type 0} (w : Waiting B) (o : Options B) where
  execute_activity-Ran :
      (watch : Watch) (a : Activity S) (s : S)
      → (execute_activity w o watch a s).0 ≡ some none
      → Ran o.is_retriable watch a s (execute_activity w o watch a s).1
  unfolding execute_activity await
  execute_activity-Ran watch a s h =
      let (t, failures, p, q) =
        on_error-Succeeds w.steps w.step o.run_forever _ _ w.wait_timeout
          (retriable watch o.is_retriable) (await watch a) w.is_interrupted o.rounds o.backoff
          (0, s) (named-nil _ h) in
      let (succeeds, same) =
        done_or-nil (watch t.0).awaiting (a.interrupted t.1) (run_recovered a t.1) p in
      record {
        calls = t.0;
        reached = t.1;
        failures = failures;
        succeeds = succeeds;
        leaves = ap (λ x. x.1) q ∙ ap (λ x. x.1) same;
      }

  -- A first activity of the chain that fails, behind others that all succeed.
  pub record Stops (context : ℕ → Watch) (chain : List (Activity S)) (s : S) (e : Error) (final : S)
      : Type 0 where
    pub before : List (Activity S)
    pub failing : Activity S
    pub behind : List (Activity S)
    pub reached : S
    pub splits : chain ≡ before ++ (failing ∷ behind)
    pub completed : Completes o.is_retriable context before s reached
    pub fails :
        execute_activity w o (context (length before)) failing reached ≡ (some (some e), final)

  unfoldable pub Ends : (ℕ → Watch) → List (Activity S) → S → Outcome × S → Type 0
  Ends context chain s r =
      ((r.0 ≡ some none) × Completes o.is_retriable context chain s r.1)
      ⊎ ((e : Error) × (r.0 ≡ some (some e)) × Stops context chain s e r.1)

  module _ (once : o.run_forever ≡ false) (enough : w.steps o.backoff < o.rounds) where
    execute_activity-ends :
        (watch : Watch) (a : Activity S) (s : S) → is_some (execute_activity w o watch a s).0 ≡ true
    unfolding execute_activity
    execute_activity-ends watch a s = named-is_some _ (
        on_error-ends w.steps w.step (λ i. (watch i).before) (λ i. (watch i).during) w.wait_timeout
          w.counts_down w.is_interrupted (retriable watch o.is_retriable) (await watch a) o.rounds
          o.run_forever o.backoff (0, s) once enough)

    step :
        (context : ℕ → Watch) (a : Activity S) (chain : List (Activity S)) (s : S)
        (r rest : Outcome × S)
        → execute_activity w o (context 0) a s ≡ r
        → is_some r.0 ≡ true
        → Ends (λ k. context (suc k)) chain r.1 rest
        → Ends context (a ∷ chain) s (then_rest w o r rest)
    unfolding Ends
    step context a chain s (none, t) rest p h n = cc
    step context a chain s (some (some e), t) rest p h n = inr (
      e,
      refl,
      record {
        before = [];
        failing = a;
        behind = chain;
        reached = s;
        splits = refl;
        completed = all_done context s;
        fails = p;
      },
    )
    step context a chain s (some none, t) rest p h (inl (q, c)) = inl (
      q,
      succeeded context a chain s t rest.1
          (subst (λ x. Ran o.is_retriable (context 0) a s x) (ap (λ x. x.1) p)
            (execute_activity-Ran (context 0) a s (ap (λ x. x.0) p)))
          c,
    )
    step context a chain s (some none, t) rest p h (inr (e, q, n)) = inr (
      e,
      q,
      record {
        before = a ∷ n.before;
        failing = n.failing;
        behind = n.behind;
        reached = n.reached;
        splits = ap (◌∷◌ a) n.splits;
        completed =
            succeeded context a n.before s t n.reached
              (subst (λ x. Ran o.is_retriable (context 0) a s x) (ap (λ x. x.1) p)
                (execute_activity-Ran (context 0) a s (ap (λ x. x.0) p)))
              n.completed;
        fails = n.fails;
      },
    )

    -- Where the backoff does not run forever, has fewer steps than there are rounds, and a call of
    -- Step takes at least one from them, if there is one, Execute ends, whatever its selects find of
    -- the context. It returns nil where each activity of the
    -- chain has succeeded, in its order; otherwise it returns the error that executeActivity returned
    -- for one activity, those before it have succeeded, and none behind it has run.
    pub execute-Ends :
        (context : ℕ → Watch) (chain : List (Activity S)) (s : S)
        → Ends context chain s (execute w o context chain s)
    unfolding execute Ends
    execute-Ends context [] s = inl (refl, all_done context s)
    execute-Ends context (a ∷ chain) s =
        step context a chain s (execute_activity w o (context 0) a s) _ refl
          (execute_activity-ends (context 0) a s)
          (execute-Ends (λ k. context (suc k)) chain (execute_activity w o (context 0) a s).1)
