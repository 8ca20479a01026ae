-- ===== src/Store/Replicate/Coherent.antt =====
-- Stores that show the same map, and a call without options that each of them answers in the same way.
use golibs.Prelude.{
  ℕ, suc, true, false, Option, none, some, List, [], ◌∷◌, ◌≡◌, refl, ap, ◌∙◌, sym, subst, map,
  Bytes, Key, arith,
}
use golibs.Errors.{Error, wrap, join, is_error}
use golibs.Exec.{Result, ok, err}
use golibs.Retry.{Outcome}
use golibs.Store.Options.{nil}
use golibs.Store.Spec.{Implements}
use golibs.Workflow.{
  Waiting, Options, execute_for, execute_activity, run_recovered, alive, recovered, filter_errors,
}
use golibs.Workflow.Attempts.{execute_activity-succeeds, execute_activity-fails}
use golibs.Store.Replicate.{
  Replica, Attempted, Work, replicate_execute, attempt_work, noted, join_errors, match_rollback,
  start, all_ended, outcome_of,
}

module _ {S K V : Type 0} where
  recovered-noted :
      (a : Attempted S K V) (r : (V × Option Error) × S) → recovered (noted a r).0 ≡ r.0.1
  recovered-noted a ((b, none), s) = refl
  recovered-noted a ((b, some e), s) = refl

  replica-noted :
      (a : Attempted S K V) (r : (V × Option Error) × S)
      → (noted a r).1.replica ≡ record { store = a.replica.store; state = r.1 }
  replica-noted a ((b, none), s) = refl
  replica-noted a ((b, some e), s) = refl

-- One error for each store.
copies : {A : Type 0} → List A → Error → List Error
copies [] e = []
copies (x ∷ xs) e = wrap e ∷ copies xs e

-- Joined, they are the same error to errors.Is.
join-copies :
    {A : Type 0} (x : A) (xs : List A) (e : Error)
    → (f : Error) × (join_errors (copies (x ∷ xs) e) ≡ some f)
      × ((t : Error) → is_error f t ≡ is_error e t)
unfolding join_errors copies is_error
join-copies x [] e = (wrap (wrap e), refl, λ t. refl)
join-copies x (y ∷ ys) e =
    let (g, p, q) = join-copies y ys e in (join (wrap e) g, rw p refl, λ t. ground (arith, q t))

-- What a call reports, in terms of what one store would: errors.Is sees the same errors.
abbrev pub Reports : Result (Unit {0}) → Outcome → Type 0
Reports (ok u) x = x ≡ some none
Reports (err e) x =
    (g : Error) × (x ≡ some (some g)) × ((target : Error) → is_error g target ≡ is_error e target)

module _ {S K V : Type 0} ⦃o : Key K⦄ (Inv : S → Type 0) (view : S → K → Option V) where
  -- A store that implements a map, and shows the map m.
  pub record Shows (m : K → Option V) (r : Replica S K V) : Type 0 where
    pub good : Implements Inv view r.store
    pub valid : Inv r.state
    pub shown : (j : K) → view r.state j ≡ m j

  abbrev pub Coherent : (K → Option V) → List (Replica S K V) → Type 0
  Coherent m [] = Unit
  Coherent m (r ∷ rs) = Shows m r × Coherent m rs

  -- What the function that Execute is given does to a store that shows m.
  pub record Does (k : Work S K V) (m n : K → Option V) (e : Option Error) : Type 0 where
    pub reports : (r : Replica S K V) → Shows m r → (k.run r.store nil r.state).0.1 ≡ e
    pub leaves :
        (r : Replica S K V)
        → Shows m r
        → Shows n (record { store = r.store; state = (k.run r.store nil r.state).1 })

  module _ {B : Type 0} (w : Waiting B) (once : Options B) (l : ℕ) (h : w.steps once.backoff ≡ 2)
      (h1 : w.steps (w.step once.backoff) ≡ 1) (f : once.rounds ≡ suc (suc l))
      (t : once.run_forever ≡ false) (a : (x : Error) → once.is_retriable x ≡ true) (name : Bytes)
      (k : Work S K V) where
    abbrev act : Attempted S K V → Option Error × Attempted S K V
    act = run_recovered (record { name = name; run = attempt_work k nil; interrupted = λ x. x })

    abbrev acted : Attempted S K V → Outcome × Attempted S K V
    unfolding execute_activity
    acted =
        execute_activity w once alive
          (record { name = name; run = attempt_work k nil; interrupted = λ x. x })

    act-Shows :
        (m n : K → Option V) (e : Option Error) (x : Attempted S K V)
        → Does k m n e
        → Shows m x.replica
        → ((act x).0 ≡ e) × Shows n (act x).1.replica
    act-Shows m n e x d g =
        let r = k.run x.replica.store nil x.replica.state in
        (
          recovered-noted x r ∙ d.reports x.replica g,
          subst (Shows n) (sym (replica-noted x r)) (d.leaves x.replica g),
        )

    acted-ok :
        (m n : K → Option V) (x : Attempted S K V)
        → Does k m n none
        → Shows m x.replica
        → ((acted x).0 ≡ some none) × Shows n (acted x).1.replica
    unfolding acted
    acted-ok m n x d g =
        let p = act-Shows m n none x d g in
        let q =
          execute_activity-succeeds w once
            (record { name = name; run = attempt_work k nil; interrupted = λ x. x }) 1 (suc l) x h f
            p.0 in
        (ap (λ y. y.0) q, subst (λ y. Shows n y.1.replica) (sym q) p.1)

    acted-err :
        (m : K → Option V) (e : Error) (x : Attempted S K V)
        → Does k m m (some e)
        → Shows m x.replica
        → ((acted x).0 ≡ some (some (wrap e))) × Shows m (acted x).1.replica
    unfolding acted
    acted-err m e x d g =
        let p = act-Shows m m (some e) x d g in
        let p2 = act-Shows m m (some e) (act x).1 d p.1 in
        let q =
          execute_activity-fails w once
            (record { name = name; run = attempt_work k nil; interrupted = λ x. x }) l x e e h h1 f
            t a p.0 p2.0 in
        (ap (λ y. y.0) q, subst (λ y. Shows m y.1.replica) (sym q) p2.1)

    abbrev all_acted : List (Replica S K V) → List Outcome × List (Attempted S K V)
    unfolding execute_for
    all_acted rs = execute_for w once name (attempt_work k nil) (map start rs)

    all_acted-ok :
        (m n : K → Option V) (rs : List (Replica S K V))
        → Does k m n none
        → Coherent m rs
        → (filter_errors (all_acted rs).0 ≡ [])
          × (all_ended (all_acted rs).0 ≡ true)
          × Coherent n (map (λ x. x.replica) (all_acted rs).1)
    unfolding all_acted filter_errors
    all_acted-ok m n [] d c = (refl, refl, tt)
    all_acted-ok m n (r ∷ rs) d c =
        let p = acted-ok m n (start r) d c.0 in
        let (i, j, u) = all_acted-ok m n rs d c.1 in (rw (p.0) i, rw (p.0) j, (p.1, u))

    all_acted-err :
        (m : K → Option V) (e : Error) (rs : List (Replica S K V))
        → Does k m m (some e)
        → Coherent m rs
        → (filter_errors (all_acted rs).0 ≡ copies rs e)
          × (all_ended (all_acted rs).0 ≡ true)
          × Coherent m (map (λ x. x.replica) (all_acted rs).1)
    unfolding all_acted filter_errors copies
    all_acted-err m e [] d c = (refl, refl, tt)
    all_acted-err m e (r ∷ rs) d c =
        let p = acted-err m e (start r) d c.0 in
        let (i, j, u) = all_acted-err m e rs d c.1 in
        (rw (p.0) (ap (◌∷◌ (wrap e)) i), rw (p.0) j, (p.1, u))

    module _ (default : Options B) where
      pub replicated-ok :
          (m n : K → Option V) (rs : List (Replica S K V))
          → Does k m n none
          → Coherent m rs
          → let x = replicate_execute w once default name k nil rs in
            (x.outcome ≡ some none) × Coherent n x.replicas
      unfolding replicate_execute match_rollback outcome_of all_acted join_errors
      replicated-ok m n rs d c = let (i, j, u) = all_acted-ok m n rs d c in (rw (j, i) refl, u)

      pub replicated-err :
          (m : K → Option V) (e : Error) (r : Replica S K V) (rs : List (Replica S K V))
          → Does k m m (some e)
          → Coherent m (r ∷ rs)
          → let x = replicate_execute w once default name k nil (r ∷ rs) in
            Reports (err e) x.outcome × Coherent m x.replicas
      unfolding replicate_execute match_rollback outcome_of all_acted
      replicated-err m e r rs d c =
          let (i, j, u) = all_acted-err m e (r ∷ rs) d c in
          let (g, p, q) = join-copies r rs e in ((g, rw (j, i, p) refl, q), u)
