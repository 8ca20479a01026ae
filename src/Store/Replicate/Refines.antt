-- ===== src/Store/Replicate/Refines.antt =====
-- Stores that show the same map go on to show the same map, and report what one of them would.
use golibs.Prelude.{
  ℕ, suc, Bool, true, false, Option, none, some, List, ◌∷◌, ◌≡◌, refl, ap, ◌∙◌, sym, subst, fun_ext,
  Bytes, Key, Option-cases, inl, inr,
}
use golibs.Errors.{Error}
use golibs.Exec.{Result, ok, err}
use golibs.Store.{Store}
use golibs.Store.Options.{nil}
use golibs.Store.Spec.{put, spec_create, spec_update, spec_delete, Agrees, Implements}
use golibs.Workflow.{Waiting, Options}
use golibs.Store.Replicate.{
  Replica, Work, Executed, replicate_execute, error_of, create_work, update_work, apply_work,
  delete_work, match_rollback,
}
use golibs.Store.Replicate.Coherent.{Shows, Coherent, Does, Reports, replicated-ok, replicated-err}

module _ {S K V : Type 0} ⦃o : Key K⦄ (Inv : S → Type 0) (view : S → K → Option V) where
  -- The stores behind a call, and what it reports.
  pub record Replicates (e : Result (Unit {0}) × (K → Option V)) (x : Executed S K V) : Type 0 where
    pub reported : Reports e.0 x.outcome
    pub coherent : Coherent Inv view e.1 x.replicas

  -- What a store that shows m does, seen from m.
  agrees-Shows :
      (spec : (K → Option V) → Result (Unit {0}) × (K → Option V)) (m : K → Option V)
      (r : Replica S K V) (x : Result (Unit {0}) × S)
      → Shows Inv view m r
      → Agrees Inv view x (spec (view r.state))
      → Agrees Inv view x (spec m)
  agrees-Shows spec m r x g h = subst (λ q. Agrees Inv view x (spec q)) (fun_ext g.shown) h

  does_lem :
      (k : Work S K V) (method : Store S K V → S → Result (Unit {0}) × S)
      (spec : (K → Option V) → Result (Unit {0}) × (K → Option V)) (m : K → Option V)
      → ((st : Store S K V) (s : S) → (k.run st nil s).0.1 ≡ error_of (method st s).0)
      → ((st : Store S K V) (s : S) → (k.run st nil s).1 ≡ (method st s).1)
      → ((st : Store S K V) (s : S)
          → Implements Inv view st
          → Inv s
          → Agrees Inv view (method st s) (spec (view s)))
      → Does Inv view k m (spec m).1 (error_of (spec m).0)
  does_lem k method spec m p q h = record {
    reports = λ r g.
        let a = agrees-Shows spec m r _ g (h r.store r.state g.good g.valid) in
        p r.store r.state ∙ ap error_of a.result;
    leaves = λ r g.
        let a = agrees-Shows spec m r _ g (h r.store r.state g.good g.valid) in
        subst (λ s. Shows Inv view (spec m).1 (record { store = r.store; state = s }))
          (sym (q r.store r.state)) (record { good = g.good; valid = a.valid; shown = a.holds });
  }

  module _ (zero : V) (is_nil_value : V → Bool) where
    create-Does :
        (k : K) (v : V) (m : K → Option V)
        → let e = spec_create k v m (m k) in
          Does Inv view (create_work zero is_nil_value k v) m e.1 (error_of e.0)
    unfolding create_work
    create-Does k v m =
        does_lem (create_work zero is_nil_value k v) (λ st s. st.create k v nil s)
          (λ n. spec_create k v n (n k)) m (λ st s. refl) (λ st s. refl)
          (λ st s g i. g.creates k v s i)

    update-Does :
        (k : K) (v : V) (m : K → Option V)
        → let e = spec_update k v m (m k) in
          Does Inv view (update_work zero is_nil_value k v) m e.1 (error_of e.0)
    unfolding update_work match_rollback
    update-Does k v m =
        does_lem (update_work zero is_nil_value k v) (λ st s. st.update k v nil s)
          (λ n. spec_update k v n (n k)) m (λ st s. refl) (λ st s. refl)
          (λ st s g i. g.updates k v s i)

    apply-Does :
        (k : K) (v : V) (m : K → Option V)
        → Does Inv view (apply_work zero is_nil_value k v) m (put k v m) none
    unfolding apply_work match_rollback
    apply-Does k v m =
        does_lem (apply_work zero is_nil_value k v) (λ st s. st.apply k v nil s)
          (λ n. (ok tt, put k v n)) m (λ st s. refl) (λ st s. refl) (λ st s g i. g.applies k v s i)

    delete-Does :
        (k : K) (m : K → Option V)
        → let e = spec_delete k m (m k) in
          Does Inv view (delete_work zero is_nil_value k) m e.1 (error_of e.0)
    unfolding delete_work match_rollback
    delete-Does k m =
        does_lem (delete_work zero is_nil_value k) (λ st s. st.delete k nil s)
          (λ n. spec_delete k n (n k)) m (λ st s. refl) (λ st s. refl) (λ st s g i. g.deletes k s i)

    module _ {B : Type 0} (w : Waiting B) (once default : Options B) (l : ℕ)
        (h : w.steps once.backoff ≡ 2) (h1 : w.steps (w.step once.backoff) ≡ 1)
        (f : once.rounds ≡ suc (suc l)) (t : once.run_forever ≡ false)
        (a : (x : Error) → once.is_retriable x ≡ true) (name : Bytes) (m : K → Option V)
        (r : Replica S K V) (rs : List (Replica S K V)) (c : Coherent Inv view m (r ∷ rs)) where
      -- A call that does `e` to the map: it succeeds, or it leaves the map as it is.
      abbrev Plain : Result (Unit {0}) × (K → Option V) → Type 0
      Plain (ok u, n) = Unit
      Plain (err e, n) = n ≡ m

      call-Replicates :
          (k : Work S K V) (e : Result (Unit {0}) × (K → Option V))
          → Does Inv view k m e.1 (error_of e.0)
          → Plain e
          → Replicates e (replicate_execute w once default name k nil (r ∷ rs))
      call-Replicates k (ok u, n) d p =
          let (i, j) = replicated-ok Inv view w once l h h1 f t a name k default m n (r ∷ rs) d c in
          record { reported = i; coherent = j }
      call-Replicates k (err e, n) d p =
          let d2 = subst (λ q. Does Inv view k m q (some e)) p d in
          let (i, j) = replicated-err Inv view w once l h h1 f t a name k default m e r rs d2 c in
          record {
            reported = i;
            coherent =
                subst
                  (λ q.
                    Coherent Inv view q
                      (replicate_execute w once default name k nil (r ∷ rs)).replicas)
                  (sym p) j;
          }

      -- What the four methods that write do to the stores, in terms of the map that they show.
      pub record Together : Type 0 where
        pub creates :
            (k : K) (v : V)
            → Replicates (spec_create k v m (m k)) (
                replicate_execute w once default name
                  (create_work zero is_nil_value k v)
                  nil
                  (r ∷ rs))
        pub updates :
            (k : K) (v : V)
            → Replicates (spec_update k v m (m k)) (
                replicate_execute w once default name
                  (update_work zero is_nil_value k v)
                  nil
                  (r ∷ rs))
        pub applies :
            (k : K) (v : V)
            → Replicates
                (ok tt, put k v m)
                (replicate_execute w once default name
                  (apply_work zero is_nil_value k v)
                  nil
                  (r ∷ rs))
        pub deletes :
            (k : K)
            → Replicates (spec_delete k m (m k)) (
                replicate_execute w once default name
                  (delete_work zero is_nil_value k)
                  nil
                  (r ∷ rs))

      create-Plain : (k : K) (v : V) → Plain (spec_create k v m (m k))
      create-Plain k v = elim (Option-cases (m k)) [ inl e ↦ rw e tt | inr (x, e) ↦ rw e refl ]

      update-Plain : (k : K) (v : V) → Plain (spec_update k v m (m k))
      update-Plain k v = elim (Option-cases (m k)) [ inl e ↦ rw e refl | inr (x, e) ↦ rw e tt ]

      delete-Plain : (k : K) → Plain (spec_delete k m (m k))
      delete-Plain k = elim (Option-cases (m k)) [ inl e ↦ rw e refl | inr (x, e) ↦ rw e tt ]

      -- Over stores, at least one, that implement maps and all show the same map, where RetryOnce has
      -- two steps, one of which a call of Step takes: Create, Update, Apply and Delete without options end, and leave all stores with the
      -- map that one store would be left with. They report no error where one store would succeed, and
      -- otherwise an error in which errors.Is sees what it sees in the error of one store.
      pub replicate-Together : Together
      replicate-Together = record {
        creates = λ k v. call-Replicates _ _ (create-Does k v m) (create-Plain k v);
        updates = λ k v. call-Replicates _ _ (update-Does k v m) (update-Plain k v);
        applies = λ k v. call-Replicates _ (ok tt, put k v m) (apply-Does k v m) tt;
        deletes = λ k. call-Replicates _ _ (delete-Does k m) (delete-Plain k);
      }
