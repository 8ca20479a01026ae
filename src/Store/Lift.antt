-- ===== src/Store/Lift.antt =====
-- A store as one of two that stand side by side, each with a state of its own.
use golibs.Prelude.{Option, Key}
use golibs.Exec.{Result, Exec}
use golibs.Store.{Store}
use golibs.Store.Spec.{Agrees, Implements}

module _ {ℓ} {S T : Type ℓ} where
  abbrev pub left {κ} : {A : Type κ} → Exec S A → Exec (S × T) A
  left m (s, t) = let r = m s in (r.0, (r.1, t))

  abbrev pub right {κ} : {A : Type κ} → Exec T A → Exec (S × T) A
  right m (s, t) = let r = m t in (r.0, (s, r.1))

  module _ {K V : Type ℓ} where
    abbrev pub on_left : Store S K V → Store (S × T) K V
    on_left st = record {
      create = λ k v opts. left (st.create k v opts);
      read = λ k opts. left (st.read k opts);
      update = λ k v opts. left (st.update k v opts);
      apply = λ k v opts. left (st.apply k v opts);
      delete = λ k opts. left (st.delete k opts);
      list = λ opts. left (st.list opts);
    }

    abbrev pub on_right : Store T K V → Store (S × T) K V
    on_right st = record {
      create = λ k v opts. right (st.create k v opts);
      read = λ k opts. right (st.read k opts);
      update = λ k v opts. right (st.update k v opts);
      apply = λ k v opts. right (st.apply k v opts);
      delete = λ k opts. right (st.delete k opts);
      list = λ opts. right (st.list opts);
    }

-- A store that implements a map does so beside another part, which it leaves alone.
module _ {ℓ} {S T K V : Type ℓ} ⦃o : Key K⦄ (Inv : S → Type ℓ) (view : S → K → Option V)
    (st : Store S K V) (good : Implements Inv view st) (Q : T → Type ℓ) where
  abbrev pub BesideLeft : S × T → Type ℓ
  BesideLeft w = Inv w.0 × Q w.1

  abbrev pub BesideRight : T × S → Type ℓ
  BesideRight w = Q w.0 × Inv w.1

  left-Agrees {κ} :
      {A : Type κ} {r : Result A × S} {e : Result A × (K → Option V)} (t : T)
      → Q t
      → Agrees Inv view r e
      → Agrees BesideLeft (λ w. view w.0) (r.0, (r.1, t)) e
  left-Agrees t q g = record { result = g.result; holds = g.holds; valid = (g.valid, q) }

  right-Agrees {κ} :
      {A : Type κ} {r : Result A × S} {e : Result A × (K → Option V)} (t : T)
      → Q t
      → Agrees Inv view r e
      → Agrees BesideRight (λ w. view w.1) (r.0, (t, r.1)) e
  right-Agrees t q g = record { result = g.result; holds = g.holds; valid = (q, g.valid) }

  pub left-Implements : Implements BesideLeft (λ w. view w.0) (on_left st)
  left-Implements = record {
    creates = λ k v w h. left-Agrees w.1 h.1 (good.creates k v w.0 h.0);
    reads = λ k w h. left-Agrees w.1 h.1 (good.reads k w.0 h.0);
    updates = λ k v w h. left-Agrees w.1 h.1 (good.updates k v w.0 h.0);
    applies = λ k v w h. left-Agrees w.1 h.1 (good.applies k v w.0 h.0);
    deletes = λ k w h. left-Agrees w.1 h.1 (good.deletes k w.0 h.0);
    lists = λ w h.
        let g = good.lists w.0 h.0 in
        record {
          items = g.items;
          result = g.result;
          ascending = g.ascending;
          listed = g.listed;
          holds = g.holds;
          valid = (g.valid, h.1);
        };
  }

  pub right-Implements : Implements BesideRight (λ w. view w.1) (on_right st)
  right-Implements = record {
    creates = λ k v w h. right-Agrees w.0 h.0 (good.creates k v w.1 h.1);
    reads = λ k w h. right-Agrees w.0 h.0 (good.reads k w.1 h.1);
    updates = λ k v w h. right-Agrees w.0 h.0 (good.updates k v w.1 h.1);
    applies = λ k v w h. right-Agrees w.0 h.0 (good.applies k v w.1 h.1);
    deletes = λ k w h. right-Agrees w.0 h.0 (good.deletes k w.1 h.1);
    lists = λ w h.
        let g = good.lists w.1 h.1 in
        record {
          items = g.items;
          result = g.result;
          ascending = g.ascending;
          listed = g.listed;
          holds = g.holds;
          valid = (h.0, g.valid);
        };
  }
