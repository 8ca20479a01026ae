-- ===== src/Store/History.antt =====
-- Sequences of calls to a store. Two stores that implement a partial map cannot be told apart.
use golibs.Prelude.{Option, List, [], ◌∷◌, ◌≡◌, refl, sym, fun_ext, ap, ap₂, ◌∙◌, Key}
use golibs.Exec.{Result, ok}
use golibs.Store.{Store, ListItem}
use golibs.Store.Options.{nil}
use golibs.Store.Listing.{Ascending-ext}
use golibs.Store.Spec.{put, spec_create, spec_read, spec_update, spec_delete, Agrees, Implements}

pub data Call {ℓ} (K V : Type ℓ) : Type ℓ where
  create update apply : K → V → Call K V
  read delete : K → Call K V
  list : Call K V

pub data Reply {ℓ} (K V : Type ℓ) : Type ℓ where
  done : Result (Unit {0}) → Reply K V
  value : Result V → Reply K V
  items : Result (List (ListItem K V)) → Reply K V

module _ {ℓ} {S K V : Type ℓ} (st : Store S K V) where
  abbrev as_reply {κ} : {A : Type κ} → (Result A → Reply K V) → Result A × S → Reply K V × S
  as_reply f r = (f r.0, r.1)

  -- One call without options.
  unfoldable pub call : Call K V → S → Reply K V × S
  call (create k v) s = as_reply done (st.create k v nil s)
  call (update k v) s = as_reply done (st.update k v nil s)
  call (apply k v) s = as_reply done (st.apply k v nil s)
  call (read k) s = as_reply value (st.read k nil s)
  call (delete k) s = as_reply done (st.delete k nil s)
  call list s = as_reply items (st.list nil s)

  -- The replies to a sequence of calls.
  unfoldable pub replies : List (Call K V) → S → List (Reply K V)
  unfolding call
  replies [] s = []
  replies (c ∷ cs) s = let r = call c s in r.0 ∷ replies cs r.1

  unfoldable pub final : List (Call K V) → S → S
  unfolding call
  final [] s = s
  final (c ∷ cs) s = final cs (call c s).1

module _ {ℓ} {S T K V : Type ℓ} ⦃o : Key K⦄ (Inv : S → Type ℓ) (view : S → K → Option V)
    (Inw : T → Type ℓ) (wiew : T → K → Option V) where
  -- Both states are valid and show the same map.
  pub record Same (s : S) (t : T) : Type ℓ where
    pub left : Inv s
    pub right : Inw t
    pub shows : (j : K) → view s j ≡ wiew t j

  both {κ} :
      {A : Type κ} {r : Result A × S} {q : Result A × T} (f : Result A → Reply K V)
      (e d : Result A × (K → Option V))
      → Agrees Inv view r e
      → Agrees Inw wiew q d
      → e ≡ d
      → (f r.0 ≡ f q.0) × Same r.1 q.1
  both f e d g h p = (
    ap f (g.result ∙ ap (λ x. x.0) p ∙ sym h.result),
    record {
      left = g.valid;
      right = h.valid;
      shows = λ j. g.holds j ∙ ap (λ x. x.1 j) p ∙ sym (h.holds j);
    },
  )

  module _ (st : Store S K V) (su : Store T K V) (good : Implements Inv view st)
      (also : Implements Inw wiew su) where
    -- One call has the same reply, and leads to states that show the same map.
    pub call-Same :
        (c : Call K V) (s : S) (t : T)
        → Same s t
        → ((call st c s).0 ≡ (call su c t).0) × Same (call st c s).1 (call su c t).1
    unfolding call
    call-Same (create k v) s t h =
        both done _ _ (good.creates k v s h.left) (also.creates k v t h.right)
          (ap (λ (m : K → Option V). spec_create k v m (m k)) (fun_ext h.shows))
    call-Same (update k v) s t h =
        both done _ _ (good.updates k v s h.left) (also.updates k v t h.right)
          (ap (λ (m : K → Option V). spec_update k v m (m k)) (fun_ext h.shows))
    call-Same (apply k v) s t h =
        both done _ _ (good.applies k v s h.left) (also.applies k v t h.right)
          (ap (λ (m : K → Option V). (ok tt, put k v m)) (fun_ext h.shows))
    call-Same (read k) s t h =
        both value _ _ (good.reads k s h.left) (also.reads k t h.right)
          (ap (λ (m : K → Option V). spec_read m (m k)) (fun_ext h.shows))
    call-Same (delete k) s t h =
        both done _ _ (good.deletes k s h.left) (also.deletes k t h.right)
          (ap (λ (m : K → Option V). spec_delete k m (m k)) (fun_ext h.shows))
    call-Same list s t h =
        let g = good.lists s h.left in
        let f = also.lists t h.right in
        let same =
          Ascending-ext g.items f.items g.ascending f.ascending
            (λ j. g.listed j ∙ h.shows j ∙ sym (f.listed j)) in
        (
          ap items (g.result ∙ ap ok same ∙ sym f.result),
          record {
            left = g.valid;
            right = f.valid;
            shows = λ j. g.holds j ∙ h.shows j ∙ sym (f.holds j);
          },
        )

    -- Two stores that implement partial maps, started in states that show the same map, give the
    -- same replies to every sequence of calls without options, listings and errors included.
    pub replies-Same :
        (cs : List (Call K V)) (s : S) (t : T) → Same s t → replies st cs s ≡ replies su cs t
    unfolding replies
    replies-Same [] s t h = refl
    replies-Same (c ∷ cs) s t h = let n = call-Same c s t h in ap₂ ◌∷◌ n.0 (replies-Same cs _ _ n.1)
