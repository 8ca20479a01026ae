-- ===== src/Store/Guarded/Admitted.antt =====
-- What a guarded store keeps out: a refused call changes nothing, and every entry passes the check.
use golibs.Prelude.{
  Bool, true, false, Option, none, some, List, [], ◌∷◌, ◌≡◌, ◌↔◌, refl, sym, ◌∙◌, Key, arith,
  if◌then◌else◌, inl, inr, Bool-cases,
}
use golibs.Errors.{Error}
use golibs.Exec.{Exec, Result, refuse}
use golibs.Store.{Store}
use golibs.Store.Spec.{
  put, drop, spec_create, spec_update, spec_delete, spec_read, Agrees, Implements,
}
use golibs.Store.History.{Call, create, read, update, apply, delete, list, call, final}
use golibs.Store.Guarded.{guarded, name_check, named}

abbrev is_none {ℓ} : {A : Type ℓ} → Option A → Bool
is_none none = true
is_none (some a) = false

module _ {ℓ} {K V : Type ℓ} (check : K → V → Option Error) where
  -- The calls that the check lets through.
  unfoldable pub passes : Call K V → Bool
  passes (create k v) = is_none (check k v)
  passes (update k v) = is_none (check k v)
  passes (apply k v) = is_none (check k v)
  passes (read k) = true
  passes (delete k) = true
  passes list = true

  unfoldable pub passing : List (Call K V) → List (Call K V)
  unfolding passes
  passing [] = []
  passing (c ∷ cs) = let rest = passing cs in if passes c then c ∷ rest else rest

  module _ {S : Type ℓ} (inner : Store S K V) where
    refuse-passed :
        (e : Option Error) (m : Exec S (Unit {0})) (s : S)
        → is_none e ≡ true
        → (refuse e m s).1 ≡ (m s).1
    refuse-passed none m s h = refl
    refuse-passed (some x) m s h = cc

    refuse-refused :
        (e : Option Error) (m : Exec S (Unit {0})) (s : S)
        → is_none e ≡ false
        → (refuse e m s).1 ≡ s
    refuse-refused none m s h = cc
    refuse-refused (some x) m s h = refl

    passed :
        (c : Call K V) (s : S)
        → passes c ≡ true
        → (call (guarded check inner) c s).1 ≡ (call inner c s).1
    unfolding passes call
    passed (create k v) s h = refuse-passed (check k v) _ s h
    passed (update k v) s h = refuse-passed (check k v) _ s h
    passed (apply k v) s h = refuse-passed (check k v) _ s h
    passed (read k) s h = refl
    passed (delete k) s h = refl
    passed list s h = refl

    refused : (c : Call K V) (s : S) → passes c ≡ false → (call (guarded check inner) c s).1 ≡ s
    unfolding passes call
    refused (create k v) s h = refuse-refused (check k v) _ s h
    refused (update k v) s h = refuse-refused (check k v) _ s h
    refused (apply k v) s h = refuse-refused (check k v) _ s h
    refused (read k) s h = cc
    refused (delete k) s h = cc
    refused list s h = cc

    -- A sequence of calls to a guarded store leaves the store behind it as the calls that pass
    -- the check leave it, made to that store alone.
    pub final-passing :
        (cs : List (Call K V)) (s : S)
        → final (guarded check inner) cs s ≡ final inner (passing cs) s
    unfolding final passing
    final-passing [] s = refl
    final-passing (c ∷ cs) s = elim (Bool-cases (passes c)) [
      | inl e ↦ rw (e, passed c s e) (final-passing cs _)
      | inr e ↦ rw (e, refused c s e) (final-passing cs _)
    ]

-- What Admits means for a store that implements a map.
module _ {ℓ} {S K V : Type ℓ} ⦃o : Key K⦄ (check : K → V → Option Error) (Inv : S → Type ℓ)
    (view : S → K → Option V) where
  abbrev Passing : (K → Option V) → Type ℓ
  Passing m = (j : K) (v : V) → m j ≡ some v → check j v ≡ none

  -- The state is valid, and each of its entries passes the check.
  abbrev pub Admits : S → Type ℓ
  Admits s = Inv s × Passing (view s)

  Passing-put :
      (k : K) (v : V) (m : K → Option V) → check k v ≡ none → Passing m → Passing (put k v m)
  Passing-put k v m e h j w p = elim (Bool-cases (o.eqb k j)) [
    | inl q ↦
        let r = (o.eqb_iff k j).0 q in let t : put k v m j ≡ some v = rw q refl in cc (e, r, p, t)
    | inr q ↦ let t : m j ≡ put k v m j = rw q refl in h j w (t ∙ p)
  ]

  Passing-drop : (k : K) (m : K → Option V) → Passing m → Passing (drop k m)
  Passing-drop k m h j w p = h j w (ground arith)

  agreed {κ} :
      {A : Type κ} (r : Result A × S) (e : Result A × (K → Option V))
      → Agrees Inv view r e
      → Passing e.1
      → Admits r.1
  agreed r e g h = (g.valid, λ j v p. h j v (sym (g.holds j) ∙ p))

  Passing-create :
      (k : K) (v : V) (m : K → Option V) (x : Option V)
      → check k v ≡ none
      → Passing m
      → Passing (spec_create k v m x).1
  Passing-create k v m none e h = Passing-put k v m e h
  Passing-create k v m (some w) e h = h

  Passing-update :
      (k : K) (v : V) (m : K → Option V) (x : Option V)
      → check k v ≡ none
      → Passing m
      → Passing (spec_update k v m x).1
  Passing-update k v m none e h = h
  Passing-update k v m (some w) e h = Passing-put k v m e h

  Passing-delete :
      (k : K) (m : K → Option V) (x : Option V) → Passing m → Passing (spec_delete k m x).1
  Passing-delete k m none h = h
  Passing-delete k m (some w) h = Passing-drop k m h

  Passing-read : (m : K → Option V) (x : Option V) → Passing m → Passing (spec_read m x).1
  Passing-read m none h = h
  Passing-read m (some w) h = h

  refuse-Admits :
      (e : Option Error) (m : Exec S (Unit {0})) (s : S)
      → Admits s
      → (e ≡ none → Admits (m s).1)
      → Admits (refuse e m s).1
  refuse-Admits none m s h f = f refl
  refuse-Admits (some x) m s h f = h

  module _ (inner : Store S K V) (good : Implements Inv view inner) where
    -- Every call keeps the entries in order.
    call-Admits : (c : Call K V) (s : S) → Admits s → Admits (call (guarded check inner) c s).1
    unfolding call
    call-Admits (create k v) s h =
        refuse-Admits (check k v) _ s h
          (λ e. agreed _ _ (good.creates k v s h.0) (Passing-create k v (view s) (view s k) e h.1))
    call-Admits (update k v) s h =
        refuse-Admits (check k v) _ s h
          (λ e. agreed _ _ (good.updates k v s h.0) (Passing-update k v (view s) (view s k) e h.1))
    call-Admits (apply k v) s h =
        refuse-Admits (check k v) _ s h
          (λ e. agreed _ _ (good.applies k v s h.0) (Passing-put k v (view s) e h.1))
    call-Admits (read k) s h =
        agreed _ _ (good.reads k s h.0) (Passing-read (view s) (view s k) h.1)
    call-Admits (delete k) s h =
        agreed _ _ (good.deletes k s h.0) (Passing-delete k (view s) (view s k) h.1)
    call-Admits list s h =
        let g = good.lists s h.0 in (g.valid, λ j v p. h.1 j v (sym (g.holds j) ∙ p))

    -- Over a store that implements a map, every sequence of calls to a guarded store leads from
    -- entries that pass the check to entries that pass the check.
    pub final-Admits :
        (cs : List (Call K V)) (s : S) → Admits s → Admits (final (guarded check inner) cs s)
    unfolding final
    final-Admits [] s h = h
    final-Admits (c ∷ cs) s h = final-Admits cs _ (call-Admits c s h)

-- With the check of the names, a key holds a value of its own name only.
module _ {ℓ} {S K V : Type ℓ} ⦃o : Key K⦄ (get_name : V → K) (Inv : S → Type ℓ)
    (view : S → K → Option V) (inner : Store S K V) (good : Implements Inv view inner) where
  name_check-none : (k : K) (v : V) → (name_check get_name k v ≡ none) ↔ (k ≡ get_name v)
  unfolding name_check
  name_check-none k v = ground (arith, o.eqb_iff k (get_name v))

  -- After any sequence of calls to a named store, over a store that implements a map and that
  -- starts with every value under its name, every value stands under its name.
  pub named-own_name :
      (cs : List (Call K V)) (s : S)
      → Inv s
      → ((j : K) (v : V) → view s j ≡ some v → j ≡ get_name v)
      → (j : K) (v : V) → view (final (named get_name inner) cs s) j ≡ some v
      → j ≡ get_name v
  named-own_name cs s i h j v p =
      let g =
        final-Admits (name_check get_name) Inv view inner good cs s
          (i, λ j v p. (name_check-none j v).1 (h j v p)) in
      (name_check-none j v).0 (g.1 j v p)
