-- ===== src/Store/Labels/Labeller/Refines.antt =====
-- A labelled store shows the values of the store behind it.
use golibs.Prelude.{
  true, Option, none, some, List, [], ◌∷◌, ◌≡◌, ◌⊎◌, refl, sym, ap, ◌∙◌, subst, arith, Key,
  bytes_key, Option-cases, Bool-cases, inl, inr,
}
use golibs.GoMap.{IsMap}
use golibs.Errors.{err_not_found}
use golibs.Exec.{Result, ok, err, continue}
use golibs.Store.{Store, ListItem}
use golibs.Store.Options.{StoreOptions, nil}
use golibs.Store.Spec.{
  put, drop, spec_create, spec_read, spec_update, spec_delete, Agrees, Lists, Implements,
}
use golibs.Store.Labels.{LabelMap, Selectors, match_label_selector}
use golibs.Store.Labels.Labeller.{
  LabeledData, Config, labeller, labelling, labeller_read, labeller_list, filter_items, item_data,
  listed_items,
}
use golibs.Store.Labels.Labeller.Selection.{
  Carries, Documented, Enriches, build_labels-nil, generate_label_selector-empty,
}
use golibs.Store.Labels.Labeller.Contents.{
  Labelled, unlabelled, bare, Sound, AllSound, contents, all_sound, find-contents,
  Ascending-contents,
}

module _ {S K V Sel Req : Type 0} ⦃o : Key K⦄ (k8s : Selectors Sel Req) (d : Documented k8s)
    (cfg : Config V) (i : IsMap cfg.immutable_labels) (enriches : (v : V) → Enriches cfg v)
    (Inv : S → Type 0) (view : S → K → Option (Option (LabeledData K V)))
    (inner : Store S K (Option (LabeledData K V))) (good : Implements Inv view inner) where
  Agrees-bare :
      {A : Type 0} {r : Result A × S} (a : Result A) (m : K → Option (Option (LabeledData K V)))
      (n : K → Option V)
      → Agrees Inv view r (a, m)
      → ((j : K) → bare (m j) ≡ n j)
      → ((j : K) → Sound cfg.immutable_labels (m j))
      → Agrees (Labelled cfg.immutable_labels Inv view) (unlabelled view) r (a, n)
  Agrees-bare a m n g h c = record {
    result = g.result;
    holds = λ j. ap bare (g.holds j) ∙ h j;
    valid = (g.valid, λ j. subst (Sound cfg.immutable_labels) (sym (g.holds j)) (c j));
  }

  Sound-put :
      (k : K) (x : LabeledData K V) (m : K → Option (Option (LabeledData K V))) (j : K)
      → Carries cfg.immutable_labels x.labels
      → Sound cfg.immutable_labels (m j)
      → Sound cfg.immutable_labels (put k (some x) m j)
  Sound-put k x m j c h = elim (Bool-cases (o.eqb k j)) [ inl t ↦ rw t c | inr f ↦ rw f h ]

  Sound-drop :
      (k : K) (m : K → Option (Option (LabeledData K V))) (j : K)
      → Sound cfg.immutable_labels (m j)
      → Sound cfg.immutable_labels (drop k m j)
  Sound-drop k m j h = elim (Bool-cases (o.eqb k j)) [ inl t ↦ rw t tt | inr f ↦ rw f h ]

  bare-put :
      (k : K) (x : LabeledData K V) (m : K → Option (Option (LabeledData K V))) (j : K)
      → bare (put k (some x) m j) ≡ put k x.content (λ l. bare (m l)) j
  bare-put k x m j = ground (arith)

  bare-drop :
      (k : K) (m : K → Option (Option (LabeledData K V))) (j : K)
      → bare (drop k m j) ≡ drop k (λ l. bare (m l)) j
  bare-drop k m j = ground (arith)

  stored : (k : K) (v : V) → LabeledData K V
  stored k v = record { name = k; labels = (build_labels-nil cfg v (enriches v) i).0; content = v }

  labelling-nil :
      (method : K → Option (LabeledData K V) → StoreOptions → S → Result (Unit {0}) × S) (k : K)
      (v : V) (s : S)
      → labelling cfg method k v nil s ≡ method k (some (stored k v)) nil s
  unfolding labelling stored
  labelling-nil method k v s = rw ((build_labels-nil cfg v (enriches v) i).1)

  stored-Carries : (k : K) (v : V) → Carries cfg.immutable_labels (stored k v).labels
  unfolding stored
  stored-Carries k v = (build_labels-nil cfg v (enriches v) i).2

  Sound-cases :
      (x : Option (Option (LabeledData K V)))
      → Sound cfg.immutable_labels x
      → (x ≡ none) ⊎ ((y : LabeledData K V) × (x ≡ some (some y)))
  Sound-cases none h = inl refl
  Sound-cases (some none) h = absurd h
  Sound-cases (some (some y)) h = inr (y, refl)

  -- A method that has put the value there.
  agrees-put :
      (k : K) (v : V) (s : S) (r : Result (Unit {0}) × S)
      → Labelled cfg.immutable_labels Inv view s
      → Agrees Inv view r (ok tt, put k (some (stored k v)) (view s))
      → Agrees
          (Labelled cfg.immutable_labels Inv view)
          (unlabelled view)
          r
          (ok tt, put k v (unlabelled view s))
  unfolding stored
  agrees-put k v s r h g =
      Agrees-bare _ _ _ g (bare-put k (stored k v) (view s))
        (λ j. Sound-put k (stored k v) (view s) j (stored-Carries k v) (h.1 j))

  creates_lem :
      (k : K) (v : V) (s : S)
      → Labelled cfg.immutable_labels Inv view s
      → Agrees
          (Labelled cfg.immutable_labels Inv view)
          (unlabelled view)
          ((labeller k8s cfg inner).create k v nil s)
          (spec_create k v (unlabelled view s) (unlabelled view s k))
  unfolding stored
  creates_lem k v s h =
      rw (labelling-nil inner.create k v s) (elim (Sound-cases (view s k) (h.1 k)) [
        | inl e ↦ rw e (agrees-put k v s _ h (rw e at (good.creates k (some (stored k v)) s h.0)))
        | inr (w, e) ↦
            rw e (
              Agrees-bare _ _ _ (rw e at (good.creates k (some (stored k v)) s h.0)) (λ j. refl)
                h.1)
      ])

  updates_lem :
      (k : K) (v : V) (s : S)
      → Labelled cfg.immutable_labels Inv view s
      → Agrees
          (Labelled cfg.immutable_labels Inv view)
          (unlabelled view)
          ((labeller k8s cfg inner).update k v nil s)
          (spec_update k v (unlabelled view s) (unlabelled view s k))
  unfolding stored
  updates_lem k v s h =
      rw (labelling-nil inner.update k v s) (elim (Sound-cases (view s k) (h.1 k)) [
        | inl e ↦
            rw e (
              Agrees-bare _ _ _ (rw e at (good.updates k (some (stored k v)) s h.0)) (λ j. refl)
                h.1)
        | inr (w, e) ↦
            rw e (agrees-put k v s _ h (rw e at (good.updates k (some (stored k v)) s h.0)))
      ])

  deletes_lem :
      (k : K) (s : S)
      → Labelled cfg.immutable_labels Inv view s
      → Agrees
          (Labelled cfg.immutable_labels Inv view)
          (unlabelled view)
          (inner.delete k nil s)
          (spec_delete k (unlabelled view s) (unlabelled view s k))
  deletes_lem k s h = elim (Sound-cases (view s k) (h.1 k)) [
    | inl e ↦ rw e (Agrees-bare _ _ _ (rw e at (good.deletes k s h.0)) (λ j. refl) h.1)
    | inr (w, e) ↦ rw e (
        Agrees-bare _ _ _ (rw e at (good.deletes k s h.0)) (bare-drop k (view s))
          (λ j. Sound-drop k (view s) j (h.1 j)))
  ]

  -- A read of the store behind, through its pointer.
  read-Agrees :
      (m : K → Option (Option (LabeledData K V))) (x : LabeledData K V)
      (r : Result (Option (LabeledData K V)) × S)
      → Agrees Inv view r (ok (some x), m)
      → ((j : K) → Sound cfg.immutable_labels (m j))
      → Agrees
          (Labelled cfg.immutable_labels Inv view)
          (unlabelled view)
          (continue r (λ e t. (item_data e, t)))
          (ok x.content, λ j. bare (m j))
  read-Agrees m x (err e, t) g c = let never : ⊥ = cc g.result in absurd never
  read-Agrees m x (ok y, t) g c =
      let e : y ≡ some x = cc g.result in
      rw e (record {
        result = refl;
        holds = λ j. ap bare (g.holds j);
        valid = (g.valid, λ j. subst (Sound cfg.immutable_labels) (sym (g.holds j)) (c j));
      })

  read-fails :
      (m : K → Option (Option (LabeledData K V))) (r : Result (Option (LabeledData K V)) × S)
      → Agrees Inv view r (err err_not_found, m)
      → ((j : K) → Sound cfg.immutable_labels (m j))
      → Agrees
          (Labelled cfg.immutable_labels Inv view)
          (unlabelled view)
          (continue r (λ e t. (item_data e, t)))
          (err err_not_found, λ j. bare (m j))
  read-fails m (ok y, t) g c = let never : ⊥ = cc g.result in absurd never
  read-fails m (err e, t) g c = record {
    result = cc g.result;
    holds = λ j. ap bare (g.holds j);
    valid = (g.valid, λ j. subst (Sound cfg.immutable_labels) (sym (g.holds j)) (c j));
  }

  reads_lem :
      (k : K) (s : S)
      → Labelled cfg.immutable_labels Inv view s
      → Agrees
          (Labelled cfg.immutable_labels Inv view)
          (unlabelled view)
          (labeller_read inner k nil s)
          (spec_read (unlabelled view s) (unlabelled view s k))
  unfolding labeller_read
  reads_lem k s h = elim (Sound-cases (view s k) (h.1 k)) [
    | inl e ↦ rw e (read-fails (view s) _ (rw e at (good.reads k s h.0)) h.1)
    | inr (w, e) ↦ rw e (read-Agrees (view s) w _ (rw e at (good.reads k s h.0)) h.1)
  ]

  filter_items-contents :
      (sel : Sel) (xs : List (ListItem K (Option (LabeledData K V))))
      → ((m : LabelMap) → Carries cfg.immutable_labels m → k8s.matches sel m ≡ true)
      → AllSound cfg.immutable_labels xs
      → filter_items k8s sel xs ≡ ok (contents xs)
  unfolding filter_items contents
  filter_items-contents sel [] h a = refl
  filter_items-contents sel (x ∷ xs) h a = elim (Option-cases x.value) [
    | inl e ↦ let never : ⊥ = rw e at a.0 in absurd never
    | inr (w, e) ↦
        let c : k8s.matches sel w.labels ≡ true = h w.labels (rw e at a.0) in
        rw (e, c, filter_items-contents sel xs h a.1) refl
  ]

  listed_lem :
      (sel : Sel) (s : S) (r : Result (List (ListItem K (Option (LabeledData K V)))) × S)
      → Labelled cfg.immutable_labels Inv view s
      → ((m : LabelMap) → Carries cfg.immutable_labels m → k8s.matches sel m ≡ true)
      → Lists Inv view r (view s) (view s)
      → Lists
          (Labelled cfg.immutable_labels Inv view)
          (unlabelled view)
          (filter_items k8s sel (listed_items r.0), r.1)
          (unlabelled view s)
          (unlabelled view s)
  listed_lem sel s (err e, t) h m g = let never : ⊥ = cc g.result in absurd never
  listed_lem sel s (ok xs, t) h m g =
      let p : xs ≡ g.items = cc g.result in
      let a =
        all_sound cfg.immutable_labels g.items g.ascending
          (λ k. subst (Sound cfg.immutable_labels) (sym (g.listed k)) (h.1 k)) in
      record {
        items = contents g.items;
        result = ap (filter_items k8s sel) p ∙ filter_items-contents sel g.items m a;
        ascending = Ascending-contents cfg.immutable_labels g.items g.ascending;
        listed = λ j. find-contents cfg.immutable_labels j g.items a ∙ ap bare (g.listed j);
        holds = λ j. ap bare (g.holds j);
        valid = (g.valid, λ j. subst (Sound cfg.immutable_labels) (sym (g.holds j)) (h.1 j));
      }

  lists_lem :
      (s : S)
      → Labelled cfg.immutable_labels Inv view s
      → Lists
          (Labelled cfg.immutable_labels Inv view)
          (unlabelled view)
          (labeller_list k8s cfg inner nil s)
          (unlabelled view s)
          (unlabelled view s)
  unfolding labeller_list match_label_selector
  lists_lem s h =
      let (sel, e, m) = generate_label_selector-empty k8s d cfg.immutable_labels i in
      rw e (listed_lem sel s (inner.list nil s) h m (good.lists s h.0))

  -- Over a store that implements a map of labelled values, each with the immutable labels, and with
  -- an enricher that gives each value labels under none of the immutable keys: the labelled store
  -- implements the map of the bare values, and every stored value has the immutable labels.
  pub labeller-Implements :
      Implements (Labelled cfg.immutable_labels Inv view) (unlabelled view) (labeller k8s cfg inner)
  labeller-Implements = record {
    creates = creates_lem;
    reads = reads_lem;
    updates = updates_lem;
    applies = λ k v s h.
        rw (labelling-nil inner.apply k v s)
          (agrees-put k v s _ h (good.applies k (some (stored k v)) s h.0));
    deletes = deletes_lem;
    lists = lists_lem;
  }
