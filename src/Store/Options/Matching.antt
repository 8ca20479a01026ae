-- ===== src/Store/Options/Matching.antt =====
-- A search for an option against the flat list of all options.
use golibs.Prelude.{
  Bool, true, false, Option, none, some, List, [], ◌∷◌, ◌++◌, ◌≡◌, refl, ap, arith, sym, ◌∙◌,
  Option-cases, inl, inr, ◌+◌, length, length-append,
}
use golibs.Store.Options.{
  StoreOption, StoreOptions, nested, nil, cons, accept, found_in, match_step, match_option_by,
  match_nested,
}

-- The options that are no slices, in the order of a depth-first visit.
unfoldable mutual
  pub leaves : StoreOptions → List StoreOption
  leaves nil = []
  leaves (cons x rest) = leaves_of x ++ leaves rest

  pub leaves_of : StoreOption → List StoreOption
  leaves_of (nested xs) = leaves xs
  leaves_of x = x ∷ []

module _ {T : Type 0} (cast : StoreOption → Option T) (p : T → Bool) where
  -- The reference: the first option that is accepted, and the list without it.
  unfoldable pub pick : List StoreOption → Option T × List StoreOption
  pick [] = (none, [])
  pick (x ∷ xs) = elim (accept p (cast x)) [
    | some v ↦ (some v, xs)
    | none ↦ let r = pick xs in (r.0, x ∷ r.1)
  ]

  abbrev pick_more : Option T × List StoreOption → List StoreOption → Option T × List StoreOption
  pick_more (some v, xs) ys = (some v, xs ++ ys)
  pick_more (none, xs) ys = let r = pick ys in (r.0, xs ++ r.1)

  pick-append : (xs ys : List StoreOption) → pick (xs ++ ys) ≡ pick_more (pick xs) ys
  unfolding pick
  pick-append [] ys = refl
  pick-append (x ∷ xs) ys = ground (arith, pick-append xs ys)

  -- No slice is a T.
  abbrev pub NoSlice : Type 0
  NoSlice = (xs : StoreOptions) → cast (nested xs) ≡ none

  abbrev pub flat : Option T × StoreOptions → Option T × List StoreOption
  flat (v, xs) = (v, leaves xs)

  nested_step :
      (ys rest : StoreOptions) (r : Option T × StoreOptions) (later : Option T × StoreOptions)
      → flat r ≡ pick (leaves ys)
      → flat later ≡ pick (leaves rest)
      → (r.0 ≡ none → r.1 ≡ ys)
      → flat (match_step false (nested ys) rest none (found_in r) later)
        ≡ pick_more (pick (leaves ys)) (leaves rest)
  unfolding match_step leaves
  nested_step ys rest (none, xs) later h k same = ground arith
  nested_step ys rest (some v, xs) later h k same = ground arith

  step_none :
      (skip : Bool) (x : StoreOption) (rest : StoreOptions) (a : Option T)
      (inner : Option (T × StoreOptions)) (later : Option T × StoreOptions)
      → (later.0 ≡ none → later.1 ≡ rest)
      → (match_step skip x rest a inner later).0 ≡ none
      → (match_step skip x rest a inner later).1 ≡ cons x rest
  unfolding match_step
  step_none skip x rest (some v) inner later ih h = cc
  step_none skip x rest none (some w) later ih h = cc
  step_none skip x rest none none later ih h = ap (cons x) (ih h)

  -- A search that finds nothing leaves the slice as it is.
  pub match_option_by-none :
      (skip : Bool) (xs : StoreOptions)
      → (match_option_by cast p skip xs).0 ≡ none
      → (match_option_by cast p skip xs).1 ≡ xs
  unfolding match_option_by
  match_option_by-none skip nil h = refl
  match_option_by-none skip (cons x rest) h =
      step_none skip x rest (accept p (cast x)) (match_nested cast p x)
        (match_option_by cast p skip rest) (match_option_by-none skip rest) h

  leaf_step :
      (x : StoreOption) (rest : StoreOptions) (later : Option T × StoreOptions)
      → leaves_of x ≡ x ∷ []
      → flat later ≡ pick (leaves rest)
      → flat (match_step false x rest (accept p (cast x)) none later) ≡ pick (x ∷ leaves rest)
  unfolding match_step leaves pick
  leaf_step x rest later e h = elim (Option-cases (accept p (cast x))) [
    | inl k ↦ rw (k, pick, match_step) (ground arith)
    | inr (v, k) ↦ rw (k, pick, match_step)
  ]

  -- Where no slice is a T, a consuming search through slices nested to any depth returns the first
  -- option, in depth-first order, that is a T and meets the predicate, and leaves all others, in
  -- their order; if there is none it finds nothing and leaves all.
  pub match_option_by-pick :
      NoSlice → (xs : StoreOptions) → flat (match_option_by cast p false xs) ≡ pick (leaves xs)
  unfolding match_option_by leaves pick
  match_option_by-pick ns nil = refl
  match_option_by-pick ns (cons (nested ys) rest) = rw (ns ys) (
      nested_step ys rest (match_option_by cast p false ys) (match_option_by cast p false rest)
        (match_option_by-pick ns ys) (match_option_by-pick ns rest) (match_option_by-none false ys)
      ∙ sym (pick-append (leaves ys) (leaves rest)))
  match_option_by-pick ns (cons x rest) =
      leaf_step x rest (match_option_by cast p false rest) refl (match_option_by-pick ns rest)

  -- SkipConsume keeps an option that stands in the slice itself.
  pub skip_consume_top :
      (x : StoreOption) (rest : StoreOptions) (v : T)
      → accept p (cast x) ≡ some v
      → match_option_by cast p true (cons x rest) ≡ (some v, cons x rest)
  unfolding match_option_by match_step
  skip_consume_top x rest v h = rw (h, match_step)

  length-pick :
      (xs : List StoreOption) (v : T) → (pick xs).0 ≡ some v → length (pick xs).1 + 1 ≡ length xs
  unfolding pick
  length-pick [] v h = cc
  length-pick (x ∷ xs) v h = ground (arith, length-pick xs v)

  nested_found :
      (ys rest : StoreOptions) (r : Option T × StoreOptions) (v : T)
      → flat r ≡ pick (leaves ys)
      → (pick (leaves ys)).0 ≡ some v
      → let q =
          match_step true (nested ys) rest none (found_in r) (match_option_by cast p true rest) in
        (q.0 ≡ some v) × (length (leaves q.1) + 1 ≡ length (leaves (cons (nested ys) rest)))
  unfolding match_step leaves
  nested_found ys rest (none, xs) v e h = cc
  nested_found ys rest (some w, xs) v e h = ground (
    arith,
    length-pick (leaves ys) v h,
    length-append (leaves ys) (leaves rest),
    length-append (leaves xs) (leaves rest),
  )

  -- SkipConsume does not keep an option that is found in a nested slice: where the search gets into
  -- a nested slice and finds an option there, one option is gone.
  pub skip_consume_nested :
      NoSlice
      → (ys rest : StoreOptions) (v : T) → (pick (leaves ys)).0 ≡ some v
      → let r = match_option_by cast p true (cons (nested ys) rest) in
        (r.0 ≡ some v) × (length (leaves r.1) + 1 ≡ length (leaves (cons (nested ys) rest)))
  unfolding match_option_by match_step leaves
  skip_consume_nested ns ys rest v h =
      rw (ns ys)
        (nested_found ys rest (match_option_by cast p false ys) v (match_option_by-pick ns ys) h)
