-- ===== src/Health/Rounds.antt =====
-- What the endpoints report behind a round of the jobs.
use golibs.Prelude.{
  ℕ, suc, ◌<◌, ◌==◌, Option, none, some, List, [], ◌∷◌, ◌++◌, ◌≡◌, refl, sym, ap, ap₂, ◌∙◌, arith,
  nat_key, length, if◌then◌else◌, Option-cases, inl, inr,
}
use golibs.Store.{Store}
use golibs.Store.Options.{nil}
use golibs.Store.Spec.{put, Implements}
use golibs.Health.{
  Job, JobResult, Turn, cached_or, fetch_from, fetch_job_results, store_from, run_round, run_any,
  run_job, to_job_result,
}

abbrev result_or : Job → Option JobResult → JobResult
result_or j none = to_job_result j
result_or j (some r) = r

-- The map behind a round, and what a fetch reads from a map.
put_all : ℕ → List JobResult → (ℕ → Option JobResult) → ℕ → Option JobResult
put_all i [] m = m
put_all i (r ∷ rs) m = put_all (suc i) rs (put i r m)

readings : ℕ → List Job → (ℕ → Option JobResult) → List JobResult
readings i [] m = []
readings i (j ∷ js) m = result_or j (m i) ∷ readings (suc i) js m

put_all-before :
    (i k : ℕ) (rs : List JobResult) (m : ℕ → Option JobResult) → k < i → put_all i rs m k ≡ m k
unfolding put_all
put_all-before i k [] m h = refl
put_all-before i k (r ∷ rs) m h =
    put_all-before (suc i) k rs (put i r m) (omega (arith, h)) ∙ ground (arith, h)

readings-put_all :
    (i : ℕ) (js : List Job) (front back : List JobResult) (m : ℕ → Option JobResult)
    → length js ≡ length front
    → readings i js (put_all i (front ++ back) m) ≡ front
unfolding put_all readings
readings-put_all i [] [] back m h = refl
readings-put_all i [] (r ∷ front) back m h = let never : ⊥ = omega (arith, h) in absurd never
readings-put_all i (j ∷ js) [] back m h = let never : ⊥ = omega (arith, h) in absurd never
readings-put_all i (j ∷ js) (r ∷ front) back m h =
    let e : put i r m i ≡ some r = ground arith in
    ap₂ ◌∷◌
      (ap (result_or j) (put_all-before (suc i) i (front ++ back) (put i r m) (omega arith) ∙ e))
      (readings-put_all (suc i) js front back (put i r m) (omega (arith, h)))

run_any-append :
    (front back : List (Job × Turn)) → run_any (front ++ back) ≡ run_any front ++ run_any back
unfolding run_any
run_any-append [] back = refl
run_any-append ((j, t) ∷ front) back =
    ap (◌∷◌ (run_job t.start t.now t.ending j)) (run_any-append front back)

length-run_any : (jobs : List (Job × Turn)) → length (run_any jobs) ≡ length jobs
unfolding run_any
length-run_any [] = refl
length-run_any ((j, t) ∷ jobs) = ap suc (length-run_any jobs)

module _ {S : Type 0} (Inv : S → Type 0) (view : S → ℕ → Option JobResult)
    (cache : Store S ℕ JobResult) (good : Implements Inv view cache) where
  -- The cache shows a map.
  pub record Holds (m : ℕ → Option JobResult) (s : S) : Type 0 where
    pub valid : Inv s
    pub shown : (k : ℕ) → view s k ≡ m k

  store_from-Holds :
      (i : ℕ) (rs : List JobResult) (m : ℕ → Option JobResult) (s : S)
      → Holds m s
      → Holds (put_all i rs m) (store_from cache i rs s)
  unfolding store_from put_all
  store_from-Holds i [] m s h = h
  store_from-Holds i (r ∷ rs) m s h =
      let g = good.applies i r s h.valid in
      store_from-Holds (suc i) rs (put i r m) (cache.apply i r nil s).1 (record {
        valid = g.valid;
        shown = λ k. g.holds k ∙ ap (λ x. if i == k then some r else x) (h.shown k);
      })

  read-Holds :
      (i : ℕ) (j : Job) (m : ℕ → Option JobResult) (s : S)
      → Holds m s
      → (cached_or cache j (cache.read i nil s).0 ≡ result_or j (m i))
        × Holds m (cache.read i nil s).1
  read-Holds i j m s h = elim (Option-cases (view s i)) [
    | inl e ↦
        let g = rw e at (good.reads i s h.valid) in
        (
          ap (cached_or cache j) g.result ∙ ap (result_or j) (sym e ∙ h.shown i),
          record { valid = g.valid; shown = λ k. g.holds k ∙ h.shown k },
        )
    | inr (x, e) ↦
        let g = rw e at (good.reads i s h.valid) in
        (
          ap (cached_or cache j) g.result ∙ ap (result_or j) (sym e ∙ h.shown i),
          record { valid = g.valid; shown = λ k. g.holds k ∙ h.shown k },
        )
  ]

  fetch_from-readings :
      (i : ℕ) (js : List Job) (m : ℕ → Option JobResult) (s : S)
      → Holds m s
      → (fetch_from cache i js s).0 ≡ readings i js m
  unfolding fetch_from readings
  fetch_from-readings i [] m s h = refl
  fetch_from-readings i (j ∷ js) m s h =
      let p = read-Holds i j m s h in
      ap₂ ◌∷◌ p.0 (fetch_from-readings (suc i) js m (cache.read i nil s).1 p.1)

  -- Over a cache that implements a map, and behind a round of all jobs: a fetch for some jobs reports
  -- the results of as many jobs from the front of the round, in its order, and whichever jobs were
  -- asked for. It reports the results of the jobs that were asked for where these are all jobs.
  pub fetch_job_results-round :
      (front back : List (Job × Turn)) (jobs : List Job) (s : S)
      → Inv s
      → length jobs ≡ length front
      → (fetch_job_results cache jobs (run_round cache (front ++ back) s)).0 ≡ run_any front
  unfolding fetch_job_results run_round
  fetch_job_results-round front back jobs s i h =
      let start : Holds (view s) s = record { valid = i; shown = λ k. refl } in
      fetch_from-readings 0 jobs _ _ (store_from-Holds 0 (run_any (front ++ back)) (view s) s start)
      ∙ ap (λ x. readings 0 jobs (put_all 0 x (view s))) (run_any-append front back)
      ∙ readings-put_all 0 jobs (run_any front) (run_any back) (view s)
          (h ∙ sym (length-run_any front))
