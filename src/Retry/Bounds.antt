-- ===== src/Retry/Bounds.antt =====
-- How long the loop goes on.
use golibs.Prelude.{
  ℕ, zero, suc, ◌+◌, ◌-◌, ◌≤◌, ◌<◌, Bool, true, false, not, ◌&&◌, Option, none, some, ◌≡◌, refl,
  arith, ◌==◌, if◌then◌else◌, is_some,
}
use golibs.Errors.{Error}
use golibs.Retry.{
  Verdict, finished, retry_later, broken, Outcome, unless, on_verdict, over, exponential_backoff,
  or_last, on_error, attempt,
}

module _ {S : Type 0} where
  unless-is_some :
      (e : Option Error) (s : S) (r : Outcome × S)
      → is_some r.0 ≡ true
      → is_some (unless e s r).0 ≡ true
  unless-is_some none s r h = h
  unless-is_some (some e) s r h = refl

  on_verdict-is_some :
      (v : Verdict × S) (r : Outcome × S) → is_some r.0 ≡ true → is_some (on_verdict v r).0 ≡ true
  on_verdict-is_some (finished, s) r h = refl
  on_verdict-is_some (broken e, s) r h = refl
  on_verdict-is_some (retry_later, s) r h = h

  if-is_some :
      (b : Bool) (x y : Outcome × S)
      → is_some x.0 ≡ true
      → (b ≡ false → is_some y.0 ≡ true)
      → is_some (if b then x else y).0 ≡ true
  if-is_some true x y h k = h
  if-is_some false x y h k = k refl

-- A condition that also counts how often it is called.
abbrev pub counted : {S : Type 0} → (S → Verdict × S) → ℕ × S → Verdict × (ℕ × S)
counted condition (n, s) = let r = condition s in (r.0, (suc n, r.1))

nonzero : (m : ℕ) → ((m == 0) && not false) ≡ false → 1 ≤ m
nonzero m h = ground arith

-- The state carries a number that is at most n.
module _ {S : Type 0} (n : ℕ) where
  unless-bound :
      (e : Option Error) (s : ℕ × S) (r : Outcome × (ℕ × S))
      → s.0 ≤ n
      → r.1.0 ≤ n
      → (unless e s r).1.0 ≤ n
  unless-bound none s r h k = k
  unless-bound (some e) s r h k = h

  on_verdict-bound :
      (v : Verdict × (ℕ × S)) (r : Outcome × (ℕ × S))
      → v.1.0 ≤ n
      → r.1.0 ≤ n
      → (on_verdict v r).1.0 ≤ n
  on_verdict-bound (finished, s) r h k = h
  on_verdict-bound (broken e, s) r h k = h
  on_verdict-bound (retry_later, s) r h k = k

  if-bound :
      (b : Bool) (x y : Outcome × (ℕ × S))
      → x.1.0 ≤ n
      → (b ≡ false → y.1.0 ≤ n)
      → (if b then x else y).1.0 ≤ n
  if-bound true x y h k = h
  if-bound false x y h k = k refl

or_last-is_some :
    (f : Error → Bool) (last : Option Error) (x : Outcome)
    → is_some x ≡ true
    → is_some (or_last f last x) ≡ true
or_last-is_some f last none h = h
or_last-is_some f last (some none) h = refl
or_last-is_some f none (some (some e)) h = ground arith
or_last-is_some f (some d) (some (some e)) h = ground arith

module _ {B : Type 0} (steps : B → ℕ) (step : B → B) (before during : ℕ → Option Error)
    (wait_timeout : Error) (counts_down : (b : B) → steps (step b) ≤ steps b - 1) where
  -- Where each Step takes at least one from Steps, if there is one, and the backoff does not run forever: the loop ends, and
  -- it does so within as many rounds as there are steps, whatever the condition and the context do.
  pub exponential_backoff-ends :
      {S : Type 0} (fuel i : ℕ) (b : B) (condition : S → Verdict × S) (s : S)
      → steps b < fuel
      → is_some
          (exponential_backoff steps step false before during wait_timeout fuel i b condition s).0
        ≡ true
  unfolding exponential_backoff
  exponential_backoff-ends zero i b c s h = let never : ⊥ = omega (arith, h) in absurd never
  exponential_backoff-ends (suc fuel) i b c s h =
      if-is_some (over steps step false before during wait_timeout 0 b) _ _ refl (λ p.
        unless-is_some (before i) s _ (
          on_verdict-is_some (c s) _ (
            if-is_some (over steps step false before during wait_timeout 1 b) _ _ refl (λ q.
              unless-is_some (during i) _ _ (
                exponential_backoff-ends fuel (suc i) (step b) c _
                  (omega (arith, counts_down b, nonzero (steps b) p, h)))))))

  -- Where each Step takes at least one from Steps, if there is one, and the backoff does not run forever, the condition is
  -- called no more often than there are steps.
  pub exponential_backoff-attempts :
      {S : Type 0} (fuel i : ℕ) (b : B) (condition : S → Verdict × S) (n : ℕ) (s : S)
      → (exponential_backoff steps step false before during wait_timeout fuel i b
          (counted condition)
          (n, s)).1.0
        ≤ n + steps b
  unfolding exponential_backoff
  exponential_backoff-attempts zero i b c n s = omega arith
  exponential_backoff-attempts (suc fuel) i b c n s =
      let m : ℕ = n + steps b in
      if-bound m (over steps step false before during wait_timeout 0 b) _ _ (omega arith) (λ p.
        let positive : suc n ≤ m = omega (arith, nonzero (steps b) p) in
        unless-bound m (before i) (n, s) _ (omega arith)
          (on_verdict-bound m (counted c (n, s)) _ positive (
            if-bound m (over steps step false before during wait_timeout 1 b) _ _ positive (λ q.
              unless-bound m (during i) (suc n, (c s).1) _ positive
                (let rest = exponential_backoff-attempts fuel (suc i) (step b) c (suc n) (c s).1 in
                  omega (arith, rest, counts_down b, nonzero (steps b) p))))))

  -- OnError ends too, then.
  pub on_error-ends :
      {S : Type 0} (is_interrupted : Error → Bool) (retriable : S → Error → Bool)
      (fn : S → Option Error × S) (fuel : ℕ) (run_forever : Bool) (b : B) (s : S)
      → run_forever ≡ false
      → steps b < fuel
      → is_some
          (on_error steps step run_forever before during wait_timeout is_interrupted fuel b
            retriable fn s).0
        ≡ true
  unfolding on_error
  on_error-ends is_interrupted retriable fn fuel run_forever b s once enough =
      or_last-is_some is_interrupted _ _
        (rw once (exponential_backoff-ends fuel 0 b (attempt retriable fn) (s, none) enough))
