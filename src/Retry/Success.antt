-- ===== src/Retry/Success.antt =====
-- What it means that OnError returns nil.
use golibs.Prelude.{
  ℕ, zero, suc, Bool, true, false, Option, none, some, ◌≡◌, refl, sym, ap, subst, ◌∙◌, arith,
  if◌then◌else◌, Option-cases, Bool-cases, inl, inr, ◌⊎◌,
}
use golibs.Errors.{Error}
use golibs.Retry.{
  Verdict, finished, retry_later, broken, Outcome, unless, on_verdict, over, exponential_backoff,
  attempt, or_last, on_error,
}

-- The state after some attempts that fail with an error that is worth a retry.
pub data Failures {S : Type 0} (retriable : S → Error → Bool) (fn : S → Option Error × S)
    : S → S → Type 0 where
  none_yet : (s : S) → Failures retriable fn s s
  again :
      (s t : S) (e : Error)
      → (fn s).0 ≡ some e
      → retriable (fn s).1 e ≡ true
      → Failures retriable fn (fn s).1 t
      → Failures retriable fn s t

module _ {S : Type 0} (retriable : S → Error → Bool) (fn : S → Option Error × S) where
  -- The last attempt from `s` on succeeded, and led to `final`.
  abbrev pub Succeeds : S → S → Type 0
  Succeeds s final = (t : S) × Failures retriable fn s t × ((fn t).0 ≡ none) × (final ≡ (fn t).1)

module _ {S : Type 0} where
  unless-nil :
      (e : Option Error) (s : S) (r : Outcome × S) → (unless e s r).0 ≡ some none → unless e s r ≡ r
  unless-nil none s r h = refl
  unless-nil (some e) s r h = cc

  if-nil :
      (b : Bool) (e : Error) (s : S) (r : Outcome × S)
      → (if b then (some (some e), s) else r).0 ≡ some none
      → (if b then (some (some e), s) else r) ≡ r
  if-nil true e s r h = cc
  if-nil false e s r h = refl

  on_verdict-nil :
      (v : Verdict × S) (r : Outcome × S)
      → (on_verdict v r).0 ≡ some none
      → ((v.0 ≡ finished) × (on_verdict v r ≡ (some none, v.1)))
        ⊎ ((v.0 ≡ retry_later) × (on_verdict v r ≡ r))
  on_verdict-nil (finished, s) r h = inl (refl, refl)
  on_verdict-nil (broken e, s) r h = cc
  on_verdict-nil (retry_later, s) r h = inr (refl, refl)

  module _ (retriable : S → Error → Bool) (fn : S → Option Error × S) where
    attempt-finished :
        (s : S) (last : Option Error)
        → (attempt retriable fn (s, last)).0 ≡ finished
        → ((fn s).0 ≡ none) × ((attempt retriable fn (s, last)).1.0 ≡ (fn s).1)
    unfolding attempt
    attempt-finished s last h = elim (Option-cases (fn s).0) [
      | inl p ↦ (p, rw (attempt, p) refl)
      | inr (e, p) ↦ elim (Bool-cases (retriable (fn s).1 e)) [
        | inl q ↦ let never : retry_later ≡ finished = rw (attempt, p, q) at h in cc never
        | inr q ↦ let never : broken e ≡ finished = rw (attempt, p, q) at h in cc never
      ]
    ]

    attempt-retry_later :
        (s : S) (last : Option Error)
        → (attempt retriable fn (s, last)).0 ≡ retry_later
        → (e : Error) × ((fn s).0 ≡ some e)
          × (retriable (fn s).1 e ≡ true)
          × ((attempt retriable fn (s, last)).1.0 ≡ (fn s).1)
    unfolding attempt
    attempt-retry_later s last h = elim (Option-cases (fn s).0) [
      | inl p ↦ let never : finished ≡ retry_later = rw (attempt, p) at h in cc never
      | inr (e, p) ↦ elim (Bool-cases (retriable (fn s).1 e)) [
        | inl q ↦ (e, p, q, rw (attempt, p, q) refl)
        | inr q ↦ let never : broken e ≡ retry_later = rw (attempt, p, q) at h in cc never
      ]
    ]

module _ {B : Type 0} (steps : B → ℕ) (step : B → B) (run_forever : Bool)
    (before during : ℕ → Option Error) (wait_timeout : Error) {S : Type 0}
    (retriable : S → Error → Bool) (fn : S → Option Error × S) where
  loop-Succeeds :
      (fuel i : ℕ) (b : B) (s : S) (last : Option Error)
      → let r =
          exponential_backoff steps step run_forever before during wait_timeout fuel i b
            (attempt retriable fn)
            (s, last) in
        r.0 ≡ some none → Succeeds retriable fn s r.1.0
  unfolding exponential_backoff
  loop-Succeeds zero i b s last h = cc
  loop-Succeeds (suc fuel) i b s last h =
      let o0 = over steps step run_forever before during wait_timeout 0 b in
      let e0 = if-nil o0 wait_timeout (s, last) _ h in
      let h1 = sym (ap (λ x. x.0) e0) ∙ h in
      let e1 = unless-nil (before i) (s, last) _ h1 in
      let h2 = sym (ap (λ x. x.0) e1) ∙ h1 in
      let v = attempt retriable fn (s, last) in
      elim (on_verdict-nil v _ h2) [
        | inl (f, e2) ↦
            let a = attempt-finished retriable fn s last f in
            (s, none_yet s, a.0, ap (λ x. x.1.0) (e0 ∙ e1 ∙ e2) ∙ a.1)
        | inr (f, e2) ↦
            let a = attempt-retry_later retriable fn s last f in
            let h3 = sym (ap (λ x. x.0) e2) ∙ h2 in
            let e3 =
              if-nil (over steps step run_forever before during wait_timeout 1 b) wait_timeout v.1 _
                h3 in
            let h4 = sym (ap (λ x. x.0) e3) ∙ h3 in
            let e4 = unless-nil (during i) v.1 _ h4 in
            let c = loop-Succeeds fuel (suc i) (step b) v.1.0 v.1.1 (sym (ap (λ x. x.0) e4) ∙ h4) in
            (
              c.0,
              again s c.0 a.0 a.1 a.2 (subst (λ x. Failures retriable fn x c.0) a.3 c.1),
              c.2,
              ap (λ x. x.1.0) (e0 ∙ e1 ∙ e2 ∙ e3 ∙ e4) ∙ c.3,
            )
      ]

  module _ (is_interrupted : Error → Bool) where
    or_last-nil :
        (last : Option Error) (x : Outcome)
        → or_last is_interrupted last x ≡ some none
        → x ≡ some none
    or_last-nil last none h = cc
    or_last-nil last (some none) h = refl
    or_last-nil none (some (some e)) h = ground arith
    or_last-nil (some d) (some (some e)) h = ground arith

    -- Where OnError returns nil, the function that it was given has succeeded, in the state that
    -- some attempts left which all failed with an error that is worth a retry, and the function
    -- was not called again after that.
    pub on_error-Succeeds :
        (fuel : ℕ) (b : B) (s : S)
        → let r =
            on_error steps step run_forever before during wait_timeout is_interrupted fuel b
              retriable fn s in
          r.0 ≡ some none → Succeeds retriable fn s r.1
    unfolding on_error
    on_error-Succeeds fuel b s h = loop-Succeeds fuel 0 b s none (or_last-nil _ _ h)
