-- ===== src/Http/Retrier/Attempts.antt =====
-- What a response without an error says of the attempts.
use golibs.Prelude.{
  ℕ, ◌<◌, true, false, Option, none, some, ◌≡◌, ◌⊎◌, refl, sym, ap, subst, if◌then◌else◌, is_some,
  Option-cases, inl, inr,
}
use golibs.Errors.{Error}
use golibs.Exec.{Result, ok, err}
use golibs.Http.{Data, Request, Endpoint}
use golibs.Retry.{Outcome}
use golibs.Retry.Bounds.{on_error-ends}
use golibs.Retry.Success.{Succeeds, on_error-Succeeds}
use golibs.Workflow.{Waiting}
use golibs.Http.Retrier.{
  Retrier, try_request, ended, retried, cloned, new_cloned_request, retrier_tripperware,
}

abbrev with_err : {W : Type 0} → Data W → Option Error → Data W
with_err x e = if is_some x.error then x else record x { error = e }

with_err-none : {W : Type 0} (x : Data W) → with_err x none ≡ x
with_err-none x = elim (Option-cases x.error) [
  | inl e ↦
      subst (λ y. (if is_some y then x else record x { error = none }) ≡ x) (sym e)
        (ap (λ y. record x { error = y }) (sym e))
  | inr (a, e) ↦ subst (λ y. (if is_some y then x else record x { error = none }) ≡ x) (sym e) refl
]

with_err-some : {W : Type 0} (x : Data W) (b : Error) → is_some (with_err x (some b)).error ≡ true
with_err-some x b = elim (Option-cases x.error) [
  | inl e ↦
      subst (λ y. is_some (if is_some y then x else record x { error = some b }).error ≡ true)
        (sym e) refl
  | inr (a, e) ↦
      subst (λ y. is_some (if is_some y then x else record x { error = some b }).error ≡ true)
        (sym e) (ap is_some e)
]

-- A response has an error, or it is what the last attempt led to.
abbrev pub Settled : {S W : Type 0} → (S × Option (Data W) → Type 0) → Option (Data W) → S → Type 0
Settled P none t = Unit
Settled P (some d) t = (is_some d.error ≡ true) ⊎ P (t, some d)

ended-Settled :
    {S W : Type 0} (P : S × Option (Data W) → Type 0) (o : Outcome × (S × Option (Data W)))
    → is_some o.0 ≡ true
    → (o.0 ≡ some none → P o.1)
    → (resp : Option (Data W)) × (t : S) × (ended o ≡ (some resp, t)) × Settled P resp t
ended-Settled P (none, (u, x)) h p = let never : ⊥ = cc h in absurd never
ended-Settled P (some e, (u, none)) h p = (none, u, refl, tt)
ended-Settled P (some none, (u, some x)) h p = (
  some (with_err x none),
  u,
  refl,
  inr (subst (λ y. P (u, some y)) (sym (with_err-none x)) (p refl)),
)
ended-Settled P (some (some e), (u, some x)) h p =
    (some (with_err x (some e)), u, refl, inl (with_err-some x e))

module _ {S W B : Type 0} (read_all : W → Result W) (next : Endpoint S W) (w : Waiting B)
    (r : Retrier B) (before during : ℕ → Option Error) where
  -- How a call ends whose request has been cloned, or could not be.
  abbrev pub Answers : S → Result (Request W) → Option (Option (Data W)) × S → Type 0
  Answers s (err e) x = x ≡ (some (some (record { raw = none; status = 0; error = some e })), s)
  Answers s (ok clone) x =
      (resp : Option (Data W)) × (t : S) × (x ≡ (some resp, t))
      × Settled (Succeeds (λ u. r.retryable_error) (try_request next clone) (s, none)) resp t

  answers :
      r.run_forever ≡ false
      → w.steps r.backoff < r.rounds
      → (clone : Result (Request W)) (s : S)
      → Answers s clone (cloned read_all next w r before during clone s)
  unfolding retried
  answers once enough (err e) s = refl
  answers once enough (ok clone) s =
      ended-Settled (Succeeds (λ u. r.retryable_error) (try_request next clone) (s, none))
        (retried next clone w r before during s)
        (on_error-ends w.steps w.step before during w.wait_timeout w.counts_down w.is_interrupted
          (λ u. r.retryable_error) (try_request next clone) r.rounds r.run_forever r.backoff
          (s, none) once enough)
        (on_error-Succeeds w.steps w.step r.run_forever before during w.wait_timeout
          (λ u. r.retryable_error) (try_request next clone) w.is_interrupted r.rounds r.backoff
          (s, none))

-- Where the backoff does not run forever, has fewer steps than there are rounds, and a call of Step
-- takes at least one from them, if there is one: whatever the selects find of the context, the
-- tripperware ends with a response or nil. A request whose body cannot be read gets that error in the
-- response, and nothing is sent. Otherwise a response whose Err is nil is the one that came back from
-- an attempt that succeeded, and all attempts before it failed with an error that is worth a retry.
pub retrier_tripperware-Succeeds :
    {S W B : Type 0} (read_all : W → Result W) (next : Endpoint S W) (w : Waiting B) (r : Retrier B)
    (before during : ℕ → Option Error) (request : Request W) (s : S)
    → r.run_forever ≡ false
    → w.steps r.backoff < r.rounds
    → Answers read_all next w r before during s
        (new_cloned_request read_all request)
        (retrier_tripperware read_all next w r before during request s)
unfolding retrier_tripperware
retrier_tripperware-Succeeds read_all next w r before during request s once enough =
    answers read_all next w r before during once enough (new_cloned_request read_all request) s
