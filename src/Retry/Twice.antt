-- ===== src/Retry/Twice.antt =====
-- OnError with a function that succeeds at once, and with one that fails twice.
use golibs.Prelude.{ℕ, suc, ◌==◌, Bool, true, false, Option, none, some, ◌≡◌, refl, arith}
use golibs.Errors.{Error}
use golibs.Retry.{finished, retry_later, on_error, attempt, exponential_backoff}

suc_not_zero : (n : ℕ) → (suc n == 0) ≡ false
suc_not_zero n = ground arith

module _ {S : Type 0} (retriable : S → Error → Bool) (fn : S → Option Error × S) where
  attempt-nil :
      (s : S) (last : Option Error)
      → (fn s).0 ≡ none
      → attempt retriable fn (s, last) ≡ (finished, ((fn s).1, last))
  unfolding attempt
  attempt-nil s last e = rw (attempt, e) refl

  attempt-error :
      (s : S) (last : Option Error) (e : Error)
      → (fn s).0 ≡ some e
      → retriable (fn s).1 e ≡ true
      → attempt retriable fn (s, last) ≡ (retry_later, ((fn s).1, some e))
  unfolding attempt
  attempt-error s last e p r = rw (attempt, p, r) refl

  module _ {B : Type 0} (steps : B → ℕ) (step : B → B) (wait_timeout : Error)
      (is_interrupted : Error → Bool) where
    abbrev alive : ℕ → Option Error
    alive i = none

    -- A function that succeeds at once runs once, if there is a step for it.
    pub on_error-once :
        (forever : Bool) (n m : ℕ) (b : B) (s : S)
        → steps b ≡ suc n
        → (fn s).0 ≡ none
        → on_error steps step forever alive alive wait_timeout is_interrupted
            (suc m)
            b
            retriable
            fn
            s
          ≡ (some none, (fn s).1)
    unfolding on_error exponential_backoff
    on_error-once forever n m b s h e = rw (h, suc_not_zero n, attempt-nil s none e) refl

    -- With two steps, a function that fails twice, with errors that are worth a retry, runs twice,
    -- and its second error is the result.
    pub on_error-twice :
        (m : ℕ) (b : B) (s : S) (e d : Error)
        → steps b ≡ 2
        → steps (step b) ≡ 1
        → is_interrupted wait_timeout ≡ true
        → (fn s).0 ≡ some e
        → (fn (fn s).1).0 ≡ some d
        → retriable (fn s).1 e ≡ true
        → retriable (fn (fn s).1).1 d ≡ true
        → on_error steps step false alive alive wait_timeout is_interrupted
            (suc (suc m))
            b
            retriable
            fn
            s
          ≡ (some (some d), (fn (fn s).1).1)
    unfolding on_error exponential_backoff
    on_error-twice m b s e d h k i p q r t =
        rw (h, k, attempt-error s none e p r, attempt-error (fn s).1 (some e) d q t, i) refl
