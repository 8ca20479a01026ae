-- ===== src/Errors/Retryable.antt =====
-- Which errors are worth a retry.
use golibs.Prelude.{ℕ, ◌≡◌, refl, true, false, ◌||◌, some, List, [], ◌∷◌, arith}
use golibs.Errors.{
  Error, http_status, status, sentinel, api_status, wrap, canceled, deadline_exceeded, has_code,
  is_error, is_any, is_transport_retryable, status_or_transport, is_retryable_error,
  retryable_codes,
}

is_any-status : (cs : List ℕ) (c : ℕ) → is_any cs (status c) ≡ has_code cs c
unfolding is_any has_code
is_any-status [] c = refl
is_any-status (d ∷ ds) c = ground (arith, is_any-status ds c)

is_any-wrap : (cs : List ℕ) (e : Error) → is_any cs (wrap e) ≡ is_any cs e
unfolding is_any
is_any-wrap [] e = refl
is_any-wrap (d ∷ ds) e = rw (is_any-wrap ds e)

transport-status : (c : ℕ) → is_transport_retryable (some (status c)) ≡ false
unfolding is_transport_retryable
transport-status c = refl

transport-wrap :
    (e : Error) → is_transport_retryable (some (wrap e)) ≡ is_transport_retryable (some e)
unfolding is_transport_retryable
transport-wrap e = refl

-- Among the HTTP errors exactly 408, 425, 429, 500, 502, 503 and 504 are retried.
pub is_retryable_error-status :
    (c : ℕ) → is_retryable_error (some (status c)) ≡ has_code retryable_codes c
unfolding is_retryable_error
is_retryable_error-status c = ground (arith, is_any-status retryable_codes c, transport-status c)

-- Wrapping an error that is no Kubernetes error changes nothing.
pub status_or_transport-wrap :
    (e : Error) → status_or_transport (some (wrap e)) ≡ status_or_transport (some e)
unfolding status_or_transport
status_or_transport-wrap e = rw (is_any-wrap retryable_codes e, transport-wrap e)

-- No code of an HTTP error is in the chain.
abbrev pub NoStatus : Error → Type 0
NoStatus e = is_error e http_status ≡ false

not_retried :
    (e : Error)
    → NoStatus e
    → (is_error e (sentinel canceled) || is_error e (sentinel deadline_exceeded)) ≡ true
    → status_or_transport (some e) ≡ false
unfolding status_or_transport
not_retried e h k = rw (h, status_or_transport) (rw (k, is_transport_retryable))

no_api :
    (c : ℕ)
    → (is_error (api_status c) (sentinel canceled)
        || is_error (api_status c) (sentinel deadline_exceeded))
      ≡ true
    → ⊥
unfolding is_error
no_api c k = cc

-- An error that carries no HTTP status, and that comes from a context that was canceled or ran out
-- of time, is not retried, whatever timeouts its chain reports.
pub is_retryable_error-canceled :
    (e : Error)
    → NoStatus e
    → (is_error e (sentinel canceled) || is_error e (sentinel deadline_exceeded)) ≡ true
    → is_retryable_error (some e) ≡ false
unfolding is_retryable_error
is_retryable_error-canceled (api_status c) h k = absurd (no_api c k)
is_retryable_error-canceled http_status h k = not_retried http_status h k
is_retryable_error-canceled e h k = not_retried e h k
