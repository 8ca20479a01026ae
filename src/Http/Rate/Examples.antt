-- ===== src/Http/Rate/Examples.antt =====
-- The theorem on limited requests, at two hosts.
use golibs.Prelude.{
  ℕ, suc, ◌-◌, ◌==◌, none, some, List, [], ◌∷◌, ◌≡◌, refl, Bytes, codes, if◌then◌else◌,
}
use golibs.Errors.{sentinel, wait_timeout}
use golibs.Exec.{ok}
use golibs.Http.{Request, Endpoint, get}
use golibs.Http.Rate.{
  Limiters, RateLimitSettings, default_settings, fresh, forward, rate_tripperware,
}
use golibs.Http.Rate.Hosts.{behind, waits, moments_at, rate_tripperware-alone}

-- A limiter that lets as many requests through as its burst. The host is the whole URL.
abbrev counting : Limiters ℕ ℕ
counting = record {
  new_limiter = λ interval burst. burst;
  wait = λ now n. (if n == 0 then some (sentinel wait_timeout) else none, n - 1);
  host = λ url. ok url;
}

abbrev settings : RateLimitSettings
settings = record default_settings {
  endpoints = (codes "a", record { interval = 1; burst = 1 }) ∷ [];
}

abbrev to : Bytes → Request ℕ
to url = record { method = get; url = url; raw_query = []; body = none }

abbrev counted : Endpoint ℕ ℕ
counted r n = (record { raw = some n; status = 200; error = none }, suc n)

-- The last one first.
abbrev earlier : List (ℕ × Request ℕ)
earlier = (2, to (codes "b")) ∷ (1, to (codes "a")) ∷ []

rate_tripperware-alone_example :
    let before = behind counting settings counted earlier 0 in
    let own =
      waits counting
        (moments_at counting (codes "a") earlier)
        (fresh counting settings (codes "a")) in
    let answer = forward counted (to (codes "a")) (counting.wait 3 own).0 before.1 in
    let now = rate_tripperware counting settings counted 3 (to (codes "a")) before in
    (now.0 ≡ answer.0) × (now.1.1 ≡ answer.1)
rate_tripperware-alone_example =
    rate_tripperware-alone counting settings counted (codes "a") 3 (to (codes "a")) earlier 0 refl
