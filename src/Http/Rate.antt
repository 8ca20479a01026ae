-- ===== src/Http/Rate.antt =====
-- pkg/http/tripperware/rate.go: a limiter for each host that requests go to. A limiter is a value of
-- golang.org/x/time/rate, with its operations in a record; the pool holds the limiters as they are now.
mod Hosts
mod Examples
use golibs.Prelude.{ℕ, Option, none, some, [], Bytes, bytes_key}
use golibs.Errors.{Error}
use golibs.Exec.{Result, ok, err}
use golibs.Http.{Data, Request, Endpoint}
use golibs.GoMap.{GoMap, lookup, store}

-- The interval of an endpoint, in nanoseconds, and its burst; negative ones are left out.
pub record Limit : Type 0 where
  pub interval : ℕ
  pub burst : ℕ

pub record RateLimitSettings : Type 0 where
  pub endpoints : GoMap Bytes Limit
  pub default_interval : ℕ
  pub default_burst : ℕ

-- The settings of NewRateLimiter.
abbrev pub default_settings : RateLimitSettings
default_settings = record { endpoints = []; default_interval = 50000000; default_burst = 10 }

-- `M` is the moment of a call, with its context. rate.NewLimiter, which rate.Every gives its limit, and Wait; `host` is url.Parse with the host it finds.
pub record Limiters (M L : Type 0) : Type 0 where
  pub new_limiter : ℕ → ℕ → L
  pub wait : M → L → Option Error × L
  pub host : Bytes → Result Bytes

module _ {M L : Type 0} (ls : Limiters M L) (settings : RateLimitSettings) where
  abbrev limiter_of : Option Limit → L
  limiter_of (some l) = ls.new_limiter l.interval l.burst
  limiter_of none = ls.new_limiter settings.default_interval settings.default_burst

  -- The limiter that a host starts with.
  unfoldable pub fresh : Bytes → L
  fresh name = limiter_of (lookup name settings.endpoints)

  abbrev pub pooled_or_new : Bytes → Option L → GoMap Bytes L → L × GoMap Bytes L
  pooled_or_new name (some l) pool = (l, pool)
  pooled_or_new name none pool = (fresh name, store name (fresh name) pool)

  -- GetRateLimitWithSettings
  unfoldable pub get_rate_limit_with_settings : Bytes → GoMap Bytes L → L × GoMap Bytes L
  get_rate_limit_with_settings name pool = pooled_or_new name (lookup name pool) pool

abbrev pub failed_with : {W : Type 0} → Error → Data W
failed_with e = record { raw = none; status = 0; error = some e }

module _ {S W : Type 0} where
  -- The request behind a limiter that has let it wait.
  unfoldable pub forward : Endpoint S W → Request W → Option Error → S → Data W × S
  forward next r (some e) s = (failed_with e, s)
  forward next r none s = next r s

module _ {M L S W : Type 0} (ls : Limiters M L) (settings : RateLimitSettings)
    (next : Endpoint S W) where
  -- What Wait makes of a limiter is in the pool afterwards, as the pool holds pointers.
  abbrev limited : Bytes → M → Request W → L × GoMap Bytes L → S → Data W × (GoMap Bytes L × S)
  limited name m r (l, pool) s =
      let waited = ls.wait m l in
      let answer = forward next r waited.0 s in (answer.0, (store name waited.1 pool, answer.1))

  abbrev pub limited_at :
      Result Bytes → M → Request W → GoMap Bytes L × S → Data W × (GoMap Bytes L × S)
  limited_at (err e) m r w = (failed_with e, w)
  limited_at (ok name) m r w =
      limited name m r (get_rate_limit_with_settings ls settings name w.0) w.1

  -- Tripperware
  unfoldable pub rate_tripperware : M → Endpoint (GoMap Bytes L × S) W
  unfolding get_rate_limit_with_settings
  rate_tripperware m r w = limited_at (ls.host r.url) m r w
