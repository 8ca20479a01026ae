-- ===== src/Http/Rate/Hosts.antt =====
-- The limiters of several hosts, and the waits of the requests to each.
use golibs.Prelude.{
  Bool, true, false, Option, none, some, List, [], ◌∷◌, Bytes, ◌≡◌, refl, if◌then◌else◌, bytes_eqb,
  bytes_key, bytes_eqb_iff,
}
use golibs.Exec.{Result, ok, err}
use golibs.Http.{Request, Endpoint}
use golibs.GoMap.{GoMap, lookup}
use golibs.GoMap.Laws.{lookup-store}
use golibs.Http.Rate.{
  Limiters, RateLimitSettings, fresh, forward, get_rate_limit_with_settings, pooled_or_new,
  limited_at, rate_tripperware,
}

abbrev host_is : Bytes → Result Bytes → Bool
host_is h (ok j) = bytes_eqb j h
host_is h (err e) = false

module _ {M L W : Type 0} (ls : Limiters M L) where
  -- The moments of the requests that go to a host.
  unfoldable pub moments_at : Bytes → List (M × Request W) → List M
  moments_at h [] = []
  moments_at h ((m, r) ∷ rs) =
      let rest = moments_at h rs in if host_is h (ls.host r.url) then m ∷ rest else rest

module _ {M L : Type 0} (ls : Limiters M L) where
  -- A limiter behind waits at some moments, the last one first.
  unfoldable pub waits : List M → L → L
  waits [] l = l
  waits (m ∷ ms) l = (ls.wait m (waits ms l)).1

module _ {M L S W : Type 0} (ls : Limiters M L) (settings : RateLimitSettings)
    (next : Endpoint S W) where
  -- The pool and the state behind requests, the last one first.
  unfoldable pub behind : List (M × Request W) → S → GoMap Bytes L × S
  behind [] s = ([], s)
  behind ((m, r) ∷ rs) s = (rate_tripperware ls settings next m r (behind rs s)).1

module _ {M L : Type 0} (ls : Limiters M L) (settings : RateLimitSettings) where
  abbrev pooled : List M → Bytes → Option L
  pooled [] h = none
  pooled (m ∷ ms) h = some (waits ls (m ∷ ms) (fresh ls settings h))

  gets-waits :
      (ms : List M) (h : Bytes) (pool : GoMap Bytes L)
      → lookup h pool ≡ pooled ms h
      → (get_rate_limit_with_settings ls settings h pool).0 ≡ waits ls ms (fresh ls settings h)
  unfolding get_rate_limit_with_settings waits
  gets-waits [] h pool at = rw at refl
  gets-waits (m ∷ ms) h pool at = rw at refl

  new-others :
      (j h : Bytes) (l : Option L) (pool : GoMap Bytes L)
      → bytes_eqb j h ≡ false
      → lookup h (pooled_or_new ls settings j l pool).1 ≡ lookup h pool
  new-others j h (some l) pool other = refl
  new-others j h none pool other = rw (lookup-store j h (fresh ls settings j) pool, other) refl

  gets-others :
      (j h : Bytes) (pool : GoMap Bytes L)
      → bytes_eqb j h ≡ false
      → lookup h (get_rate_limit_with_settings ls settings j pool).1 ≡ lookup h pool
  unfolding get_rate_limit_with_settings
  gets-others j h pool = new-others j h (lookup j pool) pool

module _ {M L S W : Type 0} (ls : Limiters M L) (settings : RateLimitSettings)
    (next : Endpoint S W) where
  stored :
      (ms : List M) (h j : Bytes) (b : Bool) (m : M) (r : Request W) (w : GoMap Bytes L × S)
      → bytes_eqb j h ≡ b
      → lookup h w.0 ≡ pooled ls settings ms h
      → lookup h (limited_at ls settings next (ok j) m r w).1.0
        ≡ pooled ls settings (if b then m ∷ ms else ms) h
  unfolding waits
  stored ms h j false m r w other at =
      let got = get_rate_limit_with_settings ls settings j w.0 in
      rw (lookup-store j h (ls.wait m got.0).1 got.1, other, gets-others ls settings j h w.0 other)
        at
  stored ms h j true m r w same at =
      let got = get_rate_limit_with_settings ls settings j w.0 in
      rw
        (
          lookup-store j h (ls.wait m got.0).1 got.1,
          same,
          (bytes_eqb_iff j h).0 same,
          gets-waits ls settings ms h w.0 at,
        )
        refl

  tracked_at :
      (ms : List M) (h : Bytes) (at : Result Bytes) (m : M) (r : Request W) (w : GoMap Bytes L × S)
      → lookup h w.0 ≡ pooled ls settings ms h
      → lookup h (limited_at ls settings next at m r w).1.0
        ≡ pooled ls settings (if host_is h at then m ∷ ms else ms) h
  tracked_at ms h (err e) m r w at = at
  tracked_at ms h (ok j) m r w at = stored ms h j (bytes_eqb j h) m r w refl at

  tracked :
      (h : Bytes) (rs : List (M × Request W)) (s : S)
      → lookup h (behind ls settings next rs s).0 ≡ pooled ls settings (moments_at ls h rs) h
  unfolding behind moments_at rate_tripperware lookup
  tracked h [] s = refl
  tracked h ((m, r) ∷ rs) s =
      tracked_at (moments_at ls h rs) h (ls.host r.url) m r (behind ls settings next rs s)
        (tracked h rs s)

  -- Whatever requests came before, a request to a host waits on the limiter of that host as it is
  -- behind the waits of the earlier requests to the same host, each at its moment, and goes on if Wait does not fail; the
  -- earlier requests to other hosts do not matter to the limiter.
  pub rate_tripperware-alone :
      (h : Bytes) (m : M) (r : Request W) (rs : List (M × Request W)) (s : S)
      → ls.host r.url ≡ ok h
      → let before = behind ls settings next rs s in
        let own = waits ls (moments_at ls h rs) (fresh ls settings h) in
        let answer = forward next r (ls.wait m own).0 before.1 in
        let now = rate_tripperware ls settings next m r before in
        (now.0 ≡ answer.0) × (now.1.1 ≡ answer.1)
  unfolding rate_tripperware
  rate_tripperware-alone h m r rs s at =
      let pool = (behind ls settings next rs s).0 in
      rw (at, gets-waits ls settings (moments_at ls h rs) h pool (tracked h rs s)) (refl, refl)
