-- ===== src/Errors.antt =====
-- pkg/errors/errors.go: error values, `errors.Is` and `errors.As` over their chains, the
-- conversion between HTTP status codes and errors, and which errors are worth a retry.
-- A nil error is `none`. Status codes are the non-negative ones. The maps of `init` are a list of
-- codes; Go visits a map in an order of its choice, which is an argument where it can matter.
pub mod Status
pub mod Retryable
mod Examples
use golibs.Prelude.{
  ℕ, Bool, true, false, ◌||◌, ◌&&◌, not, Option, none, some, List, [], ◌∷◌, ltb, ◌==◌,
  if◌then◌else◌, is_some,
}

-- The errno values that the code tells apart.
pub data Errno : Type 0 where
  econnreset econnaborted econnrefused etimedout ehostunreach enetunreach epipe : Errno
  other_errno : ℕ → Errno

-- What the type tests of `errors.As` find on an error of another package: the results of its
-- methods, where it has them.
pub record Traits : Type 0 where
  pub net_timeout : Option Bool
  pub dns : Option (Bool × Bool)
  pub temporary : Option Bool
  pub errno : Option Errno
  pub url_timeout : Option Bool

pub data Sentinel : Type 0 where
  canceled deadline_exceeded eof unexpected_eof not_exist : Sentinel
  unsupported_option not_serializable key_mismatch rollback_failed wait_timeout : Sentinel

-- `http_status` is ErrHTTPStatus, `status c` the variable of the code c, `invalid n` a message that
-- nothing compares, `api_status c` a Kubernetes StatusError, `wrap` and `join` what `%w` builds.
pub data Error : Type 0 where
  http_status : Error
  status : ℕ → Error
  sentinel : Sentinel → Error
  invalid : ℕ → Error
  foreign : ℕ → Traits → Error
  foreign_wrap : ℕ → Traits → Error → Error
  api_status : ℕ → Error
  wrap : Error → Error
  join : Error → Error → Error

abbrev pub tag : Sentinel → ℕ
tag canceled = 0
tag deadline_exceeded = 1
tag eof = 2
tag unexpected_eof = 3
tag not_exist = 4
tag unsupported_option = 5
tag not_serializable = 6
tag key_mismatch = 7
tag rollback_failed = 8
tag wait_timeout = 9

-- `==` on the variables that serve as targets; a wrapping error is a pointer of its own.
abbrev pub same : Error → Error → Bool
same http_status http_status = true
same (status c) (status d) = c == d
same (sentinel s) (sentinel t) = tag s == tag t
same (invalid m) (invalid n) = m == n
same (foreign m _) (foreign n _) = m == n
same _ _ = false

-- ErrNotSerializable wraps ErrUnsupportedOption.
abbrev wraps : Sentinel → Error → Bool
wraps not_serializable t = same (sentinel unsupported_option) t
wraps _ t = false

-- errors.Is
unfoldable pub is_error : Error → Error → Bool
is_error http_status t = same http_status t
is_error (status c) t = same (status c) t || same http_status t
is_error (sentinel s) t = same (sentinel s) t || wraps s t
is_error (invalid n) t = same (invalid n) t
is_error (foreign n r) t = same (foreign n r) t
is_error (foreign_wrap n r e) t = same (foreign n r) t || is_error e t
is_error (api_status c) t = false
is_error (wrap e) t = is_error e t
is_error (join e f) t = is_error e t || is_error f t

abbrev or_else : {A : Type 0} → Option A → Option A → Option A
or_else none o = o
or_else (some a) o = some a

-- errors.As: the first error of the chain that has the trait.
unfoldable pub as_error : {A : Type 0} → (Traits → Option A) → Error → Option A
as_error f (foreign n r) = f r
as_error f (foreign_wrap n r e) = or_else (f r) (as_error f e)
as_error f (wrap e) = as_error f e
as_error f (join e g) = or_else (as_error f e) (as_error f g)
as_error f _ = none

abbrev pub err_not_found : Error
err_not_found = status 404

abbrev pub err_conflict : Error
err_conflict = status 409

-- The keys of lookupStatusAsErr.
abbrev pub status_codes : List ℕ
status_codes =
    400 ∷ 401 ∷ 402 ∷ 403 ∷ 404 ∷ 405 ∷ 406 ∷ 407 ∷ 408 ∷ 409 ∷ 410 ∷ 425 ∷ 429 ∷ 500 ∷ 501 ∷ 502
    ∷ 423 ∷ 503 ∷ 504 ∷ []

unfoldable pub has_code : List ℕ → ℕ → Bool
has_code [] c = false
has_code (d ∷ ds) c = (c == d) || has_code ds c

-- The API tests of Kubernetes are the arguments `api`.
unfoldable pub is_not_found : (Error → Bool) → Error → Bool
is_not_found api e = if is_error e err_not_found then true else api e

pub is_already_exists : (Error → Bool) → Error → Bool
is_already_exists api e = if is_error e err_conflict then true else api e

unfoldable pub status_code_as_err : ℕ → Option Error
status_code_as_err c =
    if ltb 0 c && ltb c 400
    then none
    else (if has_code status_codes c then some (status c) else some http_status)

-- A Kubernetes error is turned into the error of its code.
unfoldable pub parse_api : Option Error → Option Error
unfolding status_code_as_err
parse_api (some (api_status c)) = status_code_as_err c
parse_api e = e

-- The loop over lookupErrAsStatus, in the order in which the map is visited.
unfoldable pub find_status : List ℕ → Error → ℕ
unfolding is_error
find_status [] e = 500
find_status (c ∷ cs) e = if is_error e (status c) then c else find_status cs e

or_unknown : List ℕ → Option Error → ℕ
unfolding find_status
or_unknown order none = 500
or_unknown order (some e) = find_status order e

unfoldable pub err_as_status_code : List ℕ → Option Error → ℕ
unfolding or_unknown parse_api
err_as_status_code order none = 200
err_as_status_code order (some e) = or_unknown order (parse_api (some e))

unfoldable pub is_any : List ℕ → Error → Bool
unfolding is_error
is_any [] e = false
is_any (c ∷ cs) e = is_error e (status c) || is_any cs e

abbrev pub retryable_codes : List ℕ
retryable_codes = 408 ∷ 425 ∷ 429 ∷ 500 ∷ 502 ∷ 503 ∷ 504 ∷ []

abbrev holds : Option Bool → Bool
holds none = false
holds (some b) = b

abbrev dns_transient : Option (Bool × Bool) → Bool
dns_transient none = false
dns_transient (some (is_temporary, timeout)) = is_temporary || timeout

abbrev errno_transient : Option Errno → Bool
errno_transient none = false
errno_transient (some (other_errno n)) = false
errno_transient (some _) = true

unfoldable pub is_transport_retryable : Option Error → Bool
unfolding is_error as_error
is_transport_retryable none = false
is_transport_retryable (some e) =
    if is_error e (sentinel canceled) || is_error e (sentinel deadline_exceeded)
    then false
    else (if holds (as_error (λ r. r.net_timeout) e)
        then true
        else (if dns_transient (as_error (λ r. r.dns) e)
            then true
            else (if holds (as_error (λ r. r.temporary) e)
                then true
                else (if is_error e (sentinel eof) || is_error e (sentinel unexpected_eof)
                    then true
                    else (if errno_transient (as_error (λ r. r.errno) e)
                        then true
                        else holds (as_error (λ r. r.url_timeout) e))))))

-- The part behind the conversion of Kubernetes errors.
pub status_or_transport : Option Error → Bool
unfolding is_transport_retryable is_any
status_or_transport none = is_transport_retryable none
status_or_transport (some e) =
    if is_error e http_status && is_any retryable_codes e
    then true
    else is_transport_retryable (some e)

pub is_retryable_error : Option Error → Bool
unfolding status_or_transport parse_api
is_retryable_error e = status_or_transport (parse_api e)

pub always_retry : Option Error → Bool
always_retry e = true

pub run_on_error : Option Error → Bool
run_on_error e = is_some e

pub retriable_error_fn : Option Error → Bool
unfolding is_retryable_error
retriable_error_fn none = false
retriable_error_fn (some e) = is_retryable_error (some e)
