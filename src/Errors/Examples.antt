-- ===== src/Errors/Examples.antt =====
-- The theorems on errors at concrete errors.
use golibs.Prelude.{◌≡◌, refl, true, some, none}
use golibs.Errors.{
  Error, status, sentinel, foreign_wrap, wrap, canceled, has_code, status_codes, err_as_status_code,
}
use golibs.Errors.Status.{code_of, err_as_status_code-chain}

-- A network error that reports a timeout, around the cancellation of a context.
abbrev timed_out : Error
timed_out =
    foreign_wrap 1
      (record {
        net_timeout = some true;
        dns = none;
        temporary = none;
        errno = none;
        url_timeout = some true;
      })
      (sentinel canceled)

err_as_status_code-chain_example :
    err_as_status_code status_codes (some (wrap (wrap (status 404)))) ≡ 404
unfolding has_code code_of
err_as_status_code-chain_example =
    err_as_status_code-chain status_codes (wrap (wrap (status 404))) (λ c. refl) tt
