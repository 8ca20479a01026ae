-- ===== src/Http.antt =====
-- pkg/http/http.go, pkg/http/response/response.go and pkg/config/option.go: requests of an HTTP client
-- and what it makes of the responses. `W` is the type of bodies. The network, with http.Client.Do and
-- the reading of the body, is a function of the client's.
mod Rate
pub mod Retrier
use golibs.Prelude.{
  ℕ, Bool, ◌&&◌, not, Option, none, some, List, [], ◌∷◌, ◌++◌, Bytes, is_some, if◌then◌else◌,
}
use golibs.Errors.{Error, status_code_as_err, invalid, wrap}
use golibs.Exec.{Result, ok, err}

-- response.Data, without the headers.
pub record Data (W : Type 0) : Type 0 where
  pub raw : Option W
  pub status : ℕ
  pub error : Option Error

-- What json.Unmarshal says of an empty body.
abbrev err_no_json : Error
err_no_json = invalid 70

abbrev pub err_build_request : Error
err_build_request = invalid 71

abbrev pub err_failed_request_option : Error
err_failed_request_option = invalid 72

abbrev on_unmarshal : {W A : Type 0} → Data W → Result A → Option A × Data W
on_unmarshal d (ok a) = (some a, d)
on_unmarshal d (err e) = (none, record d { error = some e })

abbrev unmarshal_raw : {W A : Type 0} → (W → Result A) → Option W → Result A
unmarshal_raw unmarshal none = err err_no_json
unmarshal_raw unmarshal (some w) = unmarshal w

abbrev parse_unless : {W A : Type 0} → (W → Result A) → Data W → Option Error → Option A × Data W
parse_unless unmarshal d (some e) = (none, d)
parse_unless unmarshal d none = on_unmarshal d (unmarshal_raw unmarshal d.raw)

abbrev error_or_status : Option Error → ℕ → Option Error
unfolding status_code_as_err
error_or_status (some e) c = some e
error_or_status none c = status_code_as_err c

module _ {W : Type 0} where
  -- Parse: the value that it finds, beside the response.
  unfoldable pub parse : {A : Type 0} → (W → Result A) → Data W → Option A × Data W
  parse unmarshal d = parse_unless unmarshal d d.error

  -- IsOK
  unfoldable pub is_ok : Data W → Bool
  unfolding status_code_as_err
  is_ok d = not (is_some d.error) && not (is_some (status_code_as_err d.status))

  -- Error
  unfoldable pub response_error : Data W → Option Error
  unfolding is_ok error_or_status
  response_error d = if is_ok d then none else error_or_status d.error d.status

-- ApplyOpts; a nil option is `none`.
unfoldable pub apply_opts : {A : Type 0} → List (Option (A → Result A)) → A → Result A
apply_opts [] base = ok base
apply_opts (none ∷ opts) base = apply_opts opts base
apply_opts (some o ∷ opts) base = elim (o base) [ ok next ↦ apply_opts opts next | err e ↦ err e ]

pub data Method : Type 0 where
  get post put delete : Method

pub record Request (W : Type 0) : Type 0 where
  pub method : Method
  pub url : Bytes
  pub raw_query : Bytes
  pub body : Option W

abbrev pub RequestOption : Type 0 → Type 0
RequestOption W = Request W → Result (Request W)

-- WithRawQuery
abbrev pub with_raw_query : {W : Type 0} → Bytes → RequestOption W
with_raw_query q r = ok (record r { raw_query = q })

abbrev pub Endpoint : Type 0 → Type 0 → Type 0
Endpoint S W = Request W → S → Data W × S

-- Client; `send` is what its http.Client does with a request: a status and a body,
-- with the error of reading it, or an error. `url_error` is what NewRequest says of a URL.
pub record Client (S W : Type 0) : Type 0 where
  pub tripperware : Endpoint S W → Endpoint S W
  pub url_error : Bytes → Option Error
  pub default_request_options : List (Option (RequestOption W))
  pub send : Request W → S → Result (ℕ × W × Option Error) × S

-- NewClient without options, over a network.
abbrev pub new_client :
    {S W : Type 0}
    → (Bytes → Option Error)
    → (Request W → S → Result (ℕ × W × Option Error) × S)
    → Client S W
new_client url_error send = record {
  url_error = url_error;
  tripperware = λ endpoint. endpoint;
  default_request_options = [];
  send = send;
}

-- NewRequestWithContext, with the error that it has for the URL.
abbrev new_request : {W : Type 0} → Option Error → Method → Bytes → Option W → Result (Request W)
new_request none method url body =
    ok (record { method = method; url = url; raw_query = []; body = body })
new_request (some e) method url body = err e

-- The body of a request: nil, or what json.Marshal makes of a value.
unfoldable pub build :
    {W : Type 0} → (Bytes → Option Error) → Method → Bytes → Option (Result W) → Result (Request W)
build url_error method url none = new_request (url_error url) method url none
build url_error method url (some (ok w)) = new_request (url_error url) method url (some w)
build url_error method url (some (err e)) = err e

abbrev received : {W : Type 0} → Result (ℕ × W × Option Error) → Data W
received (ok (c, w, e)) = record { raw = some w; status = c; error = e }
received (err e) = record { raw = none; status = 0; error = some e }

module _ {S W : Type 0} where
  abbrev failed : Error → S → Data W × S
  failed e s = (record { raw = none; status = 0; error = some (wrap e) }, s)

  abbrev endpoint : Client S W → Endpoint S W
  endpoint c r s = let sent = c.send r s in (received sent.0, sent.1)

  abbrev run_with : Client S W → Result (Request W) → S → Data W × S
  run_with c (err e) s = failed err_failed_request_option s
  run_with c (ok r) s = c.tripperware (endpoint c) r s

  abbrev run_built :
      Client S W → List (Option (RequestOption W)) → Result (Request W) → S → Data W × S
  unfolding apply_opts
  run_built c opts (err e) s = failed err_build_request s
  run_built c opts (ok r) s = run_with c (apply_opts (c.default_request_options ++ opts) r) s

  -- do
  unfoldable pub do_request :
      Client S W
      → Method
      → Bytes
      → Option (Result W)
      → List (Option (RequestOption W))
      → S
      → Data W × S
  unfolding build run_built
  do_request c method url request opts s = run_built c opts (build c.url_error method url request) s
