-- ===== src/Authorization/Examples.antt =====
-- The theorems on authorization, at concrete configurations.
use golibs.Prelude.{
  ℕ, true, not, none, some, List, [], ◌∷◌, ◌≡◌, refl, bytes_eqb, codes, is_some, if◌then◌else◌,
}
use golibs.Access.{Scope}
use golibs.Access.Basic.{BasicScope, as_scope}
use golibs.Access.Basic
use golibs.Authorization.{GinRequest, Replies, Handler, trust_middleware}
use golibs.Authorization.Certificates.{
  Certificate, CertificateConfig, certificate_middleware, validate,
}
use golibs.Authorization.Certificates.Guarded.{Decision, required, certificate_middleware-Decision}
use golibs.Authorization.Npa.{AllowedNpa, NpaConfig, npa_middleware, apply_npa_defaults}
use golibs.Authorization.Npa
use golibs.Authorization.Npa.Named.{goes_on, allowed_as, npa_middleware-named}
use golibs.Authorization.Npa.Defaults.{any_waits, apply_npa_defaults-panics}
use golibs.Authorization.Parsers.{TrustSetup}

abbrev reader : Scope
reader = as_scope (record {
  actions = codes "GET" ∷ [];
  environments = codes "dev" ∷ [];
  teams = codes "red" ∷ [];
  roles = codes "user" ∷ [];
})

-- A handler answers with 200, a panic with 500.
abbrev statuses : Replies ℕ
statuses = record { abort = λ status. status; panics = 500 }

abbrev answers : Handler ℕ
answers c = 200

abbrev hosts : List Certificate
hosts =
    record { cns = codes "a.example" ∷ []; scopes = [] }
    ∷ record { cns = codes "b.example" ∷ codes "c.example" ∷ []; scopes = reader ∷ [] }
    ∷ []

abbrev certificates : CertificateConfig
certificates = record { enabled = true; certificates = hosts }

abbrev request : GinRequest
request = record {
  header = λ name. if bytes_eqb name (codes "X-Npa") then codes "Robot" else [];
  peer_certificates =
      record { common_name = []; dns_names = codes "x.example" ∷ codes "c.example" ∷ [] } ∷ [];
  ctx = none;
}

reader-valid : reader.validate ≡ none
unfolding Basic.validate
reader-valid = refl

certificates-valid : validate certificates ≡ none
unfolding validate Basic.validate
certificates-valid = refl

certificate_middleware-Decision_example : Decision statuses hosts reader answers request (
    certificate_middleware statuses certificates
      (trust_middleware statuses (required reader) answers)
      request)
certificate_middleware-Decision_example =
    certificate_middleware-Decision statuses answers reader reader-valid certificates request refl
      certificates-valid

abbrev robots : NpaConfig
robots = record {
  enabled = true;
  header = codes "X-Npa";
  allowed_npas =
      record { scopes = some (reader ∷ []); raw_scopes = none; name = codes "Robot" } ∷ [];
  scope_type = [];
  scope_parser = none;
}

robots-valid : Npa.validate robots ≡ none
unfolding Npa.validate Basic.validate
robots-valid = refl

npa_middleware-named_example :
    npa_middleware statuses (λ s. s) robots answers request
    ≡ goes_on answers
        (codes "Robot")
        request
        (allowed_as (λ s. s) (codes "Robot") robots.allowed_npas)
unfolding bytes_eqb
npa_middleware-named_example =
    npa_middleware-named statuses (λ s. s) answers robots request refl robots-valid

abbrev unread : NpaConfig
unread = record robots {
  allowed_npas =
      record { scopes = none; raw_scopes = some (codes "{}" ∷ []); name = codes "Robot" } ∷ [];
}

apply_npa_defaults-panics_example :
    (is_some (apply_npa_defaults [] unread) ≡ not (any_waits unread.allowed_npas))
    × ((c : NpaConfig)
        → apply_npa_defaults [] unread ≡ some c
        → c.allowed_npas ≡ unread.allowed_npas)
apply_npa_defaults-panics_example = apply_npa_defaults-panics [] unread refl

abbrev setup : TrustSetup
setup = record {
  scope_type = [];
  scope_parser = none;
  required_scope = none;
  raw_required_scope = some (codes "{}");
}
