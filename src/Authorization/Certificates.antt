-- ===== src/Authorization/Certificates.antt =====
-- pkg/middleware/authorization/certificate and the names of certificates in pkg/tlsutils: the account
-- of the certificate that a client shows. Log lines, and the paths that they skip, are left out.
pub mod Matching
pub mod Guarded
use golibs.Prelude.{
  Bool, true, false, not, Option, none, some, List, [], ◌∷◌, Bytes, bytes_key, is_empty,
  if◌then◌else◌,
}
use golibs.Errors.{Error, invalid, wrap}
use golibs.Access.{Scope, Account, validate_scopes}
use golibs.Slices.{filter, transform, flat_map, unique, concat, match_any}
use golibs.Authorization.{
  PeerCertificate, GinRequest, Replies, Handler, status_unauthorized, trust_certificate, trusted_as,
}

-- Certificate; its raw scopes are in Authorization/Parsers.
pub record Certificate : Type 0 where
  pub cns : List Bytes
  pub scopes : List Scope

pub record CertificateConfig : Type 0 where
  pub enabled : Bool
  pub certificates : List Certificate

abbrev pub named : Bytes → Bool
named name = not (is_empty name)

-- ExtractCommonNames
unfoldable pub extract_common_names : List PeerCertificate → List Bytes
extract_common_names certs = filter (transform certs (λ cert. cert.common_name)) named

-- ExtractDNSNames
unfoldable pub extract_dns_names : List PeerCertificate → List Bytes
extract_dns_names certs = unique (filter (flat_map certs (λ cert. cert.dns_names)) named)

-- MatchAnyCommonName
unfoldable pub match_any_common_name : Certificate → List Bytes → Option Bytes
match_any_common_name host cns = match_any host.cns cns

-- MatchCertificate
unfoldable pub match_certificate : List Certificate → List Bytes → Option (Certificate × Bytes)
match_certificate [] common_names = none
match_certificate (host ∷ hosts) common_names = elim (match_any_common_name host common_names) [
  | some cn ↦ some (host, cn)
  | none ↦ match_certificate hosts common_names
]

abbrev pub account_of : Certificate × Bytes → Account
account_of (cert, match_by) = record {
  trust = trust_certificate;
  name = match_by;
  scopes = cert.scopes;
}

-- The names of all certificates of the client.
unfoldable pub presented : GinRequest → List Bytes
presented c =
    concat (extract_common_names c.peer_certificates ∷ extract_dns_names c.peer_certificates ∷ [])

module _ {R : Type 0} (replies : Replies R) where
  abbrev pub matched : Handler R → GinRequest → Option (Certificate × Bytes) → R
  matched next c none = replies.abort status_unauthorized
  matched next c (some found) = trusted_as replies (account_of found) next c

  -- Middleware
  unfoldable pub certificate_middleware : CertificateConfig → Handler R → Handler R
  unfolding presented
  certificate_middleware cfg next c =
      if cfg.enabled
      then (if is_empty c.peer_certificates
          then replies.abort status_unauthorized
          else matched next c (match_certificate cfg.certificates (presented c)))
      else next c

abbrev pub err_no_certificates : Error
err_no_certificates = invalid 120

abbrev pub err_no_cns : Error
err_no_cns = invalid 121

abbrev or_else : Option Error → Option Error → Option Error
or_else (some e) next = some (wrap e)
or_else none next = next

-- The loop of Validate.
unfoldable pub validate_certificates : List Certificate → Option Error
unfolding validate_scopes
validate_certificates [] = none
validate_certificates (cert ∷ certs) =
    let rest = validate_certificates certs in
    if is_empty cert.cns then some err_no_cns else or_else (validate_scopes cert.scopes) rest

-- Validate
unfoldable pub validate : CertificateConfig → Option Error
unfolding validate_certificates
validate cfg =
    let checked = validate_certificates cfg.certificates in
    if cfg.enabled
    then (if is_empty cfg.certificates then some err_no_certificates else checked)
    else checked
