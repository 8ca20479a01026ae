-- ===== src/Authorization/Certificates/Guarded.antt =====
-- A handler behind the middleware of certificates and the middleware of trust.
use golibs.Prelude.{
  true, false, Option, none, some, List, [], ◌∷◌, ◌≡◌, refl, arith, Bytes, bytes_key, is_empty,
  Bool-cases, inl, inr, if◌then◌else◌,
}
use golibs.Slices.{contains}
use golibs.Access.{
  Scope, Account, validate_scopes, validate_account, set_trust, get_trust, match_scope, review_sar,
  new_subject_access_review,
}
use golibs.Authorization.{
  GinRequest, PeerCertificate, Replies, Handler, TrustConfig, status_unauthorized, trusted_as,
  trust_middleware,
}
use golibs.Authorization.Certificates.{
  Certificate, CertificateConfig, account_of, presented, matched, match_certificate,
  certificate_middleware, validate_certificates, validate,
}
use golibs.Authorization.Certificates.Matching.{
  shows, contains-presented, NoneShown, First, here, behind, Finding, missing, found,
  match_certificate-Finding,
}

-- What becomes of a request: `R` is what is left behind.
pub data Decision {R : Type 0} (replies : Replies R) (hosts : List Certificate) (scope : Scope)
    (next : Handler R) (c : GinRequest) : R → Type 0 where
  unknown :
      NoneShown (presented c) hosts
      → Decision replies hosts scope next c (replies.abort status_unauthorized)
  denied :
      {cert : Certificate}
      → First (presented c) hosts cert
      → match_scope cert.scopes scope ≡ false
      → Decision replies hosts scope next c (replies.abort status_unauthorized)
  let_in :
      {cert : Certificate}
      → (cn : Bytes) → First (presented c) hosts cert
      → match_scope cert.scopes scope ≡ true
      → contains cert.cns cn ≡ true
      → shows c.peer_certificates cn ≡ true
      → is_empty cn ≡ false
      → Decision replies hosts scope next c (next (record c { ctx = some (account_of (cert, cn)) }))

First-valid :
    {names : List Bytes} {hosts : List Certificate} {cert : Certificate}
    → First names hosts cert
    → validate_certificates hosts ≡ none
    → validate_scopes cert.scopes ≡ none
unfolding validate_certificates
First-valid here v = ground arith
First-valid (behind h f) v = First-valid f (ground arith)

abbrev pub required : Scope → TrustConfig
required scope = record { enabled = true; required_scope = some scope }

listed-valid :
    (cfg : CertificateConfig)
    → cfg.enabled ≡ true
    → validate cfg ≡ none
    → validate_certificates cfg.certificates ≡ none
unfolding validate
listed-valid cfg on v = ground arith

shows-none : (ps : List PeerCertificate) (v : Bytes) → is_empty ps ≡ true → shows ps v ≡ false
unfolding shows
shows-none [] v h = refl
shows-none (p ∷ ps) v h = cc

none_shown :
    (c : GinRequest)
    → is_empty c.peer_certificates ≡ true
    → (hosts : List Certificate) → NoneShown (presented c) hosts
none_shown c bare [] = tt
none_shown c bare (host ∷ hosts) = (
  λ v k. absurd (ground (arith, contains-presented c v, shows-none c.peer_certificates v bare)),
  none_shown c bare hosts,
)

module _ {R : Type 0} (replies : Replies R) (next : Handler R) (scope : Scope)
    (valid : scope.validate ≡ none) where
  reviews :
      (c : GinRequest)
      → trust_middleware replies (required scope) next c ≡ (
          if match_scope (get_trust c.ctx).scopes scope
          then next c
          else replies.abort status_unauthorized)
  unfolding trust_middleware new_subject_access_review review_sar
  reviews c = rw valid refl

  trusts :
      (account : Account) (c : GinRequest) (after : Handler R)
      → is_empty account.trust ≡ false
      → validate_scopes account.scopes ≡ none
      → trusted_as replies account after c ≡ after (record c { ctx = some account })
  unfolding trusted_as set_trust validate_account
  trusts account c after t v = ground arith

  decided :
      (hosts : List Certificate) (c : GinRequest) (r : Option (Certificate × Bytes))
      → validate_certificates hosts ≡ none
      → Finding (presented c) hosts r
      → Decision replies hosts scope next c
          (matched replies (trust_middleware replies (required scope) next) c r)
  unfolding get_trust
  decided hosts c none v (missing m) = unknown m
  decided hosts c (some (cert, cn)) v (found f h k) =
      rw
        (
          trusts (account_of (cert, cn)) c (trust_middleware replies (required scope) next) refl
              (First-valid f v),
          reviews (record c { ctx = some (account_of (cert, cn)) }),
        )
        (elim (Bool-cases (match_scope cert.scopes scope)) [
          | inl yes_scope ↦ rw yes_scope (
              let_in cn f yes_scope h (ground (arith, contains-presented c cn))
                (ground (arith, contains-presented c cn)))
          | inr no_scope ↦ rw no_scope (denied f no_scope)
        ])

  -- Behind the middleware of a valid configuration of certificates, and of trust with a required
  -- scope that is valid: a request whose client shows no name of a configured certificate is
  -- refused with 401. Else the first configured certificate with a name that the client shows
  -- decides: the request is refused with 401 if the scopes of that certificate do not match the
  -- required one, and goes on if they do, with an account of these scopes, whose name is a common
  -- name or a DNS name of the client's certificates, is a name of that certificate and is not empty.
  pub certificate_middleware-Decision :
      (cfg : CertificateConfig) (c : GinRequest)
      → cfg.enabled ≡ true
      → validate cfg ≡ none
      → Decision replies cfg.certificates scope next c
          (certificate_middleware replies cfg (trust_middleware replies (required scope) next) c)
  unfolding certificate_middleware
  certificate_middleware-Decision cfg c on v =
      rw on (elim (Bool-cases (is_empty c.peer_certificates)) [
        | inl bare ↦ rw bare (unknown (none_shown c bare cfg.certificates))
        | inr shown ↦ rw shown (
            decided cfg.certificates c (match_certificate cfg.certificates (presented c))
              (listed-valid cfg on v) (match_certificate-Finding cfg.certificates (presented c)))
      ])
