-- ===== src/Authorization.antt =====
-- pkg/middleware/authorization: middleware that gives a request an account, and that lets a request
-- through only if its account has a scope. Of a gin.Context a handler sees the headers, the peer
-- certificates and the context of the request. `R` is what a handler leaves behind.
pub mod Certificates
pub mod Npa
pub mod Parsers
mod Examples
use golibs.Prelude.{
  ℕ, Bool, true, false, Option, none, some, List, [], Bytes, codes, is_empty, if◌then◌else◌,
}
use golibs.Errors.{Error}
use golibs.Exec.{Result, ok, err}
use golibs.Access.{
  Scope, Account, Context, SubjectAccessReview, set_trust, new_subject_access_review,
}

-- x509.Certificate: the names that the code reads.
pub record PeerCertificate : Type 0 where
  pub common_name : Bytes
  pub dns_names : List Bytes

-- `header` is GetHeader, the empty text where there is no header. `peer_certificates` are those of
-- Request.TLS, none of them where TLS is nil.
pub record GinRequest : Type 0 where
  pub header : Bytes → Bytes
  pub peer_certificates : List PeerCertificate
  pub ctx : Context

-- What Abort with a status leaves behind, and what a panic.
pub record Replies (R : Type 0) : Type 0 where
  pub abort : ℕ → R
  pub panics : R

abbrev pub Handler : Type 0 → Type 0
Handler R = GinRequest → R

abbrev pub status_unauthorized : ℕ
status_unauthorized = 401

abbrev pub trust_certificate : Bytes
trust_certificate = codes "Certificate"

abbrev pub trust_npa : Bytes
trust_npa = codes "NPA"

abbrev pub trust_user : Bytes
trust_user = codes "User"

pub record TrustConfig : Type 0 where
  pub enabled : Bool
  pub required_scope : Option Scope

pub record UserConfig : Type 0 where
  pub enabled : Bool
  pub username_header : Bytes
  pub parse_user_header : GinRequest → List Scope

module _ {R : Type 0} (replies : Replies R) where
  abbrev go_on : Handler R → GinRequest → Result Context → R
  go_on next c (ok ctx) = next (record c { ctx = ctx })
  go_on next c (err e) = replies.abort status_unauthorized

  -- SetTrust, and Next with the new context or AbortWithError.
  unfoldable pub trusted_as : Account → Handler R → Handler R
  trusted_as account next c = go_on next c (set_trust c.ctx account)

  abbrev reviewed : Handler R → GinRequest → Result SubjectAccessReview → R
  reviewed next c (err e) = replies.abort status_unauthorized
  reviewed next c (ok sar) =
      if sar.status.allowed then next c else replies.abort status_unauthorized

  -- A nil scope has no Validate.
  abbrev review : Handler R → GinRequest → Option Scope → R
  review next c none = replies.panics
  review next c (some scope) = reviewed next c (new_subject_access_review c.ctx scope)

  -- trust.Middleware
  unfoldable pub trust_middleware : TrustConfig → Handler R → Handler R
  trust_middleware cfg next c = if cfg.enabled then review next c cfg.required_scope else next c

  abbrev user_account : UserConfig → GinRequest → Account
  user_account cfg c = record {
    trust = trust_user;
    name = c.header cfg.username_header;
    scopes = cfg.parse_user_header c;
  }

  -- user.Middleware
  unfoldable pub user_middleware : UserConfig → Handler R → Handler R
  user_middleware cfg next c =
      if cfg.enabled
      then (if is_empty (c.header cfg.username_header)
          then next c
          else trusted_as (user_account cfg c) next c)
      else next c
