-- ===== src/Access.antt =====
-- pkg/access: subject access reviews. A scope is what its methods return; a formatted reason is
-- the record of the values that are formatted.
pub mod Node
pub mod Review
pub mod Basic
mod Examples
use golibs.Prelude.{
  Bool, true, false, Option, none, some, List, [], ◌∷◌, Bytes, codes, is_empty, if◌then◌else◌,
}
use golibs.Errors.{Error, wrap, invalid}
use golibs.Exec.{Result, ok, err}
use Node.{insert_all, find_all, empty}
use golibs.Access.Node

-- scope.Scope
pub record Scope : Type 0 where
  pub validate : Option Error
  pub as_labels : List (List Bytes)

pub record Account : Type 0 where
  pub trust : Bytes
  pub name : Bytes
  pub scopes : List Scope

pub record Reason : Type 0 where
  pub trust : Bytes
  pub can : Bool
  pub labels : List (List Bytes)

pub record Status : Type 0 where
  pub account : Account
  pub allowed : Bool
  pub reason : Reason

pub record SubjectAccessReview : Type 0 where
  pub spec : Scope
  pub status : Status

abbrev pub err_no_trust_level : Error
err_no_trust_level = invalid 10

unfoldable pub validate_scopes : List Scope → Option Error
validate_scopes [] = none
validate_scopes (s ∷ ss) = elim s.validate [ some e ↦ some e | none ↦ validate_scopes ss ]

-- Account.Validate
unfoldable pub validate_account : Account → Option Error
unfolding validate_scopes
validate_account a = if is_empty a.trust then some err_no_trust_level else validate_scopes a.scopes

-- The trust in a context: the account that the last SetTrust put there.
abbrev pub Context : Type 0
Context = Option Account

-- SetTrust
unfoldable pub set_trust : Context → Account → Result Context
unfolding validate_account
set_trust ctx account = elim (validate_account account) [
  | some e ↦ err (wrap e)
  | none ↦ ok (some account)
]

abbrev pub trust_none : Bytes
trust_none = codes "No trust"

-- GetTrust
unfoldable pub get_trust : Context → Account
get_trust (some account) = account
get_trust none = record { trust = trust_none; name = []; scopes = [] }

-- The outer loop of MatchScope over the granted scopes.
unfoldable pub grant_all : List Scope → Node.Node → Node.Node
unfolding insert_all
grant_all [] n = n
grant_all (s ∷ ss) n = grant_all ss (insert_all s.as_labels n)

-- MatchScope
unfoldable pub match_scope : List Scope → Scope → Bool
unfolding grant_all find_all
match_scope allowed requested = find_all requested.as_labels (grant_all allowed empty)

-- reviewSAR
unfoldable pub review_sar : Account → Scope → Reason × Bool
unfolding match_scope
review_sar account spec =
    let allowed = match_scope account.scopes spec in
    (record { trust = account.trust; can = allowed; labels = spec.as_labels }, allowed)

abbrev pub review_of : Account → Scope → SubjectAccessReview
review_of account scope =
    let (reason, allowed) = review_sar account scope in
    record {
      spec = scope;
      status = record { account = account; allowed = allowed; reason = reason };
    }

-- NewSubjectAccessReview
unfoldable pub new_subject_access_review : Context → Scope → Result SubjectAccessReview
unfolding review_sar get_trust
new_subject_access_review ctx scope = elim scope.validate [
  | some e ↦ err (wrap e)
  | none ↦ ok (review_of (get_trust ctx) scope)
]
