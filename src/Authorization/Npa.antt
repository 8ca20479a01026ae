-- ===== src/Authorization/Npa.antt =====
-- pkg/middleware/authorization/npa: the account of a request from the name that a header gives.
-- strings.ToLower is a function. Nil and empty slices are told apart: a nil slice is `none`.
pub mod Named
pub mod Defaults
use golibs.Prelude.{
  ℕ, zero, suc, Bool, true, false, ◌&&◌, not, Option, none, some, List, [], ◌∷◌, Bytes, bytes_key,
  is_empty, is_some, if◌then◌else◌, value_or,
}
use golibs.Errors.{Error, invalid, wrap}
use golibs.GoMap.{GoMap, lookup}
use golibs.Slices.{to_map}
use golibs.Access.{Scope, Account, validate_scopes}
use golibs.Authorization.{Replies, Handler, trust_npa, trusted_as}
use golibs.Authorization.Parsers.{
  ParseScope, Registry, match_custom_parser, parser_of, type_or_default,
}

pub record AllowedNpa : Type 0 where
  pub scopes : Option (List Scope)
  pub raw_scopes : Option (List Bytes)
  pub name : Bytes

pub record NpaConfig : Type 0 where
  pub enabled : Bool
  pub header : Bytes
  pub allowed_npas : List AllowedNpa
  pub scope_type : Bytes
  pub scope_parser : Option ParseScope

-- The account of a request with a name.
abbrev pub account_of : Bytes → AllowedNpa → Account
account_of name auth = record { trust = trust_npa; name = name; scopes = value_or auth.scopes [] }

module _ {R : Type 0} (replies : Replies R) (to_lower : Bytes → Bytes) where
  abbrev pub authenticated : Bytes → Handler R → Option AllowedNpa → Handler R
  authenticated name next none c = next c
  authenticated name next (some auth) c = trusted_as replies (account_of name auth) next c

  -- Middleware
  unfoldable pub npa_middleware : NpaConfig → Handler R → Handler R
  npa_middleware cfg next c =
      let name = c.header cfg.header in
      let auth = lookup (to_lower name) (to_map cfg.allowed_npas (λ item. to_lower item.name)) in
      if cfg.enabled then authenticated name next auth c else next c

abbrev pub err_header : Error
err_header = invalid 123

abbrev pub err_no_npas : Error
err_no_npas = invalid 124

abbrev pub err_npa_name : Error
err_npa_name = invalid 125

abbrev pub err_unparsed : Error
err_unparsed = invalid 126

abbrev or_wrapped : Option Error → Option Error → Option Error
or_wrapped (some e) next = some (wrap e)
or_wrapped none next = next

abbrev pub check_scopes : Option (List Scope) → Option Error → Option Error
unfolding validate_scopes
check_scopes none next = some err_unparsed
check_scopes (some scopes) next = or_wrapped (validate_scopes scopes) next

-- The loop of Validate.
unfoldable pub validate_npas : List AllowedNpa → Option Error
unfolding check_scopes
validate_npas [] = none
validate_npas (npa ∷ npas) =
    let rest = validate_npas npas in
    if is_empty npa.name then some err_npa_name else check_scopes npa.scopes rest

-- Validate
unfoldable pub validate : NpaConfig → Option Error
unfolding validate_npas
validate cfg =
    let checked = validate_npas cfg.allowed_npas in
    if cfg.enabled
    then (if is_empty cfg.header
        then some err_header
        else (if is_empty cfg.allowed_npas then some err_no_npas else checked))
    else none

-- s[j] = v; out of range it panics, which is `none`.
unfoldable pub set_at : List Scope → ℕ → Scope → Option (List Scope)
set_at [] j v = none
set_at (x ∷ s) zero v = some (v ∷ s)
set_at (x ∷ s) (suc j) v = elim (set_at s j v) [ none ↦ none | some t ↦ some (x ∷ t) ]

-- The inner loop of ApplyDefaults: it writes to `scopes`, which is the slice of the configuration,
-- and not to the new slice of the loop's variable. A nil parser panics.
unfoldable pub parse_raw : Option ParseScope → List Bytes → ℕ → List Scope → Option (List Scope)
unfolding set_at
parse_raw parser [] j scopes = some scopes
parse_raw none (raw ∷ raws) j scopes = none
parse_raw (some parse) (raw ∷ raws) j scopes = elim (set_at scopes j (parse raw).0) [
  | none ↦ none
  | some written ↦ parse_raw (some parse) raws (suc j) written
]

abbrev pub unparsed :
    Option ParseScope → AllowedNpa → Option (List Scope) → Option (List Bytes) → Option AllowedNpa
unparsed parser npa none (some raws) = elim (parse_raw parser raws 0 []) [
  | none ↦ none
  | some written ↦ some npa
]
unparsed parser npa none none = some npa
unparsed parser npa (some scopes) raws = some npa

-- The outer loop.
unfoldable pub parse_npas : Option ParseScope → List AllowedNpa → Option (List AllowedNpa)
unfolding parse_raw
parse_npas parser [] = some []
parse_npas parser (npa ∷ npas) = elim (unparsed parser npa npa.scopes npa.raw_scopes) [
  | none ↦ none
  | some first ↦ elim (parse_npas parser npas) [ none ↦ none | some rest ↦ some (first ∷ rest) ]
]

abbrev with_npas : NpaConfig → Option (List AllowedNpa) → Option NpaConfig
with_npas c none = none
with_npas c (some npas) = some (record c { allowed_npas = npas })

abbrev pub find_parser : Registry → NpaConfig → NpaConfig
unfolding match_custom_parser
find_parser registry c =
    let name = type_or_default c.scope_type in
    record c {
      scope_type = name;
      scope_parser = parser_of (match_custom_parser (λ p. p.parse_npa_scope) name registry);
    }

abbrev pub parse_all : NpaConfig → Option NpaConfig
unfolding parse_npas
parse_all c = with_npas c (parse_npas c.scope_parser c.allowed_npas)

-- ApplyDefaults; `none` is a panic.
unfoldable pub apply_npa_defaults : Registry → NpaConfig → Option NpaConfig
unfolding find_parser parse_all
apply_npa_defaults registry c =
    if is_some c.scope_parser then some c else parse_all (find_parser registry c)
