-- ===== src/Authorization/Parsers.antt =====
-- The parsers of scopes: pkg/access/scope/parser.go with its registry, the parsers of pkg/access/scope
-- (basic and dynamic), and what ApplyDefaults of the trust middleware does with them. A value of
-- json.RawMessage is its bytes; a parser returns a scope beside an error, as FromJSON does.
pub mod Defaults
use golibs.Prelude.{
  ℕ, Bool, true, false, Option, none, some, List, [], ◌∷◌, Bytes, bytes_key, codes, is_empty,
  is_some, if◌then◌else◌, ◌==◌, map,
}
use golibs.Errors.{Error, err_not_found, invalid}
use golibs.Exec.{Result, ok, err}
use golibs.GoMap.{GoMap, lookup}
use golibs.GoMap
use golibs.Access.{Scope}
use golibs.Access.Node.{wildcard}
use golibs.Access.Basic.{as_scope}
use golibs.Authorization.{GinRequest}

abbrev pub ParseScope : Type 0
ParseScope = Bytes → Scope × Option Error

-- A scope.Parser: its name, and the methods that its type has, which the type assertion of
-- MatchCustomParser looks for.
pub record Parser : Type 0 where
  pub name : Bytes
  pub parse_npa_scope : Option ParseScope
  pub parse_certificate_scope : Option ParseScope
  pub parse_trust_scope : Option ParseScope
  pub parse_user_header : Option (GinRequest → List Scope)

abbrev pub Registry : Type 0
Registry = GoMap Bytes Parser

-- RegisterParser
unfoldable pub register_parser : Parser → Registry → Registry
register_parser parser registry = GoMap.store parser.name parser registry

abbrev pub registered : Option Parser → Result Parser
registered none = err err_not_found
registered (some parser) = ok parser

-- MatchScopeParser
unfoldable pub match_scope_parser : Bytes → Registry → Result Parser
match_scope_parser name registry = registered (lookup name registry)

abbrev pub err_parser_type : Error
err_parser_type = invalid 122

abbrev pub as_custom : {T : Type 0} → (Parser → Option T) → Result Parser → Result T
as_custom methods (err e) = err e
as_custom methods (ok parser) = elim (methods parser) [ none ↦ err err_parser_type | some t ↦ ok t ]

-- MatchCustomParser, where `methods` is the assertion to the type T.
unfoldable pub match_custom_parser :
    {T : Type 0} → (Parser → Option T) → Bytes → Registry → Result T
unfolding match_scope_parser
match_custom_parser methods name registry = as_custom methods (match_scope_parser name registry)

abbrev pub basic_scope_type : Bytes
basic_scope_type = codes "basic"

abbrev in_front : ℕ → List Bytes → List Bytes
in_front x [] = []
in_front x (field ∷ fields) = (x ∷ field) ∷ fields

-- strings.Split at a comma
unfoldable pub split_commas : Bytes → List Bytes
split_commas [] = [] ∷ []
split_commas (x ∷ s) = let rest = split_commas s in if x == b',' then [] ∷ rest else in_front x rest

-- The scopes of ParseUserHeader of the basic parser.
abbrev team_scopes : List Bytes → List Scope
team_scopes teams = map as_scope (
    record {
      actions = wildcard ∷ [];
      environments = codes "dev" ∷ codes "tst" ∷ [];
      teams = teams;
      roles = codes "user" ∷ [];
    }
    ∷ record {
      actions = wildcard ∷ [];
      environments = codes "acc" ∷ codes "prd" ∷ [];
      teams = teams;
      roles = codes "user" ∷ [];
    }
    ∷ [])

-- basic.Parser.ParseUserHeader
unfoldable pub parse_team_header : Bytes → GinRequest → List Scope
unfolding split_commas
parse_team_header header c =
    if is_empty (c.header header) then [] else team_scopes (split_commas (c.header header))

-- basic.Parser, as init registers it: without the name of a header. `from_json` is FromJSON.
abbrev pub basic_parser : ParseScope → Parser
basic_parser from_json = record {
  name = basic_scope_type;
  parse_npa_scope = some from_json;
  parse_certificate_scope = none;
  parse_trust_scope = none;
  parse_user_header = some (parse_team_header []);
}

abbrev header_scopes : Option (GinRequest → List Scope) → GinRequest → List Scope
header_scopes none c = []
header_scopes (some parse) c = parse c

-- The parser that RegisterScopeType registers, with WithUserHeaderParser or without.
abbrev pub anon_scope_parser : Bytes → ParseScope → Option (GinRequest → List Scope) → Parser
anon_scope_parser name from_json parse_user_headers = record {
  name = name;
  parse_npa_scope = some from_json;
  parse_certificate_scope = some from_json;
  parse_trust_scope = none;
  parse_user_header = some (header_scopes parse_user_headers);
}

-- RegisterScopeType
unfoldable pub register_scope_type :
    Bytes → ParseScope → Option (GinRequest → List Scope) → Registry → Registry
unfolding register_parser
register_scope_type name from_json parse_user_headers registry =
    register_parser (anon_scope_parser name from_json parse_user_headers) registry

-- What is left of a result whose error is not looked at: the parser is nil if there was one.
abbrev pub parser_of : {T : Type 0} → Result T → Option T
parser_of (ok parser) = some parser
parser_of (err e) = none

abbrev pub type_or_default : Bytes → Bytes
type_or_default t = if is_empty t then basic_scope_type else t

-- trust.Config, as far as ApplyDefaults reads and writes it; a nil value is `none`.
pub record TrustSetup : Type 0 where
  pub scope_type : Bytes
  pub scope_parser : Option ParseScope
  pub required_scope : Option Scope
  pub raw_required_scope : Option Bytes

-- A call of a method of a nil parser panics, which is `none`.
abbrev parse_with : Option ParseScope → Bytes → Option Scope
parse_with none raw = none
parse_with (some parse) raw = some (parse raw).0

abbrev with_required : TrustSetup → Option Scope → Option TrustSetup
with_required c none = none
with_required c (some scope) = some (record c { required_scope = some scope })

abbrev pub parse_required : TrustSetup → Option Scope → Option Bytes → Option TrustSetup
parse_required c none (some raw) = with_required c (parse_with c.scope_parser raw)
parse_required c none none = some c
parse_required c (some scope) raw = some c

abbrev pub find_parser : Registry → TrustSetup → TrustSetup
unfolding match_custom_parser
find_parser registry c =
    let name = type_or_default c.scope_type in
    record c {
      scope_type = name;
      scope_parser = parser_of (match_custom_parser (λ p. p.parse_trust_scope) name registry);
    }

-- trust.Config.ApplyDefaults; `none` is a panic.
unfoldable pub apply_trust_defaults : Registry → TrustSetup → Option TrustSetup
unfolding find_parser
apply_trust_defaults registry c =
    if is_some c.scope_parser
    then some c
    else parse_required (find_parser registry c) c.required_scope c.raw_required_scope
