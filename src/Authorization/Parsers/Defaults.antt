-- ===== src/Authorization/Parsers/Defaults.antt =====
-- The required scope of the trust middleware, configured as JSON, and the parsers that there are.
use golibs.Prelude.{
  ◌&&◌, not, Option, none, some, List, [], ◌∷◌, ◌≡◌, refl, ◌∙◌, ap, Bytes, bytes_key, bytes_eqb,
  is_some, Bool-cases, inl, inr,
}
use golibs.GoMap.{lookup}
use golibs.GoMap.Laws.{lookup-store}
use golibs.Access.{Scope}
use golibs.Authorization.{GinRequest}
use golibs.Authorization.Parsers.{
  ParseScope, Parser, Registry, register_parser, match_scope_parser, match_custom_parser,
  basic_parser, anon_scope_parser, register_scope_type, parser_of, TrustSetup, apply_trust_defaults,
  find_parser, parse_required, registered, as_custom, basic_scope_type, type_or_default,
}

-- The arguments of a call of RegisterScopeType.
pub record ScopeType : Type 0 where
  pub name : Bytes
  pub from_json : ParseScope
  pub parse_user_headers : Option (GinRequest → List Scope)

-- What init and some calls of RegisterScopeType put into the registry, the last call first.
unfoldable pub register_all : ParseScope → List ScopeType → Registry
register_all from_json [] = register_parser (basic_parser from_json) []
register_all from_json (t ∷ ts) =
    register_scope_type t.name t.from_json t.parse_user_headers (register_all from_json ts)

-- A registered parser that can parse the scope of the trust middleware.
abbrev trust_parser : Option Parser → Option ParseScope
trust_parser r = parser_of (as_custom (λ p. p.parse_trust_scope) (registered r))

no_trust_parser :
    (from_json : ParseScope) (ts : List ScopeType) (name : Bytes)
    → trust_parser (lookup name (register_all from_json ts)) ≡ none
unfolding register_all register_parser register_scope_type lookup
no_trust_parser from_json [] name =
    ap trust_parser (lookup-store basic_scope_type name (basic_parser from_json) [])
    ∙ elim (Bool-cases (bytes_eqb basic_scope_type name)) [ inl q ↦ rw q refl | inr q ↦ rw q refl ]
no_trust_parser from_json (t ∷ ts) name =
    let parser = anon_scope_parser t.name t.from_json t.parse_user_headers in
    ap trust_parser (lookup-store t.name name parser (register_all from_json ts))
    ∙ elim (Bool-cases (bytes_eqb t.name name)) [
      | inl q ↦ rw q refl
      | inr q ↦ rw q (no_trust_parser from_json ts name)
    ]

required_panics :
    (c : TrustSetup) (scope : Option Scope) (raw : Option Bytes)
    → c.scope_parser ≡ none
    → is_some (parse_required c scope raw) ≡ not (is_some raw && not (is_some scope))
required_panics c none (some raw) h = rw h refl
required_panics c none none h = refl
required_panics c (some scope) none h = refl
required_panics c (some scope) (some raw) h = refl

-- ApplyDefaults of a trust configuration without a parser, where the parsers are the basic one and
-- those that RegisterScopeType made, panics exactly if there is a raw required scope and no other.
pub apply_trust_defaults-panics :
    (from_json : ParseScope) (ts : List ScopeType) (c : TrustSetup)
    → c.scope_parser ≡ none
    → is_some (apply_trust_defaults (register_all from_json ts) c)
      ≡ not (is_some c.raw_required_scope && not (is_some c.required_scope))
unfolding apply_trust_defaults find_parser match_custom_parser match_scope_parser
apply_trust_defaults-panics from_json ts c h =
    let d = find_parser (register_all from_json ts) c in
    rw h (
      required_panics d c.required_scope c.raw_required_scope
        (no_trust_parser from_json ts (type_or_default c.scope_type)))
