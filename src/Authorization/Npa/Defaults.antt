-- ===== src/Authorization/Npa/Defaults.antt =====
-- Scopes that are configured as JSON, and ApplyDefaults of the middleware that needs them.
use golibs.Prelude.{
  Bool, false, ◌||◌, not, Option, none, some, List, [], ◌∷◌, ◌≡◌, refl, arith, is_empty, is_some,
  if◌then◌else◌, Bytes, Bool-cases, inl, inr,
}
use golibs.Access.{Scope}
use golibs.Authorization.Parsers.{ParseScope, Registry}
use golibs.Authorization.Npa.{
  AllowedNpa, NpaConfig, parse_raw, set_at, parse_npas, parse_all, find_parser, apply_npa_defaults,
  unparsed,
}

-- The scopes are left to be parsed: there are none, and some that are raw.
abbrev pub waits : Option (List Scope) → Option (List Bytes) → Bool
waits none (some raws) = not (is_empty raws)
waits none none = false
waits (some scopes) raws = false

unfoldable pub any_waits : List AllowedNpa → Bool
any_waits [] = false
any_waits (npa ∷ npas) = waits npa.scopes npa.raw_scopes || any_waits npas

parses_unparsed :
    (parser : Option ParseScope) (npa : AllowedNpa) (scopes : Option (List Scope))
    (raws : Option (List Bytes))
    → unparsed parser npa scopes raws ≡ (if waits scopes raws then none else some npa)
unfolding parse_raw set_at
parses_unparsed parser npa none (some []) = refl
parses_unparsed none npa none (some (r ∷ raws)) = refl
parses_unparsed (some p) npa none (some (r ∷ raws)) = refl
parses_unparsed parser npa none none = refl
parses_unparsed parser npa (some scopes) raws = refl

parses_npas :
    (parser : Option ParseScope) (npas : List AllowedNpa)
    → parse_npas parser npas ≡ (if any_waits npas then none else some npas)
unfolding parse_npas any_waits
parses_npas parser [] = refl
parses_npas parser (npa ∷ npas) =
    ground (arith, parses_unparsed parser npa npa.scopes npa.raw_scopes, parses_npas parser npas)

parses_all : (c : NpaConfig) → parse_all c ≡ (if any_waits c.allowed_npas then none else some c)
unfolding parse_all
parses_all c = ground (arith, parses_npas c.scope_parser c.allowed_npas)

applies :
    (registry : Registry) (cfg : NpaConfig)
    → cfg.scope_parser ≡ none
    → apply_npa_defaults registry cfg ≡ parse_all (find_parser registry cfg)
unfolding apply_npa_defaults
applies registry cfg h = ground arith

-- ApplyDefaults of a configuration without a parser, whatever parsers are registered, panics exactly
-- if an allowed account has raw scopes and no others; it never gives an account the scopes that its
-- raw ones stand for.
pub apply_npa_defaults-panics :
    (registry : Registry) (cfg : NpaConfig)
    → cfg.scope_parser ≡ none
    → (is_some (apply_npa_defaults registry cfg) ≡ not (any_waits cfg.allowed_npas))
      × ((c : NpaConfig)
          → apply_npa_defaults registry cfg ≡ some c
          → c.allowed_npas ≡ cfg.allowed_npas)
unfolding any_waits find_parser
apply_npa_defaults-panics registry cfg h =
    let found = find_parser registry cfg in
    elim (Bool-cases (any_waits cfg.allowed_npas)) [
      | inl waiting ↦ (
        rw (applies registry cfg h, parses_all found, waiting) refl,
        λ c e. cc (e, applies registry cfg h, parses_all found, waiting),
      )
      | inr done ↦ (
        rw (applies registry cfg h, parses_all found, done) refl,
        λ c e. ground (arith, e, applies registry cfg h, parses_all found, done),
      )
    ]
