-- ===== src/Authorization/Npa/Named.antt =====
-- The account that the middleware of accounts without a person gives to a request.
use golibs.Prelude.{
  true, Option, none, some, List, [], ◌∷◌, ◌≡◌, refl, ◌∙◌, arith, Bytes, bytes_key, bytes_eqb,
  if◌then◌else◌, value_or, Bool-cases, inl, inr, Key,
}
use golibs.Errors.{Error}
use golibs.GoMap.{GoMap, lookup}
use golibs.GoMap
use golibs.GoMap.Laws.{lookup-store}
use golibs.Slices.{map_from, to_map}
use golibs.Access.{Scope, validate_scopes, validate_account, set_trust}
use golibs.Authorization.{GinRequest, Replies, Handler, trusted_as}
use golibs.Authorization.Npa.{
  AllowedNpa, NpaConfig, account_of, authenticated, npa_middleware, check_scopes, validate_npas,
  validate,
}

module _ {ℓ} {E T : Type ℓ} ⦃o : Key T⦄ where
  -- The last element with the key, or else what was there.
  unfoldable pub last_with : Option E → T → (E → T) → List E → Option E
  last_with before k key [] = before
  last_with before k key (x ∷ s) = last_with (if o.eqb (key x) k then some x else before) k key s

  lookup-map_from :
      (m : GoMap T E) (s : List E) (key : E → T) (k : T)
      → lookup k (map_from m s key) ≡ last_with (lookup k m) k key s
  unfolding map_from last_with
  lookup-map_from m [] key k = refl
  lookup-map_from m (x ∷ s) key k =
      lookup-map_from (GoMap.store (key x) x m) s key k ∙ rw (lookup-store (key x) k x m) refl

  -- Map of a slice gives each key the last element that has it.
  pub lookup-to_map :
      (s : List E) (key : E → T) (k : T) → lookup k (to_map s key) ≡ last_with none k key s
  unfolding to_map lookup
  lookup-to_map s key k = lookup-map_from [] s key k

checked :
    (scopes : Option (List Scope)) (next : Option Error)
    → check_scopes scopes next ≡ none
    → (validate_scopes (value_or scopes []) ≡ none) × (next ≡ none)
unfolding check_scopes
checked none next h = cc
checked (some scopes) next h = ground arith

head-valid :
    (npa : AllowedNpa) (npas : List AllowedNpa)
    → validate_npas (npa ∷ npas) ≡ none
    → (validate_scopes (value_or npa.scopes []) ≡ none) × (validate_npas npas ≡ none)
unfolding validate_npas
head-valid npa npas v = checked npa.scopes (validate_npas npas) (ground arith)

all-valid :
    (cfg : NpaConfig)
    → cfg.enabled ≡ true
    → validate cfg ≡ none
    → validate_npas cfg.allowed_npas ≡ none
unfolding validate
all-valid cfg on v = ground arith

-- The last entry whose name is the wanted one, but for upper and lower case.
abbrev pub allowed_as : (Bytes → Bytes) → Bytes → List AllowedNpa → Option AllowedNpa
allowed_as to_lower name npas = last_with none (to_lower name) (λ item. to_lower item.name) npas

-- The request goes on: as it came, or with the account of an allowed name.
abbrev pub goes_on : {R : Type 0} → Handler R → Bytes → GinRequest → Option AllowedNpa → R
goes_on next name c none = next c
goes_on next name c (some auth) = next (record c { ctx = some (account_of name auth) })

module _ {R : Type 0} (replies : Replies R) (to_lower : Bytes → Bytes) (next : Handler R) where
  last-valid :
      (before : Option AllowedNpa) (k : Bytes) (npas : List AllowedNpa)
      → validate_npas npas ≡ none
      → ((a : AllowedNpa) → before ≡ some a → validate_scopes (value_or a.scopes []) ≡ none)
      → (a : AllowedNpa) → last_with before k (λ item. to_lower item.name) npas ≡ some a
      → validate_scopes (value_or a.scopes []) ≡ none
  unfolding validate_npas last_with
  last-valid before k [] v h a e = h a e
  last-valid before k (npa ∷ npas) v h a e =
      let tested = bytes_eqb (to_lower npa.name) k in
      last-valid (if tested then some npa else before) k npas (head-valid npa npas v).1
        (λ b f. elim (Bool-cases tested) [
          | inl q ↦ ground (arith, q, f, head-valid npa npas v)
          | inr q ↦ h b (ground (arith, q, f))
        ])
        a e

  trusts :
      (name : Bytes) (auth : AllowedNpa) (c : GinRequest)
      → validate_scopes (value_or auth.scopes []) ≡ none
      → trusted_as replies (account_of name auth) next c
        ≡ next (record c { ctx = some (account_of name auth) })
  unfolding trusted_as set_trust validate_account
  trusts name auth c v = ground arith

  given :
      (name : Bytes) (c : GinRequest) (r : Option AllowedNpa)
      → ((a : AllowedNpa) → r ≡ some a → validate_scopes (value_or a.scopes []) ≡ none)
      → authenticated replies to_lower name next r c ≡ goes_on next name c r
  given name c none h = refl
  given name c (some auth) h = trusts name auth c (h auth refl)

  -- Behind a valid configuration every request goes on: with the account of the last allowed entry
  -- whose name is that of the header, but for upper and lower case, with the name as the header
  -- gives it and the scopes of the entry; and with the account it had before if there is none.
  pub npa_middleware-named :
      (cfg : NpaConfig) (c : GinRequest)
      → cfg.enabled ≡ true
      → validate cfg ≡ none
      → npa_middleware replies to_lower cfg next c
        ≡ goes_on next
            (c.header cfg.header)
            c
            (allowed_as to_lower (c.header cfg.header) cfg.allowed_npas)
  unfolding npa_middleware
  npa_middleware-named cfg c on v =
      let name = c.header cfg.header in
      rw (on, lookup-to_map cfg.allowed_npas (λ item. to_lower item.name) (to_lower name))
        (given name c (allowed_as to_lower name cfg.allowed_npas)
          (last-valid none (to_lower name) cfg.allowed_npas (all-valid cfg on v) (λ a e. cc)))
