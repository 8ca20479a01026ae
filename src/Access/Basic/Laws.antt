-- ===== src/Access/Basic/Laws.antt =====
-- What basic scopes grant.
use golibs.Prelude.{
  Bool, true, false, ◌||◌, ◌&&◌, List, [], ◌∷◌, Bytes, bytes_eqb, ◌≡◌, refl, ap₂, ◌∙◌, arith, All,
  All-append, is_empty, map,
}
use golibs.Access.{Scope, match_scope}
use golibs.Access.Node.{wildcard}
use golibs.Access.Node.Laws.{NoLonger, matches, any_matches, any_matches-append}
use golibs.Access.Review.{
  granted, all_granted, all_granted-append, FitsRequest, AllReach, match_scope-granted,
}
use golibs.Access.Basic.{
  BasicScope, role_labels, action_labels, environment_labels, team_labels, as_labels, as_scope,
}

-- The label is in the list, or the list has a wildcard.
unfoldable pub grants : List Bytes → Bytes → Bool
grants [] b = false
grants (a ∷ l) b = (bytes_eqb a b || bytes_eqb a wildcard) || grants l b

-- The scope grants a team, an environment, an action and a role.
unfoldable pub covers : BasicScope → Bytes → Bytes → Bytes → Bytes → Bool
unfolding grants
covers s t e a r =
    grants s.teams t && grants s.environments e && grants s.actions a && grants s.roles r

abbrev one : Bytes → Bytes → Bool
one a b = bytes_eqb a b || bytes_eqb a wildcard

module _ (t e a r : Bytes) where
  abbrev asked : List Bytes
  asked = t ∷ e ∷ a ∷ r ∷ []

  any-role_labels :
      (team environment action : Bytes) (roles : List Bytes)
      → any_matches (role_labels team environment action roles) asked
        ≡ (one team t && one environment e && one action a && grants roles r)
  unfolding role_labels any_matches matches grants
  any-role_labels team environment action [] = ground arith
  any-role_labels team environment action (x ∷ xs) =
      ground (arith, any-role_labels team environment action xs)

  any-action_labels :
      (team environment : Bytes) (actions roles : List Bytes)
      → is_empty roles ≡ false
      → any_matches (action_labels team environment actions roles) asked
        ≡ (one team t && one environment e && grants actions a && grants roles r)
  unfolding action_labels any_matches grants
  any-action_labels team environment [] roles h = ground arith
  any-action_labels team environment (x ∷ xs) roles h = rw h (
      ground (
        arith,
        any_matches-append (role_labels team environment x roles)
            (action_labels team environment xs roles) asked,
        any-role_labels team environment x roles,
        any-action_labels team environment xs roles h,
      ))

  any-environment_labels :
      (team : Bytes) (environments actions roles : List Bytes)
      → is_empty roles ≡ false
      → any_matches (environment_labels team environments actions roles) asked
        ≡ (one team t && grants environments e && grants actions a && grants roles r)
  unfolding environment_labels any_matches grants
  any-environment_labels team [] actions roles h = ground arith
  any-environment_labels team (x ∷ xs) actions roles h = ground (
    arith,
    any_matches-append (action_labels team x actions roles)
        (environment_labels team xs actions roles) asked,
    any-action_labels team x actions roles h,
    any-environment_labels team xs actions roles h,
  )

  any-team_labels :
      (teams environments actions roles : List Bytes)
      → is_empty roles ≡ false
      → any_matches (team_labels teams environments actions roles) asked
        ≡ (grants teams t && grants environments e && grants actions a && grants roles r)
  unfolding team_labels any_matches grants
  any-team_labels [] environments actions roles h = refl
  any-team_labels (x ∷ xs) environments actions roles h = ground (
    arith,
    any_matches-append (environment_labels x environments actions roles)
        (team_labels xs environments actions roles) asked,
    any-environment_labels x environments actions roles h,
    any-team_labels xs environments actions roles h,
  )

  any-as_labels :
      (s : BasicScope)
      → is_empty s.roles ≡ false
      → any_matches (as_labels s) asked ≡ covers s t e a r
  unfolding as_labels covers
  any-as_labels s h = any-team_labels s.teams s.environments s.actions s.roles h

  -- Some scope of the list covers the four.
  pub any_covers : List BasicScope → Bool
  any_covers [] = false
  any_covers (s ∷ ss) = covers s t e a r || any_covers ss

  -- Every scope of the list names a role.
  granted-covers :
      (ss : List BasicScope)
      → All (λ s. is_empty s.roles ≡ false) ss
      → granted (map as_scope ss) asked ≡ any_covers ss
  unfolding granted any_covers
  granted-covers [] h = refl
  granted-covers (s ∷ ss) h = ground (arith, any-as_labels s h.0, granted-covers ss h.1)

-- Every scope of the list names a role.
abbrev pub NameRoles : List BasicScope → Type 0
NameRoles = All (λ s. is_empty s.roles ≡ false)

-- All sequences of a scope that names a role have four labels, as a request has.
module _ (t e a r : Bytes) where
  reach-role_labels :
      (team environment action : Bytes) (roles : List Bytes)
      → All (NoLonger (asked t e a r)) (role_labels team environment action roles)
  unfolding role_labels
  reach-role_labels team environment action [] = tt
  reach-role_labels team environment action (x ∷ xs) =
      (tt, reach-role_labels team environment action xs)

  reach-action_labels :
      (team environment : Bytes) (actions roles : List Bytes)
      → is_empty roles ≡ false
      → All (NoLonger (asked t e a r)) (action_labels team environment actions roles)
  unfolding action_labels
  reach-action_labels team environment [] roles h = tt
  reach-action_labels team environment (x ∷ xs) roles h = rw h (
      All-append _ (role_labels team environment x roles) _
        (reach-role_labels team environment x roles)
        (reach-action_labels team environment xs roles h))

  reach-environment_labels :
      (team : Bytes) (environments actions roles : List Bytes)
      → is_empty roles ≡ false
      → All (NoLonger (asked t e a r)) (environment_labels team environments actions roles)
  unfolding environment_labels
  reach-environment_labels team [] actions roles h = tt
  reach-environment_labels team (x ∷ xs) actions roles h =
      All-append _ (action_labels team x actions roles) _
        (reach-action_labels team x actions roles h)
        (reach-environment_labels team xs actions roles h)

  reach-team_labels :
      (teams environments actions roles : List Bytes)
      → is_empty roles ≡ false
      → All (NoLonger (asked t e a r)) (team_labels teams environments actions roles)
  unfolding team_labels
  reach-team_labels [] environments actions roles h = tt
  reach-team_labels (x ∷ xs) environments actions roles h =
      All-append _ (environment_labels x environments actions roles) _
        (reach-environment_labels x environments actions roles h)
        (reach-team_labels xs environments actions roles h)

  reach-scopes : (ss : List BasicScope) → NameRoles ss → AllReach (asked t e a r) (map as_scope ss)
  unfolding as_labels
  reach-scopes [] h = tt
  reach-scopes (s ∷ ss) h =
      (reach-team_labels s.teams s.environments s.actions s.roles h.0, reach-scopes ss h.1)

-- The loops over a request: what holds of every element.
unfoldable pub every : (Bytes → Bool) → List Bytes → Bool
every p [] = true
every p (x ∷ xs) = p x && every p xs

-- Every combination of the request is covered by one scope.
abbrev pub all_covered : List BasicScope → BasicScope → Bool
all_covered allowed q =
    every
      (λ t.
        every (λ e. every (λ a. every (λ r. any_covers t e a r allowed) q.roles) q.actions)
          q.environments)
      q.teams

module _ (allowed : List BasicScope) (named : NameRoles allowed) where
  abbrev scopes : List Scope
  scopes = map as_scope allowed

  asked_roles :
      (t e a : Bytes) (roles : List Bytes)
      → (all_granted scopes (role_labels t e a roles)
          ≡ every (λ r. any_covers t e a r allowed) roles)
        × All (FitsRequest scopes) (role_labels t e a roles)
  unfolding role_labels all_granted every
  asked_roles t e a [] = (refl, tt)
  asked_roles t e a (r ∷ rs) = (
    ground (arith, granted-covers t e a r allowed named, (asked_roles t e a rs).0),
    ((tt, reach-scopes t e a r allowed named), (asked_roles t e a rs).1),
  )

  asked_actions :
      (t e : Bytes) (actions roles : List Bytes)
      → is_empty roles ≡ false
      → (all_granted scopes (action_labels t e actions roles)
          ≡ every (λ a. every (λ r. any_covers t e a r allowed) roles) actions)
        × All (FitsRequest scopes) (action_labels t e actions roles)
  unfolding action_labels all_granted every
  asked_actions t e [] roles h = (refl, tt)
  asked_actions t e (a ∷ actions) roles h = rw h (
    all_granted-append scopes (role_labels t e a roles) (action_labels t e actions roles)
        ∙ ap₂ ◌&&◌ (asked_roles t e a roles).0 (asked_actions t e actions roles h).0,
    All-append _ (role_labels t e a roles) _ (asked_roles t e a roles).1
        (asked_actions t e actions roles h).1,
  )

  asked_environments :
      (t : Bytes) (environments actions roles : List Bytes)
      → is_empty roles ≡ false
      → (all_granted scopes (environment_labels t environments actions roles)
          ≡ every
              (λ e. every (λ a. every (λ r. any_covers t e a r allowed) roles) actions)
              environments)
        × All (FitsRequest scopes) (environment_labels t environments actions roles)
  unfolding environment_labels all_granted every
  asked_environments t [] actions roles h = (refl, tt)
  asked_environments t (e ∷ environments) actions roles h = (
    all_granted-append scopes (action_labels t e actions roles)
          (environment_labels t environments actions roles)
        ∙ ap₂ ◌&&◌ (asked_actions t e actions roles h).0
            (asked_environments t environments actions roles h).0,
    All-append _ (action_labels t e actions roles) _ (asked_actions t e actions roles h).1
        (asked_environments t environments actions roles h).1,
  )

  asked_teams :
      (teams environments actions roles : List Bytes)
      → is_empty roles ≡ false
      → (all_granted scopes (team_labels teams environments actions roles)
          ≡ every
              (λ t.
                every
                  (λ e. every (λ a. every (λ r. any_covers t e a r allowed) roles) actions)
                  environments)
              teams)
        × All (FitsRequest scopes) (team_labels teams environments actions roles)
  unfolding team_labels all_granted every
  asked_teams [] environments actions roles h = (refl, tt)
  asked_teams (t ∷ teams) environments actions roles h = (
    all_granted-append scopes (environment_labels t environments actions roles)
          (team_labels teams environments actions roles)
        ∙ ap₂ ◌&&◌ (asked_environments t environments actions roles h).0
            (asked_teams teams environments actions roles h).0,
    All-append _ (environment_labels t environments actions roles) _
        (asked_environments t environments actions roles h).1
        (asked_teams teams environments actions roles h).1,
  )

  -- MatchScope over basic scopes that all name a role, the requested one too: the request is
  -- allowed exactly if for each of its combinations of a team, an environment, an action and a role
  -- some one scope has each of the four, by name or by a wildcard.
  pub match_scope-covered :
      (requested : BasicScope)
      → is_empty requested.roles ≡ false
      → match_scope (map as_scope allowed) (as_scope requested) ≡ all_covered allowed requested
  unfolding as_labels
  match_scope-covered q h =
      let g = asked_teams q.teams q.environments q.actions q.roles h in
      match_scope-granted scopes (as_scope q) g.1 ∙ g.0
