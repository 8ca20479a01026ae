-- ===== src/Access/Basic.antt =====
-- pkg/access/scope/basic/basic.go: scopes of teams, environments, actions and roles.
pub mod Laws
use golibs.Prelude.{
  Bool, true, false, Option, none, some, List, [], ◌∷◌, ◌++◌, Bytes, is_empty, if◌then◌else◌,
}
use golibs.Errors.{Error, invalid}
use golibs.Access.{Scope}

pub record BasicScope : Type 0 where
  pub actions : List Bytes
  pub environments : List Bytes
  pub teams : List Bytes
  pub roles : List Bytes

-- Validate
unfoldable pub validate : BasicScope → Option Error
validate s =
    if is_empty s.actions
    then some (invalid 11)
    else (if is_empty s.environments
        then some (invalid 12)
        else (if is_empty s.teams
            then some (invalid 13)
            else (if is_empty s.roles then some (invalid 14) else none)))

-- The loops of AsLabels, the innermost first.
unfoldable pub role_labels : Bytes → Bytes → Bytes → List Bytes → List (List Bytes)
role_labels team environment action [] = []
role_labels team environment action (role ∷ roles) =
    (team ∷ environment ∷ action ∷ role ∷ []) ∷ role_labels team environment action roles

unfoldable pub action_labels : Bytes → Bytes → List Bytes → List Bytes → List (List Bytes)
unfolding role_labels
action_labels team environment [] roles = []
action_labels team environment (action ∷ actions) roles =
    (if is_empty roles
      then (team ∷ environment ∷ action ∷ []) ∷ []
      else role_labels team environment action roles)
    ++ action_labels team environment actions roles

unfoldable pub environment_labels : Bytes → List Bytes → List Bytes → List Bytes → List (List Bytes)
unfolding action_labels
environment_labels team [] actions roles = []
environment_labels team (environment ∷ environments) actions roles =
    action_labels team environment actions roles
    ++ environment_labels team environments actions roles

unfoldable pub team_labels : List Bytes → List Bytes → List Bytes → List Bytes → List (List Bytes)
unfolding environment_labels
team_labels [] environments actions roles = []
team_labels (team ∷ teams) environments actions roles =
    environment_labels team environments actions roles
    ++ team_labels teams environments actions roles

-- AsLabels
unfoldable pub as_labels : BasicScope → List (List Bytes)
unfolding team_labels
as_labels s = team_labels s.teams s.environments s.actions s.roles

-- A basic scope as a scope.Scope.
abbrev pub as_scope : BasicScope → Scope
as_scope s = record { validate = validate s; as_labels = as_labels s }
