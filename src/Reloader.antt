-- ===== src/Reloader.antt =====
-- pkg/reloader/reloader.go: the configuration of the reloader, the Deployment that it takes from the
-- environment, and the annotations that it writes. Files of the file system, the environment and the
-- Kubernetes client are arguments; strings.TrimSpace is for ASCII.
pub mod Names
pub mod Rooted
mod Examples
use Prim.Native.Nat.{◌%◌}
use golibs.Prelude.{
  ℕ, zero, suc, ◌-◌, ◌+◌, ◌/◌, Bool, true, false, not, ◌&&◌, ◌||◌, ◌==◌, leb, ltb, Option, none,
  some, List, [], ◌∷◌, ◌++◌, Bytes, bytes_key, codes, has_prefix, is_empty, length, if◌then◌else◌,
}
use golibs.Errors.{Error, invalid, wrap}
use golibs.Exec.{Result, ok, err}
use golibs.GoMap.{store}

-- The interval is in seconds.
pub record Config : Type 0 where
  pub namespace : Bytes
  pub deployment : Bytes
  pub files : List Bytes
  pub interval : ℕ

-- The namespace file of the service account, and the variables POD_NAME and HOSTNAME.
pub record Surroundings : Type 0 where
  pub namespace_file : Result Bytes
  pub pod_name : Bytes
  pub hostname : Bytes

unfoldable pub is_space : ℕ → Bool
is_space c = (leb 9 c && leb c 13) || (c == 32)

unfoldable pub trim_left : Bytes → Bytes
trim_left [] = []
trim_left (c ∷ s) = let rest = trim_left s in if is_space c then rest else c ∷ s

unfoldable pub trim_right : Bytes → Bytes
trim_right [] = []
trim_right (c ∷ s) = let rest = trim_right s in if is_space c && is_empty rest then [] else c ∷ rest

-- strings.TrimSpace
abbrev pub trim_space : Bytes → Bytes
trim_space s = trim_right (trim_left s)

abbrev pub in_front : ℕ → List Bytes → List Bytes
in_front c [] = []
in_front c (part ∷ parts) = (c ∷ part) ∷ parts

-- strings.Split
unfoldable pub split : ℕ → Bytes → List Bytes
split sep [] = [] ∷ []
split sep (c ∷ s) = let rest = split sep s in if c == sep then [] ∷ rest else in_front c rest

-- strings.Join
unfoldable pub join : ℕ → List Bytes → Bytes
join sep [] = []
join sep (part ∷ []) = part
join sep (part ∷ q ∷ parts) = part ++ (sep ∷ join sep (q ∷ parts))

unfoldable pub take : ℕ → List Bytes → List Bytes
take zero parts = []
take (suc n) [] = []
take (suc n) (part ∷ parts) = part ∷ take n parts

abbrev pub dash : ℕ
dash = 45

abbrev read_namespace : Result Bytes → Result Bytes
read_namespace (ok b) = ok (trim_space b)
read_namespace (err e) = err (wrap e)

-- GetNamespace
unfoldable pub get_namespace : Config → Surroundings → Result Bytes
unfolding trim_left trim_right
get_namespace c env =
    if is_empty c.namespace then read_namespace env.namespace_file else ok c.namespace

-- The name in front of the last two parts of a hostname.
abbrev pub from_parts : List Bytes → Result Bytes
from_parts parts =
    if leb (length parts) 2
    then err (invalid 71)
    else ok (join dash (take (length parts - 2) parts))

abbrev pub from_hostname : Bytes → Result Bytes
from_hostname hostname =
    if is_empty hostname then err (invalid 70) else from_parts (split dash hostname)

-- GetDeployment
unfoldable pub get_deployment : Config → Surroundings → Result Bytes
unfolding split join take
get_deployment c env =
    if is_empty c.deployment
    then (if is_empty (trim_space env.pod_name)
        then from_hostname (trim_space env.hostname)
        else ok (trim_space env.pod_name))
    else ok c.deployment

-- ApplyDefaults
unfoldable pub apply_defaults : Config → Config
apply_defaults c = if c.interval == 0 then record c { interval = 60 } else c

-- Validate of the configuration.
unfoldable pub validate_config : Config → Option Error
validate_config c =
    if is_empty c.namespace
    then some (invalid 72)
    else (if is_empty c.deployment
        then some (invalid 73)
        else (if is_empty c.files then some (invalid 74) else none))

abbrev checked : Config → Option Error → Result Config
checked c none = ok c
checked c (some e) = err (wrap e)

abbrev with_deployment : Config → Result Bytes → Result Config
with_deployment c (err e) = err (wrap e)
with_deployment c (ok d) = let r = record c { deployment = d } in checked r (validate_config r)

abbrev with_namespace : Config → Surroundings → Result Bytes → Result Config
with_namespace c env (err e) = err (wrap e)
with_namespace c env (ok ns) =
    let r = record c { namespace = ns } in with_deployment r (get_deployment r env)

-- NewForConfig, up to the Kubernetes client and the options.
unfoldable pub config_for : Config → Surroundings → Result Config
unfolding apply_defaults validate_config
config_for cfg env = let c = apply_defaults cfg in with_namespace c env (get_namespace c env)

-- The Deployment of Kubernetes: the annotations of its template, and the rest of it.
pub record Deployment (R : Type 0) : Type 0 where
  pub annotations : List (Bytes × Bytes)
  pub rest : R

-- Get of a namespace and a name, and Update, with its dry-run option, in a namespace.
pub record Client (R : Type 0) : Type 0 where
  pub get : Bytes → Bytes → Result (Deployment R)
  pub update : Bytes → Deployment R → Bool → Option Error

abbrev hex_digit : ℕ → ℕ
hex_digit d = if ltb d 10 then 48 + d else 87 + d

-- %x
unfoldable pub hex : Bytes → Bytes
hex [] = []
hex (c ∷ s) = hex_digit (c / 16) ∷ hex_digit (c % 16) ∷ hex s

unfoldable pub cut : ℕ → Bytes → Bytes
cut zero s = []
cut (suc n) [] = []
cut (suc n) (c ∷ s) = c ∷ cut n s

-- UpdateHashAnnotation
unfoldable pub update_hash_annotation : {R : Type 0} → Deployment R → Bytes → Bytes → Deployment R
unfolding hex cut
update_hash_annotation dep filename hash = record dep {
  annotations = store (cut 42 (codes "hash/" ++ hex filename)) (hex hash) dep.annotations;
}

-- Whether dirFS is the root of the file system and not the working directory.
unfoldable pub is_root_fs : List Bytes → Bool
unfolding has_prefix
is_root_fs [] = false
is_root_fs (file ∷ files) = has_prefix file (codes "/") || is_root_fs files

-- nonRootFS of the loop of Validate.
unfoldable pub has_non_root : List Bytes → Bool
unfolding has_prefix
has_non_root [] = false
has_non_root (file ∷ files) = not (has_prefix file (codes "/")) || has_non_root files

module _ {R : Type 0} (client : Client R) where
  abbrev dry_run_update : Config → Result (Deployment R) → Option Error
  dry_run_update c (err e) = some e
  dry_run_update c (ok dep) =
      client.update c.namespace
        (update_hash_annotation dep (codes "reloader-dry-run") (codes "any")) true

  -- Validate of the reloader. The flag rootFS is the test of dirFS.
  unfoldable pub validate : Config → Option Error
  unfolding is_root_fs has_non_root
  validate c =
      if is_root_fs c.files && has_non_root c.files
      then some (invalid 75)
      else dry_run_update c (client.get c.namespace c.deployment)
