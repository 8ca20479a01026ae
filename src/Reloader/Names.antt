-- ===== src/Reloader/Names.antt =====
-- The name of the Deployment, out of the name of a pod.
use golibs.Prelude.{
  ℕ, ◌-◌, ◌==◌, ==_iff, Bool-cases, false, List, [], ◌∷◌, ◌++◌, ◌≡◌, refl, ◌≢◌, inl, inr, Bytes,
  is_empty, length, length-append, ◌≤◌, arith, All,
}
use golibs.Exec.{ok}
use golibs.Reloader.{
  Config, Surroundings, trim_space, in_front, split, join, take, dash, from_parts, from_hostname,
  get_namespace, apply_defaults, validate_config, get_deployment, config_for,
}

join-in_front :
    (sep c : ℕ) (part : Bytes) (parts : List Bytes)
    → join sep (in_front c (part ∷ parts)) ≡ c ∷ join sep (part ∷ parts)
unfolding join
join-in_front sep c part [] = refl
join-in_front sep c part (q ∷ parts) = refl

in_front-append :
    (c : ℕ) (xs ys : List Bytes) → (1 ≤ length xs) → in_front c (xs ++ ys) ≡ in_front c xs ++ ys
in_front-append c [] ys h = ground arith
in_front-append c (x ∷ xs) ys h = refl

length-in_front : (c : ℕ) (xs : List Bytes) → length (in_front c xs) ≡ length xs
length-in_front c [] = refl
length-in_front c (x ∷ xs) = refl

length-split : (sep : ℕ) (s : Bytes) → 1 ≤ length (split sep s)
unfolding split
length-split sep [] = ground arith
length-split sep (c ∷ s) = ground (arith, length-split sep s, length-in_front c (split sep s))

join-cons :
    (sep c : ℕ) (parts : List Bytes)
    → 1 ≤ length parts
    → join sep (in_front c parts) ≡ c ∷ join sep parts
join-cons sep c [] h = ground arith
join-cons sep c (p ∷ parts) h = join-in_front sep c p parts

join-empty :
    (sep : ℕ) (parts : List Bytes) → 1 ≤ length parts → join sep ([] ∷ parts) ≡ sep ∷ join sep parts
unfolding join
join-empty sep [] h = ground arith
join-empty sep (p ∷ parts) h = refl

pub join-split : (sep : ℕ) (s : Bytes) → join sep (split sep s) ≡ s
unfolding split join
join-split sep [] = refl
join-split sep (c ∷ s) = ground (
  arith,
  ==_iff c sep,
  join-split sep s,
  length-split sep s,
  join-cons sep c (split sep s),
  join-empty sep (split sep s),
)

pub split-append : (sep : ℕ) (a b : Bytes) → split sep (a ++ (sep ∷ b)) ≡ split sep a ++ split sep b
unfolding split
split-append sep [] b = ground (arith, ==_iff sep sep)
split-append sep (c ∷ a) b =
    ground (
      arith,
      split-append sep a b,
      length-split sep a,
      in_front-append c (split sep a) (split sep b),
    )

split-plain : (sep : ℕ) (s : Bytes) → All (λ c. c ≢ sep) s → split sep s ≡ s ∷ []
unfolding split
split-plain sep [] h = refl
split-plain sep (c ∷ s) (n, h) = ground (arith, ==_iff c sep, split-plain sep s h)

take-append : (xs ys : List Bytes) → take (length xs) (xs ++ ys) ≡ xs
unfolding take
take-append [] [] = refl
take-append [] (y ∷ ys) = refl
take-append (x ∷ xs) ys = ground (arith, take-append xs ys)

take-front :
    (xs : List Bytes) (a b : Bytes)
    → take (length (xs ++ (a ∷ b ∷ [])) - 2) (xs ++ (a ∷ b ∷ [])) ≡ xs
take-front xs a b =
    let e : length (xs ++ (a ∷ b ∷ [])) - 2 ≡ length xs =
      ground (arith, length-append xs (a ∷ b ∷ [])) in
    rw e (take-append xs (a ∷ b ∷ []))

split-parts :
    (name hash replica : Bytes)
    → All (λ c. c ≢ dash) hash
    → All (λ c. c ≢ dash) replica
    → split dash (name ++ (dash ∷ hash ++ (dash ∷ replica)))
      ≡ split dash name ++ (hash ∷ replica ∷ [])
split-parts name hash replica h r =
    rw
      (
        split-append dash name (hash ++ (dash ∷ replica)),
        split-append dash hash replica,
        split-plain dash hash h,
        split-plain dash replica r,
      )
      refl

from_parts-front :
    (xs : List Bytes) (a b : Bytes)
    → 1 ≤ length xs
    → from_parts (xs ++ (a ∷ b ∷ [])) ≡ ok (join dash xs)
from_parts-front xs a b h = rw (take-front xs a b) (ground (arith, length-append xs (a ∷ b ∷ [])))

append-filled : (a b : Bytes) (c : ℕ) → is_empty (a ++ (c ∷ b)) ≡ false
append-filled [] b c = refl
append-filled (x ∷ a) b c = refl

from_hostname-name :
    (name hash replica : Bytes)
    → All (λ c. c ≢ dash) hash
    → All (λ c. c ≢ dash) replica
    → from_hostname (name ++ (dash ∷ hash ++ (dash ∷ replica))) ≡ ok name
from_hostname-name name hash replica h r =
    rw
      (
        append-filled name (hash ++ (dash ∷ replica)) dash,
        split-parts name hash replica h r,
        from_parts-front (split dash name) hash replica (length-split dash name),
        join-split dash name,
      )
      refl

-- Without a deployment in the configuration and without POD_NAME, a HOSTNAME that consists of a name,
-- dashes in it or not, and two further parts behind dashes that hold none, makes this name the
-- deployment of the configuration, whose namespace and files are there; the rest is that of the
-- configuration with its defaults.
pub config_for-name :
    (cfg : Config) (env : Surroundings) (name hash replica : Bytes)
    → is_empty cfg.namespace ≡ false
    → cfg.deployment ≡ []
    → is_empty cfg.files ≡ false
    → trim_space env.pod_name ≡ []
    → trim_space env.hostname ≡ name ++ (dash ∷ hash ++ (dash ∷ replica))
    → is_empty name ≡ false
    → All (λ c. c ≢ dash) hash
    → All (λ c. c ≢ dash) replica
    → config_for cfg env ≡ ok (record (apply_defaults cfg) { deployment = name })
unfolding config_for get_namespace get_deployment apply_defaults validate_config
config_for-name cfg env name hash replica ns d f p h n nh nr =
    elim (Bool-cases (cfg.interval == 0)) [
      | inl z ↦ rw (z, ns, d, p, h, from_hostname-name name hash replica nh nr, n, f, ns) refl
      | inr z ↦ rw (z, ns, d, p, h, from_hostname-name name hash replica nh nr, n, f, ns) refl
    ]
