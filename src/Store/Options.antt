-- ===== src/Store/Options.antt =====
-- pkg/store/options.go: the options that a request carries, and how a store finds and consumes them.
-- An option is a value of any type; the code tells options apart by their type and, for the keyed
-- ones, by their key. Slices are values here: what a callee writes into the array of a slice that
-- its caller still reads is not modelled.
pub mod Matching
pub mod Exhausted
pub mod Serialized
use golibs.Prelude.{
  ℕ, Bool, true, false, ◌&&◌, ◌||◌, not, Option, none, some, Bytes, codes, Key, bytes_eqb,
  if◌then◌else◌, value_or, List, [], ◌∷◌, ◌++◌,
}
use golibs.Errors.{Error, wrap, sentinel, unsupported_option}

-- `nil_option` is a nil interface value, `nested` a []Option inside the slice, `other n` a value of
-- a type that no store of this model knows.
mutual
  pub data StoreOption : Type 0 where
    nil_option : StoreOption
    bool_option : Bytes → Bool → StoreOption
    string_option : Bytes → Bytes → StoreOption
    map_option : Bytes → List (Bytes × Bytes) → StoreOption
    skip_cache : Bool → StoreOption
    rollback : StoreOption
    other : ℕ → StoreOption
    nested : StoreOptions → StoreOption

  pub data StoreOptions : Type 0 where
    nil : StoreOptions
    cons : StoreOption → StoreOptions → StoreOptions

abbrev pub is_nil : StoreOptions → Bool
is_nil nil = true
is_nil (cons x rest) = false

-- append(opts, x)
unfoldable pub append_option : StoreOptions → StoreOption → StoreOptions
append_option nil x = cons x nil
append_option (cons y ys) x = cons y (append_option ys x)

abbrev pub accept : {T : Type 0} → (T → Bool) → Option T → Option T
accept p none = none
accept p (some v) = if p v then some v else none

-- What a nested search says: the option and the slice that is left of the nested one.
abbrev pub found_in : {T : Type 0} → Option T × StoreOptions → Option (T × StoreOptions)
found_in (none, xs) = none
found_in (some v, xs) = some (v, xs)

-- The loop of MatchOptionBy over `x ∷ rest`, given what the nested search in `x` and the rest of
-- the loop return.
pub match_step :
    {T : Type 0}
    → Bool
    → StoreOption
    → StoreOptions
    → Option T
    → Option (T × StoreOptions)
    → Option T × StoreOptions
    → Option T × StoreOptions
match_step skip x rest (some v) inner later = (some v, if skip then cons x rest else rest)
match_step skip x rest none (some (v, xs)) later =
    (some v, if not skip && is_nil xs then rest else cons (nested xs) rest)
match_step skip x rest none none later = (later.0, cons x later.1)

-- MatchOptionBy[T]; `cast` is the type assertion to T. The nested call is made without the
-- configuration, so it always consumes.
unfoldable mutual
  unfolding match_step

  pub match_option_by :
      {T : Type 0}
      → (StoreOption → Option T)
      → (T → Bool)
      → Bool
      → StoreOptions
      → Option T × StoreOptions
  match_option_by cast p skip nil = (none, nil)
  match_option_by cast p skip (cons x rest) =
      match_step skip x rest (accept p (cast x)) (match_nested cast p x)
        (match_option_by cast p skip rest)

  pub match_nested :
      {T : Type 0} → (StoreOption → Option T) → (T → Bool) → StoreOption → Option (T × StoreOptions)
  match_nested cast p (nested xs) = found_in (match_option_by cast p false xs)
  match_nested cast p _ = none

-- MatchOption[T]
unfoldable pub match_option :
    {T : Type 0} → (StoreOption → Option T) → Bool → StoreOptions → Option T × StoreOptions
unfolding match_option_by
match_option cast skip opts = match_option_by cast (λ v. true) skip opts

-- The type assertions to BoolOption, StringOption, MapStringOfStrings and SkipCache.
abbrev pub as_bool_option : StoreOption → Option (Bytes × Bool)
as_bool_option (bool_option key b) = some (key, b)
as_bool_option _ = none

abbrev pub as_string_option : StoreOption → Option (Bytes × Bytes)
as_string_option (string_option key s) = some (key, s)
as_string_option _ = none

abbrev pub as_map_option : StoreOption → Option (Bytes × List (Bytes × Bytes))
as_map_option (map_option key m) = some (key, m)
as_map_option _ = none

abbrev pub as_skip_cache : StoreOption → Option Bool
as_skip_cache (skip_cache b) = some b
as_skip_cache _ = none

abbrev second {ℓ} : {A B : Type ℓ} → Option (A × B) → Option B
second none = none
second (some (a, b)) = some b

-- The matchers that SerializableBoolOptionBuilder, SerializableStringOptionBuilder and
-- SerializableMapStringOfStringsBuilder return for a key.
unfoldable pub match_bool : Bytes → StoreOptions → Option Bool × StoreOptions
unfolding match_option_by bytes_eqb
match_bool key opts =
    let (found, left) = match_option_by as_bool_option (λ v. bytes_eqb v.0 key) false opts in
    (second found, left)

unfoldable pub match_string : Bytes → StoreOptions → Option Bytes × StoreOptions
unfolding match_option_by bytes_eqb
match_string key opts =
    let (found, left) = match_option_by as_string_option (λ v. bytes_eqb v.0 key) false opts in
    (second found, left)

unfoldable pub match_map : Bytes → StoreOptions → Option (List (Bytes × Bytes)) × StoreOptions
unfolding match_option_by bytes_eqb
match_map key opts =
    let (found, left) = match_option_by as_map_option (λ v. bytes_eqb v.0 key) false opts in
    (second found, left)

abbrev pub with_dry_run : Bool → StoreOption
with_dry_run b = bool_option (codes "dryRun") b

abbrev pub dry_run : StoreOption
dry_run = with_dry_run true

abbrev pub with_prefix : Bytes → StoreOption
with_prefix s = string_option (codes "prefix") s

abbrev pub with_list_key_only : Bool → StoreOption
with_list_key_only b = bool_option (codes "keysOnly") b

unfoldable pub match_dry_run : StoreOptions → Option Bool × StoreOptions
unfolding match_bool
match_dry_run = match_bool (codes "dryRun")

unfoldable pub match_prefix : StoreOptions → Option Bytes × StoreOptions
unfolding match_string
match_prefix = match_string (codes "prefix")

unfoldable pub match_list_key_only : StoreOptions → Option Bool × StoreOptions
unfolding match_bool
match_list_key_only = match_bool (codes "keysOnly")

-- cache.MatchSkipCache, of SerializableOptionBuilder[SkipCache].
unfoldable pub match_skip_cache : StoreOptions → Option Bool × StoreOptions
unfolding match_option
match_skip_cache = match_option as_skip_cache false

abbrev is_not_nil : StoreOption → Bool
is_not_nil nil_option = false
is_not_nil _ = true

-- goslices.ContainsFunc(v, o != nil)
unfoldable pub contains_not_nil : StoreOptions → Bool
contains_not_nil nil = false
contains_not_nil (cons x rest) = is_not_nil x || contains_not_nil rest

abbrev pub remains : StoreOption → Bool
remains nil_option = false
remains (nested xs) = contains_not_nil xs
remains _ = true

unfoldable pub any_remains : StoreOptions → Bool
unfolding contains_not_nil
any_remains nil = false
any_remains (cons x rest) = remains x || any_remains rest

abbrev pub err_unsupported_option : Error
err_unsupported_option = sentinel unsupported_option

-- CheckOptionsExhausted; `none` is a nil error.
unfoldable pub check_options_exhausted : StoreOptions → Option Error
unfolding any_remains
check_options_exhausted opts = if any_remains opts then some (wrap err_unsupported_option) else none
