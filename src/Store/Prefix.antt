-- ===== src/Store/Prefix.antt =====
-- pkg/store/middleware/prefix/prefix.go: a store whose keys carry a prefix in the store behind it.
pub mod Stripping
pub mod Refines
use golibs.Prelude.{
  Bool, true, false, none, some, List, [], ◌∷◌, ◌++◌, Bytes, trim_prefix, if◌then◌else◌, is_some,
  is_empty,
}
use golibs.Errors.{Error, invalid}
use golibs.Exec.{Result, ok, err, Exec, continue, pure}
use golibs.Store.{Store, ListItem}
use golibs.Store.Options.{StoreOptions, append_option, match_prefix, with_prefix}

abbrev pub err_empty_prefix : Error
err_empty_prefix = invalid 1

abbrev pub err_prefix_option : Error
err_prefix_option = invalid 2

module _ {V : Type 0} where
  -- The loop of List that strips the keys.
  unfoldable pub strip : Bytes → List (ListItem Bytes V) → List (ListItem Bytes V)
  unfolding trim_prefix
  strip p [] = []
  strip p (x ∷ xs) = record x { key = trim_prefix x.key p } ∷ strip p xs

  module _ {S : Type 0} (inner : Store S Bytes V) (p : Bytes) where
    -- List
    unfoldable pub prefix_list : StoreOptions → Exec S (List (ListItem Bytes V))
    prefix_list opts s =
        let m = match_prefix opts in
        if is_some m.0
        then (err err_prefix_option, s)
        else continue (inner.list (append_option m.1 (with_prefix p)) s)
            (λ items. pure (strip p items))

    abbrev pub prefixed : Store S Bytes V
    prefixed = record {
      create = λ key value opts. inner.create (p ++ key) value opts;
      read = λ key opts. inner.read (p ++ key) opts;
      update = λ key value opts. inner.update (p ++ key) value opts;
      apply = λ key value opts. inner.apply (p ++ key) value opts;
      delete = λ key opts. inner.delete (p ++ key) opts;
      list = prefix_list;
    }

    -- New
    unfoldable pub new_prefix : Result (Store S Bytes V)
    new_prefix = if is_empty p then err err_empty_prefix else ok prefixed
