-- ===== src/Reloader/Rooted.antt =====
-- The file system that the files of a valid configuration are looked up in.
use golibs.Prelude.{
  true, false, Bool-cases, none, List, [], ◌∷◌, ◌≡◌, inl, inr, Bytes, codes, has_prefix, All, arith,
}
use golibs.Reloader.{Config, Client, is_root_fs, has_non_root, validate}

all_rooted :
    (files : List Bytes)
    → has_non_root files ≡ false
    → All (λ f. has_prefix f (codes "/") ≡ true) files
unfolding has_non_root
all_rooted [] h = tt
all_rooted (f ∷ files) h = (ground arith, all_rooted files (ground arith))

none_rooted :
    (files : List Bytes)
    → is_root_fs files ≡ false
    → All (λ f. has_prefix f (codes "/") ≡ false) files
unfolding is_root_fs
none_rooted [] h = tt
none_rooted (f ∷ files) h = (ground arith, none_rooted files (ground arith))

-- When Validate of the reloader returns no error, each file of the configuration is absolute when
-- dirFS is the root, and relative when it is the working directory.
pub validate-Rooted :
    {R : Type 0} (client : Client R) (c : Config)
    → validate client c ≡ none
    → All (λ f. has_prefix f (codes "/") ≡ is_root_fs c.files) c.files
unfolding validate
validate-Rooted client c h = elim (Bool-cases (is_root_fs c.files)) [
  | inl r ↦ rw r (all_rooted c.files (ground arith))
  | inr r ↦ rw r (none_rooted c.files r)
]
