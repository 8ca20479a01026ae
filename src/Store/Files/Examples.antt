-- ===== src/Store/Files/Examples.antt =====
-- The theorems on files, for texts in a directory.
use golibs.Prelude.{
  [], ◌∷◌, ◌++◌, ◌≡◌, refl, Bytes, bytes_key, bytes_eqb, codes, trim_prefix, trim_prefix-append,
  has_prefix-append,
}
use golibs.Errors.{Error, invalid}
use golibs.Exec.{ok, err}
use golibs.GoMap.{lookup}
use golibs.GoMap
use golibs.Store.Options.{nil}
use golibs.Store.Files.{Codec, fs_store, fs_read, fs_update, fs_apply}
use golibs.Store.Files.Memfs.{MemFs, memfs}
use golibs.Store.Files.Refines.{Faithful}
use golibs.Store.Files.Listing.{PlainStore, fs_store-PlainStore}
use golibs.Store.Files.Losing.{fs_update-loses}

abbrev no_value : Error
no_value = invalid 129

-- A text is its own encoding; the empty one has none.
abbrev texts : Codec Bytes
texts = record {
  join = λ base name. base ++ b'/' ∷ name;
  encode = λ v. elim v [ [] ↦ err no_value | x ∷ s ↦ ok (x ∷ s) ];
  decode = λ raw. ok raw;
}

abbrev dir : Bytes
dir = codes "dir"

abbrev base : Bytes → Bytes
base name = trim_prefix name (codes "dir/")

encoded : (v raw : Bytes) → texts.encode v ≡ ok raw → texts.decode raw ≡ ok v
encoded [] raw e = cc
encoded (x ∷ s) raw e = cc e

texts-Faithful : Faithful texts base dir
texts-Faithful = record {
  base_join = λ key plain. trim_prefix-append (codes "dir/") (key ++ codes ".json");
  join_below = λ key plain. has_prefix-append dir (b'/' ∷ (key ++ codes ".json"));
  decode_encode = encoded;
}

fs_store-PlainStore_example : PlainStore texts base dir (fs_store (memfs base) texts dir [])
fs_store-PlainStore_example = fs_store-PlainStore texts base dir [] texts-Faithful

abbrev one_file : MemFs
one_file = (codes "dir/a.json", codes "text") ∷ []

fs_update-loses_example :
    (fs_update (memfs base) texts dir (codes "a") [] nil one_file
      ≡ (err no_value, GoMap.store (codes "dir/a.json") [] one_file))
    × (fs_apply (memfs base) texts dir (codes "a") [] nil one_file
        ≡ (err no_value, GoMap.store (codes "dir/a.json") [] one_file))
    × ((fs_read
          (memfs base)
          texts
          dir
          (codes "a")
          nil
          (GoMap.store (codes "dir/a.json") [] one_file)).0
        ≡ ok [])
unfolding lookup bytes_eqb
fs_update-loses_example =
    fs_update-loses texts base dir (codes "a") (codes "text") [] no_value one_file refl refl
