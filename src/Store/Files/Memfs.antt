-- ===== src/Store/Files/Memfs.antt =====
-- pkg/store/backends/fs/fake.go: the file system in memory. `base` is filepath.Base.
use golibs.Prelude.{
  false, Option, none, some, List, [], ◌∷◌, Bytes, bytes_key, has_prefix, is_some, if◌then◌else◌,
}
use golibs.Errors.{Error, sentinel, not_exist, invalid}
use golibs.Exec.{Result, ok, err, Exec}
use golibs.GoMap.{GoMap, lookup, remove}
use golibs.GoMap
use golibs.Store.Files.{DirEntry, Rwfs}

abbrev pub MemFs : Type 0
MemFs = GoMap Bytes Bytes

-- os.ErrExist and os.ErrNotExist
abbrev pub err_exist : Error
err_exist = invalid 128

abbrev pub err_not_exist : Error
err_not_exist = sentinel not_exist

-- Create; the writer keeps the name.
unfoldable pub create : Bytes → Exec MemFs Bytes
create name m = if is_some (lookup name m) then (err err_exist, m) else (ok name, m)

abbrev read_or : Option Bytes → Result Bytes
read_or none = err err_not_exist
read_or (some raw) = ok raw

-- Read
unfoldable pub read : Bytes → Exec MemFs Bytes
read name m = (read_or (lookup name m), m)

-- Update
unfoldable pub update : Bytes → Exec MemFs Bytes
update name m = if is_some (lookup name m) then (ok name, m) else (err err_not_exist, m)

-- Delete
unfoldable pub delete : Bytes → Exec MemFs (Unit {0})
delete name m = if is_some (lookup name m) then (ok tt, remove name m) else (err err_not_exist, m)

module _ (base : Bytes → Bytes) where
  -- The loop of ReadDir over the files.
  unfoldable pub entries : Bytes → MemFs → List DirEntry
  entries name [] = []
  entries name ((fname, raw) ∷ m) =
      let rest = entries name m in
      if has_prefix fname name then record { name = base fname; is_dir = false } ∷ rest else rest

  -- NewMemFS and Close of the writer.
  abbrev pub memfs : Rwfs MemFs Bytes
  memfs = record {
    create_file = create;
    read_file = read;
    update_file = update;
    delete_file = delete;
    read_dir = λ name m. (ok (entries name m), m);
    make_dir = λ name m. (ok tt, m);
    close_file = λ name raw m. GoMap.store name raw m;
  }
