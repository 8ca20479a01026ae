-- ===== src/Store/Files/Losing.antt =====
-- A value that the encoder refuses, written over another one.
use golibs.Prelude.{some, ◌≡◌, refl, Bytes, bytes_key, eqb_refl, [], ◌++◌}
use golibs.Errors.{Error}
use golibs.Exec.{err}
use golibs.GoMap.{GoMap, lookup}
use golibs.GoMap
use golibs.GoMap.Laws.{lookup-store}
use golibs.Store.Options.{nil, match_dry_run}
use golibs.Store.Files.{Codec, json_ext, read_json, fs_read, fs_update, fs_apply}
use golibs.Store.Files.Memfs.{MemFs, memfs, read, update}

module _ {V : Type 0} (codec : Codec V) (base : Bytes → Bytes) (basepath : Bytes) where
  -- Over the file system in memory: Update and Apply without options of a key that has a file, with a
  -- value that cannot be encoded, return the error of the encoder and leave the file empty: the value
  -- that it held is lost, and the next Read ends as the decoding of no bytes does. No other file
  -- changes.
  pub fs_update-loses :
      (key raw : Bytes) (v : V) (e : Error) (m : MemFs)
      → lookup (codec.join basepath (key ++ json_ext)) m ≡ some raw
      → codec.encode v ≡ err e
      → let after = GoMap.store (codec.join basepath (key ++ json_ext)) [] m in
        (fs_update (memfs base) codec basepath key v nil m ≡ (err e, after))
        × (fs_apply (memfs base) codec basepath key v nil m ≡ (err e, after))
        × ((fs_read (memfs base) codec basepath key nil after).0 ≡ codec.decode [])
  unfolding fs_update fs_apply fs_read match_dry_run update read read_json
  fs_update-loses key raw v e m found refused =
      let p = codec.join basepath (key ++ json_ext) in
      (
        rw (found, refused) refl,
        rw (found, refused) refl,
        rw (lookup-store p p [] m, eqb_refl p) refl,
      )
