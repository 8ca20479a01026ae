-- ===== src/Fsnotify.antt =====
-- pkg/fsnotify/watcher.go: the watcher that compares the hashes of files at intervals. The file system
-- at a tick and SHA-256 are functions; a Go map is its association list.
pub mod Quiet
mod Examples
use golibs.Prelude.{
  ℕ, ◌<◌, ltb, Bool, true, false, not, ◌&&◌, ◌==◌, Option, none, some, List, [], ◌∷◌, Bytes,
  bytes_key, bytes_eqb, length, if◌then◌else◌,
}
use golibs.Errors.{Error}
use golibs.Exec.{Result, ok, err}
use golibs.GoMap.{GoMap, lookup, store}

-- A file system: Open and ReadAll of a path.
abbrev pub Fs : Type 0
Fs = Bytes → Result Bytes

abbrev pub Hashes : Type 0
Hashes = GoMap Bytes Bytes

abbrev tail_of_root : Bytes → Bytes
tail_of_root [] = []
tail_of_root (c ∷ path) = if c == 47 then path else c ∷ path

-- The path without the slash of the root, unless NotRootFS is set.
unfoldable pub trimmed : Bool → Bytes → Bytes
trimmed not_root_fs file =
    if not not_root_fs && ltb 2 (length file) then tail_of_root file else file

module _ (sha256 : Bytes → Bytes) (not_root_fs : Bool) (fs : Fs) where
  abbrev hashed : Result Bytes → Result Bytes
  hashed (ok raw) = ok (sha256 raw)
  hashed (err e) = err e

  -- calcFileHash
  abbrev pub calc_file_hash : Bytes → Result Bytes
  calc_file_hash file = hashed (fs file)

  -- The body of the loop, with what calcFileHash and the map return for the file, and the rest of
  -- the loop.
  abbrev pub visited :
      Bytes
      → Result Bytes
      → Option Bytes
      → (Hashes → Result Bool × Hashes)
      → Hashes
      → Result Bool × Hashes
  visited file (err e) old rest hashes = (err e, hashes)
  visited file (ok hash) none rest hashes = rest (store file hash hashes)
  visited file (ok hash) (some old) rest hashes =
      if bytes_eqb old hash then rest hashes else (ok true, store file hash hashes)

  -- fileHashChanged
  unfoldable pub file_hash_changed : List Bytes → Hashes → Result Bool × Hashes
  unfolding trimmed
  file_hash_changed [] hashes = (ok false, hashes)
  file_hash_changed (file ∷ files) hashes =
      let path = trimmed not_root_fs file in
      visited path (calc_file_hash path) (lookup path hashes) (file_hash_changed files) hashes
