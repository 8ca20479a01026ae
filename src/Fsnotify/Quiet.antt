-- ===== src/Fsnotify/Quiet.antt =====
-- What the watcher knows of the files when it has seen no change.
use golibs.Prelude.{
  Bool, true, false, Bool-cases, Option, none, some, List, [], ◌∷◌, ◌≡◌, refl, inl, inr, Bytes,
  bytes_key, bytes_eqb, bytes_eqb_iff, All, arith, if◌then◌else◌,
}
use golibs.Exec.{Result, ok, err}
use golibs.GoMap.{lookup, store}
use golibs.GoMap.Laws.{lookup-store}
use golibs.Fsnotify.{Fs, Hashes, trimmed, calc_file_hash, visited, file_hash_changed}

-- A file has its present hash in the map.
abbrev pub Recorded : (Bytes → Bytes) → Bool → Fs → Hashes → Bytes → Type 0
Recorded sha256 n fs hashes file =
    (hash : Bytes) × ((calc_file_hash sha256 n fs (trimmed n file) ≡ ok hash)
      × (lookup (trimmed n file) hashes ≡ some hash))

-- The second map has the entries of the first.
abbrev pub Kept : Hashes → Hashes → Type 0
Kept m n = (file hash : Bytes) → lookup file m ≡ some hash → lookup file n ≡ some hash

lookup-stored : (k v : Bytes) (m : Hashes) → lookup k (store k v m) ≡ some v
lookup-stored k v m = ground (arith, lookup-store k k v m, bytes_eqb_iff k k)

Kept-store : (k v : Bytes) (m n : Hashes) → lookup k m ≡ none → Kept (store k v m) n → Kept m n
Kept-store k v m n h keep file hash e = elim (Bool-cases (bytes_eqb k file)) [
  | inl y ↦ (let same : k ≡ file = (bytes_eqb_iff k file).0 y in cc)
  | inr y ↦ keep file hash (ground (arith, lookup-store k file v m))
]

unchanged :
    (b : Bool) (r : Result Bool × Hashes) (s later : Hashes)
    → (if b then r else (ok true, s)) ≡ (ok false, later)
    → b ≡ true
unchanged true r s later h = refl
unchanged false r s later h = cc

module _ (sha256 : Bytes → Bytes) (n : Bool) (fs : Fs) where
  abbrev Quiet : List Bytes → Type 0
  Quiet files =
      (m later : Hashes)
      → file_hash_changed sha256 n fs files m ≡ (ok false, later)
      → All (Recorded sha256 n fs later) files × Kept m later

  visited-Quiet :
      (file : Bytes) (files : List Bytes) (m later : Hashes) (r : Result Bytes) (old : Option Bytes)
      → Quiet files
      → calc_file_hash sha256 n fs (trimmed n file) ≡ r
      → lookup (trimmed n file) m ≡ old
      → visited sha256 n fs (trimmed n file) r old (file_hash_changed sha256 n fs files) m
        ≡ (ok false, later)
      → All (Recorded sha256 n fs later) (file ∷ files) × Kept m later
  visited-Quiet file files m later (err e) old ih c l h = cc
  visited-Quiet file files m later (ok v) none ih c l h =
      let rest = ih (store (trimmed n file) v m) later h in
      (
        ((v, (c, rest.1 (trimmed n file) v (lookup-stored (trimmed n file) v m))), rest.0),
        Kept-store (trimmed n file) v m later l rest.1,
      )
  visited-Quiet file files m later (ok v) (some w) ih c l h = elim (Bool-cases (bytes_eqb w v)) [
    | inl y ↦
        (let rest = ih m later (ground arith) in
          let same : w ≡ v = (bytes_eqb_iff w v).0 y in
          (((v, (c, rest.1 (trimmed n file) v (rw l (rw same refl)))), rest.0), rest.1))
    | inr y ↦ (let same : bytes_eqb w v ≡ true = unchanged (bytes_eqb w v) _ _ _ h in cc)
  ]

  -- A tick that reports no change and no error leaves each of the files with its present hash in the
  -- map, and the map has every entry that it had before: no file that was known has changed.
  pub file_hash_changed-Recorded :
      (files : List Bytes) (m later : Hashes)
      → file_hash_changed sha256 n fs files m ≡ (ok false, later)
      → All (Recorded sha256 n fs later) files × Kept m later
  unfolding file_hash_changed
  file_hash_changed-Recorded [] m later h = (tt, λ file hash e. cc)
  file_hash_changed-Recorded (file ∷ files) m later h =
      visited-Quiet file files m later (calc_file_hash sha256 n fs (trimmed n file))
        (lookup (trimmed n file) m) (file_hash_changed-Recorded files) refl refl h
