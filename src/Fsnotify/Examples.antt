-- ===== src/Fsnotify/Examples.antt =====
-- A tick over two files, one of them known.
use golibs.Prelude.{false, [], ◌∷◌, refl, Bytes, codes, bytes_eqb, All, if◌then◌else◌}
use golibs.Exec.{ok, err}
use golibs.Errors.{invalid}
use golibs.GoMap.{lookup, store}
use golibs.Fsnotify.{Fs, Hashes, trimmed, file_hash_changed}
use golibs.Fsnotify.Quiet.{Recorded, Kept, file_hash_changed-Recorded}

abbrev certs : Fs
certs path =
    if bytes_eqb path (codes "tls.crt")
    then ok (codes "c")
    else (if bytes_eqb path (codes "tls.key") then ok (codes "k") else err (invalid 0))

abbrev plain : Bytes → Bytes
plain b = b

abbrev before : Hashes
before = (codes "tls.crt", codes "c") ∷ []

abbrev after : Hashes
after = (codes "tls.crt", codes "c") ∷ (codes "tls.key", codes "k") ∷ []

file_hash_changed-Recorded_example :
    All (Recorded plain false certs after) (codes "/tls.crt" ∷ codes "/tls.key" ∷ [])
    × Kept before after
unfolding file_hash_changed trimmed lookup store bytes_eqb
file_hash_changed-Recorded_example =
    file_hash_changed-Recorded plain false certs (codes "/tls.crt" ∷ codes "/tls.key" ∷ []) before
      after refl
