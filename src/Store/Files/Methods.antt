-- ===== src/Store/Files/Methods.antt =====
-- The methods of the store over the file system in memory, without options, one by one.
use golibs.Prelude.{Option, none, some, ◌≡◌, refl, Bytes, bytes_key, inl, inr}
use golibs.Errors.{err_conflict, err_not_found}
use golibs.Exec.{Result, ok, err}
use golibs.GoMap.{GoMap, lookup, remove}
use golibs.GoMap
use golibs.GoMap.Laws.{store-IsMap, remove-IsMap}
use golibs.Store.Options.{nil, match_dry_run}
use golibs.Store.Spec.{put, drop, spec_create, spec_read, spec_update, Agrees}
use golibs.Store.Files.{Codec, read_json, fs_create, fs_read, fs_update, fs_apply, fs_delete}
use golibs.Store.Files.Memfs.{MemFs, memfs, create, read, update, delete, err_not_exist}
use golibs.Store.Files.Refines.{
  IsPlain, Faithful, IsEntry, IsValid, view, at_key, seen, view-store, view-remove, All-store,
  All-remove,
}

-- What Delete does to a partial map: a missing key has the error of the file system.
abbrev pub spec_fs_delete :
    {V : Type 0} → Bytes → (Bytes → Option V) → Option V → Result (Unit {0}) × (Bytes → Option V)
spec_fs_delete k m none = (err err_not_exist, m)
spec_fs_delete k m (some w) = (ok tt, drop k m)

module _ {V : Type 0} (codec : Codec V) (base : Bytes → Bytes) (basepath : Bytes)
    (laws : Faithful codec base basepath) where
  unchanged {κ} :
      {A : Type κ} (m : MemFs) (r : Result A)
      → IsValid codec base basepath m
      → Agrees
          (IsValid codec base basepath)
          (view codec base basepath)
          (r, m)
          (r, view codec base basepath m)
  unchanged m r h = record { result = refl; holds = λ j. refl; valid = h }

  written :
      (k raw : Bytes) (v : V) (m : MemFs)
      → IsPlain k
      → codec.encode v ≡ ok raw
      → IsValid codec base basepath m
      → Agrees
          (IsValid codec base basepath)
          (view codec base basepath)
          (ok (tt {0}), GoMap.store (at_key codec base basepath k) raw m)
          (ok tt, put k v (view codec base basepath m))
  written k raw v m hk e h =
      let d = laws.decode_encode v raw e in
      record {
        result = refl;
        holds = λ j. view-store codec base basepath laws k raw v m j hk d;
        valid = record {
          map = store-IsMap (at_key codec base basepath k) raw m h.map;
          entries =
              All-store (IsEntry codec base basepath) (at_key codec base basepath k) raw m
                (record { key = k; plain = hk; at = refl; value = v; holds = d }) h.entries;
        };
      }

  removed :
      (k : Bytes) (m : MemFs)
      → IsPlain k
      → IsValid codec base basepath m
      → Agrees
          (IsValid codec base basepath)
          (view codec base basepath)
          (ok (tt {0}), remove (at_key codec base basepath k) m)
          (ok tt, drop k (view codec base basepath m))
  removed k m hk h = record {
    result = refl;
    holds = λ j. view-remove codec base basepath laws k m j hk;
    valid = record {
      map = remove-IsMap (at_key codec base basepath k) m h.map;
      entries = All-remove (IsEntry codec base basepath) (at_key codec base basepath k) m h.entries;
    };
  }

  pub creates :
      (k raw : Bytes) (v : V) (m : MemFs)
      → IsPlain k
      → codec.encode v ≡ ok raw
      → IsValid codec base basepath m
      → Agrees
          (IsValid codec base basepath)
          (view codec base basepath)
          (fs_create (memfs base) codec basepath k v nil m)
          (spec_create k v (view codec base basepath m) (view codec base basepath m k))
  unfolding fs_create match_dry_run create
  creates k raw v m hk e h = elim (seen codec base basepath k m hk h) [
    | inl (l, n) ↦ rw (n, l, e) (written k raw v m hk e h)
    | inr (old, w, l, d, n) ↦ rw (n, l) (unchanged m (err err_conflict) h)
  ]

  pub reads :
      (k : Bytes) (m : MemFs)
      → IsPlain k
      → IsValid codec base basepath m
      → Agrees
          (IsValid codec base basepath)
          (view codec base basepath)
          (fs_read (memfs base) codec basepath k nil m)
          (spec_read (view codec base basepath m) (view codec base basepath m k))
  unfolding fs_read read_json read
  reads k m hk h = elim (seen codec base basepath k m hk h) [
    | inl (l, n) ↦ rw (n, l) (unchanged m (err err_not_found) h)
    | inr (old, w, l, d, n) ↦ rw (n, l, d) (unchanged m (ok w) h)
  ]

  pub updates :
      (k raw : Bytes) (v : V) (m : MemFs)
      → IsPlain k
      → codec.encode v ≡ ok raw
      → IsValid codec base basepath m
      → Agrees
          (IsValid codec base basepath)
          (view codec base basepath)
          (fs_update (memfs base) codec basepath k v nil m)
          (spec_update k v (view codec base basepath m) (view codec base basepath m k))
  unfolding fs_update match_dry_run update
  updates k raw v m hk e h = elim (seen codec base basepath k m hk h) [
    | inl (l, n) ↦ rw (n, l) (unchanged m (err err_not_found) h)
    | inr (old, w, l, d, n) ↦ rw (n, l, e) (written k raw v m hk e h)
  ]

  pub applies :
      (k raw : Bytes) (v : V) (m : MemFs)
      → IsPlain k
      → codec.encode v ≡ ok raw
      → IsValid codec base basepath m
      → Agrees
          (IsValid codec base basepath)
          (view codec base basepath)
          (fs_apply (memfs base) codec basepath k v nil m)
          (ok tt, put k v (view codec base basepath m))
  unfolding fs_apply match_dry_run update create
  applies k raw v m hk e h = elim (seen codec base basepath k m hk h) [
    | inl (l, n) ↦ rw (l, l, e) (written k raw v m hk e h)
    | inr (old, w, l, d, n) ↦ rw (l, e) (written k raw v m hk e h)
  ]

  pub deletes :
      (k : Bytes) (m : MemFs)
      → IsPlain k
      → IsValid codec base basepath m
      → Agrees
          (IsValid codec base basepath)
          (view codec base basepath)
          (fs_delete (memfs base) codec basepath k nil m)
          (spec_fs_delete k (view codec base basepath m) (view codec base basepath m k))
  unfolding fs_delete match_dry_run delete
  deletes k m hk h = elim (seen codec base basepath k m hk h) [
    | inl (l, n) ↦ rw (n, l) (unchanged m (err err_not_exist) h)
    | inr (old, w, l, d, n) ↦ rw (n, l) (removed k m hk h)
  ]
