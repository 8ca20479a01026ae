-- ===== src/Store/Files.antt =====
-- pkg/store/backends/fs/fs.go: a store with a file for each key. The interface RWFS is a record of
-- operations on a state; the JSON encoder and decoder and filepath.Join are functions. A writer is
-- closed when its method returns, with what the encoder has written to it.
pub mod Memfs
pub mod Refines
pub mod Methods
pub mod Listing
pub mod Losing
mod Examples
use golibs.Prelude.{
  ℕ, Bool, true, false, not, ◌&&◌, ◌||◌, Option, none, some, List, [], ◌∷◌, ◌++◌, Bytes, bytes_key,
  nat_key, bytes_eqb, codes, has_prefix, is_empty, value_or, if◌then◌else◌, ◌==◌,
}
use golibs.Errors.{Error, sentinel, not_exist, invalid, err_conflict, err_not_found, is_error}
use golibs.Exec.{Result, ok, err, Exec, refuse, continue}
use golibs.Slices.{contains}
use golibs.Store.{Store, ListItem}
use golibs.Store.Listing.{sort_items}
use golibs.Store.Options.{
  StoreOptions, nil, match_dry_run, match_prefix, match_list_key_only, check_options_exhausted,
  err_unsupported_option, is_nil,
}

pub record DirEntry : Type 0 where
  pub name : Bytes
  pub is_dir : Bool

-- RWFS; `H` is a file that is open for writing, and `close_file` what is left when it is closed
-- behind the given bytes.
pub record Rwfs (S H : Type 0) : Type 0 where
  pub create_file : Bytes → Exec S H
  pub read_file : Bytes → Exec S Bytes
  pub update_file : Bytes → Exec S H
  pub delete_file : Bytes → Exec S (Unit {0})
  pub read_dir : Bytes → Exec S (List DirEntry)
  pub make_dir : Bytes → Exec S (Unit {0})
  pub close_file : H → Bytes → S → S

abbrev pub json_ext : Bytes
json_ext = codes ".json"

-- filepath.Ext: what is behind the last dot, with the dot, if no slash comes behind it.
unfoldable pub ext : Bytes → Bytes
ext [] = []
ext (x ∷ s) =
    let rest = ext s in
    if is_empty rest then (if (x == b'.') && not (contains s b'/') then x ∷ s else []) else rest

-- strings.TrimSuffix
unfoldable pub trim_suffix : Bytes → Bytes → Bytes
trim_suffix [] t = []
trim_suffix (x ∷ s) t = let rest = trim_suffix s t in if bytes_eqb (x ∷ s) t then [] else x ∷ rest

abbrev pub err_basepath : Error
err_basepath = invalid 127

-- What the code outside this package does: filepath.Join, json.Encoder and json.Decoder.
pub record Codec (V : Type 0) : Type 0 where
  pub join : Bytes → Bytes → Bytes
  pub encode : V → Result Bytes
  pub decode : Bytes → Result V

abbrev error_of : {V : Type 0} → Result V → Result (Unit {0})
error_of (ok v) = ok tt
error_of (err e) = err e

-- What a dry run of Create makes of the outcome of a read.
abbrev create_dry_run : {V : Type 0} → Result V → Result (Unit {0})
create_dry_run (ok v) = err err_conflict
create_dry_run (err e) =
    if is_error e err_not_found || is_error e (sentinel not_exist) then ok tt else err e

module _ {S H V : Type 0} (fs : Rwfs S H) (codec : Codec V) (basepath : Bytes) where
  -- path
  abbrev pub path : Bytes → Bytes
  path key = codec.join basepath (key ++ json_ext)

  -- WriteJSON, and the closing of the file behind it.
  abbrev pub write_json : H → Result Bytes → Exec S (Unit {0})
  write_json f (ok raw) s = (ok tt, fs.close_file f raw s)
  write_json f (err e) s = (err e, fs.close_file f [] s)

  abbrev pub decoded : Result Bytes × S → Result V × S
  decoded (err e, s) = (err err_not_found, s)
  decoded (ok raw, s) = (codec.decode raw, s)

  -- ReadJSON
  unfoldable pub read_json : Bytes → Exec S V
  read_json key s = decoded (fs.read_file (path key) s)

  -- Read
  unfoldable pub fs_read : Bytes → StoreOptions → Exec S V
  fs_read key opts s = if is_nil opts then read_json key s else (err err_unsupported_option, s)

  -- What follows an attempt to open a file that may be refused with another error.
  abbrev pub write_or : Error → V → Result H × S → Result (Unit {0}) × S
  write_or refused value (err e, s) = (err refused, s)
  write_or refused value (ok f, s) = write_json f (codec.encode value) s

  -- Create
  unfoldable pub fs_create : Bytes → V → StoreOptions → Exec S (Unit {0})
  unfolding fs_read
  fs_create key value opts s =
      let d = match_dry_run opts in
      if value_or d.0 false
      then (let r = fs_read key nil s in (create_dry_run r.0, r.1))
      else (if is_nil d.1
          then write_or err_conflict value (fs.create_file (path key) s)
          else (err err_unsupported_option, s))

  -- Update
  unfoldable pub fs_update : Bytes → V → StoreOptions → Exec S (Unit {0})
  unfolding fs_read
  fs_update key value opts s =
      let d = match_dry_run opts in
      if value_or d.0 false
      then (let r = fs_read key nil s in (error_of r.0, r.1))
      else (if is_nil d.1
          then write_or err_not_found value (fs.update_file (path key) s)
          else (err err_unsupported_option, s))

  abbrev pub write_created : V → Result H × S → Result (Unit {0}) × S
  write_created value (err e, s) = (err e, s)
  write_created value (ok f, s) = write_json f (codec.encode value) s

  abbrev pub update_or_create : Bytes → V → Result H × S → Result (Unit {0}) × S
  update_or_create fpath value (ok f, s) = write_json f (codec.encode value) s
  update_or_create fpath value (err e, s) = write_created value (fs.create_file fpath s)

  -- Apply
  unfoldable pub fs_apply : Bytes → V → StoreOptions → Exec S (Unit {0})
  fs_apply key value opts s =
      let d = match_dry_run opts in
      if value_or d.0 false
      then (ok tt, s)
      else (if is_nil d.1
          then update_or_create (path key) value (fs.update_file (path key) s)
          else (err err_unsupported_option, s))

  -- Delete
  unfoldable pub fs_delete : Bytes → StoreOptions → Exec S (Unit {0})
  unfolding fs_read
  fs_delete key opts s =
      let d = match_dry_run opts in
      if value_or d.0 false
      then (let r = fs_read key nil s in (error_of r.0, r.1))
      else (if is_nil d.1 then fs.delete_file (path key) s else (err err_unsupported_option, s))

  module _ (zero : V) where
    abbrev pub skipped : Bytes → DirEntry → Bool
    skipped prefix file =
        (file.is_dir || not (bytes_eqb (ext file.name) json_ext))
        || (not (is_empty prefix) && not (has_prefix file.name prefix))

    abbrev pub read_item : Bool → Bytes → Exec S V
    read_item true key s = (ok zero, s)
    read_item false key s = read_json key s

    abbrev pub with_item :
        Bytes
        → Result V × S
        → Exec S (List (ListItem Bytes V))
        → Result (List (ListItem Bytes V)) × S
    with_item key r rest = continue r (λ value s.
        continue (rest s) (λ items t. (ok (record { key = key; value = value } ∷ items), t)))

    -- The loop of List.
    unfoldable pub list_files : Bytes → Bool → List DirEntry → Exec S (List (ListItem Bytes V))
    list_files prefix keys_only [] s = (ok [], s)
    list_files prefix keys_only (file ∷ files) s =
        let rest = list_files prefix keys_only files in
        let key = trim_suffix file.name json_ext in
        if skipped prefix file then rest s else with_item key (read_item keys_only key s) rest

    -- List
    unfoldable pub fs_list : StoreOptions → Exec S (List (ListItem Bytes V))
    unfolding list_files
    fs_list opts =
        let p = match_prefix opts in
        let q = match_list_key_only p.1 in
        refuse (check_options_exhausted q.1) (λ s. continue (fs.read_dir basepath s) (λ files t.
          continue (list_files (value_or p.0 []) (value_or q.0 false) files t)
            (λ items u. (ok (sort_items items), u))))

    abbrev pub fs_store : Store S Bytes V
    fs_store = record {
      create = fs_create;
      read = fs_read;
      update = fs_update;
      apply = fs_apply;
      delete = fs_delete;
      list = fs_list;
    }

    -- New; `none` for a basepath is not told from the empty one.
    unfoldable pub new_store : Exec S (Store S Bytes V)
    new_store s =
        if is_empty basepath
        then (err err_basepath, s)
        else continue (fs.make_dir basepath s) (λ made t. (ok fs_store, t))
