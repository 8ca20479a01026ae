-- ===== src/Store/Files/Listing.antt =====
-- The listing of the store over the file system in memory, and all methods together.
use golibs.Prelude.{
  false, none, some, List, [], ◌∷◌, ◌++◌, ◌≡◌, refl, sym, ap, ◌∙◌, arith, Bytes, bytes_key, nat_key,
  bytes_eqb, bytes_eqb_iff, has_prefix, All, Bool-cases, inl, inr, eqb_refl,
}
use golibs.Exec.{ok}
use golibs.GoMap.{GoMap, lookup, IsMap}
use golibs.Slices.{contains}
use golibs.Store.{Store, ListItem}
use golibs.Store.Listing.{sort_items}
use golibs.Store.Memory.{collect}
use golibs.Store.Memory.Refines.{find-collect, Ascending-collect, shown-false}
use golibs.Store.Options.{nil, match_prefix, match_list_key_only, check_options_exhausted}
use golibs.Store.Spec.{spec_create, spec_read, spec_update, put, Agrees, Lists}
use golibs.Store.Files.{Codec, DirEntry, json_ext, read_json, list_files, fs_list, fs_store}
use golibs.Store.Files.Memfs.{MemFs, memfs, read, entries}
use golibs.Store.Files.Refines.{
  IsPlain, Faithful, IsEntry, IsValid, view, at_key, at_key-same, trim_suffix-ext, ext-json,
  plain-other,
}
use golibs.Store.Files.Methods.{creates, reads, updates, applies, deletes, spec_fs_delete}

-- All entries of a part of a map are in the map.
abbrev Within : MemFs → MemFs → Type 0
Within whole = All (λ e. lookup e.0 whole ≡ some e.1)

Within-self : (m : MemFs) → IsMap m → Within m m
unfolding lookup
Within-self [] h = tt
Within-self ((p, raw) ∷ m) h = (rw (eqb_refl p) refl, later m (Within-self m h.1) h.0)
  where
    later : (n : MemFs) → Within m n → lookup p m ≡ none → Within ((p, raw) ∷ m) n
    later [] w fresh = tt
    later ((q, r) ∷ n) w fresh = (ground (arith, bytes_eqb_iff p q, fresh, w.0), later n w.1 fresh)

module _ {V : Type 0} (codec : Codec V) (base : Bytes → Bytes) (basepath : Bytes) where
  -- The entries with their keys and values.
  values_of : (m : MemFs) → All (IsEntry codec base basepath) m → GoMap Bytes V
  values_of [] h = []
  values_of ((p, raw) ∷ m) h = (h.0.key, h.0.value) ∷ values_of m h.1

module _ {V : Type 0} (codec : Codec V) (base : Bytes → Bytes) (basepath : Bytes)
    (laws : Faithful codec base basepath) where
  lookup-values_of :
      (m : MemFs) (h : All (IsEntry codec base basepath) m) (j : Bytes)
      → lookup j (values_of codec base basepath m h) ≡ view codec base basepath m j
  unfolding values_of lookup
  lookup-values_of [] h j = elim (Bool-cases (contains j b'/')) [
    | inl q ↦ rw q refl
    | inr q ↦ rw q refl
  ]
  lookup-values_of ((p, raw) ∷ m) h j = elim (Bool-cases (contains j b'/')) [
    | inl q ↦
        rw (plain-other codec base basepath laws h.0.key j h.0.plain q, lookup-values_of m h.1 j, q)
          refl
    | inr q ↦
        let same =
          ap (λ x. bytes_eqb x (at_key codec base basepath j)) h.0.at
          ∙ at_key-same codec base basepath laws h.0.key j h.0.plain q in
        rw (lookup-values_of m h.1 j, q, same)
          (elim (Bool-cases (bytes_eqb h.0.key j)) [
            | inl r ↦ rw (r, h.0.holds) refl
            | inr r ↦ rw r refl
          ])
  ]

  fresh :
      {p raw : Bytes} (m : MemFs) (h : All (IsEntry codec base basepath) ((p, raw) ∷ m))
      → IsMap ((p, raw) ∷ m)
      → lookup h.0.key (values_of codec base basepath m h.1) ≡ none
  fresh m h k =
      let missing = ap (λ x. lookup x m) (sym h.0.at) ∙ k.0 in
      lookup-values_of m h.1 h.0.key ∙ rw (h.0.plain, missing) refl

  values_of-IsMap :
      (m : MemFs) (h : All (IsEntry codec base basepath) m)
      → IsMap m
      → IsMap (values_of codec base basepath m h)
  unfolding values_of
  values_of-IsMap [] h k = tt
  values_of-IsMap ((p, raw) ∷ m) h k = (fresh m h k, values_of-IsMap m h.1 k.1)

  -- One round of the loop of List.
  lists_file :
      (zero v : V) (key name : Bytes) (files : List DirEntry) (items : List (ListItem Bytes V))
      (m : MemFs)
      → name ≡ key ++ json_ext
      → read_json (memfs base) codec basepath key m ≡ (ok v, m)
      → list_files (memfs base) codec basepath zero [] false files m ≡ (ok items, m)
      → list_files
          (memfs base)
          codec
          basepath
          zero
          []
          false
          (record { name = name; is_dir = false } ∷ files)
          m
        ≡ (ok (record { key = key; value = v } ∷ items), m)
  unfolding list_files
  lists_file zero v key name files items m e r l =
      rw (e, ext-json key, eqb_refl json_ext, trim_suffix-ext key json_ext, r, l) refl

  lists_files :
      (zero : V) (whole m : MemFs) (h : All (IsEntry codec base basepath) m)
      → Within whole m
      → list_files (memfs base) codec basepath zero [] false (entries base basepath m) whole
        ≡ (ok (collect zero [] false (values_of codec base basepath m h)), whole)
  unfolding values_of entries collect read_json read list_files
  lists_files zero whole [] h w = refl
  lists_files zero whole ((p, raw) ∷ m) h w =
      let below = ap (λ x. has_prefix x basepath) h.0.at ∙ laws.join_below h.0.key h.0.plain in
      let found = ap (λ x. lookup x whole) (sym h.0.at) ∙ w.0 in
      rw below (
        lists_file zero h.0.value h.0.key (base p) (entries base basepath m)
          (collect zero [] false (values_of codec base basepath m h.1)) whole
          (ap base h.0.at ∙ laws.base_join h.0.key h.0.plain) (rw (found, h.0.holds) refl)
          (lists_files zero whole m h.1 w.1))

  pub lists :
      (zero : V) (m : MemFs)
      → IsValid codec base basepath m
      → Lists
          (IsValid codec base basepath)
          (view codec base basepath)
          (fs_list (memfs base) codec basepath zero nil m)
          (view codec base basepath m)
          (view codec base basepath m)
  unfolding fs_list match_prefix match_list_key_only check_options_exhausted
  lists zero m h =
      let values = values_of codec base basepath m h.entries in
      let map = values_of-IsMap m h.entries h.map in
      record {
        items = sort_items (collect zero [] false values);
        result = rw (lists_files zero m m h.entries (Within-self m h.map)) refl;
        ascending = Ascending-collect zero [] false values map;
        listed = λ j.
            find-collect zero [] false values j map
            ∙ shown-false zero (lookup j values)
            ∙ lookup-values_of m h.entries j;
        holds = λ j. rw (lists_files zero m m h.entries (Within-self m h.map)) refl;
        valid = rw (lists_files zero m m h.entries (Within-self m h.map)) h;
      }

-- What the store promises in states that show a map: each method does to the map what its
-- specification says, for plain keys and values that can be encoded.
pub record PlainStore {V : Type 0} (codec : Codec V) (base : Bytes → Bytes) (basepath : Bytes)
    (st : Store MemFs Bytes V) : Type 0 where
  pub creating :
      (k raw : Bytes) (v : V) (m : MemFs)
      → IsPlain k
      → codec.encode v ≡ ok raw
      → IsValid codec base basepath m
      → Agrees
          (IsValid codec base basepath)
          (view codec base basepath)
          (st.create k v nil m)
          (spec_create k v (view codec base basepath m) (view codec base basepath m k))
  pub reading :
      (k : Bytes) (m : MemFs)
      → IsPlain k
      → IsValid codec base basepath m
      → Agrees
          (IsValid codec base basepath)
          (view codec base basepath)
          (st.read k nil m)
          (spec_read (view codec base basepath m) (view codec base basepath m k))
  pub updating :
      (k raw : Bytes) (v : V) (m : MemFs)
      → IsPlain k
      → codec.encode v ≡ ok raw
      → IsValid codec base basepath m
      → Agrees
          (IsValid codec base basepath)
          (view codec base basepath)
          (st.update k v nil m)
          (spec_update k v (view codec base basepath m) (view codec base basepath m k))
  pub applying :
      (k raw : Bytes) (v : V) (m : MemFs)
      → IsPlain k
      → codec.encode v ≡ ok raw
      → IsValid codec base basepath m
      → Agrees
          (IsValid codec base basepath)
          (view codec base basepath)
          (st.apply k v nil m)
          (ok tt, put k v (view codec base basepath m))
  pub deleting :
      (k : Bytes) (m : MemFs)
      → IsPlain k
      → IsValid codec base basepath m
      → Agrees
          (IsValid codec base basepath)
          (view codec base basepath)
          (st.delete k nil m)
          (spec_fs_delete k (view codec base basepath m) (view codec base basepath m k))
  pub listing :
      (m : MemFs)
      → IsValid codec base basepath m
      → Lists
          (IsValid codec base basepath)
          (view codec base basepath)
          (st.list nil m)
          (view codec base basepath m)
          (view codec base basepath m)

-- The store over the file system in memory, without options, behaves as a partial map from the keys
-- without a slash, for values that can be encoded: each method has the result and the effect that
-- the map gives it, and List is in ascending order; only Delete of a missing key returns the error
-- of the file system and not that of the map. That holds in all states with one file for each key of
-- the map, and each method keeps it so. Decoding undoes encoding, and the files are below the base path.
pub fs_store-PlainStore :
    {V : Type 0} (codec : Codec V) (base : Bytes → Bytes) (basepath : Bytes) (zero : V)
    → Faithful codec base basepath
    → PlainStore codec base basepath (fs_store (memfs base) codec basepath zero)
fs_store-PlainStore codec base basepath zero laws = record {
  creating = creates codec base basepath laws;
  reading = reads codec base basepath laws;
  updating = updates codec base basepath laws;
  applying = applies codec base basepath laws;
  deleting = deletes codec base basepath laws;
  listing = lists codec base basepath laws zero;
}
