-- ===== src/Store/Files/Refines.antt =====
-- The store over the file system in memory implements a partial map, for keys without a slash.
use golibs.Prelude.{
  true, false, Option, none, some, [], ◌∷◌, ◌++◌, ◌≡◌, refl, sym, ap, ◌∙◌, arith, Bytes, bytes_key,
  nat_key, bytes_eqb, bytes_eqb_iff, has_prefix, if◌then◌else◌, Bool-cases, Option-cases, inl, inr,
  ◌⊎◌, All, length, length-append, eqb_refl, subst,
}
use golibs.Exec.{Result, ok, err}
use golibs.GoMap.{GoMap, lookup, remove, IsMap}
use golibs.GoMap
use golibs.GoMap.Laws.{lookup-store, lookup-remove}
use golibs.Slices.{contains}
use golibs.Store.Spec.{put, drop}
use golibs.Store.Files.{Codec, json_ext, ext, trim_suffix}
use golibs.Store.Files.Memfs.{MemFs}

abbrev pub IsPlain : Bytes → Type 0
IsPlain key = contains key b'/' ≡ false

pub trim_suffix-ext : (key t : Bytes) → trim_suffix (key ++ t) t ≡ key
unfolding trim_suffix
trim_suffix-ext [] [] = refl
trim_suffix-ext [] (x ∷ t) = rw (eqb_refl (x ∷ t)) refl
trim_suffix-ext (x ∷ key) t = elim (Bool-cases (bytes_eqb (x ∷ key ++ t) t)) [
  | inl q ↦
      absurd (omega (arith, ap length ((bytes_eqb_iff (x ∷ key ++ t) t).0 q), length-append key t))
  | inr q ↦ rw (q, trim_suffix-ext key t) refl
]

pub ext-json : (key : Bytes) → ext (key ++ json_ext) ≡ json_ext
unfolding ext contains
ext-json [] = refl
ext-json (x ∷ key) = rw (ext-json key) refl

-- What filepath.Join and filepath.Base do with the file names of plain keys in a directory that is
-- not the current one, and that decoding undoes encoding.
pub record Faithful {V : Type 0} (codec : Codec V) (base : Bytes → Bytes) (basepath : Bytes)
    : Type 0 where
  pub base_join :
      (key : Bytes) → IsPlain key → base (codec.join basepath (key ++ json_ext)) ≡ key ++ json_ext
  pub join_below :
      (key : Bytes)
      → IsPlain key
      → has_prefix (codec.join basepath (key ++ json_ext)) basepath ≡ true
  pub decode_encode : (v : V) (raw : Bytes) → codec.encode v ≡ ok raw → codec.decode raw ≡ ok v

abbrev pub value_of : {V : Type 0} → Result V → Option V
value_of (ok v) = some v
value_of (err e) = none

module _ {V : Type 0} (codec : Codec V) (base : Bytes → Bytes) (basepath : Bytes) where
  -- A file of a plain key, with a value.
  pub record IsEntry (e : Bytes × Bytes) : Type 0 where
    pub key : Bytes
    pub plain : IsPlain key
    pub at : e.0 ≡ codec.join basepath (key ++ json_ext)
    pub value : V
    pub holds : codec.decode e.1 ≡ ok value

  pub record IsValid (m : MemFs) : Type 0 where
    pub map : IsMap m
    pub entries : All IsEntry m

  abbrev pub read_value : Option Bytes → Option V
  read_value none = none
  read_value (some raw) = value_of (codec.decode raw)

  -- The values of the plain keys; of others nothing is shown.
  abbrev pub view : MemFs → Bytes → Option V
  view m key =
      if contains key b'/'
      then none
      else read_value (lookup (codec.join basepath (key ++ json_ext)) m)

pub All-store {κ} :
    (P : Bytes × Bytes → Type κ) (k v : Bytes) (m : MemFs)
    → P (k, v)
    → All P m
    → All P (GoMap.store k v m)
unfolding GoMap.store
All-store P k v [] p h = (p, tt)
All-store P k v ((j, w) ∷ m) p h = elim (Bool-cases (bytes_eqb j k)) [
  | inl q ↦ rw q (subst (λ i. P (i, v)) (sym ((bytes_eqb_iff j k).0 q)) p, h.1)
  | inr q ↦ rw q (h.0, All-store P k v m p h.1)
]

pub All-remove {κ} :
    (P : Bytes × Bytes → Type κ) (k : Bytes) (m : MemFs) → All P m → All P (remove k m)
unfolding remove
All-remove P k [] h = tt
All-remove P k ((j, w) ∷ m) h = elim (Bool-cases (bytes_eqb j k)) [
  | inl q ↦ rw q (All-remove P k m h.1)
  | inr q ↦ rw q (h.0, All-remove P k m h.1)
]

module _ {V : Type 0} (codec : Codec V) (base : Bytes → Bytes) (basepath : Bytes) where
  abbrev pub at_key : Bytes → Bytes
  at_key key = codec.join basepath (key ++ json_ext)

  entry_value :
      (p raw : Bytes) (m : MemFs)
      → All (IsEntry codec base basepath) m
      → lookup p m ≡ some raw
      → (v : V) × (codec.decode raw ≡ ok v)
  unfolding lookup
  entry_value p raw [] h e = absurd (cc)
  entry_value p raw ((q, w) ∷ m) h e = elim (Bool-cases (bytes_eqb q p)) [
    | inl s ↦ (h.0.value, subst (λ x. codec.decode x ≡ ok h.0.value) (same_raw s) h.0.holds)
    | inr s ↦ entry_value p raw m h.1 (ground arith)
  ]
    where
      same_raw : bytes_eqb q p ≡ true → w ≡ raw
      same_raw s = ground arith

  -- A key is missing from the files and from the view, or it is in both.
  pub seen :
      (key : Bytes) (m : MemFs)
      → IsPlain key
      → IsValid codec base basepath m
      → ((lookup (at_key key) m ≡ none) × (view codec base basepath m key ≡ none))
        ⊎ ((raw : Bytes) × (v : V) × (lookup (at_key key) m ≡ some raw)
            × (codec.decode raw ≡ ok v)
            × (view codec base basepath m key ≡ some v))
  seen key m plain h = elim (Option-cases (lookup (at_key key) m)) [
    | inl e ↦ inl (e, rw (plain, e) refl)
    | inr (raw, e) ↦
        let found = entry_value (at_key key) raw m h.entries e in
        inr (raw, found.0, e, found.1, rw (plain, e, found.1) refl)
  ]

module _ {V : Type 0} (codec : Codec V) (base : Bytes → Bytes) (basepath : Bytes)
    (laws : Faithful codec base basepath) where
  pub join-injective :
      (k j : Bytes)
      → IsPlain k
      → IsPlain j
      → at_key codec base basepath k ≡ at_key codec base basepath j
      → k ≡ j
  join-injective k j hk hj e =
      sym (trim_suffix-ext k json_ext)
      ∙ ap (λ x. trim_suffix x json_ext)
          (sym (laws.base_join k hk) ∙ ap base e ∙ laws.base_join j hj)
      ∙ trim_suffix-ext j json_ext

  pub plain-other : (k j : Bytes) → IsPlain k → contains j b'/' ≡ true → bytes_eqb k j ≡ false
  plain-other k j hk hj = elim (Bool-cases (bytes_eqb k j)) [
    | inl q ↦ cc (ap (λ x. contains x b'/') ((bytes_eqb_iff k j).0 q), hk, hj)
    | inr q ↦ q
  ]

  pub at_key-same :
      (k j : Bytes)
      → IsPlain k
      → IsPlain j
      → bytes_eqb (at_key codec base basepath k) (at_key codec base basepath j) ≡ bytes_eqb k j
  at_key-same k j hk hj = elim (Bool-cases (bytes_eqb k j)) [
    | inl q ↦
        rw ((bytes_eqb_iff k j).0 q) (eqb_refl (at_key codec base basepath j) ∙ sym (eqb_refl j))
    | inr q ↦
        elim (Bool-cases
          (bytes_eqb (at_key codec base basepath k) (at_key codec base basepath j))) [
            | inl r ↦ ground (
              arith,
              r,
              q,
              bytes_eqb_iff k j,
              join-injective k j hk hj (
                  (bytes_eqb_iff (at_key codec base basepath k) (at_key codec base basepath j)).0
                    r),
            )
            | inr r ↦ r ∙ sym q
          ]
  ]

  pub view-store :
      (k raw : Bytes) (v : V) (m : MemFs) (j : Bytes)
      → IsPlain k
      → codec.decode raw ≡ ok v
      → view codec base basepath (GoMap.store (at_key codec base basepath k) raw m) j
        ≡ put k v (view codec base basepath m) j
  view-store k raw v m j hk d = elim (Bool-cases (contains j b'/')) [
    | inl q ↦ rw (q, plain-other k j hk q) refl
    | inr q ↦
        rw
          (
            q,
            lookup-store (at_key codec base basepath k) (at_key codec base basepath j) raw m,
            at_key-same k j hk q,
          )
          (elim (Bool-cases (bytes_eqb k j)) [ inl r ↦ rw (r, d) refl | inr r ↦ rw r refl ])
  ]

  pub view-remove :
      (k : Bytes) (m : MemFs) (j : Bytes)
      → IsPlain k
      → view codec base basepath (remove (at_key codec base basepath k) m) j
        ≡ drop k (view codec base basepath m) j
  view-remove k m j hk = elim (Bool-cases (contains j b'/')) [
    | inl q ↦ rw (q, plain-other k j hk q) refl
    | inr q ↦
        rw
          (
            q,
            lookup-remove (at_key codec base basepath k) (at_key codec base basepath j) m,
            at_key-same k j hk q,
          )
          (elim (Bool-cases (bytes_eqb k j)) [ inl r ↦ rw r refl | inr r ↦ rw r refl ])
  ]
