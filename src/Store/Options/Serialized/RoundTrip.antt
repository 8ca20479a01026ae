-- ===== src/Store/Options/Serialized/RoundTrip.antt =====
-- What options are left of a slice that was serialized and came back.
use golibs.Prelude.{
  Bool, true, false, map, Option, none, some, List, [], ◌∷◌, ◌≡◌, refl, sym, ap, ◌∙◌, subst, arith,
  Bytes, bytes_key, bytes_eqb, bytes_eqb_iff, if◌then◌else◌, Bool-cases, inl, inr,
}
use golibs.GoMap.{GoMap, lookup, store, IsMap, Same}
use golibs.GoMap.Laws.{lookup-store, store-IsMap}
use golibs.Exec.{Result, ok}
use golibs.Store.Options.{StoreOption, StoreOptions, nil, cons}
use golibs.Store.Options.Serialized.{
  Registry, serialize, serialize_from, serialize_options, deserialize, unserialize_options,
}

module _ (set_string : List (Bytes × Bytes) → Bytes) (registry : Registry) where
  -- An option that is serialized under its key, and comes back as it was.
  pub record Registered (x : StoreOption) : Type 0 where
    pub key : Bytes
    pub val : Bytes
    pub serializes : serialize set_string x ≡ some (key, val)
    pub comes_back : deserialize registry key val ≡ ok x

  abbrev pub AllRegistered : StoreOptions → Type 0
  AllRegistered nil = Unit
  AllRegistered (cons x rest) = Registered x × AllRegistered rest

  abbrev pub has_key_of : Bytes → Option (Bytes × Bytes) → Bool
  has_key_of k none = false
  has_key_of k (some p) = bytes_eqb p.0 k

  -- The last and the first option that serializes under a key.
  unfoldable pub last_from : Bytes → Option StoreOption → StoreOptions → Option StoreOption
  last_from k acc nil = acc
  last_from k acc (cons x rest) =
      last_from k (if has_key_of k (serialize set_string x) then some x else acc) rest

  unfoldable pub first : Bytes → StoreOptions → Option StoreOption
  first k nil = none
  first k (cons x rest) = if has_key_of k (serialize set_string x) then some x else first k rest

  -- A value under a key, and the option that it stands for.
  pub record Stands (k v : Bytes) (x : StoreOption) : Type 0 where
    pub back : deserialize registry k v ≡ ok x
    pub same_key : (j : Bytes) → has_key_of j (serialize set_string x) ≡ bytes_eqb k j

  abbrev pub Codes : Bytes → Option Bytes → Option StoreOption → Type 0
  Codes k none none = Unit
  Codes k (some v) (some x) = Stands k v x
  Codes k none (some x) = ⊥
  Codes k (some v) none = ⊥

  pub record Serializes (opts : StoreOptions) (acc : Bytes → Option StoreOption)
      (r : Result (GoMap Bytes Bytes)) : Type 0 where
    pub params : GoMap Bytes Bytes
    pub result : r ≡ ok params
    pub is_map : IsMap params
    pub coded : (k : Bytes) → Codes k (lookup k params) (last_from k (acc k) opts)

  Codes-store :
      (x : StoreOption) (h : Registered x) (k : Bytes) (m : GoMap Bytes Bytes)
      (acc : Option StoreOption)
      → Codes k (lookup k m) acc
      → Codes k
          (if bytes_eqb h.key k then some h.val else lookup k m)
          (if bytes_eqb h.key k then some x else acc)
  Codes-store x h k m acc c = elim (Bool-cases (bytes_eqb h.key k)) [
    | inl t ↦
        let e : h.key ≡ k = (bytes_eqb_iff h.key k).0 t in
        rw t (
          subst (λ j. Stands j h.val x) e
            (record { back = h.comes_back; same_key = λ j. ap (has_key_of j) h.serializes }))
    | inr f ↦ rw f c
  ]

  serialize_from-Serializes :
      (opts : StoreOptions) (m : GoMap Bytes Bytes) (acc : Bytes → Option StoreOption)
      → AllRegistered opts
      → IsMap m
      → ((k : Bytes) → Codes k (lookup k m) (acc k))
      → Serializes opts acc (serialize_from set_string m opts)
  unfolding serialize_from last_from
  serialize_from-Serializes nil m acc a i c = record {
    params = m;
    result = refl;
    is_map = i;
    coded = c;
  }
  serialize_from-Serializes (cons x rest) m acc a i c =
      let h = a.0 in
      let rest_lem =
        serialize_from-Serializes rest (store h.key h.val m)
          (λ k. if bytes_eqb h.key k then some x else acc k) a.1 (store-IsMap h.key h.val m i)
          (λ k.
            subst (λ y. Codes k y (if bytes_eqb h.key k then some x else acc k))
              (sym (lookup-store h.key k h.val m)) (Codes-store x h k m (acc k) (c k))) in
      record {
        params = rest_lem.params;
        result = rw (h.serializes, serialize_from) rest_lem.result;
        is_map = rest_lem.is_map;
        coded = λ k.
            subst
              (λ y.
                Codes k (lookup k rest_lem.params)
                  (last_from k (if has_key_of k y then some x else acc k) rest))
              (sym h.serializes) (rest_lem.coded k);
      }

  -- The keys that the options of a slice serialize under.
  abbrev pub key_of : Option (Bytes × Bytes) → Option Bytes
  key_of none = none
  key_of (some p) = some p.0

  unfoldable pub keys : StoreOptions → List (Option Bytes)
  keys nil = []
  keys (cons x rest) = key_of (serialize set_string x) ∷ keys rest

  key_of-has : (k : Bytes) (p : Option (Bytes × Bytes)) → has_key_of k p ≡ true → key_of p ≡ some k
  key_of-has k none h = cc h
  key_of-has k (some p) h = ap some ((bytes_eqb_iff p.0 k).0 h)

  -- Options that are there under the keys of a map, one for each entry.
  pub record Unserializes (n : GoMap Bytes Bytes) (r : Result StoreOptions) : Type 0 where
    pub opts : StoreOptions
    pub result : r ≡ ok opts
    pub there : (k : Bytes) → Codes k (lookup k n) (first k opts)
    pub one_each : keys opts ≡ map (λ p. some p.0) n

  AllStand : GoMap Bytes Bytes → Type 0
  AllStand [] = Unit
  AllStand ((k, v) ∷ n) = ((x : StoreOption) × Stands k v x) × AllStand n

  unserializes_lem :
      (n : GoMap Bytes Bytes) → AllStand n → Unserializes n (unserialize_options registry n)
  unfolding unserialize_options first AllStand lookup keys
  unserializes_lem [] a = record { opts = nil; result = refl; there = λ k. tt; one_each = refl }
  unserializes_lem ((k, v) ∷ n) a =
      let (x, h) = a.0 in
      let g = unserializes_lem n a.1 in
      record {
        opts = cons x g.opts;
        result = rw (h.back, g.result) refl;
        there = λ j. rw (h.same_key j) (elim (Bool-cases (bytes_eqb k j)) [
          | inl t ↦ rw t (subst (λ i. Stands i v x) ((bytes_eqb_iff k j).0 t) h)
          | inr f ↦ rw f (g.there j)
        ]);
        one_each =
            rw
              (
                key_of-has k (serialize set_string x) (h.same_key k ∙ (bytes_eqb_iff k k).1 refl),
                g.one_each,
              )
              refl;
      }

  Codes-unique :
      (k : Bytes) (v : Option Bytes) (x y : Option StoreOption) → Codes k v x → Codes k v y → x ≡ y
  Codes-unique k none none none c d = refl
  Codes-unique k none (some x) y c d = absurd c
  Codes-unique k none none (some y) c d = absurd d
  Codes-unique k (some v) none y c d = absurd c
  Codes-unique k (some v) (some x) none c d = absurd d
  Codes-unique k (some v) (some x) (some y) c d = let e : ok x ≡ ok y = sym c.back ∙ d.back in cc e

  Stands-of :
      (k v : Bytes) (y : Option StoreOption) → Codes k (some v) y → (x : StoreOption) × Stands k v x
  Stands-of k v none c = absurd c
  Stands-of k v (some x) c = (x, c)

  all_stand :
      (n : GoMap Bytes Bytes)
      → IsMap n
      → ((k v : Bytes) → lookup k n ≡ some v → (x : StoreOption) × Stands k v x)
      → AllStand n
  unfolding AllStand lookup
  all_stand [] i h = tt
  all_stand ((k, v) ∷ n) i h = (
    h k v (ground (arith, bytes_eqb_iff k k)),
    all_stand n i.1 (λ j w e. h j w (ground (arith, e, i.0, bytes_eqb_iff k j))),
  )

  -- What comes back of some options from their pairs, in the order in which a map is visited.
  pub record ComesBack (opts : StoreOptions) (n : GoMap Bytes Bytes) : Type 0 where
    pub left : StoreOptions
    pub result : unserialize_options registry n ≡ ok left
    pub last_ones : (k : Bytes) → first k left ≡ last_from k none opts
    pub one_each : keys left ≡ map (λ p. some p.0) n

  comes_back :
      (opts : StoreOptions) (m n : GoMap Bytes Bytes)
      → ((k : Bytes) → Codes k (lookup k m) (last_from k none opts))
      → Same m n
      → IsMap n
      → ComesBack opts n
  comes_back opts m n c s i =
      let d = λ (k : Bytes). subst (λ y. Codes k y (last_from k none opts)) (s k) (c k) in
      let g = unserializes_lem n (
        all_stand n i (λ k v e.
          Stands-of k v (last_from k none opts)
            (subst (λ y. Codes k y (last_from k none opts)) e (d k)))) in
      record {
        left = g.opts;
        result = g.result;
        last_ones = λ k. Codes-unique k (lookup k n) _ _ (g.there k) (d k);
        one_each = g.one_each;
      }

  -- Where each option is registered, so that its own pair comes back as the option: SerializeOptions
  -- succeeds, and whatever the order in which its map is visited, UnserializeOptions returns the
  -- last option that the slice held under each key, and no other: their keys are those of the entries
  -- of the map, in the order of the visit, and a map has one entry for a key.
  pub unserialize-serialize :
      (opts : StoreOptions)
      → AllRegistered opts
      → (m : GoMap Bytes Bytes) × (serialize_options set_string opts ≡ ok m)
        × ((n : GoMap Bytes Bytes) → Same m n → IsMap n → ComesBack opts n)
  unfolding serialize_options lookup
  unserialize-serialize opts a =
      let g = serialize_from-Serializes opts [] (λ k. none) a tt (λ k. tt) in
      (g.params, g.result, λ n. comes_back opts g.params n g.coded)
