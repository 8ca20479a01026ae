-- ===== src/Store/Listing.antt =====
-- Lists of items in ascending order of their keys: `sort.Slice` by key, and what fixes its result.
use golibs.Prelude.{
  true, false, Option, none, some, List, [], ◌∷◌, ◌≡◌, refl, sym, ap₂, ◌∙◌, Key, arith,
  if◌then◌else◌, Bool-cases, inl, inr, eqb_refl,
}
use golibs.GoMap.{GoMap, lookup, IsMap}
use golibs.GoMap
use golibs.GoMap.Laws.{lookup-store, store-IsMap}
use golibs.Store.{ListItem, store_items, items_as_map}

module _ {ℓ} {K V : Type ℓ} ⦃o : Key K⦄ where
  -- The value of a key in a list of items.
  unfoldable pub find : K → List (ListItem K V) → Option V
  find k [] = none
  find k (x ∷ xs) = if o.eqb x.key k then some x.value else find k xs

  -- Every key comes behind `k`.
  abbrev pub Above : K → List (ListItem K V) → Type ℓ
  Above k [] = Unit
  Above k (x ∷ xs) = (o.less k x.key ≡ true) × Above k xs

  -- Strictly ascending.
  abbrev pub Ascending : List (ListItem K V) → Type ℓ
  Ascending [] = Unit
  Ascending (x ∷ xs) = Above x.key xs × Ascending xs

  unfoldable pub insert_item : ListItem K V → List (ListItem K V) → List (ListItem K V)
  insert_item x [] = x ∷ []
  insert_item x (y ∷ ys) = if o.less y.key x.key then y ∷ insert_item x ys else x ∷ y ∷ ys

  -- sort.Slice(items, items[i].Key < items[j].Key)
  unfoldable pub sort_items : List (ListItem K V) → List (ListItem K V)
  unfolding insert_item
  sort_items [] = []
  sort_items (x ∷ xs) = insert_item x (sort_items xs)

  pub find-insert_item :
      (k : K) (x : ListItem K V) (xs : List (ListItem K V))
      → find x.key xs ≡ none
      → find k (insert_item x xs) ≡ (if o.eqb x.key k then some x.value else find k xs)
  unfolding find insert_item
  find-insert_item k x [] h = refl
  find-insert_item k x (y ∷ ys) h =
      ground (
        arith,
        o.eqb_iff x.key k,
        o.eqb_iff y.key k,
        o.eqb_iff y.key x.key,
        find-insert_item k x ys,
      )

  Above-trans : (j k : K) (xs : List (ListItem K V)) → o.less j k ≡ true → Above k xs → Above j xs
  Above-trans j k [] h a = tt
  Above-trans j k (x ∷ xs) h a = (o.less_trans j k x.key h a.0, Above-trans j k xs h a.1)

  Above-insert_item :
      (k : K) (x : ListItem K V) (xs : List (ListItem K V))
      → o.less k x.key ≡ true
      → Above k xs
      → Above k (insert_item x xs)
  unfolding insert_item
  Above-insert_item k x [] h a = (h, tt)
  Above-insert_item k x (y ∷ ys) h a = ground (arith, Above-insert_item k x ys h a.1)

  -- What is not below `k` and is not `k` comes behind it.
  above_of :
      (k : K) (y : ListItem K V)
      → o.less y.key k ≡ false
      → o.eqb y.key k ≡ false
      → o.less k y.key ≡ true
  above_of k y h e = elim (Bool-cases (o.less k y.key)) [
    | inl t ↦ t
    | inr f ↦ let same = o.less_total y.key k h f in ground (arith, o.eqb_iff y.key k)
  ]

  pub Ascending-insert_item :
      (x : ListItem K V) (xs : List (ListItem K V))
      → find x.key xs ≡ none
      → Ascending xs
      → Ascending (insert_item x xs)
  unfolding find insert_item
  Ascending-insert_item x [] h a = (tt, tt)
  Ascending-insert_item x (y ∷ ys) h a = elim (Bool-cases (o.eqb y.key x.key)) [
    | inl e ↦ ground arith
    | inr e ↦ elim (Bool-cases (o.less y.key x.key)) [
      | inl l ↦
          rw l (Above-insert_item y.key x ys l a.0, Ascending-insert_item x ys (ground arith) a.1)
      | inr l ↦
          rw l ((above_of x.key y l e, Above-trans x.key y.key ys (above_of x.key y l e) a.0), a)
    ]
  ]

  -- A key below all others is not among them.
  pub find-Above : (k : K) (xs : List (ListItem K V)) → Above k xs → find k xs ≡ none
  unfolding find
  find-Above k [] a = refl
  find-Above k (x ∷ xs) a = ground (arith, o.eqb_iff x.key k, o.less_irrefl k, find-Above k xs a.1)

  abbrev pub Agree : List (ListItem K V) → List (ListItem K V) → Type ℓ
  Agree xs ys = (k : K) → find k xs ≡ find k ys

  not_below :
      (x : ListItem K V) (xs ys : List (ListItem K V)) → Agree (x ∷ xs) ys → Above x.key ys → ⊥
  unfolding find
  not_below x xs ys h a = ground (arith, h x.key, eqb_refl x.key, find-Above x.key ys a)

  -- The items of ascending lists that hold the same values have the same smallest key.
  same_head :
      (x y : ListItem K V) (xs ys : List (ListItem K V))
      → Above x.key xs
      → Above y.key ys
      → Agree (x ∷ xs) (y ∷ ys)
      → o.eqb y.key x.key ≡ true
  unfolding find
  same_head x y xs ys a b h = elim (Bool-cases (o.less x.key y.key)) [
    | inl l ↦ absurd (not_below x xs (y ∷ ys) h (l, Above-trans x.key y.key ys l b))
    | inr l ↦ elim (Bool-cases (o.less y.key x.key)) [
      | inl m ↦
          absurd (not_below y ys (x ∷ xs) (λ k. sym (h k)) (m, Above-trans y.key x.key xs m a))
      | inr m ↦ (o.eqb_iff y.key x.key).1 (o.less_total y.key x.key m l)
    ]
  ]

  same_items :
      (x y : ListItem K V) (xs ys : List (ListItem K V))
      → Above x.key xs
      → Above y.key ys
      → Agree (x ∷ xs) (y ∷ ys)
      → x ≡ y
  unfolding find
  same_items x y xs ys a b h =
      ground (arith, same_head x y xs ys a b h, h x.key, eqb_refl x.key, o.eqb_iff y.key x.key)

  same_tails :
      (x y : ListItem K V) (xs ys : List (ListItem K V))
      → Above x.key xs
      → Above y.key ys
      → Agree (x ∷ xs) (y ∷ ys)
      → Agree xs ys
  unfolding find
  same_tails x y xs ys a b h k = ground (
    arith,
    same_head x y xs ys a b h,
    h k,
    o.eqb_iff x.key k,
    o.eqb_iff y.key k,
    o.eqb_iff y.key x.key,
    find-Above x.key xs a,
    find-Above y.key ys b,
  )

  -- Ascending lists with the same values are the same list.
  pub Ascending-ext :
      (xs ys : List (ListItem K V)) → Ascending xs → Ascending ys → Agree xs ys → xs ≡ ys
  unfolding find
  Ascending-ext [] [] a b h = refl
  Ascending-ext [] (y ∷ ys) a b h = ground (arith, h y.key, eqb_refl y.key)
  Ascending-ext (x ∷ xs) [] a b h = ground (arith, h x.key, eqb_refl x.key)
  Ascending-ext (x ∷ xs) (y ∷ ys) a b h =
      ap₂ ◌∷◌ (same_items x y xs ys a.0 b.0 h)
        (Ascending-ext xs ys a.1 b.1 (same_tails x y xs ys a.0 b.0 h))

  -- `sort_items` of the entries of a map.
  unfoldable pub items_of : GoMap K V → List (ListItem K V)
  items_of [] = []
  items_of ((k, v) ∷ m) = record { key = k; value = v } ∷ items_of m

  pub find-sort_items :
      (m : GoMap K V) (k : K) → IsMap m → find k (sort_items (items_of m)) ≡ lookup k m
  unfolding find sort_items items_of lookup
  find-sort_items [] k h = refl
  find-sort_items ((j, v) ∷ m) k h = ground (
    arith,
    find-insert_item k (record { key = j; value = v }) (sort_items (items_of m)),
    find-sort_items m k h.1,
    find-sort_items m j h.1,
  )

  pub Ascending-sort_items : (m : GoMap K V) → IsMap m → Ascending (sort_items (items_of m))
  unfolding sort_items items_of
  Ascending-sort_items [] h = tt
  Ascending-sort_items ((j, v) ∷ m) h =
      Ascending-insert_item (record { key = j; value = v }) (sort_items (items_of m))
        (find-sort_items m j h.1 ∙ h.0) (Ascending-sort_items m h.1)

  lookup-store_items :
      (k : K) (m : GoMap K V) (xs : List (ListItem K V))
      → Ascending xs
      → lookup k (store_items m xs) ≡ (elim (find k xs) [ none ↦ lookup k m | some v ↦ some v ])
  unfolding store_items find
  lookup-store_items k m [] a = refl
  lookup-store_items k m (x ∷ xs) a = ground (
    arith,
    lookup-store_items k (GoMap.store x.key x.value m) xs a.1,
    lookup-store x.key k x.value m,
    find-Above x.key xs a.0,
    o.eqb_iff x.key k,
  )

  -- ListItems.AsMap of an ascending list holds what the list holds.
  pub lookup-items_as_map :
      (k : K) (xs : List (ListItem K V)) → Ascending xs → lookup k (items_as_map xs) ≡ find k xs
  unfolding items_as_map lookup
  lookup-items_as_map k xs a = ground (arith, lookup-store_items k [] xs a)

  store_items-IsMap :
      (m : GoMap K V) (xs : List (ListItem K V)) → IsMap m → IsMap (store_items m xs)
  unfolding store_items
  store_items-IsMap m [] h = h
  store_items-IsMap m (x ∷ xs) h =
      store_items-IsMap (GoMap.store x.key x.value m) xs (store-IsMap x.key x.value m h)

  pub items_as_map-IsMap : (xs : List (ListItem K V)) → IsMap (items_as_map xs)
  unfolding items_as_map
  items_as_map-IsMap xs = store_items-IsMap [] xs tt
