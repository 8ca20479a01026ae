-- ===== src/Store/Prefix/Stripping.antt =====
-- Stripping a prefix that all keys of a list have keeps the order and the values.
use golibs.Prelude.{
  true, false, none, List, [], ◌∷◌, ◌++◌, ◌≡◌, refl, ◌∙◌, arith, Bytes, bytes_key, has_prefix,
  trim_prefix, append-trim_prefix, bytes_eqb-append, bytes_less-append, bytes_less, Bool-cases, inl,
  inr, eqb_refl,
}
use golibs.Store.{ListItem}
use golibs.Store.Listing.{find, Above, Ascending}
use golibs.Store.Prefix.{strip}

less-trim_prefix :
    (p a b : Bytes)
    → has_prefix a p ≡ true
    → has_prefix b p ≡ true
    → bytes_less (trim_prefix a p) (trim_prefix b p) ≡ bytes_less a b
less-trim_prefix p a b h k = ground (
  arith,
  append-trim_prefix p a h,
  append-trim_prefix p b k,
  bytes_less-append p (trim_prefix a p) (trim_prefix b p),
)

module _ {V : Type 0} (p : Bytes) where
  -- A key without the prefix is not in the list.
  abbrev pub Only : List (ListItem Bytes V) → Type 0
  Only xs = (j : Bytes) → has_prefix j p ≡ false → find j xs ≡ none

  head-Only :
      (x : ListItem Bytes V) (xs : List (ListItem Bytes V))
      → Only (x ∷ xs)
      → has_prefix x.key p ≡ true
  unfolding find
  head-Only x xs h = elim (Bool-cases (has_prefix x.key p)) [
    | inl e ↦ e
    | inr e ↦ ground (arith, h x.key e, eqb_refl x.key)
  ]

  tail-Only : (x : ListItem Bytes V) (xs : List (ListItem Bytes V)) → Only (x ∷ xs) → Only xs
  unfolding find
  tail-Only x xs h j e = ground (arith, h j e)

  pub find-strip :
      (j : Bytes) (xs : List (ListItem Bytes V)) → Only xs → find j (strip p xs) ≡ find (p ++ j) xs
  unfolding find strip
  find-strip j [] h = refl
  find-strip j (x ∷ xs) h = ground (
    arith,
    find-strip j xs (tail-Only x xs h),
    append-trim_prefix p x.key (head-Only x xs h),
    bytes_eqb-append p (trim_prefix x.key p) j,
  )

  Above-strip :
      (k : Bytes) (xs : List (ListItem Bytes V))
      → has_prefix k p ≡ true
      → Only xs
      → Above k xs
      → Above (trim_prefix k p) (strip p xs)
  unfolding strip
  Above-strip k [] e h a = tt
  Above-strip k (x ∷ xs) e h a = (
    less-trim_prefix p k x.key e (head-Only x xs h) ∙ a.0,
    Above-strip k xs e (tail-Only x xs h) a.1,
  )

  pub Ascending-strip :
      (xs : List (ListItem Bytes V)) → Only xs → Ascending xs → Ascending (strip p xs)
  unfolding strip
  Ascending-strip [] h a = tt
  Ascending-strip (x ∷ xs) h a = (
    Above-strip x.key xs (head-Only x xs h) (tail-Only x xs h) a.0,
    Ascending-strip xs (tail-Only x xs h) a.1,
  )
