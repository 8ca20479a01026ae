-- ===== src/Store/Prefix/Refines.antt =====
-- A prefixed store implements the part of the map behind it whose keys have the prefix, and
-- touches no other key.
use golibs.Prelude.{
  false, none, some, Option, List, ◌++◌, ◌≡◌, refl, ◌∙◌, arith, Bytes, bytes_key, has_prefix,
  has_prefix-append, bytes_eqb-append, if◌then◌else◌, Option-cases, inl, inr, Bool-cases,
  bytes_eqb_iff, bytes_eqb,
}
use golibs.Exec.{Result, ok, err, continue}
use golibs.Store.{Store, ListItem}
use golibs.Store.Options.{nil, cons, with_prefix, match_prefix, append_option}
use golibs.Store.Spec.{
  put, drop, spec_create, spec_read, spec_update, spec_delete, Agrees, Lists, Implements,
}
use golibs.Store.Prefix.{prefixed, prefix_list, strip}
use golibs.Store.Prefix.Stripping.{Only, find-strip, Ascending-strip}

module _ {S V : Type 0} (Inv : S → Type 0) (view : S → Bytes → Option V) where
  -- The store can list by prefix.
  pub record ListsByPrefix (st : Store S Bytes V) : Type 0 where
    pub lists_prefix :
        (p : Bytes) (s : S)
        → Inv s
        → Lists Inv view
            (st.list (cons (with_prefix p) nil) s)
            (view s)
            (λ j. if has_prefix j p then view s j else none)

  module _ (p : Bytes) where
    -- What a client of the prefixed store sees.
    abbrev pub under : S → Bytes → Option V
    under s j = view s (p ++ j)

    Agrees-under {κ} :
        {A : Type κ} {r : Result A × S} (a : Result A) (m n : Bytes → Option V)
        → Agrees Inv view r (a, m)
        → ((j : Bytes) → m (p ++ j) ≡ n j)
        → Agrees Inv under r (a, n)
    Agrees-under a m n g h = record {
      result = g.result;
      holds = λ j. g.holds (p ++ j) ∙ h j;
      valid = g.valid;
    }

    put-under :
        (k : Bytes) (v : V) (m : Bytes → Option V) (j : Bytes)
        → put (p ++ k) v m (p ++ j) ≡ put k v (λ i. m (p ++ i)) j
    put-under k v m j = rw (bytes_eqb-append p k j)

    drop-under :
        (k : Bytes) (m : Bytes → Option V) (j : Bytes)
        → drop (p ++ k) m (p ++ j) ≡ drop k (λ i. m (p ++ i)) j
    drop-under k m j = rw (bytes_eqb-append p k j)

    module _ (inner : Store S Bytes V) (good : Implements Inv view inner)
        (by_prefix : ListsByPrefix inner) where
      creates_lem :
          (k : Bytes) (v : V) (s : S)
          → Inv s
          → Agrees Inv under (inner.create (p ++ k) v nil s) (spec_create k v (under s) (under s k))
      creates_lem k v s h = elim (Option-cases (view s (p ++ k))) [
        | inl e ↦
            rw e
              (Agrees-under _ _ _ (rw e at (good.creates (p ++ k) v s h)) (put-under k v (view s)))
        | inr (w, e) ↦ rw e (Agrees-under _ _ _ (rw e at (good.creates (p ++ k) v s h)) (λ j. refl))
      ]

      reads_lem :
          (k : Bytes) (s : S)
          → Inv s
          → Agrees Inv under (inner.read (p ++ k) nil s) (spec_read (under s) (under s k))
      reads_lem k s h = elim (Option-cases (view s (p ++ k))) [
        | inl e ↦ rw e (Agrees-under _ _ _ (rw e at (good.reads (p ++ k) s h)) (λ j. refl))
        | inr (w, e) ↦ rw e (Agrees-under _ _ _ (rw e at (good.reads (p ++ k) s h)) (λ j. refl))
      ]

      updates_lem :
          (k : Bytes) (v : V) (s : S)
          → Inv s
          → Agrees Inv under (inner.update (p ++ k) v nil s) (spec_update k v (under s) (under s k))
      updates_lem k v s h = elim (Option-cases (view s (p ++ k))) [
        | inl e ↦ rw e (Agrees-under _ _ _ (rw e at (good.updates (p ++ k) v s h)) (λ j. refl))
        | inr (w, e) ↦
            rw e
              (Agrees-under _ _ _ (rw e at (good.updates (p ++ k) v s h)) (put-under k v (view s)))
      ]

      applies_lem :
          (k : Bytes) (v : V) (s : S)
          → Inv s
          → Agrees Inv under (inner.apply (p ++ k) v nil s) (ok tt, put k v (under s))
      applies_lem k v s h =
          Agrees-under _ _ _ (good.applies (p ++ k) v s h) (put-under k v (view s))

      deletes_lem :
          (k : Bytes) (s : S)
          → Inv s
          → Agrees Inv under (inner.delete (p ++ k) nil s) (spec_delete k (under s) (under s k))
      deletes_lem k s h = elim (Option-cases (view s (p ++ k))) [
        | inl e ↦ rw e (Agrees-under _ _ _ (rw e at (good.deletes (p ++ k) s h)) (λ j. refl))
        | inr (w, e) ↦
            rw e (Agrees-under _ _ _ (rw e at (good.deletes (p ++ k) s h)) (drop-under k (view s)))
      ]

      prefix_list-Lists :
          (s : S) (r : Result (List (ListItem Bytes V)) × S)
          → Lists Inv view r (view s) (λ j. if has_prefix j p then view s j else none)
          → Lists Inv under (continue r (λ items t. (ok (strip p items), t))) (under s) (under s)
      prefix_list-Lists s (err e, t) g = let never : ⊥ = cc g.result in absurd never
      prefix_list-Lists s (ok xs, t) g = record {
        items = strip p g.items;
        result = ground (arith, g.result);
        ascending = Ascending-strip p g.items only g.ascending;
        listed = λ j. find-strip p j g.items only ∙ g.listed (p ++ j) ∙ rw (has_prefix-append p j);
        holds = λ j. g.holds (p ++ j);
        valid = g.valid;
      }
        where
          only : Only p g.items
          only j e = g.listed j ∙ rw e

      lists_lem : (s : S) → Inv s → Lists Inv under (prefix_list inner p nil s) (under s) (under s)
      unfolding prefix_list match_prefix append_option
      lists_lem s h = prefix_list-Lists s _ (by_prefix.lists_prefix p s h)

      -- Over a store that implements a map and lists by prefix, the prefixed store implements the
      -- map from each key to what the prefix followed by the key holds: no key of another prefix
      -- shows, and List returns its keys without the prefix, in ascending order.
      pub prefixed-Implements : Implements Inv under (prefixed inner p)
      prefixed-Implements = record {
        creates = creates_lem;
        reads = reads_lem;
        updates = updates_lem;
        applies = applies_lem;
        deletes = deletes_lem;
        lists = lists_lem;
      }

    -- A key that does not have the prefix.
    abbrev pub IsOutside : Bytes → Type 0
    IsOutside j = has_prefix j p ≡ false

    other_key : (k j : Bytes) → IsOutside j → bytes_eqb (p ++ k) j ≡ false
    other_key k j h = elim (Bool-cases (bytes_eqb (p ++ k) j)) [
      | inl e ↦ ground (arith, bytes_eqb_iff (p ++ k) j, has_prefix-append p k)
      | inr e ↦ e
    ]

    module _ (inner : Store S Bytes V) (good : Implements Inv view inner) where
      -- Over a store that implements a map, Create, Update, Apply and Delete of a prefixed store,
      -- without options, leave every key without the prefix as
      -- it is in the store behind.
      pub prefixed_isolates :
          (k j : Bytes) (v : V) (s : S)
          → Inv s
          → IsOutside j
          → (view ((prefixed inner p).create k v nil s).1 j ≡ view s j)
            × (view ((prefixed inner p).update k v nil s).1 j ≡ view s j)
            × (view ((prefixed inner p).apply k v nil s).1 j ≡ view s j)
            × (view ((prefixed inner p).delete k nil s).1 j ≡ view s j)
      prefixed_isolates k j v s h out = (
        created (view s (p ++ k)) (good.creates (p ++ k) v s h),
        updated (view s (p ++ k)) (good.updates (p ++ k) v s h),
        (good.applies (p ++ k) v s h).holds j ∙ rw (other_key k j out),
        deleted (view s (p ++ k)) (good.deletes (p ++ k) s h),
      )
        where
          created :
              {r : Result (Unit {0}) × S} (w : Option V)
              → Agrees Inv view r (spec_create (p ++ k) v (view s) w)
              → view r.1 j ≡ view s j
          created none g = g.holds j ∙ rw (other_key k j out)
          created (some w) g = g.holds j

          updated :
              {r : Result (Unit {0}) × S} (w : Option V)
              → Agrees Inv view r (spec_update (p ++ k) v (view s) w)
              → view r.1 j ≡ view s j
          updated none g = g.holds j
          updated (some w) g = g.holds j ∙ rw (other_key k j out)

          deleted :
              {r : Result (Unit {0}) × S} (w : Option V)
              → Agrees Inv view r (spec_delete (p ++ k) (view s) w)
              → view r.1 j ≡ view s j
          deleted none g = g.holds j
          deleted (some w) g = g.holds j ∙ rw (other_key k j out)
