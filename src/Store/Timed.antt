-- ===== src/Store/Timed.antt =====
-- pkg/store/utilities/timed: a store whose entries carry the second of their last write, and a
-- sweep that deletes the old ones. `now` is what time.Now().Unix() returns in the call; seconds
-- are counted from the epoch on. Durations are nanoseconds, as in Go.
pub mod Laws
pub mod Sweep
mod Examples
use golibs.Prelude.{
  ℕ, Bool, true, false, Option, none, some, List, [], ◌∷◌, Key, leb, suc, ◌+◌, ◌/◌, if◌then◌else◌,
}
use golibs.Errors.{Error, invalid}
use golibs.Exec.{Result, ok, err, Exec, continue, ◌>>◌, pure}
use golibs.Store.{Store, ListItem}
use golibs.Store.Options.{StoreOptions, nil}

-- An int64 duration: `pos n` is n, `negsuc n` is -(n + 1).
pub data ℤ : Type 0 where
  pos : ℕ → ℤ
  negsuc : ℕ → ℤ

pub record Config : Type 0 where
  pub refresh_age_on_read : Bool
  pub sync_period : ℤ
  pub max_age : ℤ

abbrev pub err_nil_options : Error
err_nil_options = invalid 30

abbrev pub err_max_age : Error
err_max_age = invalid 31

abbrev pub err_sync_period : Error
err_sync_period = invalid 32

abbrev positive : ℤ → Bool
positive (pos n) = leb 1 n
positive (negsuc n) = false

-- Config.Validate; a nil pointer is `none`.
unfoldable pub validate : Option Config → Option Error
validate none = some err_nil_options
validate (some c) =
    if positive c.max_age
    then (if positive c.sync_period then none else some err_sync_period)
    else some err_max_age

pub record CacheItem {ℓ} (V : Type ℓ) : Type ℓ where
  pub value : V
  pub timestamp : ℕ

abbrev pub nanoseconds : ℕ
nanoseconds = 1000000000

-- IsExpired: `now - timestamp >= seconds`, with the seconds of the age cut off towards zero.
unfoldable pub is_expired : ℕ → ℕ → ℤ → Bool
is_expired now timestamp (pos n) = leb (timestamp + n / nanoseconds) now
is_expired now timestamp (negsuc n) = leb timestamp (now + suc n / nanoseconds)

module _ {ℓ} {V : Type ℓ} where
  -- NewCacheItem
  abbrev pub new_cache_item : ℕ → V → CacheItem V
  new_cache_item now value = record { value = value; timestamp = now }

  -- RefreshTimestamp
  abbrev pub refresh_timestamp : ℕ → CacheItem V → CacheItem V
  refresh_timestamp now item = record item { timestamp = now }

  -- The loop of List.
  unfoldable pub values : {K : Type ℓ} → List (ListItem K (CacheItem V)) → List (ListItem K V)
  values [] = []
  values (x ∷ xs) = record { key = x.key; value = x.value.value } ∷ values xs

module _ {ℓ} {S K V : Type ℓ} where
  module _ (inner : Store S K (CacheItem V)) where
    -- Read behind the read of the store, and where the age is renewed.
    unfoldable pub timed_read : Config → ℕ → K → StoreOptions → Exec S V
    timed_read cfg now key opts s = continue (inner.read key opts s) (λ item.
        if cfg.refresh_age_on_read
        then (inner.update key (refresh_timestamp now item) nil >> pure item.value)
        else pure item.value)

    -- List
    unfoldable pub timed_list : StoreOptions → Exec S (List (ListItem K V))
    timed_list opts s = continue (inner.list opts s) (λ items. pure (values items))

    -- The methods in a call at the second `now`.
    abbrev pub timed : Config → ℕ → Store S K V
    timed cfg now = record {
      create = λ key value opts. inner.create key (new_cache_item now value) opts;
      read = timed_read cfg now;
      update = λ key value opts. inner.update key (new_cache_item now value) opts;
      apply = λ key value opts. inner.apply key (new_cache_item now value) opts;
      delete = inner.delete;
      list = timed_list;
    }

    -- The loop of DeleteItemsOlderThan. The clock is read for each item: `clock k` is what it says
    -- at the item of the key k.
    unfoldable pub delete_expired :
        ℤ → (K → ℕ) → List (ListItem K (CacheItem V)) → Exec S (Unit {0})
    delete_expired age clock [] = pure tt
    delete_expired age clock (x ∷ xs) =
        let rest = delete_expired age clock xs in
        if is_expired (clock x.key) x.value.timestamp age
        then (inner.delete x.key nil >> rest)
        else rest

    -- DeleteItemsOlderThan
    unfoldable pub delete_items_older_than : ℤ → (K → ℕ) → Exec S (Unit {0})
    delete_items_older_than age clock s = continue (inner.list nil s) (delete_expired age clock)

-- New; the store behind is kept as it is.
unfoldable pub new_timed {ℓ} :
    {S K V : Type ℓ}
    → Option Config
    → Store S K (CacheItem V)
    → Result (Config × Store S K (CacheItem V))
new_timed cfg backend = elim (validate cfg) [
  | some e ↦ err e
  | none ↦ elim cfg [ some c ↦ ok (c, backend) | none ↦ err err_nil_options ]
]
