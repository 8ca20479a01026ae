-- ===== src/Store/Guarded.antt =====
-- pkg/store/middleware/nameable/nameable.go and pkg/store/middleware/validatable/validatable.go:
-- stores that check an entry before it reaches the store behind them.
pub mod Admitted
use golibs.Prelude.{Option, none, some, Key, if◌then◌else◌}
use golibs.Errors.{Error, invalid}
use golibs.Exec.{refuse}
use golibs.Store.{Store}

abbrev pub err_nameable_key_mismatch : Error
err_nameable_key_mismatch = invalid 20

module _ {ℓ} {S K V : Type ℓ} where
  -- What the two have in common: `check` in front of each method that writes a value.
  abbrev pub guarded : (K → V → Option Error) → Store S K V → Store S K V
  guarded check inner = record {
    create = λ key value opts. refuse (check key value) (inner.create key value opts);
    read = inner.read;
    update = λ key value opts. refuse (check key value) (inner.update key value opts);
    apply = λ key value opts. refuse (check key value) (inner.apply key value opts);
    delete = inner.delete;
    list = inner.list;
  }

-- The keys are the names; `get_name` is the method of the values.
module _ {ℓ} {K V : Type ℓ} ⦃o : Key K⦄ (get_name : V → K) where
  unfoldable pub name_check : K → V → Option Error
  name_check key value = if o.eqb key (get_name value) then none else some err_nameable_key_mismatch

  -- nameable.New
  abbrev pub named : {S : Type ℓ} → Store S K V → Store S K V
  named = guarded name_check

-- validatable.New; `validate` is the method of the values.
module _ {ℓ} {K V : Type ℓ} (validate : V → Option Error) where
  abbrev pub validating : {S : Type ℓ} → Store S K V → Store S K V
  validating = guarded (λ key value. validate value)
