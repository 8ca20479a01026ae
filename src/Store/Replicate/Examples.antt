-- ===== src/Store/Replicate/Examples.antt =====
-- The theorem on replicas for two in-memory stores.
use golibs.Prelude.{arith, ℕ, ◌-◌, true, false, [], ◌∷◌, refl, nat_key, codes, Bool}
use golibs.GoMap.{GoMap, lookup, IsMap}
use golibs.Errors.{sentinel, wait_timeout, same}
use golibs.Store.Memory.{memory}
use golibs.Store.Memory.Refines.{view, memory-Implements}
use golibs.Workflow.{Waiting, Options}
use golibs.Store.Replicate.{Replica}
use golibs.Store.Replicate.Coherent.{Shows, Coherent}
use golibs.Store.Replicate.Refines.{Together, replicate-Together}

abbrev counting : Waiting ℕ
counting = record {
  steps = λ b. b;
  step = λ b. b - 1;
  wait_timeout = sentinel wait_timeout;
  is_interrupted = λ e. same e (sentinel wait_timeout);
  counts_down = λ b. omega arith;
  timeout_interrupts = refl;
}

abbrev retry_once : Options ℕ
retry_once = record { backoff = 2; run_forever = false; is_retriable = λ e. true; rounds = 3 }

abbrev retry_default : Options ℕ
retry_default = record { backoff = 4; run_forever = false; is_retriable = λ e. true; rounds = 5 }

abbrev entries : GoMap ℕ ℕ
entries = (1, 10) ∷ []

abbrev replica : Replica (GoMap ℕ ℕ) ℕ ℕ
replica = record { store = memory 0; state = entries }

abbrev never_nil : ℕ → Bool
never_nil v = false

replica-Shows : Shows IsMap view (view entries) replica
unfolding lookup
replica-Shows = record { good = memory-Implements 0; valid = (refl, tt); shown = λ j. refl }

two-Coherent : Coherent IsMap view (view entries) (replica ∷ replica ∷ [])
two-Coherent = (replica-Shows, (replica-Shows, tt))

replicate-Together_example :
    Together IsMap view 0 never_nil counting retry_once retry_default 1 refl refl refl refl
      (λ e. refl)
      (codes "replicate")
      (view entries)
      replica
      (replica ∷ [])
      two-Coherent
replicate-Together_example =
    replicate-Together IsMap view 0 never_nil counting retry_once retry_default 1 refl refl refl
      refl (λ e. refl) (codes "replicate") (view entries) replica (replica ∷ []) two-Coherent
