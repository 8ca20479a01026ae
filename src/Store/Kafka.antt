-- ===== src/Store/Kafka.antt =====
-- pkg/store/middleware/kafka/kafka.go: a store that sends a message for each change. The producer of
-- Kafka and json.Marshal are functions; the bus has a state of its own, beside that of the store.
pub mod Replay
mod Examples
use golibs.Prelude.{
  ℕ, Bool, true, false, not, ◌&&◌, Option, none, some, Key, is_some, if◌then◌else◌, ltb,
}
use golibs.Errors.{Error}
use golibs.Exec.{Result, ok, err, Exec, continue, from_error}
use golibs.Store.{Store, ListItem}
use golibs.Store.Lift.{left}
use golibs.Store.Options.{StoreOptions, match_dry_run}

-- WaitForDeliveryTimeout is in nanoseconds.
pub record Config : Type 0 where
  pub send_dry_run : Bool
  pub wait_for_delivery : Bool
  pub wait_for_delivery_timeout : ℕ

pub data Action : Type 0 where
  action_created action_applied action_updated action_deleted : Action

pub record Message (K V : Type 0) : Type 0 where
  pub key : K
  pub value : V
  pub action : Action

-- The producer: `send` is Produce, with its option to wait and the timeout of that.
pub record Bus (T W K V : Type 0) : Type 0 where
  pub marshal : Message K V → Result W
  pub send : W → Option (Option ℕ) → T → Option Error × T

-- IsDryRun
unfoldable pub is_dry_run : StoreOptions → Bool
unfolding match_dry_run
is_dry_run opts = is_some (match_dry_run opts).0

abbrev delivery : Config → Option (Option ℕ)
delivery cfg =
    if not cfg.wait_for_delivery
    then none
    else some
        (if ltb 0 cfg.wait_for_delivery_timeout then some cfg.wait_for_delivery_timeout else none)

module _ {S T W K V : Type 0} (bus : Bus T W K V) (cfg : Config) where
  abbrev sent : Option Error × T → S → Result (Unit {0}) × (S × T)
  sent (e, t) s = (from_error e, (s, t))

  abbrev send_raw : Result W → S × T → Result (Unit {0}) × (S × T)
  send_raw (err e) w = (err e, w)
  send_raw (ok raw) w = sent (bus.send raw (delivery cfg) w.1) w.0

  -- Produce
  unfoldable pub produce : Message K V → S × T → Result (Unit {0}) × (S × T)
  produce m w = send_raw (bus.marshal m) w

  -- What Create, Update, Apply and Delete do behind the method of the store. The options are a
  -- value here: what the store consumed of them is still there for IsDryRun.
  unfoldable pub announce :
      StoreOptions → Message K V → Result (Unit {0}) × (S × T) → Result (Unit {0}) × (S × T)
  unfolding is_dry_run produce
  announce opts m r =
      continue r
        (λ u w. if is_dry_run opts && not cfg.send_dry_run then (ok tt, w) else produce m w)

  -- New; `zero` is the zero value of V.
  abbrev pub announcing : V → Store S K V → Store (S × T) K V
  announcing zero inner = record {
    create = λ key value opts w.
        announce opts (record { key = key; value = value; action = action_created })
          (left (inner.create key value opts) w);
    read = λ key opts. left (inner.read key opts);
    update = λ key value opts w.
        announce opts (record { key = key; value = value; action = action_updated })
          (left (inner.update key value opts) w);
    apply = λ key value opts w.
        announce opts (record { key = key; value = value; action = action_applied })
          (left (inner.apply key value opts) w);
    delete = λ key opts w.
        announce opts (record { key = key; value = zero; action = action_deleted })
          (left (inner.delete key opts) w);
    list = λ opts. left (inner.list opts);
  }
