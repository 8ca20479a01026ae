-- ===== src/Store/Kafka/Replay.antt =====
-- The messages of a store tell how its map has come to be.
use golibs.Prelude.{Option, List, [], ◌∷◌, ◌≡◌, sym, ap, ◌∙◌, fun_ext, Key, Option-cases, inl, inr}
use golibs.Exec.{Result, ok, err}
use golibs.Errors.{Error}
use golibs.Store.{Store}
use golibs.Store.Options.{nil}
use golibs.Store.Spec.{put, drop, Agrees, Implements}
use golibs.Store.History.{Call, create, update, apply, read, delete, list, call, final}
use golibs.Store.Kafka.{
  Bus, Message, action_created, action_applied, action_updated, action_deleted, Config, announcing,
  announce, produce, is_dry_run,
}

module _ {K V : Type 0} ⦃o : Key K⦄ where
  -- What a reader of the messages does to a map of its own.
  abbrev pub replay_one : Message K V → (K → Option V) → K → Option V
  replay_one m n = elim m.action [
    | action_created ↦ put m.key m.value n
    | action_applied ↦ put m.key m.value n
    | action_updated ↦ put m.key m.value n
    | action_deleted ↦ drop m.key n
  ]

  -- The messages, the last one first.
  unfoldable pub replay : List (Message K V) → (K → Option V) → K → Option V
  replay [] n = n
  replay (m ∷ ms) n = replay_one m (replay ms n)

module _ {S T K V : Type 0} ⦃o : Key K⦄ (Inv : S → Type 0) (view : S → K → Option V)
    (log : T → List (Message K V)) (start : K → Option V) where
  -- The messages so far lead from the start to the map of the store.
  pub record Told (w : S × T) : Type 0 where
    pub valid : Inv w.0
    pub told : view w.0 ≡ replay (log w.1) start

module _ {S T W K V : Type 0} ⦃o : Key K⦄ (Inv : S → Type 0) (view : S → K → Option V)
    (inner : Store S K V) (good : Implements Inv view inner) (bus : Bus T W K V) (cfg : Config)
    (zero : V) (log : T → List (Message K V))
    (delivers : (m : Message K V) (s : S) (t : T)
      → (u : T) × (produce bus cfg m (s, t) ≡ (ok tt, (s, u))) × (log u ≡ m ∷ log t))
    (start : K → Option V) where
  announced :
      (m : Message K V) (s : S) (t : T) (r : Result (Unit {0}) × S)
      → Told Inv view log start (s, t)
      → Agrees Inv view r (ok tt, replay_one m (view s))
      → Told Inv view log start (announce bus cfg nil m (r.0, (r.1, t))).1
  unfolding announce replay is_dry_run
  announced m s t (err e, v) h g = let never : ⊥ = cc g.result in absurd never
  announced m s t (ok x, v) h g =
      let (u, p, q) = delivers m v t in
      rw p (record {
        valid = g.valid;
        told = fun_ext g.holds ∙ ap (replay_one m) h.told ∙ ap (λ l. replay l start) (sym q);
      })

  refused :
      (m : Message K V) (s : S) (t : T) (e : Error) (r : Result (Unit {0}) × S)
      → Told Inv view log start (s, t)
      → Agrees Inv view r (err e, view s)
      → Told Inv view log start (announce bus cfg nil m (r.0, (r.1, t))).1
  unfolding announce
  refused m s t e (ok x, v) h g = let never : ⊥ = cc g.result in absurd never
  refused m s t e (err x, v) h g = record { valid = g.valid; told = fun_ext g.holds ∙ h.told }

  asked :
      {A : Type 0} (s : S) (t : T) (r : Result A × S) (a : Result A)
      → Told Inv view log start (s, t)
      → Agrees Inv view r (a, view s)
      → Told Inv view log start (r.1, t)
  asked s t r a h g = record { valid = g.valid; told = fun_ext g.holds ∙ h.told }

  call-Told :
      (c : Call K V) (w : S × T)
      → Told Inv view log start w
      → Told Inv view log start (call (announcing bus cfg zero inner) c w).1
  unfolding call
  call-Told (create k v) w h = elim (Option-cases (view w.0 k)) [
    | inl e ↦ announced _ w.0 w.1 _ h (rw e at (good.creates k v w.0 h.valid))
    | inr (x, e) ↦ refused _ w.0 w.1 _ _ h (rw e at (good.creates k v w.0 h.valid))
  ]
  call-Told (update k v) w h = elim (Option-cases (view w.0 k)) [
    | inl e ↦ refused _ w.0 w.1 _ _ h (rw e at (good.updates k v w.0 h.valid))
    | inr (x, e) ↦ announced _ w.0 w.1 _ h (rw e at (good.updates k v w.0 h.valid))
  ]
  call-Told (apply k v) w h = announced _ w.0 w.1 _ h (good.applies k v w.0 h.valid)
  call-Told (delete k) w h = elim (Option-cases (view w.0 k)) [
    | inl e ↦ refused _ w.0 w.1 _ _ h (rw e at (good.deletes k w.0 h.valid))
    | inr (x, e) ↦ announced _ w.0 w.1 _ h (rw e at (good.deletes k w.0 h.valid))
  ]
  call-Told (read k) w h = elim (Option-cases (view w.0 k)) [
    | inl e ↦ asked w.0 w.1 _ _ h (rw e at (good.reads k w.0 h.valid))
    | inr (x, e) ↦ asked w.0 w.1 _ _ h (rw e at (good.reads k w.0 h.valid))
  ]
  call-Told list w h =
      let g = good.lists w.0 h.valid in record { valid = g.valid; told = fun_ext g.holds ∙ h.told }

  -- Over a store that implements a map, and with a bus that delivers each message: after any sequence
  -- of calls without options, the messages that were sent, replayed in order from the map at the start,
  -- give the map of the store.
  pub final-Told :
      (calls : List (Call K V)) (w : S × T)
      → Told Inv view log start w
      → Told Inv view log start (final (announcing bus cfg zero inner) calls w)
  unfolding final
  final-Told [] w h = h
  final-Told (c ∷ calls) w h = final-Told calls _ (call-Told c w h)
