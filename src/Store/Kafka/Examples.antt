-- ===== src/Store/Kafka/Examples.antt =====
-- The theorem on messages for the in-memory store and a bus that is a list.
use golibs.Prelude.{ℕ, false, Option, none, List, [], ◌∷◌, ◌≡◌, refl, nat_key}
use golibs.GoMap.{GoMap, lookup, IsMap}
use golibs.Exec.{ok}
use golibs.Store.Memory.{memory}
use golibs.Store.Memory.Refines.{view, memory-Implements}
use golibs.Store.History.{Call, final}
use golibs.Store.History
use golibs.Store.Kafka.{Bus, Message, Config, announcing, produce}
use golibs.Store.Kafka.Replay.{replay, Told, final-Told}

abbrev list_bus : Bus (List (Message ℕ ℕ)) (Message ℕ ℕ) ℕ ℕ
list_bus = record { marshal = λ m. ok m; send = λ m wait t. (none, m ∷ t) }

abbrev config : Config
config = record { send_dry_run = false; wait_for_delivery = false; wait_for_delivery_timeout = 0 }

abbrev log : List (Message ℕ ℕ) → List (Message ℕ ℕ)
log t = t

list_bus-delivers :
    (m : Message ℕ ℕ) (s : GoMap ℕ ℕ) (t : List (Message ℕ ℕ))
    → (u : List (Message ℕ ℕ)) × (produce list_bus config m (s, t) ≡ (ok tt, (s, u)))
      × (log u ≡ m ∷ log t)
unfolding produce
list_bus-delivers m s t = (m ∷ t, refl, refl)

abbrev empty : ℕ → Option ℕ
empty k = none

abbrev calls : List (Call ℕ ℕ)
calls = History.create 1 5 ∷ History.update 1 6 ∷ History.create 1 7 ∷ History.delete 1 ∷ []

start-Told : Told IsMap view log empty ([], [])
unfolding lookup replay
start-Told = record { valid = tt; told = refl }

final-Told_example :
    Told IsMap view log empty (final (announcing list_bus config 0 (memory 0)) calls ([], []))
final-Told_example =
    final-Told IsMap view (memory 0) (memory-Implements 0) list_bus config 0 log list_bus-delivers
      empty calls ([], []) start-Told
