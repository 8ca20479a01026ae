-- ===== src/KafkaStatus.antt =====
-- pkg/kafka/stats (status.go, stats.go): the status of Kafka brokers and of consuming. A map of brokers
-- is a list with the state of each broker, as a string; the methods, which hold a lock, are single steps.
pub mod Overall
mod Examples
use golibs.Prelude.{
  ℕ, ℤ, pos, is_zero, ◌+◌, Bool, true, false, ◌&&◌, ◌||◌, not, ◌==◌, Option, none, some, List, [],
  ◌∷◌, Bytes, bytes_eqb, codes, if◌then◌else◌, length, is_empty,
}
use golibs.Errors.{Error}

pub data State : Type 0 where
  down_state up_state partial_state unknown_state : State

abbrev pub state_string : State → Bytes
state_string down_state = codes "DOWN"
state_string up_state = codes "UP"
state_string partial_state = codes "PARTIAL"
state_string unknown_state = codes "UNKNOWN"

-- InternalStatus, with the status of consuming that Details wraps. A kafka.ErrorCode is a signed
-- integer, and ErrNoError is 0.
pub record InternalStatus : Type 0 where
  pub status : Bytes
  pub code : ℤ
  pub consuming : Bytes

-- DefaultKafkaStatus
abbrev pub default_kafka_status : InternalStatus
default_kafka_status = record {
  status = state_string down_state;
  code = pos 0;
  consuming = state_string down_state;
}

-- SetCode
abbrev pub set_code : ℤ → InternalStatus → InternalStatus
set_code c s = record s { code = c }

-- IsHealthy
unfoldable pub is_healthy : InternalStatus → Bool
unfolding bytes_eqb
is_healthy s =
    if bytes_eqb s.status (state_string down_state)
    then false
    else (if bytes_eqb s.consuming (state_string down_state) then false else is_zero s.code)

-- The state of each broker; `none` is a broker without a string under that key.
abbrev pub Brokers : Type 0
Brokers = List (Option Bytes)

unfoldable pub in_state : State → Option Bytes → Bool
unfolding bytes_eqb
in_state s none = false
in_state s (some b) = bytes_eqb b (state_string s)

-- The loop of ParseStatus, with its two counters.
unfoldable pub count_states : ℕ → ℕ → Brokers → ℕ × ℕ
unfolding in_state
count_states up down [] = (up, down)
count_states up down (b ∷ brokers) =
    if in_state up_state b
    then count_states (up + 1) down brokers
    else (if in_state down_state b
        then count_states up (down + 1) brokers
        else count_states up down brokers)

-- The switch of ParseStatus over the counters.
abbrev pub of_counts : ℕ → ℕ × ℕ → State
of_counts n (up, down) =
    if up == n
    then up_state
    else (if down == n
        then down_state
        else (if (up == 0) && (down == 0) then unknown_state else partial_state))

-- ParseStatus
unfoldable pub parse_status : Brokers → State
unfolding count_states
parse_status brokers =
    if is_empty brokers
    then unknown_state
    else of_counts (length brokers) (count_states 0 0 brokers)

-- NewInternalStatus
unfoldable pub new_internal_status : Brokers → Bool → InternalStatus
unfolding parse_status
new_internal_status brokers consuming = record {
  status = state_string (parse_status brokers);
  code = pos 0;
  consuming = state_string (if consuming then up_state else down_state);
}

-- Refresh; a nil status is `none`.
unfoldable pub refresh : Option InternalStatus → ℤ → InternalStatus → InternalStatus
refresh none c s = record s { code = c }
refresh (some n) c s = record { status = n.status; code = c; consuming = n.consuming }

-- SetDown
unfoldable pub set_down : InternalStatus → InternalStatus
set_down s = record s { status = state_string down_state; consuming = state_string down_state }

-- HandleStatus: the status code of the response.
unfoldable pub handle_status : InternalStatus → ℕ
unfolding is_healthy
handle_status s = if not (is_healthy s) then 503 else 200
