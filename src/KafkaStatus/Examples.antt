-- ===== src/KafkaStatus/Examples.antt =====
-- The status of two brokers, one of them down.
use golibs.Prelude.{
  some, [], ◌∷◌, ◌≡◌, true, not, ◌&&◌, pos, is_zero, if◌then◌else◌, is_empty, codes,
}
use golibs.KafkaStatus.{
  Brokers, handle_status, refresh, new_internal_status, default_kafka_status, down_state,
}
use golibs.KafkaStatus.Overall.{all_in, handle_status-refresh}

abbrev brokers : Brokers
brokers = some (codes "UP") ∷ some (codes "DOWN") ∷ []

handle_status-refresh_example :
    handle_status (refresh (some (new_internal_status brokers true)) (pos 0) default_kafka_status)
    ≡ (if true && (is_zero (pos 0) && not (not (is_empty brokers) && all_in down_state brokers))
        then 200
        else 503)
handle_status-refresh_example = handle_status-refresh brokers true (pos 0) default_kafka_status
