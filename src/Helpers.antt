-- ===== src/Helpers.antt =====
-- src/helpers.rs: times are nanoseconds since the epoch.
use load_test_server.Prelude.{ℕ, ◌-◌, ◌/◌, Option, none, some, ltb, if◌then◌else◌}
use load_test_server.External.Platform.{Platform}

abbrev pub nanos_per_sec : ℕ
nanos_per_sec = 1_000_000_000

-- `duration_since` fails if the stop time lies before the start time
unfoldable pub elapsed : Option ℕ → Option ℕ → Option ℕ
elapsed (some start_time) (some stop_time) =
    if ltb stop_time start_time then none else some ((stop_time - start_time) / nanos_per_sec)
elapsed (some start_time) none = none
elapsed none stop_time = none

module _ ⦃P : Platform⦄ where
  open P use {Timestamp, timestamp_from}

  unfoldable pub systemtime_to_timestamp : Option ℕ → Option Timestamp
  systemtime_to_timestamp none = none
  systemtime_to_timestamp (some t) = some (timestamp_from t)
