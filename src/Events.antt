-- ===== src/Events.antt =====
-- internal/events: the event history, its filter, and the trimming of the store.
use rpi_procmon.Base.{◌-◌, String, List, ℤ, pos, pos_part, leb_ℤ, ◌||◌, if◌then◌else◌, length, drop}
use rpi_procmon.State.{CheckResult, ActionResult}

abbrev pub schema_version : ℤ
schema_version = pos 1

pub record Event : Type 0 where
  pub id : String
  pub timestamp : String
  pub monitor_id : String
  pub monitor_name : String
  pub monitor_type : String
  pub event_type : String
  pub status_before : String
  pub status_after : String
  pub reason : String
  pub consecutive_failures : ℤ
  pub recovery_count : ℤ
  pub check_results : List CheckResult
  pub recovery_results : List ActionResult

pub record History : Type 0 where
  pub version : ℤ
  pub events : List Event

-- A time is a number of nanoseconds from Go's zero time.
pub record Filter : Type 0 where
  pub monitor_id : String
  pub event_type : String
  pub since : ℤ
  pub limit : ℤ

-- `trimToLimit`: no more than the newest `limit` events, if the limit is positive.
unfoldable pub trim_to_limit : List Event → ℤ → List Event
trim_to_limit events limit =
    if leb_ℤ limit (pos 0) || leb_ℤ (pos (length events)) limit
    then events
    else drop (length events - pos_part limit) events
