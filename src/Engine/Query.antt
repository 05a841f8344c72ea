-- ===== src/Engine/Query.antt =====
-- internal/engine/manager.go: `Snapshot`, `MonitorSnapshot` and `EventsSnapshot`, which read the
-- shared fields.
pub mod Statuses
pub mod Overall
pub mod Counts
pub mod Newest
use rpi_procmon.Base.{
  ℕ, zero, suc, ◌+◌, String, Bool, true, false, not, ◌&&◌, ◌||◌, Option, none, some, List, [], ◌∷◌,
  ◌++◌, ℤ, pos, pos_part, leb, leb_ℤ, ltb_ℤ, eqb_ℤ, ◌-ℤ◌, quot, ◌==◌, if◌then◌else◌, length,
  get_elem?,
}
use rpi_procmon.Base.Dict.{Dict, lookup}
use rpi_procmon.Base.Text.{is_blank, is_empty}
use rpi_procmon.Config.Types.{MonitorConfig}
use rpi_procmon.State.{MonitorRuntimeState, ProcmonStatus}
use rpi_procmon.Events.{Event, Filter}
use rpi_procmon.Engine.Env.{TimePackage, Shared, Manager}
use rpi_procmon.Engine.Monitor.{entry}

-- The variables of the loop of `Snapshot`.
pub record Tally : Type 0 where
  pub status : String
  pub healthy : ℕ
  pub degraded : ℕ
  pub recovering : ℕ
  pub failed : ℕ
  pub disabled : ℕ
  pub monitors : List MonitorRuntimeState

-- The cases of the `switch` over a monitor's status.
pub data Case : Type 0 where
  healthy recovering degraded failed disabled default : Case

unfoldable pub case_of : String → Case
case_of status =
    if status == "healthy"
    then healthy
    else if status == "recovering" || status == "checking"
    then recovering
    else if status == "degraded"
    then degraded
    else if status == "failed"
    then failed
    else if status == "disabled"
    then disabled
    else default

-- The bodies of the cases.
unfoldable pub count_case : Case → Tally → Tally
count_case healthy t = record t { healthy = t.healthy + 1 }
count_case recovering t = record t {
  recovering = t.recovering + 1;
  status = if t.status == "healthy" then "recovering" else t.status;
}
count_case degraded t = record t {
  degraded = t.degraded + 1;
  status = if t.status == "failed" then t.status else "degraded";
}
count_case failed t = record t { failed = t.failed + 1; status = "failed" }
count_case disabled t = record t { disabled = t.disabled + 1 }
count_case default t = record t {
  status = if t.status == "healthy" || t.status == "recovering" then "unknown" else t.status;
}

unfoldable pub count_status : String → Tally → Tally
unfolding case_of count_case
count_status status t = count_case (case_of status) t

abbrev pub tally_one : Option MonitorRuntimeState → Tally → Tally
tally_one none t = t
tally_one (some st) t = count_status st.status (record t { monitors = t.monitors ++ st ∷ [] })

-- The loop of `Snapshot` over the configured monitors.
unfoldable pub tally_loop : List MonitorConfig → Shared → Tally → Tally
tally_loop [] sh t = t
tally_loop (mon ∷ mons) sh t = tally_loop mons sh (tally_one (entry mon.id sh) t)

abbrev pub empty_tally : Tally
empty_tally = record {
  status = "healthy";
  healthy = 0;
  degraded = 0;
  recovering = 0;
  failed = 0;
  disabled = 0;
  monitors = [];
}

-- `Snapshot` at the time `at`.
unfoldable pub snapshot : Manager → ℤ → Shared → ProcmonStatus
snapshot m at sh =
    let t = tally_loop m.cfg.monitors sh empty_tally in
    record {
      app_version = m.app_version;
      started_at = sh.current.started_at;
      uptime_seconds = quot (at -ℤ m.started_at) 1000000000;
      overall_status = t.status;
      control_api_enabled = not (is_blank m.cfg.api.admin_token);
      monitor_count = length t.monitors;
      healthy_count = t.healthy;
      degraded_count = t.degraded;
      recovering_count = t.recovering;
      failed_count = t.failed;
      disabled_count = t.disabled;
      config_file = m.cfg.config_file;
      state_file = m.cfg.state_file;
      events_file = m.cfg.events_file;
      log_file = m.cfg.log_file;
      listen_address = m.cfg.api.listen_address;
      last_updated_at = sh.current.last_updated_at;
      monitors = t.monitors;
    }

-- `MonitorSnapshot`; the flag of the pair is the case of the option.
unfoldable pub monitor_snapshot : String → Shared → Option MonitorRuntimeState
monitor_snapshot id sh = entry id sh

-- The limit that `EventsSnapshot` works with.
unfoldable pub event_limit : ℤ → ℕ
event_limit limit =
    if leb_ℤ limit (pos 0) then 50 else if ltb_ℤ (pos 500) limit then 500 else pos_part limit

module _ (time : TimePackage) (filter : Filter) where
  abbrev is_early : Option ℤ → Bool
  is_early none = true
  is_early (some t) = ltb_ℤ t filter.since

  -- Does one of the three tests of the loop's body `continue`?
  unfoldable pub is_skipped : Event → Bool
  is_skipped event =
      not (is_empty filter.monitor_id) && not (event.monitor_id == filter.monitor_id)
      || not (is_empty filter.event_type) && not (event.event_type == filter.event_type)
      || not (eqb_ℤ filter.since (pos 0)) && is_early (time.parse event.timestamp)

  -- The loop, with the number of events that are left below the index, and the result so far.
  unfoldable pub collect : ℕ → List Event → ℕ → List Event → List Event
  collect limit events zero result = result
  collect limit events (suc i) result = elim (get_elem? events i) [
    | none ↦ result
    | some event ↦ elim (is_skipped event) [
      | true ↦ collect limit events i result
      | false ↦ elim (leb limit (length (result ++ event ∷ []))) [
        | true ↦ result ++ event ∷ []
        | false ↦ collect limit events i (result ++ event ∷ [])
      ]
    ]
  ]

  -- `EventsSnapshot`.
  unfoldable pub events_snapshot : Shared → List Event
  events_snapshot sh =
      let events = sh.event_history.events in
      collect (event_limit filter.limit) events (length events) []
