-- ===== src/Api.antt =====
-- internal/api/server.go: the HTTP server, over a provider of the engine's state and triggers.
pub mod Auth
pub mod Query
pub mod Route
pub mod Provider
pub mod Server
mod Tests
use rpi_procmon.Base.{ℕ, String, Bool, Option, List, [], ◌∷◌, ℤ}
use rpi_procmon.State.{MonitorRuntimeState, ProcmonStatus}
use rpi_procmon.Events.{Event, Filter}
use rpi_procmon.Engine.Trigger.{TriggerError, Result}

-- `ControlProvider`, over a world `W`.
pub record ControlProvider (W : Type 0) : Type 0 where
  pub trigger_check : String → W → Result MonitorRuntimeState × W
  pub trigger_recovery : String → W → Result MonitorRuntimeState × W

-- `SnapshotProvider`.
pub record SnapshotProvider (W : Type 0) : Type 0 where
  pub snapshot : W → ProcmonStatus × W
  pub monitor_snapshot : String → W → Option MonitorRuntimeState × W
  pub events_snapshot : Filter → W → List Event × W

-- What the server reads of an `http.Request`: `query` is `r.URL.Query().Get`.
pub record Request : Type 0 where
  pub method : String
  pub path : String
  pub authorization : String
  pub query : String → String

-- The payloads, by what they hold.
pub data Body : Type 0 where
  empty ui_page not_found_page : Body
  redirect_to : String → Body
  error_json : String → Body
  status_json : ProcmonStatus → Body
  health_json : Bool → ProcmonStatus → Body
  monitors_json : List MonitorRuntimeState → Body
  monitor_json : MonitorRuntimeState → Body
  events_json : List Event → Filter → ℤ → String → Body
  action_json : String → MonitorRuntimeState → Body

pub record Response : Type 0 where
  pub status : ℕ
  pub headers : List (String × String)
  pub body : Body

-- `writeJSON`.
abbrev pub write_json : ℕ → Body → Response
write_json status payload = record {
  status = status;
  headers = ("Content-Type", "application/json") ∷ [];
  body = payload;
}

-- `http.NotFound`; the headers that it sets itself are left out.
abbrev pub not_found : Response
not_found = record { status = 404; headers = []; body = not_found_page }
