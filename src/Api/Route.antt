-- ===== src/Api/Route.antt =====
-- internal/api/server.go: the route of one monitor.
pub mod Guard
use rpi_procmon.Base.{
  ℕ, String, Bool, true, false, Option, none, some, List, [], ◌∷◌, ◌==◌, if◌then◌else◌,
}
use rpi_procmon.Base.Text.{is_empty}
use rpi_procmon.Base.Text.Split.{split_on, trim_of}
use rpi_procmon.State.{MonitorRuntimeState}
use rpi_procmon.Engine.Trigger.{
  TriggerError, monitor_not_found, monitor_disabled, other, Result, ok, err,
}
use rpi_procmon.Api.{
  ControlProvider, SnapshotProvider, Request, Body, error_json, monitor_json, action_json, Response,
  write_json, not_found,
}
use rpi_procmon.Api.Auth.{authorize_admin}

-- `Error()`.
abbrev pub trigger_error_text : TriggerError → String
trigger_error_text monitor_not_found = "monitor not found"
trigger_error_text monitor_disabled = "monitor is disabled"
trigger_error_text (other e) = e

module _ (is_deadline : String → Bool) where
  -- The switch on the error of a trigger; `is_deadline` tells an error that is
  -- `context.DeadlineExceeded`.
  unfoldable pub error_status : TriggerError → ℕ
  error_status monitor_not_found = 404
  error_status monitor_disabled = 409
  error_status (other e) = if is_deadline e then 504 else 500

  -- What follows the call of a trigger.
  unfoldable pub trigger_response : String → Result MonitorRuntimeState → Response
  unfolding error_status
  trigger_response action (err e) = write_json (error_status e) (error_json (trigger_error_text e))
  trigger_response action (ok monitor) = write_json 200 (action_json action monitor)

abbrev monitor_response : Option MonitorRuntimeState → Response
monitor_response none = not_found
monitor_response (some monitor) = write_json 200 (monitor_json monitor)

module _ {W : Type 0} (sha256 : String → List ℕ) (is_deadline : String → Bool) where
  abbrev triggered : String → Result MonitorRuntimeState × W → Response × W
  triggered action (result, w) = (trigger_response is_deadline action result, w)

  abbrev monitor_answer : Option MonitorRuntimeState × W → Response × W
  monitor_answer (monitor, w) = (monitor_response monitor, w)

  -- The switch on the action, in an authorized request.
  unfoldable pub run_action : ControlProvider W → String → String → W → Response × W
  unfolding trigger_response
  run_action control id action w =
      if action == "check"
      then triggered action (control.trigger_check id w)
      else if action == "recover"
      then triggered action (control.trigger_recovery id w)
      else (not_found, w)

  -- The part of `serveMonitorRoute` for two segments and the method POST.
  unfoldable pub serve_action :
      Option (ControlProvider W) → String → Request → String → String → W → Response × W
  unfolding run_action
  serve_action none admin_token r id action w =
      (write_json 501 (error_json "control api unavailable"), w)
  serve_action (some control) admin_token r id action w =
      if is_empty admin_token
      then (write_json 403 (error_json "control api disabled"), w)
      else if authorize_admin sha256 admin_token r
      then run_action control id action w
      else (write_json 401 (error_json "unauthorized"), w)

  -- The segments of the path, by their number.
  unfoldable pub serve_segments :
      SnapshotProvider W
      → Option (ControlProvider W)
      → String
      → Request
      → List String
      → W
      → Response × W
  unfolding serve_action
  serve_segments provider control admin_token r (id ∷ []) w =
      if r.method == "GET" then monitor_answer (provider.monitor_snapshot id w) else (not_found, w)
  serve_segments provider control admin_token r (id ∷ action ∷ []) w =
      if r.method == "POST" then serve_action control admin_token r id action w else (not_found, w)
  serve_segments provider control admin_token r parts w = (not_found, w)

  -- `serveMonitorRoute`.
  unfoldable pub serve_monitor_route :
      SnapshotProvider W → Option (ControlProvider W) → String → Request → String → W → Response × W
  unfolding serve_segments
  serve_monitor_route provider control admin_token r path w =
      let trimmed = trim_of b'/' path in
      if is_empty trimmed
      then (not_found, w)
      else serve_segments provider control admin_token r (split_on b'/' trimmed) w
