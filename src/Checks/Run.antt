-- ===== src/Checks/Run.antt =====
-- internal/checks/checks.go: the registry of the checks, and `Run`.
pub mod Valid
use rpi_procmon.Base.{
  String, Bool, true, false, ◌&&◌, List, [], ◌∷◌, ◌-ℤ◌, quot, ◌==◌, if◌then◌else◌,
}
use rpi_procmon.Base.Text.{is_empty, concat}
use rpi_procmon.Config.Types.{MonitorConfig, CheckConfig}
use rpi_procmon.State.{CheckResult}
use rpi_procmon.Checks.Host.{Host, Report, failing}
use rpi_procmon.Checks.Files.{run_load, run_memory, run_io_pressure, run_io_paths}
use rpi_procmon.Checks.Commands.{
  run_command, run_docker_exec, run_docker_container, run_systemd_service,
}
use rpi_procmon.Checks.Logs.{run_docker_log_pattern}
use rpi_procmon.Checks.Web.{run_http_json}

module _ {W : Type 0} (host : Host W) where
  -- The handler that `registry` has for the type of the check, run; or the message that there is
  -- none.
  unfoldable pub handle : MonitorConfig → CheckConfig → W → Report × W
  unfolding run_load run_memory run_io_pressure run_io_paths run_command run_docker_exec
      run_docker_container run_systemd_service run_docker_log_pattern run_http_json
  handle mon check w =
      if check.kind == "http_json"
      then run_http_json host check w
      else if check.kind == "load"
      then run_load host check w
      else if check.kind == "memory"
      then run_memory host check w
      else if check.kind == "io_pressure"
      then run_io_pressure host check w
      else if check.kind == "io_paths"
      then run_io_paths host check w
      else if check.kind == "docker_container"
      then run_docker_container host mon check w
      else if check.kind == "docker_log_pattern"
      then run_docker_log_pattern host mon check w
      else if check.kind == "docker_exec"
      then run_docker_exec host mon check w
      else if check.kind == "command"
      then run_command host check w
      else if check.kind == "systemd_service"
      then run_systemd_service host mon check w
      else (failing (concat ("unsupported check type " ∷ host.quote check.kind ∷ [])) [], w)

  -- `Run`.
  unfoldable pub run : MonitorConfig → CheckConfig → W → CheckResult × W
  unfolding handle
  run mon check w =
      let (start, w1) = host.now w in
      let (report, w2) = handle mon check w1 in
      let (finished, w3) = host.now w2 in
      (
        record {
          id = check.id;
          name = check.name;
          kind = check.kind;
          success = report.success;
          message =
              if report.success && is_empty report.message
              then concat (mon.id ∷ " ok" ∷ [])
              else report.message;
          started_at = host.time.format start;
          finished_at = host.time.format finished;
          duration_ms = quot (finished -ℤ start) 1000000;
          observations = report.observations;
        },
        w3,
      )
