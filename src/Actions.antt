-- ===== src/Actions.antt =====
-- internal/actions/actions.go: the recovery actions, over a runner of commands.
pub mod Valid
mod Tests
use rpi_procmon.Base.{
  ℕ, ◌*◌, String, Bool, true, false, Option, none, some, List, [], ◌∷◌, ℤ, pos, ◌-ℤ◌, quot, ◌==◌,
  if◌then◌else◌,
}
use rpi_procmon.Base.Text.{trim_space, is_empty, is_blank, concat}
use rpi_procmon.Base.Text.Limit.{limit_string}
use rpi_procmon.Config.Types.{MonitorConfig, ActionConfig}
use rpi_procmon.State.{ActionResult}
use rpi_procmon.Engine.Env.{TimePackage}
use rpi_procmon.Engine.Monitor.{parse_duration}
use rpi_procmon.Command.{
  build_docker_exec_command, build_systemd_restart_command, build_docker_restart_command,
}
use rpi_procmon.Command.Exit.{failure_message, ssh_failure_message}
use rpi_procmon.Command.Runner.{Outcome, CommandError}

-- What the actions use, over a world `W`: the clock, the runner, a timer with the context beside it
-- (the result is the error of a context that ends first), and `%q` of `fmt`.
pub record Host (W : Type 0) : Type 0 where
  pub time : TimePackage
  pub now : W → ℤ × W
  pub run : String → W → (Outcome × Option CommandError) × W
  pub sleep : ℤ → W → Option String × W
  pub quote : String → String

-- The three results of a handler: success, message and output.
abbrev pub Report : Type 0
Report = Bool × String × String

abbrev pub refused : String → Report
refused message = (false, message, "")

abbrev pub five_seconds : ℤ
five_seconds = pos 5000000000

-- What the handlers make of a run, with the message of a failure by the exit code.
abbrev pub reported : (ℤ → String) → Outcome × Option CommandError → Report
reported failure (outcome, none) = (true, "", limit_string outcome.output (pos 2048))
reported failure (outcome, some e) =
    (false, failure outcome.exit_code, limit_string outcome.output (pos 2048))

abbrev pub slept : Option String → Report
slept none = (true, "", "")
slept (some e) = (false, e, "")

module _ {W : Type 0} (host : Host W) where
  abbrev pub running : (ℤ → String) → String → W → Report × W
  running failure command w = let (ran, w') = host.run command w in (reported failure ran, w')

  -- `runCommand`.
  unfoldable pub run_command : MonitorConfig → ActionConfig → W → Report × W
  run_command mon action w =
      if is_blank action.command
      then (refused "command action missing command", w)
      else running (failure_message "command") action.command w

  -- `runDockerExec`.
  unfoldable pub run_docker_exec : MonitorConfig → ActionConfig → W → Report × W
  run_docker_exec mon action w =
      if is_blank action.container
      then (refused "docker_exec action missing container", w)
      else if is_blank action.command
      then (refused "docker_exec action missing command", w)
      else running (failure_message "docker_exec")
          (build_docker_exec_command mon.target action.container action.command) w

  -- `runSleep`.
  unfoldable pub run_sleep : MonitorConfig → ActionConfig → W → Report × W
  run_sleep mon action w =
      let (ended, w') = host.sleep (parse_duration host.time action.duration five_seconds) w in
      (slept ended, w')

  -- `runRecheck`.
  unfoldable pub run_recheck : MonitorConfig → ActionConfig → W → Report × W
  run_recheck mon action w = ((true, "recheck requested", ""), w)

  -- `runRestartSystemdService`.
  unfoldable pub run_restart_systemd_service : MonitorConfig → ActionConfig → W → Report × W
  run_restart_systemd_service mon action w =
      let service = trim_space action.service in
      if is_empty service
      then (refused "restart_systemd_service missing service", w)
      else running (ssh_failure_message "restart_systemd_service")
          (build_systemd_restart_command mon.target service) w

  -- `runRestartDockerContainer`.
  unfoldable pub run_restart_docker_container : MonitorConfig → ActionConfig → W → Report × W
  run_restart_docker_container mon action w =
      let container = trim_space action.container in
      if is_empty container
      then (refused "restart_docker_container missing container", w)
      else running (failure_message "restart_docker_container")
          (build_docker_restart_command mon.target container) w

  -- The handler that `registry` has for the type of the action, run; or the message that there is
  -- none.
  unfoldable pub handle : MonitorConfig → ActionConfig → W → Report × W
  unfolding run_command run_docker_exec run_sleep run_recheck run_restart_docker_container
      run_restart_systemd_service
  handle mon action w =
      if action.kind == "command"
      then run_command mon action w
      else if action.kind == "docker_exec"
      then run_docker_exec mon action w
      else if action.kind == "sleep"
      then run_sleep mon action w
      else if action.kind == "recheck"
      then run_recheck mon action w
      else if action.kind == "restart_docker_container"
      then run_restart_docker_container mon action w
      else if action.kind == "restart_systemd_service"
      then run_restart_systemd_service mon action w
      else (refused (concat ("unsupported action type " ∷ host.quote action.kind ∷ [])), w)

  -- `Run`.
  unfoldable pub run : MonitorConfig → ActionConfig → W → ActionResult × W
  unfolding handle
  run mon action w =
      let (start, w1) = host.now w in
      let (report, w2) = handle mon action w1 in
      let (finished, w3) = host.now w2 in
      (
        record {
          name = action.name;
          kind = action.kind;
          success = report.0;
          message = report.1;
          output = report.2;
          started_at = host.time.format start;
          finished_at = host.time.format finished;
          duration_ms = quot (finished -ℤ start) 1000000;
        },
        w3,
      )
