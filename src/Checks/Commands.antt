-- ===== src/Checks/Commands.antt =====
-- internal/checks/checks.go: the checks that run one command and judge what it leaves.
pub mod Verdict
use rpi_procmon.Base.{
  ℕ, String, Bool, true, false, not, ◌||◌, ◌&&◌, Option, none, some, List, [], ◌∷◌, ℤ, pos, eqb_ℤ,
  ◌==◌, if◌then◌else◌,
}
use rpi_procmon.Base.Dict.{Dict}
use rpi_procmon.Base.Text.{trim_space, is_empty, is_blank, concat, itoa}
use rpi_procmon.Base.Text.Limit.{limit_string}
use rpi_procmon.Config.Types.{MonitorConfig, CheckConfig}
use rpi_procmon.State.{Observation, text, number, flag}
use rpi_procmon.Command.{
  build_docker_inspect_running_command, build_docker_exec_command, build_systemd_is_active_command,
}
use rpi_procmon.Command.Exit.{exit_code_description}
use rpi_procmon.Command.Runner.{Outcome, CommandError, exit_error, error_text}
use rpi_procmon.Checks.Patterns.{Regexp, is_none, match_patterns}
use rpi_procmon.Checks.Host.{Host, Report, passed, failing, normalized_transport}

-- An error that is no `*exec.ExitError`.
abbrev pub broke : Option CommandError → Option CommandError
broke none = none
broke (some (exit_error e)) = none
broke (some e) = some e

abbrev pub succeeded : Option CommandError → Bool
succeeded none = true
succeeded (some e) = false

module _ (re : Regexp) (kind : String) (check : CheckConfig) (output : String) where
  -- What `matchPatterns` gave for the forbidden patterns.
  abbrev forbidden : Dict Observation → Bool × Option String → Report
  forbidden seen (matched, some e) = failing e seen
  forbidden seen (true, none) =
      failing (concat (kind ∷ " output matched forbidden pattern" ∷ [])) seen
  forbidden seen (false, none) = passed seen

  -- The end of `runDockerExec` and of `runCommand`.
  unfoldable pub judge_forbidden : Dict Observation → Report
  judge_forbidden seen =
      if is_none re check.forbidden_output_patterns
      then passed seen
      else forbidden seen (match_patterns re check.forbidden_output_patterns false output)

  abbrev expected : Dict Observation → Bool × Option String → Report
  expected seen (matched, some e) = failing e seen
  expected seen (false, none) =
      failing (concat (kind ∷ " output missing expected pattern" ∷ [])) seen
  expected seen (true, none) = judge_forbidden seen

  -- What `runDockerExec` and `runCommand` do with the output.
  unfoldable pub judge_output : Dict Observation → Report
  unfolding judge_forbidden
  judge_output seen =
      if is_none re check.expected_output_patterns
      then judge_forbidden seen
      else expected seen (match_patterns re check.expected_output_patterns check.match_all output)

  abbrev unless_broken : Dict Observation → Option CommandError → Report
  unless_broken seen none = judge_output seen
  unless_broken seen (some e) =
      failing (concat (kind ∷ " execution failed: " ∷ error_text e ∷ [])) seen

  -- What `runDockerExec` and `runCommand` make of a run, once they have its observations.
  unfoldable pub judge_run : Dict Observation → Outcome × Option CommandError → Report
  unfolding judge_output
  judge_run seen (outcome, err) =
      if not (eqb_ℤ outcome.exit_code check.expected_exit_code)
      then failing
          (concat (
            kind
            ∷ " "
            ∷ exit_code_description outcome.exit_code
            ∷ " != "
            ∷ itoa check.expected_exit_code
            ∷ []))
          seen
      else unless_broken seen (broke err)

abbrev pub where_run : MonitorConfig → Dict Observation
where_run mon =
    ("transport", text (normalized_transport mon.target.transport))
    ∷ ("host", text (trim_space mon.target.host))
    ∷ []

-- The observations that come from the run.
abbrev pub ran : Outcome → Dict Observation → Dict Observation
ran outcome rest =
    ("exit_code", number outcome.exit_code)
    ∷ ("output", text (limit_string outcome.output (pos 2048)))
    ∷ rest

-- What `runCommand` reports on a run.
abbrev pub judge_command : Regexp → CheckConfig → Outcome × Option CommandError → Report
judge_command re check r =
    judge_run re "command" check (limit_string r.0.output (pos 2048)) (ran r.0 []) r

-- What `runDockerExec` reports on a run.
abbrev pub judge_exec :
    Regexp → MonitorConfig → CheckConfig → Outcome × Option CommandError → Report
judge_exec re mon check r =
    judge_run re "docker_exec" check (limit_string r.0.output (pos 2048))
      (("container", text check.container) ∷ ran r.0 (where_run mon)) r

-- What `runDockerContainer` reports on a run.
abbrev pub judge_container : MonitorConfig → CheckConfig → Outcome × Option CommandError → Report
judge_container mon check r =
    let running = trim_space r.0.output == "true" in
    let seen =
      ("container", text check.container)
      ∷ ("running", flag running)
      ∷ ("exit_code", number r.0.exit_code)
      ∷ where_run mon in
    if not (succeeded r.1) || not running
    then failing (concat ("container " ∷ check.container ∷ " not running" ∷ [])) seen
    else passed seen

-- What `runSystemdService` reports on a run.
abbrev pub judge_service : MonitorConfig → String → Outcome × Option CommandError → Report
judge_service mon service r =
    let code = r.0.exit_code in
    let seen =
      ("service", text service)
      ∷ ("transport", text (normalized_transport mon.target.transport))
      ∷ ("host", text (trim_space mon.target.host))
      ∷ ("exit_code", number code)
      ∷ [] in
    if not (succeeded r.1) || not (eqb_ℤ code (pos 0))
    then if (normalized_transport mon.target.transport == "ssh") && eqb_ℤ code (pos 255)
      then failing
          (concat (
            "SSH failed while checking systemd service " ∷ service
            ∷ "; the remote service state is unknown" ∷ []))
          seen
      else failing (concat ("systemd service " ∷ service ∷ " is not active" ∷ [])) seen
    else passed seen

module _ {W : Type 0} (host : Host W) where
  -- One command, and what is reported on it.
  abbrev pub judging : (Outcome × Option CommandError → Report) → String → W → Report × W
  judging judge command w = let (r, w') = host.run command w in (judge r, w')

  -- `runCommand`.
  unfoldable pub run_command : CheckConfig → W → Report × W
  unfolding judge_run
  run_command check w =
      if is_blank check.command
      then (failing "command check missing command" [], w)
      else judging (judge_command host.regexp check) check.command w

  -- `runDockerExec`.
  unfoldable pub run_docker_exec : MonitorConfig → CheckConfig → W → Report × W
  unfolding judge_run
  run_docker_exec mon check w =
      if is_blank check.container
      then (failing "docker_exec check missing container" [], w)
      else if is_blank check.docker_command
      then (failing "docker_exec check missing docker_command" [], w)
      else judging (judge_exec host.regexp mon check)
          (build_docker_exec_command mon.target check.container check.docker_command) w

  -- `runDockerContainer`.
  unfoldable pub run_docker_container : MonitorConfig → CheckConfig → W → Report × W
  run_docker_container mon check w =
      if is_blank check.container
      then (failing "docker_container check missing container" [], w)
      else judging (judge_container mon check)
          (build_docker_inspect_running_command mon.target check.container) w

  -- `runSystemdService`.
  unfoldable pub run_systemd_service : MonitorConfig → CheckConfig → W → Report × W
  unfolding normalized_transport
  run_systemd_service mon check w =
      let service = trim_space check.service in
      if is_empty service
      then (failing "systemd_service check missing service" [], w)
      else judging (judge_service mon service) (build_systemd_is_active_command mon.target service)
          w
