-- ===== src/Checks/Run/Valid.antt =====
-- The checks of a validated configuration (internal/config/validate.go) under
-- internal/checks/checks.go.
use rpi_procmon.Base.{
  String, ◌≡◌, refl, true, List, [], ◌∷◌, Option, none, ◌∷◌, Bool-cases, inl, inr, has, Every-has,
}
use rpi_procmon.Base.Text.{is_blank, trim_space}
use rpi_procmon.Config.Types.{MonitorConfig, CheckConfig}
use rpi_procmon.Config.Validate.{Parsers, validate_check, validate_check_type, validate_check-parts}
use rpi_procmon.Command.{
  build_docker_inspect_running_command, build_docker_logs_command, build_docker_exec_command,
  build_systemd_is_active_command,
}
use rpi_procmon.Command.Runner.{Outcome, CommandError}
use rpi_procmon.Checks.Host.{Host, Report}
use rpi_procmon.Checks.Commands.{judge_command, judge_exec, judge_container, judge_service}
use rpi_procmon.Checks.Logs.{judge_logs, run_docker_log_pattern, since_or_default}
use rpi_procmon.Checks.Run.{handle}

-- The types of the checks that use the runner.
abbrev pub runner_check_types : List String
runner_check_types =
    "docker_container" ∷ "docker_log_pattern" ∷ "docker_exec" ∷ "command" ∷ "systemd_service" ∷ []

module _ {W : Type 0} (host : Host W) (mon : MonitorConfig) where
  -- From every world one and the same command is run, and its result alone makes the report.
  abbrev pub IsOneRun : (W → Report × W) → Type 0
  IsOneRun handler =
      (judge : Outcome × Option CommandError → Report) × (command : String) × ((w : W)
        → handler w ≡ (judge (host.run command w).0, (host.run command w).1))

  module _ (parsers : Parsers) (id : String) (check : CheckConfig) where
    abbrev of_kind : String → CheckConfig
    of_kind kind = record check { kind = kind }

    abbrev Runs : String → Type 0
    Runs kind =
        validate_check_type parsers id (of_kind kind) ≡ none
        → IsOneRun (handle host mon (of_kind kind))

    Runs-command : Runs "command"
    unfolding handle validate_check_type
    Runs-command valid = elim (Bool-cases (is_blank check.command)) [
      | inl blank ↦ absurd (cc (rw blank at valid))
      | inr command ↦
          (judge_command host.regexp (of_kind "command"), check.command, λ w. rw command refl)
    ]

    Runs-docker_exec : Runs "docker_exec"
    unfolding handle validate_check_type
    Runs-docker_exec valid = elim (Bool-cases (is_blank check.container)) [
      | inl blank ↦ absurd (cc (rw blank at valid))
      | inr container ↦ elim (Bool-cases (is_blank check.docker_command)) [
        | inl blank ↦ absurd (cc (rw (container, blank) at valid))
        | inr command ↦ (
          judge_exec host.regexp mon (of_kind "docker_exec"),
          build_docker_exec_command mon.target check.container check.docker_command,
          λ w. rw (container, command) refl,
        )
      ]
    ]

    Runs-docker_container : Runs "docker_container"
    unfolding handle validate_check_type
    Runs-docker_container valid = elim (Bool-cases (is_blank check.container)) [
      | inl blank ↦ absurd (cc (rw blank at valid))
      | inr container ↦ (
        judge_container mon (of_kind "docker_container"),
        build_docker_inspect_running_command mon.target check.container,
        λ w. rw container refl,
      )
    ]

    Runs-docker_log : Runs "docker_log_pattern"
    unfolding handle validate_check_type run_docker_log_pattern
    Runs-docker_log valid = elim (Bool-cases (is_blank check.container)) [
      | inl blank ↦ absurd (cc (rw blank at valid))
      | inr container ↦ (
        judge_logs host mon (of_kind "docker_log_pattern"),
        build_docker_logs_command mon.target check.container (since_or_default check.since),
        λ w. rw container refl,
      )
    ]

    Runs-systemd : Runs "systemd_service"
    unfolding handle validate_check_type
    Runs-systemd valid = elim (Bool-cases (is_blank check.service)) [
      | inl blank ↦ absurd (cc (rw blank at valid))
      | inr service ↦ (
        judge_service mon (trim_space check.service),
        build_systemd_is_active_command mon.target (trim_space check.service),
        λ w. rw service refl,
      )
    ]

-- A check that validation has accepted, of one of the types that use the runner, runs exactly one
-- command, the same from every world, and reports on the result of that alone: it is not refused
-- before, for a missing field or an unknown type.
pub handle-IsOneRun :
    {W : Type 0} (host : Host W) (mon : MonitorConfig) (check : CheckConfig) (parsers : Parsers)
    (id : String)
    → has runner_check_types check.kind ≡ true
    → validate_check parsers id check ≡ none
    → IsOneRun host mon (handle host mon check)
handle-IsOneRun host mon check parsers id of_runner valid =
    Every-has (Runs host mon parsers id check) runner_check_types
      (
        Runs-docker_container host mon parsers id check,
        (
          Runs-docker_log host mon parsers id check,
          (
            Runs-docker_exec host mon parsers id check,
            (Runs-command host mon parsers id check, (Runs-systemd host mon parsers id check, tt)),
          ),
        ),
      )
      check.kind of_runner (validate_check-parts parsers id check valid).2
