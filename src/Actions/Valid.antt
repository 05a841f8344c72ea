-- ===== src/Actions/Valid.antt =====
-- The recovery actions of a validated configuration (internal/config/validate.go) under
-- internal/actions/actions.go.
use rpi_procmon.Base.{String, ◌≡◌, refl, ◌⊎◌, inl, inr, true, none, Bool-cases, has, Every-has}
use rpi_procmon.Base.Text.{is_blank, trim_space}
use rpi_procmon.Config.Types.{MonitorConfig, ActionConfig}
use rpi_procmon.Config.Validate.{Parsers, validate_action, supported_action_types}
use rpi_procmon.Engine.Monitor.{parse_duration}
use rpi_procmon.Command.{
  build_docker_exec_command, build_systemd_restart_command, build_docker_restart_command,
}
use rpi_procmon.Command.Exit.{failure_message, ssh_failure_message}
use rpi_procmon.Actions.{Host, Report, five_seconds, slept, running, handle}

module _ {W : Type 0} (host : Host W) (mon : MonitorConfig) (w : W) where
  -- What the action was to do, by its type, is what was done: the one command of the type was run and
  -- reported with the type's message, or the action slept, or left the rest to a recheck.
  abbrev pub IsPerformed : ActionConfig → Report × W → Type 0
  IsPerformed action r =
      ((action.kind ≡ "command") × (r ≡ running host (failure_message "command") action.command w))
      ⊎ (((action.kind ≡ "docker_exec")
            × (r
                ≡ running host (failure_message "docker_exec")
                    (build_docker_exec_command mon.target action.container action.command) w))
          ⊎ (((action.kind ≡ "restart_systemd_service")
                × (r
                    ≡ running host (ssh_failure_message "restart_systemd_service")
                        (build_systemd_restart_command mon.target (trim_space action.service)) w))
              ⊎ (((action.kind ≡ "restart_docker_container")
                    × (r
                        ≡ running host (failure_message "restart_docker_container")
                            (build_docker_restart_command mon.target (trim_space action.container))
                            w))
                  ⊎ (((action.kind ≡ "sleep")
                        × (r ≡ (
                          slept
                              (host.sleep (parse_duration host.time action.duration five_seconds)
                                w).0,
                          (host.sleep (parse_duration host.time action.duration five_seconds) w).1,
                        )))
                      ⊎ ((action.kind ≡ "recheck") × (r ≡ ((true, "recheck requested", ""), w)))))))

  module _ (parsers : Parsers) (id : String) (action : ActionConfig) where
    abbrev of_kind : String → ActionConfig
    of_kind kind = record action { kind = kind }

    abbrev Performs : String → Type 0
    Performs kind =
        validate_action parsers id (of_kind kind) ≡ none
        → IsPerformed (of_kind kind) (handle host mon (of_kind kind) w)

    Performs-command : Performs "command"
    unfolding handle validate_action
    Performs-command valid = elim (Bool-cases (is_blank action.command)) [
      | inl blank ↦ cc (rw blank at valid)
      | inr text ↦ inl (refl, rw text refl)
    ]

    Performs-docker_exec : Performs "docker_exec"
    unfolding handle validate_action
    Performs-docker_exec valid = elim (Bool-cases (is_blank action.container)) [
      | inl blank ↦ cc (rw blank at valid)
      | inr container ↦ elim (Bool-cases (is_blank action.command)) [
        | inl blank ↦ cc (rw (container, blank) at valid)
        | inr command ↦ inr (inl (refl, rw (container, command) refl))
      ]
    ]

    Performs-systemd : Performs "restart_systemd_service"
    unfolding handle validate_action
    Performs-systemd valid = elim (Bool-cases (is_blank action.service)) [
      | inl blank ↦ cc (rw blank at valid)
      | inr service ↦ inr (inr (inl (refl, rw service refl)))
    ]

    Performs-docker : Performs "restart_docker_container"
    unfolding handle validate_action
    Performs-docker valid = elim (Bool-cases (is_blank action.container)) [
      | inl blank ↦ cc (rw blank at valid)
      | inr container ↦ inr (inr (inr (inl (refl, rw container refl))))
    ]

    Performs-sleep : Performs "sleep"
    unfolding handle
    Performs-sleep valid = inr (inr (inr (inr (inl (refl, refl)))))

    Performs-recheck : Performs "recheck"
    unfolding handle
    Performs-recheck valid = inr (inr (inr (inr (inr (refl, refl)))))

    validate_action-supported :
        validate_action parsers id action ≡ none → has supported_action_types action.kind ≡ true
    unfolding validate_action
    validate_action-supported valid = elim (Bool-cases (has supported_action_types action.kind)) [
      | inl yes' ↦ yes'
      | inr no' ↦ cc (rw no' at valid)
    ]

    kinds : has supported_action_types action.kind ≡ true → Performs action.kind
    kinds =
        Every-has Performs supported_action_types
          (
            Performs-command,
            (
              Performs-docker_exec,
              (Performs-sleep, (Performs-recheck, (Performs-docker, (Performs-systemd, tt)))),
            ),
          )
          action.kind

-- An action that validation has accepted does what its type says, and nothing else: a command is run
-- as it is, docker_exec, restart_systemd_service and restart_docker_container run the command built
-- for them, each once and reported by its outcome with the failure message of the type, sleep sleeps
-- for its duration, and recheck leaves everything to the engine. So it is never refused for a missing
-- field or an unknown type.
pub handle-IsPerformed :
    {W : Type 0} (host : Host W) (mon : MonitorConfig) (action : ActionConfig) (w : W)
    (parsers : Parsers) (id : String)
    → validate_action parsers id action ≡ none
    → IsPerformed host mon w action (handle host mon action w)
handle-IsPerformed host mon action w parsers id valid =
    kinds host mon w parsers id action
      (validate_action-supported host mon w parsers id action valid) valid
