-- ===== src/Command/Exit.antt =====
-- internal/command/runner.go: the messages of exit codes.
use rpi_procmon.Base.{String, not, ◌&&◌, ℤ, pos, leb_ℤ, eqb_ℤ, ◌-ℤ◌, [], ◌∷◌, if◌then◌else◌}
use rpi_procmon.Base.Text.{is_empty, itoa, concat}

-- `signalName`.
unfoldable pub signal_name : ℤ → String
signal_name signal =
    if eqb_ℤ signal (pos 1)
    then "SIGHUP"
    else if eqb_ℤ signal (pos 2)
    then "SIGINT"
    else if eqb_ℤ signal (pos 3)
    then "SIGQUIT"
    else if eqb_ℤ signal (pos 6)
    then "SIGABRT"
    else if eqb_ℤ signal (pos 9)
    then "SIGKILL"
    else if eqb_ℤ signal (pos 14)
    then "SIGALRM"
    else if eqb_ℤ signal (pos 15)
    then "SIGTERM"
    else ""

-- `signalExplanation`.
unfoldable pub signal_explanation : ℤ → String
signal_explanation signal =
    if eqb_ℤ signal (pos 9)
    then "; force-killed"
    else if eqb_ℤ signal (pos 15)
    then "; asked to stop"
    else ""

-- `ExitCodeDescription`.
unfoldable pub exit_code_description : ℤ → String
unfolding signal_name signal_explanation
exit_code_description exit_code =
    let signal = exit_code -ℤ pos 128 in
    let name = signal_name signal in
    if leb_ℤ (pos 129) exit_code && leb_ℤ exit_code (pos 192)
    then (if not (is_empty name)
        then concat (
            "exit code "
            ∷ itoa exit_code
            ∷ " (terminated by "
            ∷ name
            ∷ signal_explanation signal
            ∷ ")"
            ∷ [])
        else concat
            ("exit code " ∷ itoa exit_code ∷ " (terminated by signal " ∷ itoa signal ∷ ")" ∷ []))
    else concat ("exit code " ∷ itoa exit_code ∷ [])

-- `FailureMessage`.
unfoldable pub failure_message : String → ℤ → String
unfolding exit_code_description
failure_message prefix exit_code =
    concat (prefix ∷ " failed with " ∷ exit_code_description exit_code ∷ [])

-- `SSHFailureMessage`.
unfoldable pub ssh_failure_message : String → ℤ → String
unfolding failure_message
ssh_failure_message action exit_code =
    if eqb_ℤ exit_code (pos 255)
    then concat (
        action
        ∷ " failed with exit code 255 (SSH connection/authentication failure; the remote command may not have run)"
        ∷ [])
    else failure_message action exit_code
