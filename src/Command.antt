-- ===== src/Command.antt =====
-- internal/command/runner.go: the commands built for a target, and the messages of exit codes.
pub mod Shell
pub mod Hosts
pub mod Exit
pub mod Output
pub mod Runner
mod Tests
use rpi_procmon.Base.{
  ℕ, String, Bool, not, ◌&&◌, ◌||◌, List, [], ◌∷◌, ◌++◌, ℤ, pos, ltb_ℤ, leb_ℤ, eqb_ℤ, ◌-ℤ◌, ◌==◌,
  if◌then◌else◌, has,
}
use rpi_procmon.Base.Text.{trim_space, is_empty, is_blank, itoa, concat, join}
use rpi_procmon.Config.Types.{TargetConfig}
use rpi_procmon.Command.Shell.{shell_quote}

-- `targetHosts`: the call of `appendHost`, with the hosts so far, whose set is `seen`.
unfoldable pub append_host : String → List String → List String
append_host host hosts =
    let trimmed = trim_space host in
    if is_empty trimmed then hosts else if has hosts trimmed then hosts else hosts ++ trimmed ∷ []

unfoldable pub append_hosts : List String → List String → List String
append_hosts [] hosts = hosts
append_hosts (host ∷ more) hosts = append_hosts more (append_host host hosts)

unfoldable pub target_hosts : TargetConfig → List String
unfolding append_host append_hosts
target_hosts target = append_hosts target.fallback_hosts (append_host target.host [])

-- `shellQuoteInt`.
abbrev pub shell_quote_int : ℤ → String
shell_quote_int value = shell_quote (itoa value)

abbrev ssh_options : List String
ssh_options =
    "ssh" ∷ "-o" ∷ "BatchMode=yes" ∷ "-o" ∷ "ConnectTimeout=10" ∷ "-o" ∷ "ServerAliveInterval=15"
    ∷ "-o" ∷ "ServerAliveCountMax=2" ∷ "-o" ∷ "StrictHostKeyChecking=accept-new" ∷ []

abbrev port_options : ℤ → List String
port_options port = if ltb_ℤ (pos 0) port then "-p" ∷ shell_quote_int port ∷ [] else []

abbrev identity_options : String → List String
identity_options file = if is_blank file then [] else "-i" ∷ shell_quote file ∷ []

abbrev login : String → String → String
login user host = if is_empty user then host else concat (user ∷ "@" ∷ host ∷ [])

-- `buildSSHCommand`.
unfoldable pub build_ssh_command : TargetConfig → String → String → String
build_ssh_command target host remote_command = join " " (
    ssh_options
    ++ port_options target.port
    ++ identity_options target.identity_file
    ++ shell_quote (login (trim_space target.user) host) ∷ shell_quote remote_command ∷ [])

-- The part of the command for one of several hosts.
attempt : TargetConfig → String → String → String
attempt target remote_command host = concat (
    build_ssh_command target host remote_command
    ∷ " && exit 0; rc=$?; if [ \"$rc\" -ne 255 ]; then exit \"$rc\"; fi"
    ∷ [])

attempts : TargetConfig → String → List String → List String
attempts target remote_command [] = []
attempts target remote_command (host ∷ hosts) =
    attempt target remote_command host ∷ attempts target remote_command hosts

-- `buildRemoteCommand`, by the hosts of the target.
for_hosts : TargetConfig → String → List String → String
unfolding attempt attempts
for_hosts target remote_command [] = remote_command
for_hosts target remote_command (host ∷ []) = build_ssh_command target host remote_command
for_hosts target remote_command (host ∷ host' ∷ hosts) =
    join "; "
      ("rc=255" ∷ attempts target remote_command (host ∷ host' ∷ hosts) ++ "exit \"$rc\"" ∷ [])

unfoldable pub build_remote_command : TargetConfig → String → String
unfolding for_hosts
build_remote_command target remote_command =
    let transport = trim_space target.transport in
    if is_empty transport || transport == "local"
    then remote_command
    else for_hosts target remote_command (target_hosts target)

-- `buildSystemdCommand`.
unfoldable pub build_systemd_command : TargetConfig → String → String
build_systemd_command target remote_command =
    if trim_space target.transport == "ssh"
    then build_remote_command target remote_command
    else remote_command

unfoldable pub build_systemd_is_active_command : TargetConfig → String → String
build_systemd_is_active_command target service =
    build_systemd_command target
      (concat ("systemctl is-active --quiet " ∷ shell_quote service ∷ []))

unfoldable pub build_systemd_restart_command : TargetConfig → String → String
build_systemd_restart_command target service =
    let command = concat ("systemctl restart " ∷ shell_quote service ∷ []) in
    build_systemd_command target
      (if trim_space target.transport == "ssh" then concat ("sudo -n " ∷ command ∷ []) else command)

unfoldable pub build_docker_inspect_running_command : TargetConfig → String → String
build_docker_inspect_running_command target container =
    build_remote_command target
      (concat ("docker inspect -f '{{.State.Running}}' " ∷ shell_quote container ∷ []))

unfoldable pub build_docker_logs_command : TargetConfig → String → String → String
build_docker_logs_command target container since = build_remote_command target (
    concat (
      "docker logs --timestamps --since "
      ∷ shell_quote since
      ∷ " "
      ∷ shell_quote container
      ∷ " 2>&1"
      ∷ []))

unfoldable pub build_docker_exec_command : TargetConfig → String → String → String
build_docker_exec_command target container docker_command =
    build_remote_command target (
      concat
        ("docker exec " ∷ shell_quote container ∷ " sh -lc " ∷ shell_quote docker_command ∷ []))

unfoldable pub build_docker_restart_command : TargetConfig → String → String
build_docker_restart_command target container =
    build_remote_command target (concat ("docker restart " ∷ shell_quote container ∷ []))
