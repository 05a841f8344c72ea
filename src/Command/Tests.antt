-- ===== src/Command/Tests.antt =====
-- Runs of the commands on a target with two hosts.
use rpi_procmon.Base.{◌≡◌, refl, none, some, List, [], ◌∷◌, pos, ℕ, eqb, if◌then◌else◌}
use rpi_procmon.Base.Text.{trim_space, concat, join, itoa}
use Prim.Native.String
use rpi_procmon.Config.Types.{TargetConfig}
use rpi_procmon.Command.{target_hosts, build_ssh_command}
use rpi_procmon.Command.Shell.{shell_quote}
use rpi_procmon.Command.Shell.Word.{outside, read_word, read_word-shell_quote}
use rpi_procmon.Command.Hosts.{IsHosts, target_hosts-IsHosts}
use rpi_procmon.Command.Output.{
  max_output_bytes, joined, write_all, no_output, IsCapped, write_all-no_output,
}
use rpi_procmon.Command.Runner.{
  Exec, exit_error, error_text, conclude, shell_run, IsReported, shell_run-IsReported,
}

abbrev two_hosts : TargetConfig
two_hosts = record {
  transport = " ssh ";
  host = "pi";
  fallback_hosts = " " ∷ " pi" ∷ "10.0.0.2" ∷ [];
  user = "me";
  port = pos 22;
  identity_file = "";
}

two_hosts_tried : target_hosts two_hosts ≡ "pi" ∷ "10.0.0.2" ∷ []
unfolding target_hosts trim_space
two_hosts_tried = refl

ssh_runs :
    build_ssh_command two_hosts "pi" "true"
    ≡ "ssh -o BatchMode=yes -o ConnectTimeout=10 -o ServerAliveInterval=15 -o ServerAliveCountMax=2 -o StrictHostKeyChecking=accept-new -p '22' 'me@pi' 'true'"
unfolding build_ssh_command trim_space concat join itoa shell_quote
ssh_runs = refl

target_hosts-IsHosts_example :
    IsHosts ("pi" ∷ " " ∷ " pi" ∷ "10.0.0.2" ∷ []) (target_hosts two_hosts)
target_hosts-IsHosts_example = target_hosts-IsHosts two_hosts

quoted : shell_quote "it's" ≡ "'it'\"'\"'s'"
unfolding shell_quote
quoted = refl

read_word-shell_quote_example :
    read_word outside (Prim.Native.String.◌++◌ (shell_quote "it's $HOME") " --since 5m")
    ≡ some ("it's $HOME", " --since 5m")
read_word-shell_quote_example = read_word-shell_quote "it's $HOME" " --since 5m" refl

abbrev two_writes : List (List ℕ)
two_writes = (1 ∷ 2 ∷ []) ∷ (3 ∷ []) ∷ []

write_all-no_output_example :
    IsCapped max_output_bytes (joined two_writes) (write_all two_writes no_output)
write_all-no_output_example = write_all-no_output two_writes

-- A process that writes three bytes and exits with the code of its own, or with none.
abbrev process : Exec ℕ
process = record {
  run_process = λ command w. (
    record {
      writes = two_writes;
      exit_code = some (pos w);
      error = if eqb w 0 then none else some (exit_error "exit status 2");
      ctx_err = none;
    },
    w,
  );
  kill_group = λ w. w;
  decode = λ bytes. " text ";
}

shell_run-IsReported_example :
    IsReported process (process.run_process "make" 2).0 (shell_run process "make" 2).0
shell_run-IsReported_example = shell_run-IsReported process "make" 2

shell_run_fails : (shell_run process "make" 2).0.0.exit_code ≡ pos 2
unfolding shell_run conclude write_all error_text concat trim_space
shell_run_fails = refl
