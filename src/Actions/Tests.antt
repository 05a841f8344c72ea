-- ===== src/Actions/Tests.antt =====
-- Actions on a machine whose clock ticks with each reading, and where every command fails with code
-- 3.
use rpi_procmon.Base.{◌≡◌, refl, ℕ, ◌+◌, true, false, none, some, pos}
use rpi_procmon.Base.Text.{trim_space, concat, itoa}
use rpi_procmon.Base.Text.Limit.{limit_string}
use rpi_procmon.Config.Types.{ActionConfig}
use rpi_procmon.Config.Validate.{Parsers, validate_action}
use rpi_procmon.Command.Exit.{failure_message, exit_code_description}
use rpi_procmon.Command.Runner.{exit_error}
use rpi_procmon.Engine.Lab.{clock, action_named, monitor}
use rpi_procmon.Actions.{Host, handle, run_command}
use rpi_procmon.Actions.Valid.{IsPerformed, handle-IsPerformed}

abbrev machine : Host ℕ
machine = record {
  time = clock;
  now = λ w. (pos w, w + 1);
  run = λ command w.
      ((record { output = "no"; exit_code = pos 3 }, some (exit_error "exit status 3")), w + 1);
  sleep = λ d w. (none, w + 1);
  quote = λ s. s;
}

abbrev parsers : Parsers
parsers = record { parse_duration = λ s. some (pos 60); compiles = λ s. true }

abbrev make : ActionConfig
make = record (action_named "make" "command") { command = "make" }

make_valid : validate_action parsers "a" make ≡ none
unfolding validate_action trim_space
make_valid = refl

handle-IsPerformed_example :
    IsPerformed machine (monitor "a" "up") 0 make (handle machine (monitor "a" "up") make 0)
handle-IsPerformed_example =
    handle-IsPerformed machine (monitor "a" "up") make 0 parsers "a" make_valid

make_fails :
    handle machine (monitor "a" "up") make 0 ≡ ((false, "command failed with exit code 3", "no"), 1)
unfolding handle run_command trim_space failure_message exit_code_description concat itoa
    limit_string
make_fails = refl
