-- ===== src/Checks/Tests.antt =====
-- Checks on a machine whose clock ticks with each reading, where a pattern matches a text that
-- contains it, and where every command prints the same log.
use Prim.Native.String
use rpi_procmon.Base.{
  ◌≡◌, refl, ℕ, ◌+◌, String, true, not, ◌&&◌, inl, Option, none, some, List, [], ◌∷◌, ℤ, pos, eqb,
  ltb, length, select,
}
use rpi_procmon.Base.Text.{trim_space, is_blank, itoa}
use rpi_procmon.Command.{build_docker_exec_command}
use rpi_procmon.Base.Text.Split.{contains, split_on}
use rpi_procmon.Config.Types.{CheckConfig}
use rpi_procmon.Config.Validate.{Parsers, validate_check}
use rpi_procmon.Engine.Lab.{clock, check_named, monitor}
use rpi_procmon.Checks.Patterns.{Regexp, compile_all, count_matches, first_match}
use rpi_procmon.Checks.Patterns.Counts.{any_matches, first_somewhere, count_matches-lines}
use rpi_procmon.Checks.Patterns.Valid.{compile_all-validate_check}
use rpi_procmon.Checks.Timeline.{find_latest}
use rpi_procmon.Checks.Timeline.Latest.{times, IsLatest, find_latest-IsLatest}
use rpi_procmon.Checks.Host.{Floats, Host}
use rpi_procmon.Checks.Commands.{run_command, run_docker_exec}
use rpi_procmon.Checks.Commands.Verdict.{is_accepted, run_command-is_accepted}
use rpi_procmon.Checks.Logs.{run_docker_log_pattern}
use rpi_procmon.Checks.Logs.Verdict.{IsJudged, run_docker_log_pattern-IsJudged}
use rpi_procmon.Checks.Run.{handle}
use rpi_procmon.Checks.Run.Valid.{IsOneRun, handle-IsOneRun}

abbrev finder : Regexp
finder = record {
  compile_error = λ p. none;
  matches = contains;
  first_group = λ p line. some line;
  lines = split_on b'\n';
  sort = λ xs. xs;
  quote = λ s. s;
}

-- Times are their number of characters.
abbrev parse_nano : String → Option ℤ
parse_nano s = some (pos (Prim.Native.String.len s))

abbrev log : String
log = "1 failed\n333 failed again\n22 recovered"

abbrev log_lines : List String
log_lines = "1 failed" ∷ "333 failed again" ∷ "22 recovered" ∷ []

abbrev floats : Floats
floats = record {
  parse = λ s. none;
  greater = λ x y. ltb y x;
  is_zero = λ x. eqb x 0;
  times = λ x y. x;
  over = λ x y. x;
  minus = λ x y. x;
  of_int = λ z. 0;
  fixed = λ n x. "";
}

abbrev machine : Host ℕ
machine = record {
  time = clock;
  parse_nano = parse_nano;
  format_nano = itoa;
  regexp = finder;
  floats = floats;
  quote = λ s. s;
  to_lower = λ s. s;
  parse_health = λ s. inl "no JSON";
  num_cpu = pos 4;
  now = λ w. (pos w, w + 1);
  run = λ command w. ((record { output = log; exit_code = pos 0 }, none), w + 1);
  get = λ url timeout w. (inl "refused", w + 1);
  read_file = λ path w. (none, w);
  stat = λ path w. (none, w);
  access = λ path w. (none, w);
  eval_symlinks = λ path w. (none, w);
  read_dir = λ path w. (none, w);
  read_link = λ path w. (none, w);
}

-- A check of the log, with one pattern of each kind.
abbrev watch : CheckConfig
watch = record (check_named "watch") {
  kind = "docker_log_pattern";
  container = "web";
  patterns = "failed" ∷ [];
  success_patterns = "recovered" ∷ [];
  match_count_threshold = pos 2;
  expected_output_patterns = "failed" ∷ "absent" ∷ [];
  forbidden_output_patterns = "panic" ∷ [];
}

abbrev parsers : Parsers
parsers = record { parse_duration = λ s. some (pos 60); compiles = λ s. true }

watch_valid : validate_check parsers "a" watch ≡ none
unfolding validate_check trim_space
watch_valid = refl

two_found : count_matches finder ("failed" ∷ "absent" ∷ []) log_lines ≡ (2, "failed" ∷ [])
unfolding count_matches contains
two_found = refl

count_matches-lines_example : count_matches finder ("failed" ∷ "absent" ∷ []) log_lines ≡ (
  length (select (any_matches finder ("failed" ∷ "absent" ∷ [])) log_lines),
  select (first_somewhere finder ("failed" ∷ "absent" ∷ []) log_lines) ("failed" ∷ "absent" ∷ []),
)
count_matches-lines_example = count_matches-lines finder ("failed" ∷ "absent" ∷ []) log_lines

latest_found :
    find_latest finder parse_nano ("failed" ∷ []) ("recovered" ∷ []) log_lines (pos 0) (pos 0)
    ≡ (pos 3, pos 2)
unfolding find_latest contains first_match
latest_found = refl

find_latest-IsLatest_example :
    IsLatest
      (pos 0)
      (times finder parse_nano ("failed" ∷ []) log_lines)
      (find_latest finder parse_nano ("failed" ∷ []) ("recovered" ∷ []) log_lines (pos 0) (pos 0)).0
    × IsLatest
        (pos 0)
        (times finder parse_nano ("recovered" ∷ []) log_lines)
        (find_latest finder parse_nano
          ("failed" ∷ [])
          ("recovered" ∷ [])
          log_lines
          (pos 0)
          (pos 0)).1
find_latest-IsLatest_example =
    find_latest-IsLatest finder parse_nano ("failed" ∷ []) ("recovered" ∷ []) log_lines (pos 0)
      (pos 0)

run_docker_log_pattern-IsJudged_example :
    IsJudged machine
      (monitor "a" "up")
      watch
      log_lines
      (run_docker_log_pattern machine (monitor "a" "up") watch 0).0
unfolding trim_space compile_all split_on
run_docker_log_pattern-IsJudged_example =
    run_docker_log_pattern-IsJudged machine (monitor "a" "up") watch
      (record { output = log; exit_code = pos 0 }) 0 (λ xs. refl) refl refl refl refl

-- A check of a command that prints the log.
abbrev printed : CheckConfig
printed = record (check_named "printed") {
  kind = "command";
  command = "cat log";
  container = "web";
  docker_command = "cat log";
  expected_output_patterns = "failed" ∷ "recovered" ∷ [];
  match_all = true;
  forbidden_output_patterns = "panic" ∷ [];
}

run_command-is_accepted_example :
    ((run_command machine printed 0).0.success ≡ (
      not (is_blank printed.command)
      && is_accepted finder "command" printed (machine.run printed.command 0).0))
    × ((run_docker_exec machine (monitor "a" "up") printed 0).0.success ≡ (
        not (is_blank printed.container)
        && (not (is_blank printed.docker_command)
            && is_accepted finder "docker_exec" printed
                (machine.run
                  (build_docker_exec_command (monitor "a" "up").target "web" "cat log")
                  0).0)))
unfolding compile_all
run_command-is_accepted_example =
    run_command-is_accepted machine (monitor "a" "up") printed 0 refl refl

handle-IsOneRun_example :
    IsOneRun machine (monitor "a" "up") (handle machine (monitor "a" "up") watch)
handle-IsOneRun_example =
    handle-IsOneRun machine (monitor "a" "up") watch parsers "a" refl watch_valid

compile_all-validate_check_example :
    (compile_all finder ("failed" ∷ []) ≡ none)
    × (compile_all finder ("recovered" ∷ []) ≡ none)
    × (compile_all finder ("failed" ∷ "absent" ∷ []) ≡ none)
    × (compile_all finder ("panic" ∷ []) ≡ none)
compile_all-validate_check_example =
    compile_all-validate_check finder parsers "a" watch (λ p compiles. refl) watch_valid
