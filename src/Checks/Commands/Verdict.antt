-- ===== src/Checks/Commands/Verdict.antt =====
-- internal/checks/checks.go: when `runCommand` and `runDockerExec` succeed.
use rpi_procmon.Base.{
  pos, ◌≡◌, refl, String, Bool, true, false, not, ◌&&◌, ◌||◌, Option, none, List, [], ◌∷◌, eqb_ℤ,
  if◌then◌else◌, Bool-cases, Option-cases, inl, inr,
}
use rpi_procmon.Base.Dict.{Dict}
use rpi_procmon.State.{Observation, text}
use rpi_procmon.Config.Types.{MonitorConfig, CheckConfig}
use rpi_procmon.Command.{build_docker_exec_command}
use rpi_procmon.Base.Text.{is_blank}
use rpi_procmon.Base.Text.Limit.{limit_string}
use rpi_procmon.Command.Runner.{Outcome, CommandError}
use rpi_procmon.Checks.Patterns.{Regexp, compile_all, is_none, match_patterns}
use rpi_procmon.Checks.Patterns.Counts.{any_matches, all_match, match_patterns-decides}
use rpi_procmon.Checks.Host.{Host, passed}
use rpi_procmon.Checks.Commands.{
  broke, succeeded, expected, forbidden, judge_forbidden, judge_output, judge_run, run_command,
  run_docker_exec, ran, where_run,
}

module _ (re : Regexp) (kind : String) (check : CheckConfig) (output : String) where
  -- Does the output have what it should? The command's output may be anything if there are no
  -- patterns.
  abbrev pub is_expected : Bool
  is_expected =
      is_none re check.expected_output_patterns
      || (if check.match_all
          then all_match re check.expected_output_patterns output
          else any_matches re check.expected_output_patterns output)

  abbrev pub is_forbidden : Bool
  is_forbidden = any_matches re check.forbidden_output_patterns output

  forbidden-success :
      (seen : Dict Observation) (b : Bool)
      → (forbidden re kind check output seen (b, none)).success ≡ not b
  forbidden-success seen true = refl
  forbidden-success seen false = refl

  judge_forbidden-success :
      (seen : Dict Observation)
      → compile_all re check.forbidden_output_patterns ≡ none
      → (judge_forbidden re kind check output seen).success ≡ not is_forbidden
  unfolding judge_forbidden
  judge_forbidden-success seen compiles = forbidden_of seen check.forbidden_output_patterns compiles
    where
      forbidden_of :
          (seen : Dict Observation) (patterns : List String)
          → compile_all re patterns ≡ none
          → (if is_none re patterns
              then passed seen
              else forbidden re kind check output seen
                  (match_patterns re patterns false output)).success
            ≡ not (any_matches re patterns output)
      forbidden_of seen [] compiles = refl
      forbidden_of seen (p ∷ ps) compiles =
          rw (match_patterns-decides re (p ∷ ps) false output compiles)
            (forbidden-success seen (any_matches re (p ∷ ps) output))

  expected-success :
      (seen : Dict Observation) (b f : Bool)
      → (judge_forbidden re kind check output seen).success ≡ not f
      → (expected re kind check output seen (b, none)).success ≡ b && not f
  expected-success seen true f h = h
  expected-success seen false f h = refl

  judge_output-success :
      (seen : Dict Observation)
      → compile_all re check.expected_output_patterns ≡ none
      → compile_all re check.forbidden_output_patterns ≡ none
      → (judge_output re kind check output seen).success ≡ is_expected && not is_forbidden
  unfolding judge_output
  judge_output-success seen compiles compiles' =
      elim (Bool-cases (is_none re check.expected_output_patterns)) [
        | inl empty ↦ rw empty (judge_forbidden-success seen compiles')
        | inr some' ↦
            rw
              (
                some',
                match_patterns-decides re check.expected_output_patterns check.match_all output
                    compiles,
              )
              (rw some'
                (expected-success seen _ is_forbidden (judge_forbidden-success seen compiles')))
      ]

judge_run-success :
    (re : Regexp) (kind : String) (check : CheckConfig) (output : String) (seen : Dict Observation)
    (outcome : Outcome) (err : Option CommandError)
    → compile_all re check.expected_output_patterns ≡ none
    → compile_all re check.forbidden_output_patterns ≡ none
    → (judge_run re kind check output seen (outcome, err)).success ≡ (
        eqb_ℤ outcome.exit_code check.expected_exit_code
        && (succeeded (broke err)
            && (is_expected re kind check output && not (is_forbidden re kind check output))))
unfolding judge_run
judge_run-success re kind check output seen outcome err compiles compiles' =
    elim (Bool-cases (eqb_ℤ outcome.exit_code check.expected_exit_code)) [
      | inr other ↦ rw other refl
      | inl same ↦ elim (Option-cases (broke err)) [
        | inl sound ↦
            rw (same, sound) (judge_output-success re kind check output seen compiles compiles')
        | inr (e, broken) ↦ rw (same, broken) refl
      ]
    ]

-- Is a run accepted: the exit code is the expected one, there is no error but that of an exit code,
-- and the first 2048 bytes of the output have what they should and nothing they should not?
abbrev pub is_accepted : Regexp → String → CheckConfig → Outcome × Option CommandError → Bool
is_accepted re kind check r =
    let output = limit_string r.0.output (pos 2048) in
    eqb_ℤ r.0.exit_code check.expected_exit_code
    && (succeeded (broke r.1)
        && (is_expected re kind check output && not (is_forbidden re kind check output)))

-- If all patterns of a check compile, `runCommand` succeeds exactly if its command is not blank and
-- the run of that command is accepted, and `runDockerExec` exactly if its container and its command
-- are not blank and the run of the command built for them is accepted: its exit code is the expected
-- one, it has no error but that of an exit code, the first 2048 bytes of its output match the
-- expected patterns, all or some of them as the check says, if there are any, and they match no
-- forbidden pattern.
pub run_command-is_accepted :
    {W : Type 0} (host : Host W) (mon : MonitorConfig) (check : CheckConfig) (w : W)
    → compile_all host.regexp check.expected_output_patterns ≡ none
    → compile_all host.regexp check.forbidden_output_patterns ≡ none
    → ((run_command host check w).0.success ≡ (
        not (is_blank check.command)
        && is_accepted host.regexp "command" check (host.run check.command w).0))
      × ((run_docker_exec host mon check w).0.success ≡ (
          not (is_blank check.container)
          && (not (is_blank check.docker_command)
              && is_accepted host.regexp "docker_exec" check
                  (host.run
                    (build_docker_exec_command mon.target check.container check.docker_command)
                    w).0)))
unfolding run_command run_docker_exec
run_command-is_accepted host mon check w compiles compiles' = (
  elim (Bool-cases (is_blank check.command)) [
    | inl blank ↦ rw blank refl
    | inr command ↦
        let r = (host.run check.command w).0 in
        rw command (
          judge_run-success host.regexp "command" check (limit_string r.0.output (pos 2048))
            (ran r.0 []) r.0 r.1 compiles compiles')
  ],
  elim (Bool-cases (is_blank check.container)) [
    | inl blank ↦ rw blank refl
    | inr container ↦ elim (Bool-cases (is_blank check.docker_command)) [
      | inl blank ↦ rw (container, blank) refl
      | inr command ↦
          let r =
            (host.run (build_docker_exec_command mon.target check.container check.docker_command)
              w).0 in
          rw (container, command)
            (judge_run-success host.regexp "docker_exec" check (limit_string r.0.output (pos 2048))
              (("container", text check.container) ∷ ran r.0 (where_run mon)) r.0 r.1 compiles
              compiles')
    ]
  ],
)
