-- ===== src/Checks/Logs.antt =====
-- internal/checks/checks.go: `runDockerLogPattern`.
pub mod Verdict
use rpi_procmon.Base.{
  ℕ, String, Bool, true, false, ◌&&◌, not, Option, none, some, List, [], ◌∷◌, ℤ, pos, leb_ℤ, ltb_ℤ,
  eqb_ℤ, length, if◌then◌else◌,
}
use rpi_procmon.Base.Dict.{Dict, insert}
use rpi_procmon.Base.Text.{trim_space, is_blank, concat, itoa}
use rpi_procmon.Base.Text.Limit.{limit_string}
use rpi_procmon.Config.Types.{MonitorConfig, CheckConfig}
use rpi_procmon.State.{Observation, text, number, flag, texts}
use rpi_procmon.Command.{build_docker_logs_command}
use rpi_procmon.Command.Runner.{Outcome, CommandError, error_text}
use rpi_procmon.Checks.Patterns.{Regexp, compile_all, count_matches, distinct_groups, is_none}
use rpi_procmon.Checks.Timeline.{find_latest}
use rpi_procmon.Checks.Host.{Host, Report, passed, failing, normalized_transport}

abbrev pub since_or_default : String → String
since_or_default since = if is_blank since then "10m" else since

abbrev pub count_threshold : CheckConfig → ℤ
count_threshold check =
    if leb_ℤ check.match_count_threshold (pos 0) then pos 1 else check.match_count_threshold

module _ {W : Type 0} (host : Host W) (mon : MonitorConfig) (check : CheckConfig) where
  -- The observations, before those of the times.
  unfoldable pub log_observations : List String → Dict Observation
  unfolding count_matches distinct_groups
  log_observations lines =
      let (count, matched) = count_matches host.regexp check.patterns lines in
      let (success_count, matched_success) =
        count_matches host.regexp check.success_patterns lines in
      let distinct = distinct_groups host.regexp check.patterns lines in
      let seen =
        ("container", text check.container)
        ∷ ("since", text (since_or_default check.since))
        ∷ ("match_count", number (pos count))
        ∷ ("threshold", number (count_threshold check))
        ∷ ("matched_patterns", texts matched)
        ∷ ("distinct_match_count", number (pos (length distinct)))
        ∷ ("distinct_matches", texts distinct)
        ∷ ("success_match_count", number (pos success_count))
        ∷ ("matched_success_patterns", texts matched_success)
        ∷ ("transport", text (normalized_transport mon.target.transport))
        ∷ ("host", text (trim_space mon.target.host))
        ∷ [] in
      if ltb_ℤ (pos 0) check.distinct_match_group_threshold
      then insert "distinct_match_group_threshold" (number check.distinct_match_group_threshold)
          seen
      else seen

  -- A zero time is none.
  abbrev with_time : String → ℤ → Dict Observation → Dict Observation
  with_time key at seen =
      if eqb_ℤ at (pos 0) then seen else insert key (text (host.format_nano at)) seen

  -- The end: enough matches fail the check, unless too few distinct values are among them.
  unfoldable pub judge_count : ℕ → ℕ → Dict Observation → Report
  judge_count count distinct seen =
      if leb_ℤ (count_threshold check) (pos count)
      then if ltb_ℤ (pos 0) check.distinct_match_group_threshold
          && ltb_ℤ (pos distinct) check.distinct_match_group_threshold
        then passed seen
        else failing
            (concat (
              "docker log pattern matched "
              ∷ itoa (pos count)
              ∷ " times in "
              ∷ since_or_default check.since
              ∷ []))
            seen
      else passed seen

  -- With success patterns, a success after the last failure passes the check.
  unfoldable pub judge_timeline : ℕ → ℕ → ℤ × ℤ → Dict Observation → Report
  unfolding judge_count
  judge_timeline count distinct (last_failure, last_success) seen =
      let seen' =
        with_time "last_success_match_at" last_success
          (with_time "last_failure_match_at" last_failure seen) in
      if leb_ℤ (count_threshold check) (pos count)
        && (not (eqb_ℤ last_success (pos 0)) && ltb_ℤ last_failure last_success)
      then passed (insert "superseded_by_success" (flag true) seen')
      else judge_count count distinct seen'

  -- What is made of the lines, once all patterns compile.
  unfoldable pub judge_lines : List String → Report
  unfolding log_observations judge_timeline count_matches distinct_groups find_latest
  judge_lines lines =
      let count = (count_matches host.regexp check.patterns lines).0 in
      let distinct = length (distinct_groups host.regexp check.patterns lines) in
      let seen = log_observations lines in
      if is_none host.regexp check.success_patterns
      then judge_count count distinct seen
      else judge_timeline count distinct
          (find_latest host.regexp host.parse_nano check.patterns check.success_patterns lines
            (pos 0) (pos 0))
          seen

  -- The first pattern that does not compile ends the check.
  unfoldable pub judge_log : String → Report
  unfolding judge_lines compile_all
  judge_log log = elim (compile_all host.regexp check.patterns) [
    | some e ↦ failing e []
    | none ↦ elim (compile_all host.regexp check.success_patterns) [
      | some e ↦ failing e []
      | none ↦ judge_lines (host.regexp.lines log)
    ]
  ]

  abbrev pub judge_logs : Outcome × Option CommandError → Report
  judge_logs (outcome, some e) =
      failing (concat ("docker logs failed for " ∷ check.container ∷ ": " ∷ error_text e ∷ [])) (
        ("exit_code", number outcome.exit_code)
        ∷ ("output", text (limit_string outcome.output (pos 2048)))
        ∷ [])
  judge_logs (outcome, none) = judge_log outcome.output

  -- `runDockerLogPattern`.
  unfoldable pub run_docker_log_pattern : W → Report × W
  unfolding judge_log
  run_docker_log_pattern w =
      if is_blank check.container
      then (failing "docker_log_pattern check missing container" [], w)
      else let (r, w') =
          host.run
            (build_docker_logs_command mon.target check.container (since_or_default check.since))
            w in
        (judge_logs r, w')
