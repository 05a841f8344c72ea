-- ===== src/Checks/Logs/Verdict.antt =====
-- internal/checks/checks.go: when `runDockerLogPattern` fails.
use rpi_procmon.Base.{
  ℕ, ◌≡◌, refl, sym, ap, ◌∙◌, String, Bool, true, false, not, ◌&&◌, ◌||◌, none, List, [], ℤ, pos,
  ltb_ℤ, leb_ℤ, eqb_ℤ, length, select, if◌then◌else◌, Bool-cases, inl, inr, arith,
}
use rpi_procmon.Base.Text.{is_blank}
use rpi_procmon.Base.Dict.{Dict}
use rpi_procmon.State.{Observation}
use rpi_procmon.Config.Types.{MonitorConfig, CheckConfig}
use rpi_procmon.Command.{build_docker_logs_command}
use rpi_procmon.Command.Runner.{Outcome}
use rpi_procmon.Checks.Patterns.{
  compile_all, count_matches, collect_groups, distinct_groups, is_none,
}
use rpi_procmon.Checks.Patterns.Counts.{any_matches, count_matches-lines}
use rpi_procmon.Checks.Timeline.{find_latest}
use rpi_procmon.Checks.Timeline.Latest.{times, find_latest-latest}
use rpi_procmon.Checks.Timeline.Late.{is_late, tests_late, tests_late-latest}
use rpi_procmon.Checks.Patterns.Distinct.{
  KeepsLength, AreValues, collect_groups-AreValues, length-distinct_groups,
}
use rpi_procmon.Checks.Host.{Host, Report, passed, failing}
use rpi_procmon.Checks.Logs.{
  since_or_default, count_threshold, log_observations, judge_count, judge_timeline, judge_lines,
  judge_log, run_docker_log_pattern,
}

ltb_not_leb : (a b : ℤ) → ltb_ℤ a b ≡ not (leb_ℤ b a)
ltb_not_leb a b = ground arith

count_verdict :
    (seen : Dict Observation) (message : String) (enough some_threshold reached : Bool)
    → (if enough
        then if some_threshold && not reached then passed seen else failing message seen
        else passed seen).success
      ≡ not (enough && (not some_threshold || reached))
count_verdict seen message true true true = refl
count_verdict seen message true true false = refl
count_verdict seen message true false reached = refl
count_verdict seen message false some_threshold reached = refl

-- A late success passes, else the count decides.
late_verdict :
    (seen : Dict Observation) (report : Report) (enough varied late : Bool)
    → report.success ≡ not (enough && varied)
    → (if enough && late then passed seen else report).success
      ≡ not (enough && (varied && not late))
late_verdict seen report true true true h = refl
late_verdict seen report true true false h = h
late_verdict seen report true false true h = refl
late_verdict seen report true false false h = h
late_verdict seen report false varied late h = h

and_true : (a b : Bool) → a && (b && true) ≡ a && b
and_true true true = refl
and_true true false = refl
and_true false b = refl

module _ {W : Type 0} (host : Host W) (mon : MonitorConfig) (check : CheckConfig) where
  -- The lines with a failure.
  abbrev pub failures : List String → ℕ
  failures lines = length (select (any_matches host.regexp check.patterns) lines)

  abbrev distinct : List String → ℕ
  distinct lines = length (distinct_groups host.regexp check.patterns lines)

  -- The test of the code for a success after the last failure.
  abbrev late : List String → Bool
  late lines =
      let (last_failure, last_success) =
        find_latest host.regexp host.parse_nano check.patterns check.success_patterns lines (pos 0)
          (pos 0) in
      not (eqb_ℤ last_success (pos 0)) && ltb_ℤ last_failure last_success

  abbrev late_enough : List String → Bool
  late_enough lines = not (is_none host.regexp check.success_patterns) && late lines

  abbrev varied : List String → Bool
  varied lines =
      not (ltb_ℤ (pos 0) check.distinct_match_group_threshold)
      || leb_ℤ check.distinct_match_group_threshold (pos (distinct lines))

  judge_count-success :
      (count values : ℕ) (seen : Dict Observation)
      → (judge_count host mon check count values seen).success
        ≡ not (
            leb_ℤ (count_threshold check) (pos count)
            && (not (ltb_ℤ (pos 0) check.distinct_match_group_threshold)
                || leb_ℤ check.distinct_match_group_threshold (pos values)))
  unfolding judge_count
  judge_count-success count values seen =
      rw (ltb_not_leb (pos values) check.distinct_match_group_threshold) (
        count_verdict seen _ (leb_ℤ (count_threshold check) (pos count))
          (ltb_ℤ (pos 0) check.distinct_match_group_threshold)
          (leb_ℤ check.distinct_match_group_threshold (pos values)))

  judge_lines-success :
      (lines : List String)
      → (judge_lines host mon check lines).success
        ≡ not (
            leb_ℤ (count_threshold check) (pos (failures lines))
            && (varied lines && not (late_enough lines)))
  unfolding judge_lines judge_timeline
  judge_lines-success lines =
      let count = (count_matches host.regexp check.patterns lines).0 in
      let same : count ≡ failures lines =
        λ i. (count_matches-lines host.regexp check.patterns lines i).0 in
      elim (Bool-cases (is_none host.regexp check.success_patterns)) [
        | inl empty ↦ rw empty (
            judge_count-success count (distinct lines) (log_observations host mon check lines)
            ∙ ap (λ (n : ℕ). not (leb_ℤ (count_threshold check) (pos n) && varied lines)) same
            ∙ ap not (sym (and_true _ (varied lines))))
        | inr timed ↦ rw timed (
            late_verdict _ _ (leb_ℤ (count_threshold check) (pos count)) (varied lines) _
              (judge_count-success count (distinct lines) _)
            ∙ ap
                (λ (n : ℕ).
                  not (leb_ℤ (count_threshold check) (pos n) && (varied lines && not (late lines))))
                same)
      ]

module _ {W : Type 0} (host : Host W) (check : CheckConfig) where
  -- Are the different values enough, if there is a threshold for them?
  abbrev pub is_varied : List String → Bool
  is_varied different =
      not (ltb_ℤ (pos 0) check.distinct_match_group_threshold)
      || leb_ℤ check.distinct_match_group_threshold (pos (length different))

  -- Does the time of a line with a success come after the times of all lines with a failure?
  abbrev pub is_superseded : List String → Bool
  is_superseded lines =
      not (is_none host.regexp check.success_patterns)
      && is_late (times host.regexp host.parse_nano check.patterns lines)
          (times host.regexp host.parse_nano check.success_patterns lines)

  late_enough-is_superseded :
      (mon : MonitorConfig) (lines : List String)
      → late_enough host mon check lines ≡ is_superseded lines
  late_enough-is_superseded mon lines =
      ap
        (λ (found : ℤ × ℤ).
          not (is_none host.regexp check.success_patterns) && tests_late found.0 found.1)
        (find_latest-latest host.regexp host.parse_nano check.patterns check.success_patterns lines
          (pos 0) (pos 0))
      ∙ ap (λ (b : Bool). not (is_none host.regexp check.success_patterns) && b)
          (tests_late-latest (times host.regexp host.parse_nano check.patterns lines)
            (times host.regexp host.parse_nano check.success_patterns lines))

-- By what the check of a log is decided: its lines, and the different values in their groups.
pub record IsJudged {W : Type 0} (host : Host W) (mon : MonitorConfig) (check : CheckConfig)
    (lines : List String) (report : Report) : Type 0 where
  pub different : List String
  pub values : AreValues host.regexp check.patterns lines different
  pub success :
      report.success
      ≡ not (
          leb_ℤ (count_threshold check) (pos (failures host mon check lines))
          && (is_varied host check different && not (is_superseded host check lines)))

judge_lines-IsJudged :
    {W : Type 0} (host : Host W) (mon : MonitorConfig) (check : CheckConfig) (lines : List String)
    → KeepsLength host.regexp
    → IsJudged host mon check lines (judge_lines host mon check lines)
judge_lines-IsJudged host mon check lines keeps =
    let re = host.regexp in
    let set = collect_groups re check.patterns lines [] in
    record {
      different = set;
      values = collect_groups-AreValues re check.patterns lines;
      success = judge_lines-success host mon check lines ∙ (λ i. not (
          leb_ℤ (count_threshold check) (pos (failures host mon check lines))
          && ((not (ltb_ℤ (pos 0) check.distinct_match_group_threshold)
                || leb_ℤ check.distinct_match_group_threshold
                    (pos (length-distinct_groups re check.patterns lines keeps i)))
              && not (late_enough-is_superseded host check mon lines i))));
    }

-- The check of a log, on a container with a name, if the logs were read, all patterns compile and
-- sorting keeps the number of texts, fails exactly if the lines with a failure reach the threshold (1
-- if the configuration has none), the different values that the lines have in the groups, each taken
-- once, reach theirs, if there is one, and no line with a success has a timestamp after Go's zero time
-- and after those of all lines with a failure, if there are success patterns.
pub run_docker_log_pattern-IsJudged :
    {W : Type 0} (host : Host W) (mon : MonitorConfig) (check : CheckConfig) (outcome : Outcome)
    (w : W)
    → KeepsLength host.regexp
    → is_blank check.container ≡ false
    → compile_all host.regexp check.patterns ≡ none
    → compile_all host.regexp check.success_patterns ≡ none
    → (host.run
        (build_docker_logs_command mon.target check.container (since_or_default check.since))
        w).0
      ≡ (outcome, none)
    → IsJudged host mon check
        (host.regexp.lines outcome.output)
        (run_docker_log_pattern host mon check w).0
unfolding run_docker_log_pattern judge_log
run_docker_log_pattern-IsJudged host mon check outcome w keeps named compiles compiles' ran =
    rw (named, ran, judge_log, compiles)
      (rw (judge_log, compiles')
        (judge_lines-IsJudged host mon check (host.regexp.lines outcome.output) keeps))
