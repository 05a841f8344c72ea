-- ===== src/Checks/Files.antt =====
-- internal/checks/checks.go: the checks that read the machine's own files.
use rpi_procmon.Base.{
  ℕ, String, not, ◌||◌, ◌&&◌, Option, none, some, List, [], ◌∷◌, ℤ, pos, drop, length, ◌==◌,
  if◌then◌else◌,
}
use rpi_procmon.Base.Dict.{Dict}
use rpi_procmon.Base.Text.{trim_space, is_empty, concat}
use rpi_procmon.Base.Text.Split.{fields, split_on, has_prefix, cut_at, trim_suffix_of}
use rpi_procmon.Config.Types.{CheckConfig}
use rpi_procmon.State.{Observation, text, number, float}
use rpi_procmon.Checks.Host.{Floats, Host, Report, passed, failing}
use rpi_procmon.Checks.Procs.{
  ProcInfo, no_text, check_rw_access, resolve_path, find_open_processes, filter_disallowed,
  format_procs,
}

module _ (floats : Floats) where
  -- The loop of `parsePSIAvg` over the fields of a line: the value of the first that has the key,
  -- if it is a number.
  unfoldable pub psi_field : String → List String → Option (Option ℕ)
  psi_field key [] = none
  psi_field key (f ∷ fs) = elim (cut_at b'=' f) [
    | none ↦ psi_field key fs
    | some parts ↦ if parts.0 == key then some (floats.parse parts.1) else psi_field key fs
  ]

  -- `parsePSIAvg`.
  unfoldable pub parse_psi_avg : List String → String → String → Option ℕ
  unfolding psi_field
  parse_psi_avg [] prefix key = none
  parse_psi_avg (line ∷ lines) prefix key =
      let trimmed = trim_space line in
      let rest = parse_psi_avg lines prefix key in
      if is_empty trimmed || not (has_prefix (concat (prefix ∷ " " ∷ [])) trimmed)
      then rest
      else elim (psi_field key (drop 1 (fields trimmed))) [ none ↦ rest | some value ↦ value ]

  -- The threshold of `runLoad`, for `cpus` processors.
  unfoldable pub load_threshold : ℤ → CheckConfig → ℕ
  load_threshold cpus check =
      let fixed = if floats.greater check.max_load1 0 then check.max_load1 else 0 in
      let per_cpu = floats.times check.max_load_per_cpu (floats.of_int cpus) in
      if floats.greater check.max_load_per_cpu 0
        && (floats.is_zero fixed || floats.greater fixed per_cpu)
      then per_cpu
      else fixed

  unfoldable pub judge_load : ℤ → CheckConfig → ℕ → Report
  unfolding load_threshold
  judge_load cpus check load1 =
      let threshold = load_threshold cpus check in
      let seen = ("load1", float load1) ∷ ("threshold", float threshold) ∷ [] in
      if floats.greater threshold 0 && floats.greater load1 threshold
      then failing
          (concat ("load1 " ∷ floats.fixed 2 load1 ∷ " > " ∷ floats.fixed 2 threshold ∷ [])) seen
      else passed seen

  abbrev first_number : List String → Option ℕ
  first_number [] = none
  first_number (f ∷ fs) = floats.parse f

  abbrev load_of : Option String → Option ℕ
  load_of none = none
  load_of (some content) = first_number (fields content)

  -- The switch on the key of a line of `/proc/meminfo`, over the total and what is available.
  abbrev noted : String → Option ℕ → ℕ × ℕ → ℕ × ℕ
  noted key none mem = mem
  noted key (some value) (total, available) =
      if key == "MemTotal"
      then (value, available)
      else if key == "MemAvailable"
      then (total, value)
      else (total, available)

  abbrev read_line : List String → ℕ × ℕ → ℕ × ℕ
  read_line [] mem = mem
  read_line (key ∷ []) mem = mem
  read_line (key ∷ value ∷ fs) mem = noted (trim_suffix_of b':' key) (floats.parse value) mem

  -- The loop of `runMemory`.
  unfoldable pub read_memory : List String → ℕ × ℕ → ℕ × ℕ
  read_memory [] mem = mem
  read_memory (line ∷ lines) mem = read_memory lines (read_line (fields line) mem)

  unfoldable pub judge_memory : CheckConfig → ℕ × ℕ → Report
  judge_memory check (total, available) =
      let used =
        floats.times (floats.minus (floats.of_int (pos 1)) (floats.over available total))
          (floats.of_int (pos 100)) in
      let seen = ("used_pct", float used) ∷ ("threshold", float check.max_mem_used_pct) ∷ [] in
      if floats.is_zero total
      then passed []
      else if floats.greater check.max_mem_used_pct 0 && floats.greater used check.max_mem_used_pct
      then failing
          (concat (
            "mem used "
            ∷ floats.fixed 1 used
            ∷ "% > "
            ∷ floats.fixed 1 check.max_mem_used_pct
            ∷ "%"
            ∷ []))
          seen
      else passed seen

  unfoldable pub judge_pressure : CheckConfig → ℕ → Report
  judge_pressure check avg300 =
      let seen =
        ("avg300", float avg300) ∷ ("threshold", float check.max_io_pressure_avg300) ∷ [] in
      if floats.greater check.max_io_pressure_avg300 0
        && floats.greater avg300 check.max_io_pressure_avg300
      then failing
          (concat (
            "io pressure avg300 "
            ∷ floats.fixed 2 avg300
            ∷ " > "
            ∷ floats.fixed 2 check.max_io_pressure_avg300
            ∷ []))
          seen
      else passed seen

-- A value that could not be read passes the check.
abbrev judged_value : (ℕ → Report) → Option ℕ → Report
judged_value judge none = passed []
judged_value judge (some value) = judge value

abbrev on_path : String → Dict Observation
on_path path = ("path", text path) ∷ []

abbrev no_process : Option (List ProcInfo) → List ProcInfo
no_process none = []
no_process (some openers) = openers

module _ {W : Type 0} (host : Host W) where
  -- `runLoad`.
  unfoldable pub run_load : CheckConfig → W → Report × W
  unfolding judge_load
  run_load check w =
      let (file, w') = host.read_file "/proc/loadavg" w in
      (judged_value (judge_load host.floats host.num_cpu check) (load_of host.floats file), w')

  -- `runMemory`.
  unfoldable pub run_memory : CheckConfig → W → Report × W
  unfolding read_memory judge_memory
  run_memory check w =
      let (file, w') = host.read_file "/proc/meminfo" w in
      elim file [
        | none ↦ (passed [], w')
        | some content ↦ (
          judge_memory host.floats check (read_memory host.floats (split_on b'\n' content) (0, 0)),
          w',
        )
      ]

  -- `runIOPressure`.
  unfoldable pub run_io_pressure : CheckConfig → W → Report × W
  unfolding parse_psi_avg judge_pressure
  run_io_pressure check w =
      let (file, w') = host.read_file "/proc/pressure/io" w in
      elim file [
        | none ↦ (passed [], w')
        | some content ↦ (
          judged_value (judge_pressure host.floats check)
              (parse_psi_avg host.floats (split_on b'\n' content) "some" "avg300"),
          w',
        )
      ]

  -- Who has the path open and may not; nobody, where that cannot be told.
  unfoldable pub disallowed_openers : List String → String → W → List ProcInfo × W
  unfolding resolve_path find_open_processes filter_disallowed
  disallowed_openers allowed path w =
      if no_text allowed
      then ([], w)
      else let (real, w1) = resolve_path host path w in
        let (openers, w2) = find_open_processes host (path ∷ real ∷ []) w1 in
        (filter_disallowed host (no_process openers) allowed, w2)

  -- The loop of `runIOPaths`, which ends at the first path that fails.
  unfoldable pub scan_paths : List String → List String → W → Option Report × W
  unfolding check_rw_access disallowed_openers format_procs
  scan_paths allowed [] w = (none, w)
  scan_paths allowed (path ∷ paths) w =
      let (denied, w1) = check_rw_access host path w in
      elim denied [
        | some e ↦
            (some (failing (concat ("io access " ∷ path ∷ ": " ∷ e ∷ [])) (on_path path)), w1)
        | none ↦
            let (busy, w2) = disallowed_openers allowed path w1 in
            elim busy [
              | [] ↦ scan_paths allowed paths w2
              | p ∷ ps ↦ (
                some (
                    failing (concat ("io busy " ∷ path ∷ " by " ∷ format_procs (p ∷ ps) ∷ []))
                      (on_path path)),
                w2,
              )
            ]
      ]

  abbrev or_passed : ℕ → Option Report → Report
  or_passed count none = passed (("paths_checked", number (pos count)) ∷ [])
  or_passed count (some report) = report

  -- `runIOPaths`.
  unfoldable pub run_io_paths : CheckConfig → W → Report × W
  unfolding scan_paths
  run_io_paths check w =
      let (failed, w') = scan_paths check.allow_processes check.paths w in
      (or_passed (length check.paths) failed, w')
