-- ===== src/Checks/Procs.antt =====
-- internal/checks/checks.go: access to paths, and the processes that have them open.
use rpi_procmon.Base.{
  String, Bool, true, false, not, ◌||◌, Option, none, some, List, [], ◌∷◌, ℤ, pos, leb_ℤ, eqb_ℤ,
  map, select, ◌==◌, if◌then◌else◌,
}
use rpi_procmon.Base.Text.{trim_space, is_empty, is_blank, concat, join, itoa}
use rpi_procmon.Base.Text.Split.{split_on, has_prefix, contains}
use rpi_procmon.Base.Text.Number.{atoi}
use rpi_procmon.Checks.Host.{Host}

-- `procInfo`.
pub record ProcInfo : Type 0 where
  pub pid : ℤ
  pub cmd : String

-- `matchesPath`.
unfoldable pub matches_path : String → List String → Bool
matches_path target [] = false
matches_path target (path ∷ paths) =
    let rest = matches_path target paths in
    if (target == path) || has_prefix (concat (path ∷ " " ∷ [])) target then true else rest

abbrev seen_pid : List ProcInfo → ℤ → Bool
seen_pid [] pid = false
seen_pid (p ∷ ps) pid = eqb_ℤ p.pid pid || seen_pid ps pid

abbrev pub no_text : List String → Bool
no_text [] = true
no_text (s ∷ ss) = false

abbrev not_blank : String → Bool
not_blank s = not (is_blank s)

abbrev target_matches : Option String → List String → Bool
target_matches none paths = false
target_matches (some target) paths = matches_path target paths

abbrev comm_text : Option String → String
comm_text none = ""
comm_text (some content) = trim_space content

-- The words of a command line that are not blank.
abbrev cmdline_parts : Option String → List String
cmdline_parts none = []
cmdline_parts (some content) =
    if is_empty content then [] else select not_blank (split_on 0 content)

-- A directory's entry names a process by a positive number.
abbrev process_id : String × Bool → Option ℤ
process_id (name, false) = none
process_id (name, true) = elim (atoi name) [
  | none ↦ none
  | some pid ↦ if leb_ℤ pid (pos 0) then none else some pid
]

abbrev resolved : String → Option String → String
resolved path none = path
resolved path (some r) = if is_blank r then path else r

module _ {W : Type 0} (host : Host W) where
  -- `checkRWAccess`; the result is the text of the error.
  unfoldable pub check_rw_access : String → W → Option String × W
  check_rw_access path w =
      if is_blank path
      then (some "empty path", w)
      else let (failed, w') = host.stat path w in
        elim failed [ some e ↦ (some e, w') | none ↦ host.access path w' ]

  -- `resolvePath`.
  unfoldable pub resolve_path : String → W → String × W
  resolve_path path w = let (r, w') = host.eval_symlinks path w in (resolved path r, w')

  -- `readProcCmd`.
  unfoldable pub read_proc_cmd : ℤ → W → String × W
  read_proc_cmd pid w =
      let (content, w1) = host.read_file (concat ("/proc/" ∷ itoa pid ∷ "/cmdline" ∷ [])) w in
      elim (cmdline_parts content) [
        | [] ↦
            let (comm, w2) = host.read_file (concat ("/proc/" ∷ itoa pid ∷ "/comm" ∷ [])) w1 in
            (comm_text comm, w2)
        | part ∷ parts ↦ (join " " (part ∷ parts), w1)
      ]

  -- The loop of `findOpenProcesses` over the open files of one process, up to the first match.
  unfoldable pub any_open : String → List String → List (String × Bool) → W → Bool × W
  unfolding matches_path
  any_open fd_dir paths [] w = (false, w)
  any_open fd_dir paths (fd ∷ fds) w =
      let (target, w') = host.read_link (concat (fd_dir ∷ "/" ∷ fd.0 ∷ [])) w in
      elim (target_matches target paths) [
        | true ↦ (true, w')
        | false ↦ any_open fd_dir paths fds w'
      ]

  -- Does the process have one of the paths open? A process whose files cannot be listed is passed
  -- over.
  unfoldable pub holds_path : String → List String → W → Bool × W
  unfolding any_open
  holds_path name paths w =
      let fd_dir = concat ("/proc/" ∷ name ∷ "/fd" ∷ []) in
      let (fds, w') = host.read_dir fd_dir w in
      elim fds [ none ↦ (false, w') | some entries ↦ any_open fd_dir paths entries w' ]

  -- The loop over the entries of `/proc`; `found` holds the processes in front of it, the latest
  -- first, which are also those of the set `seen`.
  unfoldable pub scan_processes :
      List String → List (String × Bool) → List ProcInfo → W → List ProcInfo × W
  unfolding holds_path read_proc_cmd
  scan_processes paths [] found w = (found, w)
  scan_processes paths (entry ∷ entries) found w = elim (process_id entry) [
    | none ↦ scan_processes paths entries found w
    | some pid ↦ elim (seen_pid found pid) [
      | true ↦ scan_processes paths entries found w
      | false ↦
          let (matched, w1) = holds_path entry.0 paths w in
          elim matched [
            | false ↦ scan_processes paths entries found w1
            | true ↦
                let (cmd, w2) = read_proc_cmd pid w1 in
                scan_processes paths entries (record { pid = pid; cmd = cmd } ∷ found) w2
          ]
    ]
  ]

  -- `findOpenProcesses`; `none` is its error.
  unfoldable pub find_open_processes : List String → W → Option (List ProcInfo) × W
  unfolding scan_processes
  find_open_processes paths w =
      let match_paths = select not_blank paths in
      if no_text match_paths
      then (none, w)
      else let (entries, w1) = host.read_dir "/proc" w in
        elim entries [
          | none ↦ (none, w1)
          | some es ↦
              let (found, w2) = scan_processes match_paths es [] w1 in
              (some (mathlib.Core.List.reverse found), w2)
        ]

  any_allowed : String → List String → Bool
  any_allowed cmd [] = false
  any_allowed cmd (allowed ∷ rest) =
      if is_blank allowed
      then any_allowed cmd rest
      else if contains (host.to_lower allowed) cmd
      then true
      else any_allowed cmd rest

  -- `procAllowed`.
  unfoldable pub proc_allowed : ProcInfo → List String → Bool
  unfolding any_allowed
  proc_allowed proc allow_list =
      if no_text allow_list then false else any_allowed (host.to_lower proc.cmd) allow_list

  -- `filterDisallowed`.
  unfoldable pub filter_disallowed : List ProcInfo → List String → List ProcInfo
  unfolding proc_allowed
  filter_disallowed openers allow_list =
      select (λ (opener : ProcInfo). not (proc_allowed opener allow_list)) openers

abbrev format_proc : ProcInfo → String
format_proc proc =
    if is_empty proc.cmd
    then concat ("pid=" ∷ itoa proc.pid ∷ [])
    else concat ("pid=" ∷ itoa proc.pid ∷ " cmd=" ∷ proc.cmd ∷ [])

-- `formatProcs`.
unfoldable pub format_procs : List ProcInfo → String
format_procs procs = join ", " (map format_proc procs)
