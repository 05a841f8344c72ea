-- ===== src/Config/Validate.antt =====
-- internal/config/validate.go. An error is a value with the texts that its message shows; `nil` is
-- `none`.
use rpi_procmon.Base.{
  String, Bool, true, false, not, ◌&&◌, ◌||◌, Option, none, some, List, [], ◌∷◌, ◌++◌, ℤ, pos,
  ltb_ℤ, eqb_ℤ, ◌==◌, if◌then◌else◌, has, ◌≡◌, inl, inr, Bool-cases, Option-cases,
}
use rpi_procmon.Base.Text.{trim_space, is_empty, is_blank}
use rpi_procmon.Config.Types.{TargetConfig, CheckConfig, ActionConfig}

pub data ConfigError : Type 0 where
  monitor_id_required no_monitors : ConfigError
  duplicate_monitor negative_attempts no_checks no_recovery : String → ConfigError
  bad_interval bad_cooldown bad_transport : String → String → ConfigError
  missing_host empty_fallback_host : String → ConfigError
  bad_port : String → ℤ → ConfigError
  check_type_missing check_duplicate missing_url missing_container no_patterns no_paths :
      String → String → ConfigError
  negative_match_count negative_distinct_groups missing_docker_command :
      String → String → ConfigError
  missing_command missing_service missing_duration action_type_missing :
      String → String → ConfigError
  bad_check_type bad_pattern bad_timeout bad_since bad_action_type bad_action_duration :
      String → String → String → ConfigError

-- `if cond { return err }`, with the rest of the function behind it.
abbrev pub unless : Bool → ConfigError → Option ConfigError → Option ConfigError
unless true err rest = some err
unless false err rest = rest

-- Go's `time.ParseDuration`, and whether `regexp.Compile` accepts a pattern.
pub record Parsers : Type 0 where
  pub parse_duration : String → Option ℤ
  pub compiles : String → Bool

abbrev pub supported_check_types : List String
supported_check_types =
    "http_json" ∷ "load" ∷ "memory" ∷ "io_pressure" ∷ "io_paths" ∷ "docker_container"
    ∷ "docker_log_pattern" ∷ "docker_exec" ∷ "command" ∷ "systemd_service" ∷ []

abbrev pub supported_action_types : List String
supported_action_types =
    "command" ∷ "docker_exec" ∷ "sleep" ∷ "recheck" ∷ "restart_docker_container"
    ∷ "restart_systemd_service" ∷ []

abbrev pub has_none : List String → Bool
has_none [] = true
has_none (s ∷ ss) = false

abbrev pub any_blank : List String → Bool
any_blank [] = false
any_blank (s ∷ ss) = is_blank s || any_blank ss

-- `validateTarget`.
unfoldable pub validate_target : String → TargetConfig → Option ConfigError
validate_target monitor_id target =
    let trimmed = trim_space target.transport in
    let transport = if is_empty trimmed then "local" else trimmed in
    if transport == "local"
    then none
    else if transport == "ssh"
    then unless (is_blank target.host) (missing_host monitor_id) (
        unless (any_blank target.fallback_hosts) (empty_fallback_host monitor_id) (
          unless (ltb_ℤ target.port (pos 0) || ltb_ℤ (pos 65535) target.port)
            (bad_port monitor_id target.port) none))
    else some (bad_transport monitor_id target.transport)

module _ (parsers : Parsers) where
  abbrev in_range : Bool → Option ℤ → Bool
  in_range allow_zero none = false
  in_range allow_zero (some d) = not (ltb_ℤ d (pos 0) || not allow_zero && eqb_ℤ d (pos 0))

  -- `validateDuration`: does it return `nil`?
  unfoldable pub valid_duration : String → Bool → Bool
  valid_duration value allow_zero = in_range allow_zero (parsers.parse_duration (trim_space value))

  -- The first pattern that does not compile.
  abbrev pub bad_pattern? : List String → Option String
  bad_pattern? [] = none
  bad_pattern? (p ∷ ps) = if parsers.compiles p then bad_pattern? ps else some p

  abbrev patterns_checked :
      String → CheckConfig → Option String → Option ConfigError → Option ConfigError
  patterns_checked monitor_id check none rest = rest
  patterns_checked monitor_id check (some p) rest = some (bad_pattern monitor_id check.id p)

  -- The `switch` of `validateCheck`.
  unfoldable pub validate_check_type : String → CheckConfig → Option ConfigError
  unfolding valid_duration
  validate_check_type monitor_id check =
      if check.kind == "http_json"
      then unless (is_blank check.url) (missing_url monitor_id check.id) (
          unless (not (is_blank check.timeout) && not (valid_duration check.timeout false))
            (bad_timeout monitor_id check.id check.timeout) none)
      else if check.kind == "docker_container"
      then unless (is_blank check.container) (missing_container monitor_id check.id) none
      else if check.kind == "docker_log_pattern"
      then unless (is_blank check.container) (missing_container monitor_id check.id) (
          unless (has_none check.patterns) (no_patterns monitor_id check.id) (
            unless (not (is_blank check.since) && not (valid_duration check.since false))
              (bad_since monitor_id check.id check.since)
              (unless (ltb_ℤ check.match_count_threshold (pos 0))
                (negative_match_count monitor_id check.id)
                (unless (ltb_ℤ check.distinct_match_group_threshold (pos 0))
                  (negative_distinct_groups monitor_id check.id) none))))
      else if check.kind == "docker_exec"
      then unless (is_blank check.container) (missing_container monitor_id check.id)
          (unless (is_blank check.docker_command) (missing_docker_command monitor_id check.id) none)
      else if check.kind == "io_paths"
      then unless (has_none check.paths) (no_paths monitor_id check.id) none
      else if check.kind == "command"
      then unless (is_blank check.command) (missing_command monitor_id check.id) none
      else if check.kind == "systemd_service"
      then unless (is_blank check.service) (missing_service monitor_id check.id) none
      else none

  -- `validateCheck`.
  unfoldable pub validate_check : String → CheckConfig → Option ConfigError
  unfolding validate_check_type
  validate_check monitor_id check =
      unless (not (has supported_check_types check.kind))
        (bad_check_type monitor_id check.id check.kind)
        (patterns_checked monitor_id check
          (bad_pattern? (
            check.patterns ++ check.success_patterns ++ check.expected_output_patterns
            ++ check.forbidden_output_patterns))
          (validate_check_type monitor_id check))

  -- A check that is accepted is of a type that there is, its patterns compile, and it passes the
  -- switch.
  pub validate_check-parts :
      (monitor_id : String) (check : CheckConfig)
      → validate_check monitor_id check ≡ none
      → (has supported_check_types check.kind ≡ true)
        × (bad_pattern? (
              check.patterns ++ check.success_patterns ++ check.expected_output_patterns
              ++ check.forbidden_output_patterns)
            ≡ none)
        × (validate_check_type monitor_id check ≡ none)
  unfolding validate_check
  validate_check-parts monitor_id check valid =
      let patterns =
        check.patterns ++ check.success_patterns ++ check.expected_output_patterns
        ++ check.forbidden_output_patterns in
      elim (Bool-cases (has supported_check_types check.kind)) [
        | inr unknown ↦ absurd (cc (rw unknown at valid))
        | inl known ↦ elim (Option-cases (bad_pattern? patterns)) [
          | inr (p, bad) ↦ absurd (cc (rw (known, bad) at valid))
          | inl compile ↦ (known, compile, rw (known, compile) at valid)
        ]
      ]

  -- `validateAction`.
  unfoldable pub validate_action : String → ActionConfig → Option ConfigError
  unfolding valid_duration
  validate_action monitor_id action =
      unless (not (has supported_action_types action.kind))
        (bad_action_type monitor_id action.name action.kind)
        (if action.kind == "command"
          then unless (is_blank action.command) (missing_command monitor_id action.name) none
          else if action.kind == "restart_systemd_service"
          then unless (is_blank action.service) (missing_service monitor_id action.name) none
          else if action.kind == "restart_docker_container"
          then unless (is_blank action.container) (missing_container monitor_id action.name) none
          else if action.kind == "docker_exec"
          then unless (is_blank action.container) (missing_container monitor_id action.name)
              (unless (is_blank action.command) (missing_command monitor_id action.name) none)
          else if action.kind == "sleep"
          then unless (is_blank action.duration) (missing_duration monitor_id action.name) (
              unless (not (valid_duration action.duration true))
                (bad_action_duration monitor_id action.name action.duration) none)
          else none)
