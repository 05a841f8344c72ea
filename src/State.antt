-- ===== src/State.antt =====
-- internal/state/types.go: what the daemon remembers of each monitor. The copies that the functions
-- `Clone*` make are not told apart from their originals: a value of these types is never mutated.
use rpi_procmon.Base.{ℕ, String, Bool, List, ℤ, pos}
use rpi_procmon.Base.Dict.{Dict}
use rpi_procmon.Config.Types.{TargetConfig, CheckConfig, ActionConfig}

abbrev pub schema_version : ℤ
schema_version = pos 3

-- The values that a check puts into its `map[string]any`; a float by its bit pattern.
pub data Observation : Type 0 where
  text : String → Observation
  number : ℤ → Observation
  float : ℕ → Observation
  flag : Bool → Observation
  texts : List String → Observation

pub record CheckResult : Type 0 where
  pub id : String
  pub name : String
  pub kind : String  -- `Type`
  pub success : Bool
  pub message : String
  pub started_at : String
  pub finished_at : String
  pub duration_ms : ℤ
  pub observations : Dict Observation

pub record ActionResult : Type 0 where
  pub name : String
  pub kind : String  -- `Type`
  pub success : Bool
  pub message : String
  pub output : String
  pub started_at : String
  pub finished_at : String
  pub duration_ms : ℤ

pub record MonitorRuntimeState : Type 0 where
  pub id : String
  pub name : String
  pub kind : String  -- `Type`
  pub enabled : Bool
  pub status : String
  pub interval : String
  pub failure_threshold : ℤ
  pub max_recovery_attempts : ℤ
  pub cooldown : String
  pub target : TargetConfig
  pub metadata : List (String × String)
  pub configured_checks : List CheckConfig
  pub configured_recoveries : List ActionConfig
  pub last_check_started_at : String
  pub last_check_finished_at : String
  pub last_check_duration_ms : ℤ
  pub next_check_at : String
  pub last_success_at : String
  pub last_failure_at : String
  pub last_recovery_attempt_at : String
  pub last_recovery_success_at : String
  pub last_recovery_failure_at : String
  pub cooldown_until : String
  pub consecutive_failures : ℤ
  pub check_run_count : ℤ
  pub success_count : ℤ
  pub failure_count : ℤ
  pub recovery_count : ℤ
  pub recovery_failure_count : ℤ
  pub recovery_exhausted : Bool
  pub last_error : String
  pub last_failure_reasons : List String
  pub last_check_results : List CheckResult
  pub last_recovery_results : List ActionResult

pub record ProcmonState : Type 0 where
  pub version : ℤ
  pub app_version : String
  pub started_at : String
  pub last_updated_at : String
  pub monitors : Dict MonitorRuntimeState

pub record ProcmonStatus : Type 0 where
  pub app_version : String
  pub started_at : String
  pub uptime_seconds : ℤ
  pub overall_status : String
  pub control_api_enabled : Bool
  pub monitor_count : ℕ
  pub healthy_count : ℕ
  pub degraded_count : ℕ
  pub recovering_count : ℕ
  pub failed_count : ℕ
  pub disabled_count : ℕ
  pub config_file : String
  pub state_file : String
  pub events_file : String
  pub log_file : String
  pub listen_address : String
  pub last_updated_at : String
  pub monitors : List MonitorRuntimeState
