-- ===== src/Config/Types.antt =====
-- internal/config/types.go: the records of the configuration. `float64` is held by its bit pattern,
-- a Go map by its pairs, `*bool` by an option; a nil slice and an empty one are both `[]`.
use rpi_procmon.Base.{ℕ, String, Bool, true, Option, none, some, List, ℤ}

pub record ApiConfig : Type 0 where
  pub listen_address : String
  pub read_header_timeout : String
  pub cors_origin : String
  pub admin_token : String

pub record TargetConfig : Type 0 where
  pub transport : String
  pub host : String
  pub fallback_hosts : List String
  pub user : String
  pub port : ℤ
  pub identity_file : String

pub record CheckConfig : Type 0 where
  pub id : String
  pub name : String
  pub kind : String  -- `Type`
  pub url : String
  pub timeout : String
  pub max_latency_ms : ℤ
  pub require_ok : Bool
  pub require_serial_connected : Bool
  pub max_load1 : ℕ
  pub max_load_per_cpu : ℕ
  pub max_mem_used_pct : ℕ
  pub max_io_pressure_avg300 : ℕ
  pub paths : List String
  pub allow_processes : List String
  pub container : String
  pub docker_command : String
  pub since : String
  pub patterns : List String
  pub success_patterns : List String
  pub match_count_threshold : ℤ
  pub distinct_match_group_threshold : ℤ
  pub command : String
  pub service : String
  pub expected_exit_code : ℤ
  pub expected_output_patterns : List String
  pub forbidden_output_patterns : List String
  pub match_all : Bool

pub record ActionConfig : Type 0 where
  pub name : String
  pub kind : String  -- `Type`
  pub command : String
  pub service : String
  pub container : String
  pub duration : String

pub record MonitorConfig : Type 0 where
  pub id : String
  pub name : String
  pub kind : String  -- `Type`
  pub enabled : Option Bool
  pub interval : String
  pub failure_threshold : ℤ
  pub max_recovery_attempts : ℤ
  pub cooldown : String
  pub target : TargetConfig
  pub metadata : List (String × String)
  pub checks : List CheckConfig
  pub recovery : List ActionConfig

pub record Config : Type 0 where
  pub config_file : String
  pub log_file : String
  pub state_file : String
  pub events_file : String
  pub events_max_entries : ℤ
  pub api : ApiConfig
  pub monitors : List MonitorConfig

abbrev enabled_or_true : Option Bool → Bool
enabled_or_true none = true
enabled_or_true (some b) = b

-- `MonitorConfig.IsEnabled`.
unfoldable pub is_enabled : MonitorConfig → Bool
is_enabled m = enabled_or_true m.enabled
