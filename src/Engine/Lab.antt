-- ===== src/Engine/Lab.antt =====
-- A concrete manager: its clock ticks with each reading, a check named "up" succeeds and any other
-- fails, an action named "works" mends nothing but succeeds, and no other goroutine runs.
use rpi_procmon.Base.{ℕ, ◌+◌, ◌*◌, String, true, false, none, some, [], ◌∷◌, pos, ◌==◌}
use rpi_procmon.Base.Text.{itoa}
use rpi_procmon.Config.Types.{TargetConfig, MonitorConfig, CheckConfig, ActionConfig}
use rpi_procmon.State.{CheckResult, ActionResult}
use rpi_procmon.Engine.Env.{TimePackage, Env, Manager, Sys}

abbrev pub clock : TimePackage
clock = record { format = itoa; parse = λ s. none; parse_duration = λ s. some (pos 60) }

abbrev pub run_check : MonitorConfig → CheckConfig → ℕ → CheckResult × ℕ
run_check mon check w = (
  record {
    id = check.id;
    name = check.name;
    kind = check.kind;
    success = check.name == "up";
    message = "down";
    started_at = "";
    finished_at = "";
    duration_ms = pos 0;
    observations = [];
  },
  w + 1,
)

abbrev pub run_action : MonitorConfig → ActionConfig → ℕ → ActionResult × ℕ
run_action mon action w = (
  record {
    name = action.name;
    kind = action.kind;
    success = action.name == "works";
    message = "failed";
    output = "";
    started_at = "";
    finished_at = "";
    duration_ms = pos 0;
  },
  w + 1,
)

abbrev pub lab : Env
lab = record {
  World = ℕ;
  now = λ w. (pos (w * 1000000000), w + 1);
  ctx_err = λ w. (none, w);
  check = run_check;
  act = run_action;
  save_state = λ st w. (none, w);
  save_events = λ h w. (none, w);
  lock = λ id w. (none, w);
  unlock = λ id w. w;
  others = λ sh w. (sh, w);
}

abbrev pub local : TargetConfig
local = record {
  transport = "local";
  host = "";
  fallback_hosts = [];
  user = "";
  port = pos 0;
  identity_file = "";
}

abbrev pub check_named : String → CheckConfig
check_named name = record {
  id = name;
  name = name;
  kind = "command";
  url = "";
  timeout = "";
  max_latency_ms = pos 0;
  require_ok = false;
  require_serial_connected = false;
  max_load1 = 0;
  max_load_per_cpu = 0;
  max_mem_used_pct = 0;
  max_io_pressure_avg300 = 0;
  paths = [];
  allow_processes = [];
  container = "";
  docker_command = "";
  since = "";
  patterns = [];
  success_patterns = [];
  match_count_threshold = pos 0;
  distinct_match_group_threshold = pos 0;
  command = "true";
  service = "";
  expected_exit_code = pos 0;
  expected_output_patterns = [];
  forbidden_output_patterns = [];
  match_all = false;
}

abbrev pub action_named : String → String → ActionConfig
action_named name kind = record {
  name = name;
  kind = kind;
  command = "";
  service = "";
  container = "";
  duration = "";
}

abbrev pub monitor : String → String → MonitorConfig
monitor id check = record {
  id = id;
  name = id;
  kind = "generic";
  enabled = none;
  interval = "1m";
  failure_threshold = pos 1;
  max_recovery_attempts = pos 1;
  cooldown = "5m";
  target = local;
  metadata = [];
  checks = check_named check ∷ [];
  recovery = action_named "works" "command" ∷ action_named "again" "recheck" ∷ [];
}

abbrev pub manager : Manager
manager = record {
  cfg = record {
    config_file = "";
    log_file = "";
    state_file = "";
    events_file = "";
    events_max_entries = pos 3;
    api = record {
      listen_address = "";
      read_header_timeout = "";
      cors_origin = "";
      admin_token = "";
    };
    monitors = monitor "a" "up" ∷ monitor "b" "off" ∷ [];
  };
  app_version = "v0.3.1";
  started_at = pos 0;
  time = clock;
  env = lab;
}

abbrev pub start : Sys ℕ
start = record {
  shared = record {
    current = record {
      version = pos 3;
      app_version = "";
      started_at = "";
      last_updated_at = "";
      monitors = [];
    };
    event_history = record { version = pos 1; events = [] };
    events_dirty = true;
  };
  world = 1;
}

-- The same manager, where the state file can not be written.
abbrev pub unsaved : Manager
unsaved = record manager { env = record lab { save_state = λ st w. (some "disk full", w) } }
