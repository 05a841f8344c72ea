-- ===== src/Config/Tests.antt =====
-- A configuration with two monitors, one of them given twice, as a file would hold it.
mod Load
use rpi_procmon.Base.{◌≡◌, refl, true, false, none, some, [], ◌∷◌, pos}
use rpi_procmon.Base.Dict.{lookup, insert}
use rpi_procmon.Base.Text.{trim_space, itoa, concat}
use rpi_procmon.Config.Types.{TargetConfig, CheckConfig, ActionConfig, MonitorConfig}
use rpi_procmon.Config.Dedupe.{dedupe_monitors, dedupe_loop, placed, note_duplicate}
use rpi_procmon.Config.Dedupe.Last.{IsDeduped, dedupe_monitors-IsDeduped}
use rpi_procmon.Config.Validate.{
  Parsers, valid_duration, validate_target, validate_check, validate_action,
}
use rpi_procmon.Config.Normalize.{
  ok, normalize, normalize_monitors, normalize_monitor, normalize_checks, normalize_actions, filled,
  named_check, named_action,
}
use rpi_procmon.Config.Normalize.Complete.{AreNormal}
use rpi_procmon.Config.Normalize.Accepted.{normalize-AreNormal, normalize_idem}

-- Durations are accepted as one minute, and every pattern compiles.
abbrev pub parsers : Parsers
parsers = record { parse_duration = λ s. some (pos 60); compiles = λ s. true }

abbrev pub no_check : CheckConfig
no_check = record {
  id = "";
  name = "";
  kind = "";
  url = "";
  timeout = "";
  max_latency_ms = pos 0;
  require_ok = false;
  require_serial_connected = false;
  max_load1 = 0;
  max_load_per_cpu = 0;
  max_mem_used_pct = 0;
  max_io_pressure_avg300 = 0;
  paths = [];
  allow_processes = [];
  container = "";
  docker_command = "";
  since = "";
  patterns = [];
  success_patterns = [];
  match_count_threshold = pos 0;
  distinct_match_group_threshold = pos 0;
  command = "";
  service = "";
  expected_exit_code = pos 0;
  expected_output_patterns = [];
  forbidden_output_patterns = [];
  match_all = false;
}

abbrev pub ping : CheckConfig
ping = record no_check { kind = "command"; command = "true" }

abbrev pub pause : ActionConfig
pause = record {
  name = "";
  kind = "sleep";
  command = "";
  service = "";
  container = "";
  duration = "1s";
}

abbrev pub here : TargetConfig
here = record {
  transport = "";
  host = "";
  fallback_hosts = [];
  user = "";
  port = pos 0;
  identity_file = "";
}

abbrev pub web : MonitorConfig
web = record {
  id = " web ";
  name = "";
  kind = "";
  enabled = none;
  interval = "";
  failure_threshold = pos 0;
  max_recovery_attempts = pos 0;
  cooldown = "";
  target = here;
  metadata = [];
  checks = ping ∷ [];
  recovery = pause ∷ [];
}

abbrev pub web_complete : MonitorConfig
web_complete = record web {
  id = "web";
  name = "web";
  kind = "generic";
  interval = "1m";
  failure_threshold = pos 1;
  cooldown = "5m";
  target = record here { transport = "local" };
  checks = record ping { id = "web-check-1"; name = "web-check-1" } ∷ [];
  recovery = record pause { name = "web-action-1" } ∷ [];
}

web_normalized : normalize parsers (web ∷ []) ≡ ok (web_complete ∷ [])
unfolding normalize normalize_monitors normalize_monitor normalize_checks normalize_actions filled
    named_check named_action trim_space validate_target validate_check validate_action
    valid_duration itoa concat
web_normalized = refl

normalize-AreNormal_example : AreNormal parsers [] (web_complete ∷ [])
normalize-AreNormal_example =
    normalize-AreNormal parsers (web ∷ []) (web_complete ∷ []) web_normalized

normalize_idem_example : normalize parsers (web_complete ∷ []) ≡ ok (web_complete ∷ [])
normalize_idem_example = normalize_idem parsers (web ∷ []) (web_complete ∷ []) web_normalized

-- The second "web" takes the place of the first.
dedupe_monitors-IsDeduped_example :
    IsDeduped (web ∷ web_complete ∷ []) (dedupe_monitors (web ∷ web_complete ∷ []))
dedupe_monitors-IsDeduped_example = dedupe_monitors-IsDeduped (web ∷ web_complete ∷ [])

web_kept :
    (dedupe_monitors (web ∷ web_complete ∷ []))
    ≡ some (record {
      deduped = web_complete ∷ [];
      index_by_id = ("web", 0) ∷ [];
      duplicate_ids = "web" ∷ [];
      duplicate_seen = "web" ∷ [];
    })
unfolding dedupe_monitors dedupe_loop placed note_duplicate trim_space lookup insert
web_kept = refl
