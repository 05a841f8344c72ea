-- ===== src/Config/Load.antt =====
-- internal/config/load.go: `Load`, over the environment and the calls of the package `os`.
pub mod Loaded
use rpi_procmon.Base.{
  String, Bool, true, false, ◌⊎◌, inl, inr, Option, none, some, List, [], ◌∷◌, ℤ, pos, leb_ℤ,
  if◌then◌else◌,
}
use rpi_procmon.Base.Text.{trim_space, is_empty, is_blank, concat}
use rpi_procmon.Base.Text.Number.{atoi}
use rpi_procmon.Config.Types.{ApiConfig, MonitorConfig, Config}
use rpi_procmon.Config.Validate.{Parsers, ConfigError}
use rpi_procmon.Config.Dedupe.{Dedupe, dedupe_monitors}
use rpi_procmon.Config.Normalize.{normalize, or_text}
use rpi_procmon.Config.Normalize

-- The environment and the files, over a world `W`. `decode` is `json.Unmarshal` into a
-- configuration, `encode` is `json.MarshalIndent`; the error's text on the left.
pub record Host (W : Type 0) : Type 0 where
  pub getenv : String → String
  pub read_file : String → W → (String ⊎ String) × W
  pub decode : String → Config → String ⊎ Config
  pub encode : Config → String ⊎ String
  pub write_file : String → String → W → Option String × W
  pub rename : String → String → W → Option String × W

pub data LoadError : Type 0 where
  unreadable unparsed not_rewritten : String → String → LoadError
  empty_config not_sanitized : String → LoadError
  no_monitors : LoadError
  invalid : ConfigError → LoadError

abbrev pub default_events_max_count : ℤ
default_events_max_count = pos 1000

module _ (getenv : String → String) where
  -- `envString`.
  unfoldable pub env_string : String → String → String
  env_string key def = let value = trim_space (getenv key) in if is_empty value then def else value

  -- A variable that is set replaces the value.
  abbrev pub overridden : String → String → String
  overridden key value =
      let set_value = trim_space (getenv key) in if is_empty set_value then value else set_value

  abbrev parsed_or : ℤ → Option ℤ → ℤ
  parsed_or value none = value
  parsed_or value (some n) = n

  abbrev overridden_number : String → ℤ → ℤ
  overridden_number key value =
      let set_value = trim_space (getenv key) in
      if is_empty set_value then value else parsed_or value (atoi set_value)

  -- `applyEnvOverrides`.
  unfoldable pub apply_env_overrides : Config → Config
  apply_env_overrides cfg = record cfg {
    log_file = overridden "PROC_LOG_FILE" cfg.log_file;
    state_file = overridden "PROC_STATE_FILE" cfg.state_file;
    events_file = overridden "PROC_EVENTS_FILE" cfg.events_file;
    events_max_entries = overridden_number "PROC_EVENTS_MAX_ENTRIES" cfg.events_max_entries;
    api = record {
      listen_address = overridden "PROC_API_LISTEN_ADDR" cfg.api.listen_address;
      read_header_timeout = overridden "PROC_API_READ_HEADER_TIMEOUT" cfg.api.read_header_timeout;
      cors_origin = overridden "PROC_API_CORS_ORIGIN" cfg.api.cors_origin;
      admin_token = overridden "PROC_API_ADMIN_TOKEN" cfg.api.admin_token;
    };
  }

-- `applyDefaults`.
unfoldable pub apply_defaults : Config → Config
apply_defaults cfg = record cfg {
  log_file = or_text cfg.log_file "/var/log/rpi-procmon.log";
  state_file = or_text cfg.state_file "/var/lib/rpi-procmon/state.json";
  events_file = or_text cfg.events_file "/var/lib/rpi-procmon/events.json";
  events_max_entries =
      if leb_ℤ cfg.events_max_entries (pos 0)
      then default_events_max_count
      else cfg.events_max_entries;
  api = record cfg.api {
    listen_address = or_text cfg.api.listen_address "127.0.0.1:9645";
    read_header_timeout = or_text cfg.api.read_header_timeout "5s";
  };
}

-- The configuration before the file is read.
abbrev pub no_config : String → Config
no_config file = record {
  config_file = file;
  log_file = "";
  state_file = "";
  events_file = "";
  events_max_entries = pos 0;
  api = record {
    listen_address = "";
    read_header_timeout = "";
    cors_origin = "";
    admin_token = "";
  };
  monitors = [];
}

abbrev pub is_nil : {A : Type 0} → List A → Bool
is_nil [] = true
is_nil (x ∷ xs) = false

module _ {W : Type 0} (host : Host W) (parsers : Parsers) where
  abbrev renamed : String → String → Option String × W → Option String × W
  renamed from to (some e, w) = (some e, w)
  renamed from to (none, w) = host.rename from to w

  abbrev written : Config → String ⊎ String → W → Option String × W
  written cfg (inl e) w = (some e, w)
  written cfg (inr content) w =
      let temp = concat (cfg.config_file ∷ ".tmp" ∷ []) in
      renamed temp cfg.config_file (host.write_file temp (concat (content ∷ "\n" ∷ [])) w)

  -- `rewriteConfig`.
  unfoldable pub rewrite_config : Config → W → Option String × W
  rewrite_config cfg w = written cfg (host.encode cfg) w

  abbrev pub normalized : Config → Normalize.Result (List MonitorConfig) → LoadError ⊎ Config
  normalized cfg (Normalize.Result.err e) = inl (invalid e)
  normalized cfg (Normalize.Result.ok mons) = inr (record cfg { monitors = mons })

  -- The end of `Load`, once the file has been read.
  unfoldable pub finish : Config → LoadError ⊎ Config
  unfolding apply_env_overrides apply_defaults
  finish read =
      let cfg = apply_defaults (apply_env_overrides host.getenv read) in
      if is_nil cfg.monitors
      then inl no_monitors
      else normalized cfg (normalize parsers cfg.monitors)

  abbrev pub rewritten : Config → Option String × W → (LoadError ⊎ Config) × W
  rewritten cfg (some e, w) = (inl (not_rewritten cfg.config_file e), w)
  rewritten cfg (none, w) = (finish cfg, w)

  abbrev pub sanitized : Config → Option Dedupe → W → (LoadError ⊎ Config) × W
  sanitized cfg none w = (inl (not_sanitized cfg.config_file), w)
  sanitized cfg (some d) w =
      let cfg' = record cfg { monitors = d.deduped } in
      if is_nil d.duplicate_ids then (finish cfg', w) else rewritten cfg' (rewrite_config cfg' w)

  abbrev pub parsed : String → String ⊎ Config → W → (LoadError ⊎ Config) × W
  parsed file (inl e) w = (inl (unparsed file e), w)
  parsed file (inr cfg) w =
      sanitized (record cfg { config_file = file }) (dedupe_monitors cfg.monitors) w

  abbrev pub opened : String → (String ⊎ String) × W → (LoadError ⊎ Config) × W
  opened file (inl e, w) = (inl (unreadable file e), w)
  opened file (inr content, w) =
      if is_blank content
      then (inl (empty_config file), w)
      else parsed file (host.decode content (no_config file)) w

  -- `Load`.
  unfoldable pub load : W → (LoadError ⊎ Config) × W
  unfolding env_string finish rewrite_config dedupe_monitors
  load w =
      let file = env_string host.getenv "PROC_CONFIG_FILE" "/etc/rpi-procmon/config.json" in
      opened file (host.read_file file w)
