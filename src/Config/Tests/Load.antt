-- ===== src/Config/Tests/Load.antt =====
-- A configuration loaded from a file that can be read, with a monitor given twice and one variable
-- of the environment set.
use rpi_procmon.Base.{◌≡◌, refl, ℕ, ◌+◌, String, ◌⊎◌, inl, inr, none, [], ◌∷◌, ◌==◌, if◌then◌else◌}
use rpi_procmon.Base.Text.{trim_space, concat, itoa}
use rpi_procmon.Config.Types.{Config}
use rpi_procmon.Config.Tests.{parsers, web}
use rpi_procmon.Config.Load.{
  Host, LoadError, load, finish, apply_env_overrides, apply_defaults, rewrite_config, env_string,
}
use rpi_procmon.Base.Dict.{lookup, insert}
use rpi_procmon.Config.Dedupe.{dedupe_monitors, dedupe_loop, placed, note_duplicate}
use rpi_procmon.Config.Validate.{valid_duration, validate_target, validate_check, validate_action}
use rpi_procmon.Config.Normalize.{
  normalize, normalize_monitors, normalize_monitor, normalize_checks, normalize_actions, filled,
  named_check, named_action,
}
use rpi_procmon.Config.Load.Loaded.{IsLoaded, load-IsLoaded}

abbrev machine : Host ℕ
machine = record {
  getenv = λ key. if key == "PROC_STATE_FILE" then " /tmp/state.json " else "";
  read_file = λ path w. (inr "{}", w + 1);
  decode = λ content cfg. inr (record cfg { monitors = web ∷ web ∷ [] });
  encode = λ cfg. inr "{}";
  write_file = λ path content w. (none, w + 1);
  rename = λ from to w. (none, w + 1);
}

load-IsLoaded_example : IsLoaded parsers (load machine parsers 0).0
load-IsLoaded_example = load-IsLoaded machine parsers 0

loaded_state_file : LoadError ⊎ Config → String
loaded_state_file (inl e) = ""
loaded_state_file (inr cfg) = cfg.state_file

-- The variable counts, trimmed, and the file was read, written and renamed.
load_runs :
    (loaded_state_file (load machine parsers 0).0 ≡ "/tmp/state.json")
    × ((load machine parsers 0).1 ≡ 3)
unfolding loaded_state_file load finish apply_env_overrides apply_defaults rewrite_config env_string
    trim_space concat dedupe_monitors dedupe_loop placed note_duplicate lookup insert normalize
    normalize_monitors normalize_monitor normalize_checks normalize_actions filled named_check
    named_action validate_target validate_check validate_action valid_duration itoa
load_runs = (refl, refl)
