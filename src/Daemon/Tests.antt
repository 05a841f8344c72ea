-- ===== src/Daemon/Tests.antt =====
-- The daemon on the disk of Persistence.Tests, where no command can be started.
use rpi_procmon.Base.{
  ◌≡◌, ◌≢◌, refl, ap, String, true, false, ◌==◌, inl, none, some, [], pos, negsuc,
}
use rpi_procmon.Config.Types.{Config}
use rpi_procmon.Engine.Env.{Sys, ◌>>=◌}
use rpi_procmon.Engine.Lab.{clock, manager, start}
use rpi_procmon.Engine.Run.{persist, state_saved}
use rpi_procmon.Command.Runner.{Exec, exec_error}
use rpi_procmon.Checks.Patterns.{Regexp}
use rpi_procmon.Checks
use rpi_procmon.Checks.Host.{Floats}
use rpi_procmon.Actions
use rpi_procmon.Persistence.{save}
use rpi_procmon.Persistence.Stores.{save_state, save_events}
use rpi_procmon.Persistence.Tests.{World, disk, content, is_temp, laws, json, old_file}
use rpi_procmon.Daemon.{Parts, manager_of}
use rpi_procmon.Daemon.Durable.{IsOnDisk, persist-IsOnDisk}

abbrev exec : Exec World
exec = record {
  run_process = λ command w. (
    record { writes = []; exit_code = none; error = some (exec_error "no shell"); ctx_err = none },
    w,
  );
  kill_group = λ w. w;
  decode = λ bytes. "";
}

abbrev no_regexp : Regexp
no_regexp = record {
  compile_error = λ p. none;
  matches = λ p s. false;
  first_group = λ p s. none;
  lines = λ s. [];
  sort = λ xs. xs;
  quote = λ s. s;
}

abbrev no_floats : Floats
no_floats = record {
  parse = λ s. none;
  greater = λ x y. false;
  is_zero = λ x. true;
  times = λ x y. x;
  over = λ x y. x;
  minus = λ x y. x;
  of_int = λ z. 0;
  fixed = λ n x. "";
}

abbrev checks : Checks.Host.Host World
checks = record {
  time = clock;
  parse_nano = λ s. none;
  format_nano = λ t. "";
  regexp = no_regexp;
  floats = no_floats;
  quote = λ s. s;
  to_lower = λ s. s;
  parse_health = λ s. inl "no JSON";
  num_cpu = pos 4;
  now = λ w. (pos 7, w);
  run = λ command w. ((record { output = ""; exit_code = negsuc 0 }, none), w);
  get = λ url timeout w. (inl "refused", w);
  read_file = λ path w. (w path, w);
  stat = λ path w. (none, w);
  access = λ path w. (none, w);
  eval_symlinks = λ path w. (none, w);
  read_dir = λ path w. (none, w);
  read_link = λ path w. (none, w);
}

abbrev actions : Actions.Host World
actions = record {
  time = clock;
  now = λ w. (pos 7, w);
  run = λ command w. ((record { output = ""; exit_code = negsuc 0 }, none), w);
  sleep = λ d w. (none, w);
  quote = λ s. s;
}

abbrev parts : Parts World
parts = record {
  exec = exec;
  checks = checks;
  actions = actions;
  disk = disk;
  json = json;
  now = λ w. (pos 7, w);
  ctx_err = λ w. (none, w);
  lock = λ id w. (none, w);
  unlock = λ id w. w;
  others = λ sh w. (sh, w);
}

abbrev cfg : Config
cfg = record manager.cfg { state_file = "/d/state.json"; events_file = "/d/events.json" }

abbrev begin : Sys World
begin = record { shared = start.shared; world = old_file }

two_files : cfg.state_file ≢ cfg.events_file
two_files same = cc (ap (λ (s : String). s == "/d/state.json") same)

saved : (persist (manager_of parts cfg "v" (pos 0) clock) begin).0 ≡ none
unfolding persist state_saved ◌>>=◌ save_state save_events save
saved = refl

persist-IsOnDisk_example :
    IsOnDisk parts cfg "v"
      (pos 0)
      clock
      content
      is_temp
      laws
      (persist (manager_of parts cfg "v" (pos 0) clock) begin)
persist-IsOnDisk_example =
    persist-IsOnDisk parts cfg "v" (pos 0) clock content is_temp laws begin refl refl two_files
