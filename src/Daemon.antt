-- ===== src/Daemon.antt =====
-- main.go and internal/engine/manager.go: the manager with the checks, the actions, the runner and
-- the two stores of the repository.
pub mod Durable
mod Tests
use rpi_procmon.Base.{String, Option, ℤ}
use rpi_procmon.Config.Types.{Config, MonitorConfig, CheckConfig, ActionConfig}
use rpi_procmon.State.{ProcmonState, CheckResult, ActionResult}
use rpi_procmon.Events.{History}
use rpi_procmon.Engine.Env.{TimePackage, Shared, Env, Manager}
use rpi_procmon.Command.Runner.{Exec, shell_run}
use rpi_procmon.Checks
use rpi_procmon.Actions
use rpi_procmon.Persistence.{Disk}
use rpi_procmon.Persistence.Stores.{Json, save_state, save_events}

-- What is left as a parameter: the packages, and the other goroutines.
pub record Parts (W : Type 0) : Type 0 where
  pub exec : Exec W
  pub checks : Checks.Host.Host W
  pub actions : Actions.Host W
  pub disk : Disk W
  pub json : Json
  pub now : W → ℤ × W
  pub ctx_err : W → Option String × W
  pub lock : String → W → Option String × W
  pub unlock : String → W → W
  pub others : Shared → W → Shared × W

module _ {W : Type 0} (parts : Parts W) where
  -- The runner of the checks and of the actions is `ShellRunner`.
  unfoldable pub run_check : MonitorConfig → CheckConfig → W → CheckResult × W
  run_check = Checks.Run.run (record parts.checks { run = shell_run parts.exec })

  unfoldable pub run_action : MonitorConfig → ActionConfig → W → ActionResult × W
  run_action = Actions.run (record parts.actions { run = shell_run parts.exec })

  -- The manager of a configuration.
  abbrev pub manager_of : Config → String → ℤ → TimePackage → Manager
  manager_of cfg app_version started_at time = record {
    cfg = cfg;
    app_version = app_version;
    started_at = started_at;
    time = time;
    env = record {
      World = W;
      now = parts.now;
      ctx_err = parts.ctx_err;
      check = run_check;
      act = run_action;
      save_state = λ st. save_state parts.disk parts.json cfg.state_file st;
      save_events = λ h. save_events parts.disk parts.json cfg.events_file cfg.events_max_entries h;
      lock = parts.lock;
      unlock = parts.unlock;
      others = parts.others;
    };
  }
