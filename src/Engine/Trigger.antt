-- ===== src/Engine/Trigger.antt =====
-- internal/engine/manager.go: the lock of a monitor, and the two methods behind the control API.
use rpi_procmon.Base.{String, Option, none, some, List, [], ◌∷◌, ◌==◌, if◌then◌else◌}
use rpi_procmon.Config.Types.{MonitorConfig, is_enabled}
use rpi_procmon.State.{MonitorRuntimeState}
use rpi_procmon.Engine.Env.{Manager, Act, pure, ◌>>=◌, ◌>>◌, on_world, gets}
use rpi_procmon.Engine.Monitor.{parse_duration, one_minute}
use rpi_procmon.Engine.Query.{monitor_snapshot}
use rpi_procmon.Engine.Run.{acquire, ctx_err}
use rpi_procmon.Engine.Recover.{run_forced_recovery}
use rpi_procmon.Engine.Cycle.{run_monitor_cycle}

pub data TriggerError : Type 0 where
  monitor_not_found monitor_disabled : TriggerError
  other : String → TriggerError

pub data Result (A : Type 0) : Type 0 where
  ok : A → Result A
  err : TriggerError → Result A

-- `lookupEnabledMonitor`.
unfoldable pub lookup_enabled_monitor : String → List MonitorConfig → Result MonitorConfig
lookup_enabled_monitor id [] = err monitor_not_found
lookup_enabled_monitor id (mon ∷ mons) =
    if mon.id == id
    then (if is_enabled mon then ok mon else err monitor_disabled)
    else lookup_enabled_monitor id mons

module _ (m : Manager) where
  unfoldable pub unlocked : String → Option String → Act m.env.World (Option String)
  unlocked id result = do on_world (λ w. (tt, m.env.unlock id w)); pure result

  unfoldable pub locked :
      String → Act m.env.World (Option String) → Option String → Act m.env.World (Option String)
  unfolding unlocked
  locked id fn (some e) = unlocked id (some e)
  locked id fn none = do
    failure ← fn
    late ← ctx_err m
    unlocked id (elim late [ some e ↦ some e | none ↦ failure ])

  -- `withMonitorLock`. The error that `fn` leaves in a variable of the caller is its result here,
  -- and is passed on if the lock gives none of its own.
  unfoldable pub with_monitor_lock :
      String → Act m.env.World (Option String) → Act m.env.World (Option String)
  unfolding locked
  with_monitor_lock id fn = do
    early ← ctx_err m
    elim early [
      | some e ↦ pure (some e)
      | none ↦ do
        refused ← on_world (m.env.lock id)
        elim refused [
          | some e ↦ pure (some e)
          | none ↦ do cancelled ← ctx_err m; locked id fn cancelled
        ]
    ]

  abbrev found_or_error : Option MonitorRuntimeState → Result MonitorRuntimeState
  found_or_error none = err monitor_not_found
  found_or_error (some st) = ok st

  unfoldable pub answer : String → Option String → Act m.env.World (Result MonitorRuntimeState)
  answer id (some e) = pure (err (other e))
  answer id none = do acquire m; found ← gets (monitor_snapshot id); pure (found_or_error found)

  -- A check without an error of its own.
  unfoldable pub cycle_for : MonitorConfig → Act m.env.World (Option String)
  cycle_for mon = do
    run_monitor_cycle m mon (parse_duration m.time mon.interval one_minute)
    pure none

  unfoldable pub trigger_check : String → Act m.env.World (Result MonitorRuntimeState)
  unfolding answer cycle_for
  trigger_check id = elim (lookup_enabled_monitor id m.cfg.monitors) [
    | err e ↦ pure (err e)
    | ok mon ↦ do failure ← with_monitor_lock mon.id (cycle_for mon); answer id failure
  ]

  unfoldable pub trigger_recovery : String → Act m.env.World (Result MonitorRuntimeState)
  unfolding answer
  trigger_recovery id = elim (lookup_enabled_monitor id m.cfg.monitors) [
    | err e ↦ pure (err e)
    | ok mon ↦ do failure ← with_monitor_lock mon.id (run_forced_recovery m mon); answer id failure
  ]
