-- ===== src/Engine/Loop.antt =====
-- internal/engine/manager.go: `Start` and `runMonitorLoop`.
pub mod Refused
pub mod Rounds
use rpi_procmon.Base.{String, Option, none, some, List, [], ◌∷◌, if◌then◌else◌}
use rpi_procmon.Config.Types.{MonitorConfig, is_enabled}
use rpi_procmon.Engine.Env.{Manager, Act, pure, ◌>>=◌}
use rpi_procmon.Engine.Trigger.{with_monitor_lock, cycle_for}

-- What the `select` of the loop receives: the end of the context, or a tick.
pub data Wake : Type 0 where
  done tick : Wake

-- The monitors for which `Start` starts a loop.
unfoldable pub started_loops : List MonitorConfig → List MonitorConfig
started_loops [] = []
started_loops (mon ∷ mons) =
    let rest = started_loops mons in if is_enabled mon then mon ∷ rest else rest

module _ (m : Manager) (mon : MonitorConfig) where
  -- One cycle, under the lock of the monitor.
  abbrev pub locked_cycle : Act m.env.World (Option String)
  locked_cycle = with_monitor_lock m mon.id (cycle_for m mon)

  -- `if err != nil { return }`, with the rest behind it.
  abbrev pub unless_failed : Option String → Act m.env.World Unit → Act m.env.World Unit
  unless_failed (some e) rest = pure tt
  unless_failed none rest = rest

  -- The `for` of `runMonitorLoop`, on what it receives.
  unfoldable pub wait_loop : List Wake → Act m.env.World Unit
  wait_loop [] = pure tt
  wait_loop (done ∷ wakes) = pure tt
  wait_loop (tick ∷ wakes) = do failure ← locked_cycle; unless_failed failure (wait_loop wakes)

  -- `runMonitorLoop`.
  unfoldable pub run_monitor_loop : List Wake → Act m.env.World Unit
  unfolding wait_loop
  run_monitor_loop wakes = do failure ← locked_cycle; unless_failed failure (wait_loop wakes)
