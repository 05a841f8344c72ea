-- ===== src/Api/Provider.antt =====
-- The manager of internal/engine/manager.go as the provider of internal/api/server.go.
pub mod Refusal
pub mod Events
use rpi_procmon.Base.{String, Option, List, ℤ}
use rpi_procmon.State.{MonitorRuntimeState, ProcmonStatus}
use rpi_procmon.Events.{Event, Filter}
use rpi_procmon.Engine.Env.{Manager, Sys, Act, pure, ◌>>=◌, ◌>>◌, on_world, gets}
use rpi_procmon.Engine.Query.{snapshot, monitor_snapshot, events_snapshot}
use rpi_procmon.Engine.Run.{acquire}
use rpi_procmon.Engine.Trigger.{trigger_check, trigger_recovery}
use rpi_procmon.Api.{ControlProvider, SnapshotProvider}

module _ (m : Manager) where
  -- `Snapshot`, `MonitorSnapshot` and `EventsSnapshot`, each under the lock `m.mu`.
  unfoldable pub take_snapshot : Act m.env.World ProcmonStatus
  take_snapshot = do acquire m; at ← on_world m.env.now; gets (snapshot m at)

  unfoldable pub take_monitor_snapshot : String → Act m.env.World (Option MonitorRuntimeState)
  take_monitor_snapshot id = do acquire m; gets (monitor_snapshot id)

  unfoldable pub take_events_snapshot : Filter → Act m.env.World (List Event)
  take_events_snapshot filter = do acquire m; gets (events_snapshot m.time filter)

  abbrev pub snapshots : SnapshotProvider (Sys m.env.World)
  snapshots = record {
    snapshot = take_snapshot;
    monitor_snapshot = take_monitor_snapshot;
    events_snapshot = take_events_snapshot;
  }

  abbrev pub control : ControlProvider (Sys m.env.World)
  control = record { trigger_check = trigger_check m; trigger_recovery = trigger_recovery m }
