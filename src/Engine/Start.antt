-- ===== src/Engine/Start.antt =====
-- internal/engine/manager.go: `NewManager`, which makes the shared fields from the two files.
pub mod Fields
pub mod Started
use rpi_procmon.Base.{
  String, Bool, true, false, ◌⊎◌, inl, inr, Option, none, some, List, [], ◌∷◌, if◌then◌else◌,
}
use rpi_procmon.Base.Text.{is_empty}
use rpi_procmon.Config.Types.{MonitorConfig, is_enabled}
use rpi_procmon.State
use rpi_procmon.State.{ProcmonState, MonitorRuntimeState}
use rpi_procmon.Events.{History}
use rpi_procmon.Engine.Env.{Shared, Manager, Sys}
use rpi_procmon.Engine.Monitor.{entry, refreshed_or_new, ensure_monitor_state, put_state}
use rpi_procmon.Engine.Recover.{with_status}
use rpi_procmon.Engine.Run.{persist}

-- The status that a monitor starts with.
abbrev pub start_status : Bool → String → String
start_status enabled status =
    if enabled then (if is_empty status then "unknown" else status) else "disabled"

-- The state that a monitor starts with, by the one in the file.
abbrev pub started_from : MonitorConfig → MonitorRuntimeState → MonitorRuntimeState
started_from mon st = with_status (start_status (is_enabled mon) st.status) st

-- The body of the loop of `NewManager`.
unfoldable pub start_monitor : MonitorConfig → Shared → Shared
start_monitor mon sh = put_state mon (started_from mon (ensure_monitor_state mon sh)) sh

-- The loop over the configured monitors.
unfoldable pub start_monitors : List MonitorConfig → Shared → Shared
unfolding start_monitor
start_monitors [] sh = sh
start_monitors (mon ∷ mons) sh = start_monitors mons (start_monitor mon sh)

module _ (m : Manager) where
  -- The fields as they are read from the files.
  abbrev pub first_shared : ProcmonState → History → Shared
  first_shared snapshot history = record {
    current = record snapshot {
      started_at = m.time.format m.started_at;
      version = State.schema_version;
      app_version = m.app_version;
    };
    event_history = history;
    events_dirty = true;
  }

  abbrev pub persisted : Option String × Sys m.env.World → (String ⊎ Shared) × m.env.World
  persisted (some e, s) = (inl e, s.world)
  persisted (none, s) = (inr s.shared, s.world)

  abbrev pub with_history :
      ProcmonState → (String ⊎ History) × m.env.World → (String ⊎ Shared) × m.env.World
  with_history snapshot (inl e, w) = (inl e, w)
  with_history snapshot (inr history, w) = persisted (
      persist m (record {
        shared = start_monitors m.cfg.monitors (first_shared snapshot history);
        world = w;
      }))

  module _ (load_state : m.env.World → (String ⊎ ProcmonState) × m.env.World)
      (load_events : m.env.World → (String ⊎ History) × m.env.World) where
    abbrev pub with_state : (String ⊎ ProcmonState) × m.env.World → (String ⊎ Shared) × m.env.World
    with_state (inl e, w) = (inl e, w)
    with_state (inr snapshot, w) = with_history snapshot (load_events w)

    -- `NewManager`, over the two stores; the error's text on the left.
    unfoldable pub new_manager : m.env.World → (String ⊎ Shared) × m.env.World
    unfolding start_monitors
    new_manager w = with_state (load_state w)
