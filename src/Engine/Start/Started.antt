-- ===== src/Engine/Start/Started.antt =====
-- internal/engine/manager.go: with what the monitors start.
use rpi_procmon.Base.{◌≡◌, String, ◌⊎◌, inl, inr, some, List, [], ◌∷◌}
use rpi_procmon.Config.Types.{MonitorConfig}
use rpi_procmon.State.{ProcmonState, MonitorRuntimeState}
use rpi_procmon.Events.{History}
use rpi_procmon.Engine.Env.{Shared, Manager, Sys}
use rpi_procmon.Engine.Monitor.{entry, refreshed_or_new}
use rpi_procmon.Engine.Run.{persist}
use rpi_procmon.Engine.Start.Fields.{IsStart}
use rpi_procmon.Engine.Start.{started_from, first_shared}

abbrev pub ids : List MonitorConfig → List String
ids [] = []
ids (mon ∷ mons) = mon.id ∷ ids mons

-- Every monitor has the entry that it starts with, by its entry in `before`.
abbrev AllStarted : List MonitorConfig → Shared → Shared → Type 0
AllStarted [] before after = Unit
AllStarted (mon ∷ mons) before after =
    (entry mon.id after ≡ some (started_from mon (refreshed_or_new mon (entry mon.id before))))
    × AllStarted mons before after

-- Every monitor has an entry that starts by its entry in `before`.
abbrev pub AreStarts : List MonitorConfig → Shared → Shared → Type 0
AreStarts [] before after = Unit
AreStarts (mon ∷ mons) before after =
    ((st : MonitorRuntimeState) × (entry mon.id after ≡ some st)
      × IsStart mon (entry mon.id before) st)
    × AreStarts mons before after

module _ (m : Manager) where
  -- A new manager has its configured monitors started, by the states that were read; without one the
  -- events could not be read, or the state or the events could not be saved.
  abbrev pub IsNew : ProcmonState → String ⊎ History → String ⊎ Shared → Type 0
  IsNew snapshot events (inl e) =
      (events ≡ inl e) ⊎ ((s : Sys m.env.World) × ((persist m s).0 ≡ some e))
  IsNew snapshot events (inr sh) =
      (history : History) × (events ≡ inr history)
      × AreStarts m.cfg.monitors (first_shared m snapshot history) sh
