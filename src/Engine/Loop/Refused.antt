-- ===== src/Engine/Loop/Refused.antt =====
-- internal/engine/manager.go: `runMonitorLoop`, `TriggerCheck` and `TriggerRecovery` without the lock
-- of the monitor.
use rpi_procmon.Base.{◌≡◌, String, Option, some}
use rpi_procmon.State.{MonitorRuntimeState}
use rpi_procmon.Engine.Env.{Manager, Sys, Act}
use rpi_procmon.Engine.Trigger.{Result, err, ok}

module _ {W : Type 0} where
  -- The method fails and leaves the shared fields.
  record Fails (p : Act W (Option String)) : Type 0 where
    at : (s : Sys W) → (e : String) × ((p s).0 ≡ some e) × ((p s).1.shared ≡ s.shared)

module _ (m : Manager) where
  -- No lock of a monitor can be had before the context ends.
  abbrev pub IsRefusing : Type 0
  IsRefusing = (id : String) (w : m.env.World) → (e : String) × ((m.env.lock id w).0 ≡ some e)

  -- Nothing of the shared fields has changed, and the answer is an error.
  abbrev pub IsRefused : Sys m.env.World → Result MonitorRuntimeState × Sys m.env.World → Type 0
  IsRefused s (err e, s') = s'.shared ≡ s.shared
  IsRefused s (ok st, s') = ⊥
