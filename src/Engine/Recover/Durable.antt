-- ===== src/Engine/Recover/Durable.antt =====
-- internal/engine/manager.go: `executeRecovery` runs no action before its start is saved.
use rpi_procmon.Base.{String, ◌≡◌, ◌≢◌, refl, Option, none, some, List, []}
use rpi_procmon.Config.Types.{MonitorConfig, ActionConfig}
use rpi_procmon.State.{ProcmonState, CheckResult, ActionResult}
use rpi_procmon.Engine.Env.{Manager, Sys, Act, ◌>>=◌}
use rpi_procmon.Engine.Run.{Outcome, state_saved, persist, persist_or_log, acquire, event_of}
use rpi_procmon.Engine.Recover.{
  execute_recovery, start_recovery, started, roll_back, set_status, unless_cancelled,
}

-- A manager with other actions.
abbrev pub acting :
    (m : Manager)
    → (MonitorConfig → ActionConfig → m.env.World → ActionResult × m.env.World)
    → Manager
acting m act = record m { env = record m.env { act = act } }

-- Each write of the state file fails.
abbrev pub Refuses : Manager → Type 0
Refuses m = (st : ProcmonState) (w : m.env.World) → (m.env.save_state st w).0 ≢ none

module _ (m : Manager)
    (act : MonitorConfig → ActionConfig → m.env.World → ActionResult × m.env.World)
    (mon : MonitorConfig) (status_before : String) where
  -- What follows the write of the state file in `execute_recovery`.
  after_save : (m : Manager) → Option String → Act m.env.World Outcome
  after_save m o = do
    saved ← state_saved m o
    outcome ← started m mon saved
    roll_back m mon status_before outcome

  after_save-unsaved :
      (o : Option String) (s : Sys m.env.World)
      → o ≢ none
      → (after_save (acting m act) o s ≡ after_save m o s) × ((after_save m o s).0.actions ≡ [])
  unfolding after_save state_saved started roll_back set_status persist_or_log persist acquire ◌>>=◌
  after_save-unsaved none s h = absurd (h refl)
  after_save-unsaved (some e) s h = (refl, refl)

  -- What follows the first look at the context, by what it has found.
  after_look :
      (m : Manager) → List CheckResult → List String → Option String → Act m.env.World Outcome
  after_look m results reasons cancelled = unless_cancelled m mon cancelled (do
    saved ← start_recovery m mon results reasons status_before
    outcome ← started m mon saved
    roll_back m mon status_before outcome)

  after_look-unsaved :
      (results : List CheckResult) (reasons : List String) (cancelled : Option String)
      (s : Sys m.env.World)
      → Refuses m
      → (after_look (acting m act) results reasons cancelled s
          ≡ after_look m results reasons cancelled s)
        × ((after_look m results reasons cancelled s).0.actions ≡ [])
  unfolding after_look unless_cancelled start_recovery persist acquire event_of ◌>>=◌ after_save
  after_look-unsaved results reasons (some e) s refuses = (refl, refl)
  after_look-unsaved results reasons none s refuses = after_save-unsaved _ _ (refuses _ _)

-- If each write of the state file fails, a recovery runs no action: it has no results, and the
-- same outcome, shared fields and world, whatever the actions would do.
pub execute_recovery-unsaved :
    (m : Manager) (act : MonitorConfig → ActionConfig → m.env.World → ActionResult × m.env.World)
    (mon : MonitorConfig) (results : List CheckResult) (reasons : List String)
    (status_before : String) (s : Sys m.env.World)
    → Refuses m
    → (execute_recovery (acting m act) mon results reasons status_before s
        ≡ execute_recovery m mon results reasons status_before s)
      × ((execute_recovery m mon results reasons status_before s).0.actions ≡ [])
unfolding execute_recovery after_look ◌>>=◌
execute_recovery-unsaved m act mon results reasons status_before s refuses =
    after_look-unsaved m act mon status_before results reasons _ _ refuses
