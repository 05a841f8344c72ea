-- ===== src/Engine/Invariant/Frame.antt =====
-- What a method on one monitor leaves alone, and the bound on the event history.
use rpi_procmon.Base.{String, ◌≡◌, ◌≢◌, refl, sym, ◌∙◌, ap, subst, Option, ℤ, eq_false}
use rpi_procmon.Base.Dict.{lookup, lookup-insert_ne}
use rpi_procmon.Config.Types.{MonitorConfig}
use rpi_procmon.State.{MonitorRuntimeState}
use rpi_procmon.Events.{Event}
use rpi_procmon.Engine.Env.{Shared, Manager, Sys}
use rpi_procmon.Engine.Monitor.{entry, put_state, append_event}
use rpi_procmon.Engine.Monitor.History.{IsWithin, append_event-IsAppended}
use rpi_procmon.Engine.Recover.{run_forced_recovery}
use rpi_procmon.Engine.Cycle.{run_monitor_cycle}
use rpi_procmon.Engine.Invariant.{IsKept, IsInvariant}
use rpi_procmon.Engine.Invariant.Recover.{Keeps-run_forced_recovery}
use rpi_procmon.Engine.Invariant.Cycle.{Keeps-run_monitor_cycle}

abbrev Anything : MonitorRuntimeState → Type 0
Anything st = Unit

Anything-IsKept : (m : Manager) (mon : MonitorConfig) → IsKept m mon Anything
Anything-IsKept m mon = record {
  status = λ _ _ _. tt;
  checking = λ _ _ _ _. tt;
  healthy = λ _ _ _ _ _. tt;
  degraded = λ _ _ _ _ _ _. tt;
  recovering = λ _ _ _. tt;
  recovered = λ _ _ _ _ _. tt;
  failed = λ _ _ _ _ _ _. tt;
  exhausted = λ _ _ _ _. tt;
  stopped = λ _ _ _. tt;
}

-- The others leave the entry of a monitor as it is.
abbrev pub LeavesEntry : Manager → String → Type 0
LeavesEntry m id = (sh : Shared) (w : m.env.World) → entry id (m.env.others sh w).0 ≡ entry id sh

module _ (m : Manager) (mon : MonitorConfig) (id : String) (other : id ≢ mon.id)
    (leaves : LeavesEntry m id) (was : Option MonitorRuntimeState) where
  abbrev Same : Shared → Type 0
  Same sh = entry id sh ≡ was

  put_state-Same : (st : MonitorRuntimeState) (sh : Shared) → Same sh → Same (put_state mon st sh)
  unfolding put_state
  put_state-Same st sh h =
      lookup-insert_ne mon.id id st sh.current.monitors (eq_false mon.id id (λ e. other (sym e)))
      ∙ h

  append_event-Same :
      (limit : ℤ) (e : Event) (sh : Shared) → Same sh → Same (append_event limit e sh)
  unfolding append_event
  append_event-Same limit e sh h = h

  Same-IsInvariant : IsInvariant m mon Same Anything
  Same-IsInvariant = record {
    stable = record {
      others = λ sh w h. leaves sh w ∙ h;
      append = λ e sh h. append_event-Same m.cfg.events_max_entries e sh h;
      only = λ sh sh' monitors events h. ap (lookup id) monitors ∙ h;
    };
    ensure = λ sh h. tt;
    put = λ st good sh h. put_state-Same st sh h;
    kept = Anything-IsKept m mon;
  }

-- A check of one monitor, with the recovery that it may start, and a forced recovery leave the
-- state of every other monitor as it was, if the other goroutines do.
pub other_entry_unchanged :
    (m : Manager) (mon : MonitorConfig) (interval : ℤ) (id : String) (s : Sys m.env.World)
    → id ≢ mon.id
    → LeavesEntry m id
    → (entry id (run_monitor_cycle m mon interval s).1.shared ≡ entry id s.shared)
      × (entry id (run_forced_recovery m mon s).1.shared ≡ entry id s.shared)
other_entry_unchanged m mon interval id s other leaves =
    let inv = Same-IsInvariant m mon id other leaves (entry id s.shared) in
    (
      (Keeps-run_monitor_cycle m mon _ Anything inv interval).at s refl,
      (Keeps-run_forced_recovery m mon _ Anything inv).at s refl,
    )

abbrev Within : Manager → Shared → Type 0
Within m sh = IsWithin m.cfg.events_max_entries sh.event_history.events

put_state-Within :
    (m : Manager) (mon : MonitorConfig) (st : MonitorRuntimeState) (sh : Shared)
    → Within m sh
    → Within m (put_state mon st sh)
unfolding put_state
put_state-Within m mon st sh h = h

-- Neither a check of a monitor nor a forced recovery lets the event history grow beyond the
-- configured number of entries, if the other goroutines do not.
pub history_bounded :
    (m : Manager) (mon : MonitorConfig) (interval : ℤ) (s : Sys m.env.World)
    → ((sh : Shared) (w : m.env.World) → Within m sh → Within m (m.env.others sh w).0)
    → Within m s.shared
    → Within m (run_monitor_cycle m mon interval s).1.shared
      × Within m (run_forced_recovery m mon s).1.shared
history_bounded m mon interval s others within =
    let inv : IsInvariant m mon (Within m) Anything = record {
      stable = record {
        others = others;
        append = λ e sh h. (append_event-IsAppended m.cfg.events_max_entries e sh).within;
        only = λ sh sh' monitors events h. subst (IsWithin m.cfg.events_max_entries) (sym events) h;
      };
      ensure = λ sh h. tt;
      put = λ st good sh h. put_state-Within m mon st sh h;
      kept = Anything-IsKept m mon;
    } in
    (
      (Keeps-run_monitor_cycle m mon _ Anything inv interval).at s within,
      (Keeps-run_forced_recovery m mon _ Anything inv).at s within,
    )
