-- ===== src/Engine/Tests.antt =====
-- Runs of the engine on the manager of Engine.Lab.
mod Life
use rpi_procmon.Base.{
  ℕ, ◌++◌, ◌+◌, ◌*◌, ◌≤◌, String, ◌≡◌, ◌≢◌, refl, true, false, none, some, List, [], ◌∷◌, ◌⊎◌, pos,
  arith, ◌==◌, eq_iff, inc, ◌+ℤ◌, ◌-ℤ◌, ◌<◌, take, select, reverse,
}
use mathlib.Core.Option.{none-ne-some}
use rpi_procmon.Base.Text.{itoa, concat, trim_space}
use rpi_procmon.Base.Dict.{lookup, insert}
use rpi_procmon.Config.Types.{TargetConfig, MonitorConfig, CheckConfig, ActionConfig}
use rpi_procmon.State.{CheckResult, ActionResult, MonitorRuntimeState}
use rpi_procmon.Events.{Event, Filter}
use rpi_procmon.Engine.Env.{TimePackage, Env, Manager, Sys, ◌>>=◌}
use rpi_procmon.Engine.Monitor.{
  entry, refreshed_or_new, new_state, refreshed, ensure_monitor_state, put_state, append_event,
  checking, checked, degraded, should_recover, cooldown_active, parse_duration, recovering,
  attempted, failed, recovery_attempts_exhausted, stopped, exhausted_because, exhausted_reason,
  join_reasons, event_id, cap_events,
}
use rpi_procmon.Engine.Monitor.History.{IsAppended, IsWithin, append_event-IsAppended}
use rpi_procmon.Engine.Query.{snapshot, events_snapshot, event_limit}
use rpi_procmon.Engine.Query.Overall.{worst, status_of, snapshot-worst}
use rpi_procmon.Engine.Query.Counts.{states_of, IsCounted, snapshot-IsCounted}
use rpi_procmon.Engine.Query.Newest.{passes, events_snapshot-newest}
use rpi_procmon.Engine.Cycle.{run_monitor_cycle, begin_check, end_check, check_failed, recover}
use rpi_procmon.Engine.Recover.{
  run_forced_recovery, execute_recovery, start_recovery, roll_back, conclude_recovery,
  apply_recovery_outcome, append_recovery_exhausted, mark_recovery_exhausted,
}
use rpi_procmon.Engine.Run.{run_actions, evaluate, persist_or_log, persist, acquire, event_of}
use rpi_procmon.Engine.Invariant.Frame.{other_entry_unchanged, history_bounded}
use rpi_procmon.Engine.Invariant.Counters.{Holds, counters_accounted}
use rpi_procmon.Engine.Settle.Cycle.{IsSettled, run_monitor_cycle-IsSettled}
use mathlib.Core.Option.{some-ne-none}
use rpi_procmon.Engine.Recover.Ran.{execute_recovery-IsRun}
use rpi_procmon.Engine.Recover.Results.{IsRun}
use rpi_procmon.Engine.Recover.Quiet.{Ran, IsLog}
use rpi_procmon.Engine.Recover.Durable.{acting, execute_recovery-unsaved}
use rpi_procmon.Engine.Lab.{clock, lab, manager, monitor, start, unsaved, run_action}

-- A failing check with a recovery that fails, and with one attempt allowed.
abbrev b_checked : Sys ℕ
b_checked = (run_monitor_cycle manager (monitor "b" "off") (pos 60) start).1

abbrev statuses : List MonitorRuntimeState → List String
statuses [] = []
statuses (st ∷ sts) = st.status ∷ statuses sts

abbrev event_types : List Event → List String
event_types [] = []
event_types (e ∷ es) = e.event_type ∷ event_types es

b_fails :
    (statuses (states_of manager.cfg.monitors b_checked.shared) ≡ "failed" ∷ [])
    × (event_types b_checked.shared.event_history.events
        ≡ "recovery_started" ∷ "recovery_failed" ∷ "recovery_exhausted" ∷ [])
unfolding run_monitor_cycle begin_check evaluate end_check check_failed recover execute_recovery
    start_recovery roll_back conclude_recovery apply_recovery_outcome append_recovery_exhausted
    mark_recovery_exhausted persist_or_log persist acquire ◌>>=◌ ensure_monitor_state put_state
    append_event new_state refreshed checking checked degraded should_recover cooldown_active
    parse_duration recovering attempted failed recovery_attempts_exhausted stopped exhausted_because
    exhausted_reason join_reasons event_id event_of lookup insert cap_events inc itoa concat ◌+ℤ◌
    ◌-ℤ◌ trim_space run_actions
b_fails = (refl, refl)

run_monitor_cycle-IsSettled_example :
    (b_checked.shared ≡ start.shared)
    ⊎ ((st : MonitorRuntimeState) × (entry "b" b_checked.shared ≡ some st)
        × IsSettled
            (refreshed_or_new (monitor "b" "off") (entry "b" start.shared)).status
            st.status)
run_monitor_cycle-IsSettled_example =
    run_monitor_cycle-IsSettled manager (monitor "b" "off") (pos 60) start (λ sh w. refl)

snapshot-worst_example :
    (snapshot manager (pos 7) b_checked.shared).overall_status
    ≡ status_of (worst manager.cfg.monitors b_checked.shared)
snapshot-worst_example = snapshot-worst manager (pos 7) b_checked.shared

snapshot-IsCounted_example :
    IsCounted
      (snapshot manager (pos 7) b_checked.shared)
      (states_of manager.cfg.monitors b_checked.shared)
snapshot-IsCounted_example = snapshot-IsCounted manager (pos 7) b_checked.shared

abbrev failures : Filter
failures = record { monitor_id = "b"; event_type = ""; since = pos 0; limit = pos 2 }

events_snapshot-newest_example :
    (events_snapshot clock failures b_checked.shared
      ≡ take
          (event_limit (pos 2))
          (select (passes clock failures) (reverse b_checked.shared.event_history.events)))
    × (0 < event_limit (pos 2))
    × (event_limit (pos 2) ≤ 500)
events_snapshot-newest_example = events_snapshot-newest clock failures b_checked.shared

abbrev event_named : String → Event
event_named name = record {
  id = name;
  timestamp = "";
  monitor_id = "b";
  monitor_name = "b";
  monitor_type = "generic";
  event_type = name;
  status_before = "";
  status_after = "";
  reason = "";
  consecutive_failures = pos 0;
  recovery_count = pos 0;
  check_results = [];
  recovery_results = [];
}

append_event-IsAppended_example :
    IsAppended
      (pos 3)
      b_checked.shared.event_history.events
      (event_named "next")
      (append_event (pos 3) (event_named "next") b_checked.shared).event_history.events
append_event-IsAppended_example =
    append_event-IsAppended (pos 3) (event_named "next") b_checked.shared

a_ne_b : ◌≢◌ {A = String} "a" "b"
a_ne_b = ground (arith, eq_iff "a" "b")

other_entry_unchanged_example :
    (entry "a" (run_monitor_cycle manager (monitor "b" "off") (pos 60) start).1.shared
      ≡ entry "a" start.shared)
    × (entry "a" (run_forced_recovery manager (monitor "b" "off") start).1.shared
        ≡ entry "a" start.shared)
other_entry_unchanged_example =
    other_entry_unchanged manager (monitor "b" "off") (pos 60) "a" start a_ne_b (λ sh w. refl)

history_bounded_example :
    IsWithin
      (pos 3)
      (run_monitor_cycle manager (monitor "b" "off") (pos 60) start).1.shared.event_history.events
    × IsWithin
        (pos 3)
        (run_forced_recovery manager (monitor "b" "off") start).1.shared.event_history.events
history_bounded_example =
    history_bounded manager (monitor "b" "off") (pos 60) start (λ sh w h. h) (λ h. omega arith)

counters_accounted_example :
    Holds manager
      (monitor "b" "off")
      (run_monitor_cycle manager (monitor "b" "off") (pos 60) start).1.shared
    × Holds manager
        (monitor "b" "off")
        (run_forced_recovery manager (monitor "b" "off") start).1.shared
unfolding lookup
counters_accounted_example =
    counters_accounted manager (monitor "b" "off") (pos 60) start (λ sh w h. h) nothing_held
  where
    nothing_held : Holds manager (monitor "b" "off") start.shared
    nothing_held st found = absurd (none-ne-some st found)

-- The world of `lab`, with the runs of actions.
abbrev beside : {A : Type 0} → (ℕ → A × ℕ) → ℕ × List Ran → A × (ℕ × List Ran)
beside f w = let (a, n) = f w.0 in (a, (n, w.1))

abbrev recorded : ActionConfig → ActionResult × ℕ → List Ran → ActionResult × (ℕ × List Ran)
recorded action (r, n) runs = (r, (n, runs ++ (action, r) ∷ []))

abbrev recording : Env
recording = record {
  World = ℕ × List Ran;
  now = beside lab.now;
  ctx_err = beside lab.ctx_err;
  check = λ mon c. beside (lab.check mon c);
  act = λ mon action w. recorded action (lab.act mon action w.0) w.1;
  save_state = λ st. beside (lab.save_state st);
  save_events = λ h. beside (lab.save_events h);
  lock = λ id. beside (lab.lock id);
  unlock = λ id w. w;
  others = λ sh w. (sh, w);
}

abbrev recorder : Manager
recorder = record manager { env = recording }

abbrev runs_of : ℕ × List Ran → List Ran
runs_of w = w.1

runs_of-IsLog : IsLog recorder (monitor "b" "off") runs_of
runs_of-IsLog = record {
  act = λ action w. refl;
  now = λ w. refl;
  ctx_err = λ w. refl;
  check = λ c w. refl;
  save_state = λ st w. refl;
  save_events = λ h w. refl;
  others = λ sh w. refl;
}

abbrev unrecorded : Sys (ℕ × List Ran)
unrecorded = record { shared = start.shared; world = (1, []) }

execute_recovery-IsRun_example :
    (ran : List Ran) × (runs_of
        (execute_recovery recorder (monitor "b" "off") [] [] "degraded" unrecorded).1.world
      ≡ runs_of unrecorded.world ++ ran)
    × IsRun
        (monitor "b" "off").recovery
        []
        ran
        (execute_recovery recorder (monitor "b" "off") [] [] "degraded" unrecorded).0
execute_recovery-IsRun_example =
    execute_recovery-IsRun recorder (monitor "b" "off") runs_of runs_of-IsLog [] [] "degraded"
      unrecorded

-- The actions of `manager` in place of ones that would tick the clock a hundred times.
abbrev slow_action : MonitorConfig → ActionConfig → ℕ → ActionResult × ℕ
slow_action mon action w = run_action mon action (w + 100)

execute_recovery-unsaved_example :
    (execute_recovery (acting unsaved slow_action) (monitor "b" "off") [] [] "degraded" start
      ≡ execute_recovery unsaved (monitor "b" "off") [] [] "degraded" start)
    × ((execute_recovery unsaved (monitor "b" "off") [] [] "degraded" start).0.actions ≡ [])
execute_recovery-unsaved_example =
    execute_recovery-unsaved unsaved slow_action (monitor "b" "off") [] [] "degraded" start
      (λ st w. some-ne-none "disk full")
