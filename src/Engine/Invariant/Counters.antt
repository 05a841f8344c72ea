-- ===== src/Engine/Invariant/Counters.antt =====
-- The counters of a monitor.
use rpi_procmon.Base.{
  ◌+◌, ◌%◌, ◌≡◌, refl, sym, ap, ◌∙◌, Option, none, some, ℤ, arith, word, IsInt, two_64, inc-IsInt,
  word-inc, some-injective,
}
use rpi_procmon.Base.Dict.{lookup, lookup-insert_self}
use rpi_procmon.Config.Types.{MonitorConfig}
use rpi_procmon.State.{MonitorRuntimeState}
use rpi_procmon.Events.{Event}
use rpi_procmon.Engine.Env.{Shared, Manager, Sys}
use rpi_procmon.Engine.Monitor.{
  entry, new_state, refreshed, refreshed_or_new, ensure_monitor_state, put_state, append_event,
  checking, checked, healthy, degraded, recovering, attempted, recovered, failed, stopped,
}
use rpi_procmon.Engine.Recover.{run_forced_recovery}
use rpi_procmon.Engine.Cycle.{run_monitor_cycle}
use rpi_procmon.Engine.Invariant.{IsKept, IsInvariant}
use rpi_procmon.Engine.Invariant.Recover.{Keeps-run_forced_recovery}
use rpi_procmon.Engine.Invariant.Cycle.{Keeps-run_monitor_cycle}

-- The counters are `int`s, and every finished check was counted as a success or as a failure. The
-- equation is of 64-bit words, so that it outlives an overflow.
pub record IsConsistent (st : MonitorRuntimeState) : Type 0 where
  pub check_run_int : IsInt st.check_run_count
  pub success_int : IsInt st.success_count
  pub failure_int : IsInt st.failure_count
  pub accounted : word st.check_run_count ≡ (word st.success_count + word st.failure_count) % two_64

module _ (m : Manager) (mon : MonitorConfig) where
  -- The counters that the invariant reads stay as they were.
  same_counters :
      (st st' : MonitorRuntimeState)
      → st'.check_run_count ≡ st.check_run_count
      → st'.success_count ≡ st.success_count
      → st'.failure_count ≡ st.failure_count
      → IsConsistent st
      → IsConsistent st'
  same_counters st st' c s f h = record {
    check_run_int = rw c h.check_run_int;
    success_int = rw s h.success_int;
    failure_int = rw f h.failure_int;
    accounted = rw (c, s, f) h.accounted;
  }

  IsConsistent-IsKept : IsKept m mon IsConsistent
  unfolding checking checked healthy degraded recovering attempted recovered failed stopped
  IsConsistent-IsKept = record {
    status = λ s st h. same_counters st _ refl refl refl h;
    checking = λ _ _ st h. same_counters st _ refl refl refl h;
    healthy = λ t ms rs st h. record {
      check_run_int = inc-IsInt st.check_run_count h.check_run_int;
      success_int = inc-IsInt st.success_count h.success_int;
      failure_int = h.failure_int;
      accounted = omega (
        arith,
        h.accounted,
        word-inc st.check_run_count h.check_run_int,
        word-inc st.success_count h.success_int,
      );
    };
    degraded = λ t ms rs reasons st h. record {
      check_run_int = inc-IsInt st.check_run_count h.check_run_int;
      success_int = h.success_int;
      failure_int = inc-IsInt st.failure_count h.failure_int;
      accounted = omega (
        arith,
        h.accounted,
        word-inc st.check_run_count h.check_run_int,
        word-inc st.failure_count h.failure_int,
      );
    };
    recovering = λ _ st h. same_counters st _ refl refl refl h;
    recovered = λ _ _ _ st h. same_counters st _ refl refl refl h;
    failed = λ _ _ _ _ st h. same_counters st _ refl refl refl h;
    exhausted = λ _ _ st h. same_counters st _ refl refl refl h;
    stopped = λ _ st h. same_counters st _ refl refl refl h;
  }

  -- The state that the map holds for the monitor, if any, is consistent.
  abbrev pub Holds : Shared → Type 0
  Holds sh = (st : MonitorRuntimeState) → entry mon.id sh ≡ some st → IsConsistent st

  refreshed_or_new-IsConsistent :
      (o : Option MonitorRuntimeState)
      → ((st : MonitorRuntimeState) → o ≡ some st → IsConsistent st)
      → IsConsistent (refreshed_or_new mon o)
  unfolding new_state refreshed
  refreshed_or_new-IsConsistent none h = record {
    check_run_int = omega arith;
    success_int = omega arith;
    failure_int = omega arith;
    accounted = refl;
  }
  refreshed_or_new-IsConsistent (some st) h = same_counters st _ refl refl refl (h st refl)

  ensure-IsConsistent : (sh : Shared) → Holds sh → IsConsistent (ensure_monitor_state mon sh)
  unfolding ensure_monitor_state
  ensure-IsConsistent sh h = refreshed_or_new-IsConsistent (entry mon.id sh) h

  put_state-Holds :
      (st : MonitorRuntimeState) → IsConsistent st → (sh : Shared) → Holds (put_state mon st sh)
  unfolding put_state
  put_state-Holds st good sh st' found =
      let same : st ≡ st' =
        some-injective st st' (sym (lookup-insert_self mon.id st sh.current.monitors) ∙ found) in
      rw (← same) good

  append_event-Holds :
      (limit : ℤ) (e : Event) (sh : Shared) → Holds sh → Holds (append_event limit e sh)
  unfolding append_event
  append_event-Holds limit e sh h = h

  pub Holds-IsInvariant :
      ((sh : Shared) (w : m.env.World) → Holds sh → Holds (m.env.others sh w).0)
      → IsInvariant m mon Holds IsConsistent
  Holds-IsInvariant others = record {
    stable = record {
      others = others;
      append = λ e sh h. append_event-Holds m.cfg.events_max_entries e sh h;
      only = λ sh sh' monitors events h st found. h st (sym (ap (lookup mon.id) monitors) ∙ found);
    };
    ensure = ensure-IsConsistent;
    put = λ st good sh h. put_state-Holds st good sh;
    kept = IsConsistent-IsKept;
  }

-- Whatever a check of the monitor or a forced recovery meets, its count of checks stays the sum of
-- its counts of successes and of failures, as 64-bit words, if the other goroutines keep it so.
pub counters_accounted :
    (m : Manager) (mon : MonitorConfig) (interval : ℤ) (s : Sys m.env.World)
    → ((sh : Shared) (w : m.env.World) → Holds m mon sh → Holds m mon (m.env.others sh w).0)
    → Holds m mon s.shared
    → Holds m mon (run_monitor_cycle m mon interval s).1.shared
      × Holds m mon (run_forced_recovery m mon s).1.shared
counters_accounted m mon interval s others h =
    let inv = Holds-IsInvariant m mon others in
    (
      (Keeps-run_monitor_cycle m mon _ IsConsistent inv interval).at s h,
      (Keeps-run_forced_recovery m mon _ IsConsistent inv).at s h,
    )
