-- ===== src/Engine/Monitor.antt =====
-- The pure parts of internal/engine/manager.go: what a critical section does to the state of one
-- monitor and to the event history.
pub mod History
use rpi_procmon.Base.{
  ℕ, ◌-◌, String, Bool, true, false, not, ◌&&◌, ◌||◌, Option, none, some, List, [], ◌∷◌, ◌++◌, ℤ,
  pos, pos_part, ltb_ℤ, leb_ℤ, inc, wrap_64, ◌+ℤ◌, ◌-ℤ◌, ◌==◌, if◌then◌else◌, length, drop,
}
use rpi_procmon.Base.Dict.{Dict, lookup, insert}
use rpi_procmon.Base.Text.{trim_space, is_empty, itoa, concat}
use rpi_procmon.Config.Types.{MonitorConfig, is_enabled}
use rpi_procmon.State.{CheckResult, ActionResult, MonitorRuntimeState}
use rpi_procmon.Events.{Event}
use rpi_procmon.Engine.Env.{TimePackage, Shared}

-- What a monitor has if nothing is remembered of it (the zero value with the fields of the
-- configuration, and the status "unknown").
unfoldable pub new_state : MonitorConfig → MonitorRuntimeState
new_state mon = record {
  id = mon.id;
  name = mon.name;
  kind = mon.kind;
  enabled = is_enabled mon;
  status = "unknown";
  interval = mon.interval;
  failure_threshold = mon.failure_threshold;
  max_recovery_attempts = mon.max_recovery_attempts;
  cooldown = mon.cooldown;
  target = mon.target;
  metadata = mon.metadata;
  configured_checks = mon.checks;
  configured_recoveries = mon.recovery;
  last_check_started_at = "";
  last_check_finished_at = "";
  last_check_duration_ms = pos 0;
  next_check_at = "";
  last_success_at = "";
  last_failure_at = "";
  last_recovery_attempt_at = "";
  last_recovery_success_at = "";
  last_recovery_failure_at = "";
  cooldown_until = "";
  consecutive_failures = pos 0;
  check_run_count = pos 0;
  success_count = pos 0;
  failure_count = pos 0;
  recovery_count = pos 0;
  recovery_failure_count = pos 0;
  recovery_exhausted = false;
  last_error = "";
  last_failure_reasons = [];
  last_check_results = [];
  last_recovery_results = [];
}

-- The fields that follow the configuration are refreshed; the others are kept.
unfoldable pub refreshed : MonitorConfig → MonitorRuntimeState → MonitorRuntimeState
refreshed mon st = record st {
  id = mon.id;
  name = mon.name;
  kind = mon.kind;
  enabled = is_enabled mon;
  interval = mon.interval;
  failure_threshold = mon.failure_threshold;
  max_recovery_attempts = mon.max_recovery_attempts;
  cooldown = mon.cooldown;
  target = mon.target;
  metadata = mon.metadata;
  configured_checks = mon.checks;
  configured_recoveries = mon.recovery;
}

abbrev pub refreshed_or_new : MonitorConfig → Option MonitorRuntimeState → MonitorRuntimeState
refreshed_or_new mon none = new_state mon
refreshed_or_new mon (some st) = refreshed mon st

-- The entry of a monitor in the map of runtime states.
abbrev pub entry : String → Shared → Option MonitorRuntimeState
entry id sh = lookup id sh.current.monitors

-- What `ensureMonitorStateLocked` returns a pointer to. The pointer's target is written back by
-- `put_state`, which each critical section does when it is through with it.
unfoldable pub ensure_monitor_state : MonitorConfig → Shared → MonitorRuntimeState
ensure_monitor_state mon sh = refreshed_or_new mon (entry mon.id sh)

unfoldable pub put_state : MonitorConfig → MonitorRuntimeState → Shared → Shared
put_state mon st sh = record sh {
  current = record sh.current { monitors = insert mon.id st sh.current.monitors };
}

-- The newest `limit` events, if the limit is positive.
unfoldable pub cap_events : ℤ → List Event → List Event
cap_events limit events =
    if ltb_ℤ (pos 0) limit && ltb_ℤ limit (pos (length events))
    then drop (length events - pos_part limit) events
    else events

-- `appendEventLocked`, with `m.cfg.EventsMaxEntries` for the limit.
unfoldable pub append_event : ℤ → Event → Shared → Shared
append_event limit event sh = record sh {
  events_dirty = true;
  event_history = record sh.event_history {
    events = cap_events limit (sh.event_history.events ++ event ∷ []);
  };
}

-- `joinReasons`: the loop, with the text so far and whether a reason stands before.
join_loop : Bool → String → List String → String
join_loop later result [] = result
join_loop later result (reason ∷ reasons) =
    join_loop true (concat (result ∷ (if later then "; " else "") ∷ reason ∷ [])) reasons

unfoldable pub join_reasons : List String → String
unfolding join_loop
join_reasons reasons = join_loop false "" reasons

unfoldable pub should_record_healthy_event : String → Bool
should_record_healthy_event status_before =
    status_before == "degraded" || status_before == "failed" || status_before == "recovering"

-- `time.Time.UnixNano` counts from 1970, in 64 bits.
abbrev unix_nano : ℤ → ℤ
unix_nano t = wrap_64 (t -ℤ pos 62135596800000000000)

unfoldable pub event_id : String → ℤ → String
event_id monitor_id timestamp = concat (monitor_id ∷ "-" ∷ itoa (unix_nano timestamp) ∷ [])

-- `recoveryAttemptsExhausted`.
unfoldable pub recovery_attempts_exhausted : MonitorRuntimeState → MonitorConfig → Bool
recovery_attempts_exhausted st mon =
    ltb_ℤ (pos 0) mon.max_recovery_attempts
    && leb_ℤ mon.max_recovery_attempts st.recovery_failure_count

abbrev pub or_default : Option ℤ → ℤ → ℤ
or_default none def = def
or_default (some d) def = d

abbrev pub five_minutes : ℤ
five_minutes = pos 300000000000

abbrev pub one_minute : ℤ
one_minute = pos 60000000000

module _ (time : TimePackage) where
  -- `parseDuration`.
  unfoldable pub parse_duration : String → ℤ → ℤ
  parse_duration value def =
      let trimmed = trim_space value in
      if is_empty trimmed then def else or_default (time.parse_duration trimmed) def

  abbrev is_after : Option ℤ → ℤ → Bool
  is_after none now = false
  is_after (some t) now = ltb_ℤ now t

  -- `cooldownActive`.
  unfoldable pub cooldown_active : String → ℤ → Bool
  cooldown_active until now = if is_empty until then false else is_after (time.parse until) now

  -- `now.Add(parseDuration(monitor.Cooldown, 5*time.Minute)).Format(time.RFC3339)`.
  abbrev pub cooldown_end : MonitorConfig → ℤ → String
  cooldown_end mon now = time.format (now +ℤ parse_duration mon.cooldown five_minutes)

  -- The start of `runMonitorCycle`.
  unfoldable pub checking : ℤ → ℤ → MonitorRuntimeState → MonitorRuntimeState
  checking start interval st = record st {
    status = "checking";
    last_check_started_at = time.format start;
    next_check_at = time.format (start +ℤ interval);
  }

  -- What every finished check of `runMonitorCycle` records.
  unfoldable pub checked : ℤ → ℤ → List CheckResult → MonitorRuntimeState → MonitorRuntimeState
  checked finished duration_ms results st = record st {
    check_run_count = inc st.check_run_count;
    last_check_finished_at = time.format finished;
    last_check_duration_ms = duration_ms;
    last_check_results = results;
  }

  -- The branch of `runMonitorCycle` without reasons.
  unfoldable pub healthy : ℤ → MonitorRuntimeState → MonitorRuntimeState
  healthy finished st = record st {
    status = "healthy";
    consecutive_failures = pos 0;
    success_count = inc st.success_count;
    last_success_at = time.format finished;
    last_error = "";
    last_failure_reasons = [];
    recovery_exhausted = false;
  }

  -- The branch of `runMonitorCycle` with reasons.
  unfoldable pub degraded : ℤ → List String → MonitorRuntimeState → MonitorRuntimeState
  degraded finished reasons st = record st {
    status = "degraded";
    failure_count = inc st.failure_count;
    consecutive_failures = inc st.consecutive_failures;
    last_failure_at = time.format finished;
    last_error = join_reasons reasons;
    last_failure_reasons = reasons;
  }

  -- `shouldRecover` of `runMonitorCycle`.
  unfoldable pub should_recover : MonitorConfig → ℤ → MonitorRuntimeState → Bool
  should_recover mon finished st =
      leb_ℤ mon.failure_threshold st.consecutive_failures
      && not (cooldown_active st.cooldown_until finished)

  -- The start of `executeRecovery`.
  unfoldable pub recovering : MonitorConfig → ℤ → MonitorRuntimeState → MonitorRuntimeState
  recovering mon now st = record st {
    status = "recovering";
    last_recovery_attempt_at = time.format now;
    cooldown_until = cooldown_end mon now;
  }

  or_kept : List CheckResult → List CheckResult → List CheckResult
  or_kept [] old = old
  or_kept (r ∷ rs) old = r ∷ rs

  -- What `applyRecoveryOutcomeLocked` records in both branches.
  unfoldable pub attempted :
      MonitorConfig → ℤ → List ActionResult → MonitorRuntimeState → MonitorRuntimeState
  attempted mon now actions st = record st {
    cooldown_until = cooldown_end mon now;
    last_recovery_results = actions;
    recovery_count = inc st.recovery_count;
  }

  -- `applyRecoveryOutcomeLocked` after a recovery.
  unfoldable pub recovered : ℤ → List CheckResult → MonitorRuntimeState → MonitorRuntimeState
  unfolding or_kept
  recovered now post_results st = record st {
    status = "healthy";
    consecutive_failures = pos 0;
    last_recovery_success_at = time.format now;
    last_success_at = time.format now;
    last_error = "";
    last_failure_reasons = [];
    recovery_exhausted = false;
    last_check_results = or_kept post_results st.last_check_results;
  }

  -- `applyRecoveryOutcomeLocked` after a failed recovery.
  unfoldable pub failed :
      ℤ → List CheckResult → List String → MonitorRuntimeState → MonitorRuntimeState
  unfolding or_kept
  failed now post_results post_reasons st = record st {
    status = "failed";
    recovery_failure_count = inc st.recovery_failure_count;
    last_recovery_failure_at = time.format now;
    last_check_results = or_kept post_results st.last_check_results;
    last_error = elim post_reasons [
      | [] ↦ st.last_error
      | some_reasons ↦ join_reasons some_reasons
    ];
    last_failure_reasons = elim post_reasons [
      | [] ↦ st.last_failure_reasons
      | some_reasons ↦ some_reasons
    ];
  }

-- `recovery attempts exhausted after %d failed attempts`.
unfoldable pub exhausted_reason : MonitorRuntimeState → String
exhausted_reason st = concat (
    "recovery attempts exhausted after " ∷ itoa st.recovery_failure_count ∷ " failed attempts" ∷ [])

-- The same with the reasons of the check behind it.
unfoldable pub exhausted_because : MonitorRuntimeState → List String → String
exhausted_because st reasons =
    let joined = join_reasons reasons in
    if is_empty joined
    then exhausted_reason st
    else concat (exhausted_reason st ∷ ": " ∷ joined ∷ [])

-- What `markRecoveryExhaustedLocked` and `appendRecoveryExhaustedEventLocked` both set.
unfoldable pub stopped : String → MonitorRuntimeState → MonitorRuntimeState
stopped reason st = record st {
  status = "failed";
  last_error = reason;
  last_failure_reasons = reason ∷ [];
}
