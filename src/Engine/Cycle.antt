-- ===== src/Engine/Cycle.antt =====
-- internal/engine/manager.go: `runMonitorCycle`, one check of a monitor and the recovery that it
-- may start.
use rpi_procmon.Base.{String, Bool, none, some, List, [], ◌∷◌, ℤ, ◌-ℤ◌, quot, if◌then◌else◌}
use rpi_procmon.Config.Types.{MonitorConfig}
use rpi_procmon.State.{CheckResult, MonitorRuntimeState}
use rpi_procmon.Engine.Env.{Manager, Act, pure, ◌>>=◌, ◌>>◌, modify, gets}
use rpi_procmon.Engine.Monitor.{
  ensure_monitor_state, put_state, join_reasons, should_record_healthy_event,
  recovery_attempts_exhausted, checking, checked, healthy, degraded, should_recover,
}
use rpi_procmon.Engine.Run.{
  Outcome, acquire, now, ctx_err, persist_or_log, append, event_of, evaluate,
}
use rpi_procmon.Engine.Recover.{
  set_status, execute_recovery, mark_recovery_exhausted, conclude_recovery,
}

module _ (m : Manager) (mon : MonitorConfig) where
  -- The first critical section; its result is the status before the check.
  unfoldable pub begin_check : ℤ → ℤ → Act m.env.World String
  begin_check start interval = do
    acquire m
    st ← gets (ensure_monitor_state mon)
    modify (put_state mon (checking m.time start interval st))
    persist_or_log m
    pure st.status

  -- The branch without reasons, for the entry `st`.
  unfoldable pub check_succeeded :
      String → ℤ → List CheckResult → MonitorRuntimeState → Act m.env.World Unit
  check_succeeded status_before finished results st = do
    modify (put_state mon (healthy m.time finished st))
    if should_record_healthy_event status_before
        then append m (record (event_of m mon finished "check_succeeded" status_before "healthy") {
          check_results = results;
        })
        else pure tt
    persist_or_log m

  -- The branch with reasons; its result is `shouldRecover`.
  unfoldable pub check_failed :
      String → ℤ → List CheckResult → List String → MonitorRuntimeState → Act m.env.World Bool
  check_failed status_before finished results reasons before = do
    let st = degraded m.time finished reasons before
    modify (put_state mon st)
    append m (record (event_of m mon finished "check_failed" status_before "degraded") {
      reason = join_reasons reasons;
      consecutive_failures = st.consecutive_failures;
      check_results = results;
    })
    persist_or_log m
    pure (should_recover m.time mon finished st)

  -- What follows a failed check that calls for a recovery.
  unfoldable pub after_recovery : Outcome → Act m.env.World Unit
  after_recovery outcome = elim outcome.error [
    | some e ↦ pure tt
    | none ↦ do err ← conclude_recovery m mon "degraded" outcome; pure tt
  ]

  unfoldable pub recover : List CheckResult → List String → Act m.env.World Unit
  unfolding after_recovery
  recover results reasons = do
    acquire m
    st ← gets (ensure_monitor_state mon)
    modify (put_state mon st)
    if recovery_attempts_exhausted st mon
        then (do mark_recovery_exhausted m mon st results reasons; persist_or_log m)
        else (do
          outcome ← execute_recovery m mon results reasons "degraded"
          after_recovery outcome)

  -- The second critical section, and what follows it.
  unfoldable pub judged :
      String → ℤ → List CheckResult → List String → MonitorRuntimeState → Act m.env.World Unit
  judged status_before finished results [] st = check_succeeded status_before finished results st
  judged status_before finished results (r ∷ reasons) st = do
    wanted ← check_failed status_before finished results (r ∷ reasons) st
    if wanted then recover results (r ∷ reasons) else pure tt

  unfoldable pub end_check : ℤ → ℤ → String → List CheckResult → List String → Act m.env.World Unit
  unfolding judged
  end_check start finished status_before results reasons = do
    acquire m
    st ← gets (ensure_monitor_state mon)
    modify (put_state mon st)
    err ← ctx_err m
    elim err [
      | some e ↦ set_status m mon status_before
      | none ↦
          judged status_before finished results reasons
            (checked m.time finished (quot (finished -ℤ start) 1000000) results st)
    ]

  unfoldable pub run_monitor_cycle : ℤ → Act m.env.World Unit
  run_monitor_cycle interval = do
    err ← ctx_err m
    elim err [
      | some e ↦ pure tt
      | none ↦ do
        start ← now m
        status_before ← begin_check start interval
        found ← evaluate m mon mon.checks
        finished ← now m
        end_check start finished status_before found.0 found.1
    ]
