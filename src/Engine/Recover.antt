-- ===== src/Engine/Recover.antt =====
-- internal/engine/manager.go: `executeRecovery`, what is made of its outcome, and
-- `runForcedRecovery`.
pub mod Quiet
pub mod Results
pub mod Ran
pub mod Durable
use rpi_procmon.Base.{String, true, Option, none, some, List, [], ◌∷◌, ◌++◌, ℤ, if◌then◌else◌}
use rpi_procmon.Base.Text.{concat, is_empty}
use rpi_procmon.Config.Types.{MonitorConfig}
use rpi_procmon.State.{CheckResult, MonitorRuntimeState}
use rpi_procmon.Engine.Env.{Manager, Act, pure, ◌>>=◌, ◌>>◌, modify, gets}
use rpi_procmon.Engine.Monitor.{
  entry, ensure_monitor_state, put_state, join_reasons, recovery_attempts_exhausted, recovering,
  attempted, recovered, failed, exhausted_reason, exhausted_because, stopped, cooldown_end,
}
use rpi_procmon.Engine.Run.{
  Outcome, interrupted, acquire, now, ctx_err, persist, persist_or_log, append, event_of, evaluate,
  run_actions,
}

abbrev pub with_status : String → MonitorRuntimeState → MonitorRuntimeState
with_status status st = record st { status = status }

module _ (m : Manager) (mon : MonitorConfig) where
  -- Under the lock: the entry gets a status, and the state is saved.
  unfoldable pub set_status : String → Act m.env.World Unit
  set_status status = do
    st ← gets (ensure_monitor_state mon)
    modify (put_state mon (with_status status st))
    persist_or_log m

  -- The deferred function of `executeRecovery`.
  unfoldable pub roll_back : String → Outcome → Act m.env.World Outcome
  unfolding set_status
  roll_back status_before outcome =
      if outcome.completed
      then pure outcome
      else (do acquire m; set_status status_before; pure outcome)

  -- The first critical section of `executeRecovery`; the error is that of `persistLocked`.
  unfoldable pub start_recovery :
      List CheckResult → List String → String → Act m.env.World (Option String)
  start_recovery failure_results failure_reasons status_before = do
    acquire m
    st ← gets (ensure_monitor_state mon)
    t ← now m
    modify (put_state mon (recovering m.time mon t st))
    append m (record (event_of m mon t "recovery_started" status_before "recovering") {
      reason = join_reasons failure_reasons;
      consecutive_failures = st.consecutive_failures;
      check_results = failure_results;
    })
    persist m

  unfoldable pub started : Option String → Act m.env.World Outcome
  started (some err) = pure (interrupted [] (concat ("persist recovery start: " ∷ err ∷ [])))
  started none = run_actions m mon mon.recovery []

  unless_cancelled : Option String → Act m.env.World Outcome → Act m.env.World Outcome
  unless_cancelled (some err) run = pure (interrupted [] err)
  unless_cancelled none run = run

  unfoldable pub execute_recovery :
      List CheckResult → List String → String → Act m.env.World Outcome
  unfolding started unless_cancelled
  execute_recovery failure_results failure_reasons status_before = do
    err ← ctx_err m
    unless_cancelled err (do
      saved ← start_recovery failure_results failure_reasons status_before
      outcome ← started saved
      roll_back status_before outcome)

  -- `appendRecoveryExhaustedEventLocked`, for the entry `st`.
  unfoldable pub append_recovery_exhausted :
      MonitorRuntimeState → List CheckResult → List String → Act m.env.World Unit
  append_recovery_exhausted st results reasons = do
    t ← now m
    modify (
        put_state mon (record (stopped (exhausted_because st reasons) st) {
          recovery_exhausted = true;
          cooldown_until = cooldown_end m.time mon t;
        }))
    append m (record (event_of m mon t "recovery_exhausted" "degraded" "failed") {
      reason = exhausted_because st reasons;
      consecutive_failures = st.consecutive_failures;
      recovery_count = st.recovery_count;
      check_results = results;
    })

  -- `markRecoveryExhaustedLocked`.
  unfoldable pub mark_recovery_exhausted :
      MonitorRuntimeState → List CheckResult → List String → Act m.env.World Unit
  mark_recovery_exhausted st results reasons =
      if st.recovery_exhausted
      then modify (put_state mon (stopped (exhausted_reason st) st))
      else append_recovery_exhausted st results reasons

  -- `applyRecoveryOutcomeLocked`, for the entry `st`.
  apply_success : ℤ → MonitorRuntimeState → Outcome → Act m.env.World Unit
  apply_success t st outcome = do
    modify (put_state mon (recovered m.time t outcome.checks st))
    append m (record (event_of m mon t "recovery_succeeded" "recovering" "healthy") {
      recovery_count = st.recovery_count;
      check_results = outcome.checks;
      recovery_results = outcome.actions;
    })

  apply_failure : ℤ → MonitorRuntimeState → Outcome → Act m.env.World Unit
  apply_failure t before outcome = do
    let st = failed m.time t outcome.checks outcome.reasons before
    modify (put_state mon st)
    append m (record (event_of m mon t "recovery_failed" "recovering" "failed") {
      reason = join_reasons outcome.reasons;
      consecutive_failures = st.consecutive_failures;
      recovery_count = st.recovery_count;
      check_results = outcome.checks;
      recovery_results = outcome.actions;
    })
    if recovery_attempts_exhausted st mon
        then append_recovery_exhausted st outcome.checks outcome.reasons
        else pure tt

  unfoldable pub apply_recovery_outcome : MonitorRuntimeState → Outcome → Act m.env.World Unit
  unfolding apply_success apply_failure
  apply_recovery_outcome st outcome = do
    t ← now m
    let st' = attempted m.time mon t outcome.actions st
    if outcome.recovered then apply_success t st' outcome else apply_failure t st' outcome

  -- The last critical section of a recovery; the result is the error of a cancelled context.
  unfoldable pub conclude_recovery : String → Outcome → Act m.env.World (Option String)
  unfolding set_status
  conclude_recovery status_before outcome = do
    acquire m
    st ← gets (ensure_monitor_state mon)
    modify (put_state mon st)
    err ← ctx_err m
    elim err [
      | some e ↦ do set_status status_before; pure (some e)
      | none ↦ do apply_recovery_outcome st outcome; persist_or_log m; pure none
    ]

  abbrev status_or_unknown : Option MonitorRuntimeState → String
  status_or_unknown none = "unknown"
  status_or_unknown (some st) = if is_empty st.status then "unknown" else st.status

  forced_reasons : List String → List String
  forced_reasons reasons = reasons ++ "manual api recovery trigger" ∷ []

  forced : List CheckResult → List String → Act m.env.World (Option String)
  unfolding forced_reasons
  forced results reasons = do
    acquire m
    status_before ← gets (λ sh. status_or_unknown (entry mon.id sh))
    outcome ← execute_recovery results (forced_reasons reasons) status_before
    elim outcome.error [ some e ↦ pure (some e) | none ↦ conclude_recovery status_before outcome ]

  unfoldable pub run_forced_recovery : Act m.env.World (Option String)
  unfolding forced
  run_forced_recovery = do
    found ← evaluate m mon mon.checks
    err ← ctx_err m
    elim err [ some e ↦ pure (some e) | none ↦ forced found.0 found.1 ]
