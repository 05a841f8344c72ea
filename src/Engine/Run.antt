-- ===== src/Engine/Run.antt =====
-- internal/engine/manager.go: the methods that run under a monitor's lock. Each critical section of
-- `m.mu` begins with `acquire`, which lets the other goroutines do what they do; log lines are left
-- out.
use rpi_procmon.Base.{
  String, Bool, true, false, Option, none, some, List, [], ◌∷◌, ◌++◌, ℤ, pos, ◌==◌, if◌then◌else◌,
}
use rpi_procmon.Config.Types.{MonitorConfig, CheckConfig, ActionConfig}
use rpi_procmon.State
use rpi_procmon.State.{CheckResult, ActionResult, MonitorRuntimeState}
use rpi_procmon.Events
use rpi_procmon.Events.{Event}
use rpi_procmon.Engine.Env.{Shared, Manager, Act, pure, ◌>>=◌, ◌>>◌, on_world, modify, gets}
use rpi_procmon.Engine.Monitor.{append_event, event_id, recovered}

-- What `executeRecovery` returns; `completed` is the variable that its deferred function reads.
pub record Outcome : Type 0 where
  pub completed : Bool
  pub actions : List ActionResult
  pub recovered : Bool
  pub checks : List CheckResult
  pub reasons : List String
  pub error : Option String

abbrev pub interrupted : List ActionResult → String → Outcome
interrupted actions err = record {
  completed = false;
  actions = actions;
  recovered = false;
  checks = [];
  reasons = [];
  error = some err;
}

abbrev pub completed : List ActionResult → Bool → List CheckResult → List String → Outcome
completed actions recovered checks reasons = record {
  completed = true;
  actions = actions;
  recovered = recovered;
  checks = checks;
  reasons = reasons;
  error = none;
}

abbrev pub is_nil : List String → Bool
is_nil [] = true
is_nil (r ∷ rs) = false

module _ (m : Manager) where
  -- `m.mu.Lock()`.
  unfoldable pub acquire : Act m.env.World Unit
  acquire s =
      let (shared, world) = m.env.others s.shared s.world in
      (tt, record { shared = shared; world = world })

  abbrev pub now : Act m.env.World ℤ
  now = on_world m.env.now

  abbrev pub ctx_err : Act m.env.World (Option String)
  ctx_err = on_world m.env.ctx_err

  -- `persistLocked`.
  stamped : ℤ → Shared → Shared
  stamped t sh = record sh {
    current = record sh.current {
      version = State.schema_version;
      app_version = m.app_version;
      last_updated_at = m.time.format t;
    };
  }

  history_stamped : Shared → Shared
  history_stamped sh = record sh {
    event_history = record sh.event_history { version = Events.schema_version };
  }

  saved_events : Option String → Act m.env.World (Option String)
  saved_events (some err) = pure (some err)
  saved_events none = do modify (λ sh. record sh { events_dirty = false }); pure none

  save_dirty_events : Bool → Act m.env.World (Option String)
  unfolding saved_events
  save_dirty_events dirty =
      if dirty
      then (do
        history ← gets (λ sh. sh.event_history)
        err ← on_world (m.env.save_events history)
        saved_events err)
      else pure none

  unfoldable pub state_saved : Option String → Act m.env.World (Option String)
  unfolding save_dirty_events history_stamped
  state_saved (some err) = pure (some err)
  state_saved none = do
    modify history_stamped
    dirty ← gets (λ sh. sh.events_dirty)
    save_dirty_events dirty

  unfoldable pub persist : Act m.env.World (Option String)
  unfolding stamped state_saved
  persist = do
    t ← now
    modify (stamped t)
    current ← gets (λ sh. sh.current)
    err ← on_world (m.env.save_state current)
    state_saved err

  -- `persistOrLogLocked`.
  unfoldable pub persist_or_log : Act m.env.World Unit
  persist_or_log = do err ← persist; pure tt

  abbrev pub append : Event → Act m.env.World Unit
  append event = modify (append_event m.cfg.events_max_entries event)

  -- An event of a monitor with no optional field but its statuses.
  unfoldable pub event_of : MonitorConfig → ℤ → String → String → String → Event
  event_of mon at event_type status_before status_after = record {
    id = event_id mon.id at;
    timestamp = m.time.format at;
    monitor_id = mon.id;
    monitor_name = mon.name;
    monitor_type = mon.kind;
    event_type = event_type;
    status_before = status_before;
    status_after = status_after;
    reason = "";
    consecutive_failures = pos 0;
    recovery_count = pos 0;
    check_results = [];
    recovery_results = [];
  }

  -- `evaluateMonitor`: the results in order, and the messages of those that failed.
  or_reason : CheckResult → List String → List String
  or_reason r reasons = if r.success then reasons else r.message ∷ reasons

  unfoldable pub evaluate :
      MonitorConfig → List CheckConfig → Act m.env.World (List CheckResult × List String)
  unfolding or_reason
  evaluate mon [] = pure ([], [])
  evaluate mon (check ∷ checks) = do
    err ← ctx_err
    elim err [
      | some e ↦ pure ([], [])
      | none ↦ do
        r ← on_world (m.env.check mon check)
        rest ← evaluate mon checks
        pure (r ∷ rest.0, or_reason r rest.1)
    ]

  -- The end of `executeRecovery`, after the last action.
  unfoldable pub final_check : MonitorConfig → List ActionResult → Act m.env.World Outcome
  final_check mon results = do
    found ← evaluate mon mon.checks
    err ← ctx_err
    elim err [
      | some e ↦ pure (interrupted results e)
      | none ↦ pure (completed results (is_nil found.1) found.0 found.1)
    ]

  -- The loop of `executeRecovery` over the actions, with the results so far.
  unfoldable pub run_actions :
      MonitorConfig → List ActionConfig → List ActionResult → Act m.env.World Outcome
  unfolding final_check
  run_actions mon [] results = final_check mon results
  run_actions mon (action ∷ actions) results = do
    before ← ctx_err
    elim before [
      | some e ↦ pure (interrupted results e)
      | none ↦ do
        r ← on_world (m.env.act mon action)
        after ← ctx_err
        elim after [
          | some e ↦ pure (interrupted (results ++ r ∷ []) e)
          | none ↦
              if action.kind == "recheck"
              then (do
                found ← evaluate mon mon.checks
                err ← ctx_err
                elim err [
                  | some e ↦ pure (interrupted (results ++ r ∷ []) e)
                  | none ↦
                      if is_nil found.1
                      then pure (completed (results ++ r ∷ []) true found.0 [])
                      else run_actions mon actions (results ++ r ∷ [])
                ])
              else if r.success
              then run_actions mon actions (results ++ r ∷ [])
              else pure (completed (results ++ r ∷ []) false [] (r.message ∷ []))
        ]
    ]
