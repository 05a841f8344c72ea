-- ===== src/Engine/Start/Fields.antt =====
-- internal/engine/manager.go: with which fields a monitor starts.
use rpi_procmon.Base.{
  ◌≡◌, refl, String, false, inl, inr, Option, none, some, [], pos, if◌then◌else◌, Bool-cases,
}
use rpi_procmon.Base.Text.{is_empty}
use rpi_procmon.Config.Types.{MonitorConfig, is_enabled}
use rpi_procmon.State.{MonitorRuntimeState}
use rpi_procmon.Engine.Monitor.{new_state, refreshed, refreshed_or_new}
use rpi_procmon.Engine.Start.{start_status, started_from}

-- The fields of a state that follow the configuration.
pub record IsConfigured (mon : MonitorConfig) (st : MonitorRuntimeState) : Type 0 where
  pub id : st.id ≡ mon.id
  pub name : st.name ≡ mon.name
  pub kind : st.kind ≡ mon.kind
  pub enabled : st.enabled ≡ is_enabled mon
  pub interval : st.interval ≡ mon.interval
  pub failure_threshold : st.failure_threshold ≡ mon.failure_threshold
  pub max_recovery_attempts : st.max_recovery_attempts ≡ mon.max_recovery_attempts
  pub cooldown : st.cooldown ≡ mon.cooldown
  pub target : st.target ≡ mon.target
  pub metadata : st.metadata ≡ mon.metadata
  pub checks : st.configured_checks ≡ mon.checks
  pub recoveries : st.configured_recoveries ≡ mon.recovery

-- The fields of a state that remember what happened.
pub record IsKept (old st : MonitorRuntimeState) : Type 0 where
  pub check_started : st.last_check_started_at ≡ old.last_check_started_at
  pub check_finished : st.last_check_finished_at ≡ old.last_check_finished_at
  pub check_duration : st.last_check_duration_ms ≡ old.last_check_duration_ms
  pub next_check : st.next_check_at ≡ old.next_check_at
  pub success : st.last_success_at ≡ old.last_success_at
  pub failure : st.last_failure_at ≡ old.last_failure_at
  pub attempt : st.last_recovery_attempt_at ≡ old.last_recovery_attempt_at
  pub recovered : st.last_recovery_success_at ≡ old.last_recovery_success_at
  pub unrecovered : st.last_recovery_failure_at ≡ old.last_recovery_failure_at
  pub cooldown_until : st.cooldown_until ≡ old.cooldown_until
  pub failures : st.consecutive_failures ≡ old.consecutive_failures
  pub checks : st.check_run_count ≡ old.check_run_count
  pub successes : st.success_count ≡ old.success_count
  pub failed : st.failure_count ≡ old.failure_count
  pub recoveries : st.recovery_count ≡ old.recovery_count
  pub failed_recoveries : st.recovery_failure_count ≡ old.recovery_failure_count
  pub exhausted : st.recovery_exhausted ≡ old.recovery_exhausted
  pub error : st.last_error ≡ old.last_error
  pub reasons : st.last_failure_reasons ≡ old.last_failure_reasons
  pub check_results : st.last_check_results ≡ old.last_check_results
  pub recovery_results : st.last_recovery_results ≡ old.last_recovery_results

-- Nothing happened yet.
pub record IsBlank (st : MonitorRuntimeState) : Type 0 where
  pub times :
      (st.last_check_started_at ≡ "")
      × (st.last_check_finished_at ≡ "")
      × (st.next_check_at ≡ "")
      × (st.last_success_at ≡ "")
      × (st.last_failure_at ≡ "")
      × (st.last_recovery_attempt_at ≡ "")
      × (st.last_recovery_success_at ≡ "")
      × (st.last_recovery_failure_at ≡ "")
      × (st.cooldown_until ≡ "")
  pub counts :
      (st.last_check_duration_ms ≡ pos 0)
      × (st.consecutive_failures ≡ pos 0)
      × (st.check_run_count ≡ pos 0)
      × (st.success_count ≡ pos 0)
      × (st.failure_count ≡ pos 0)
      × (st.recovery_count ≡ pos 0)
      × (st.recovery_failure_count ≡ pos 0)
  pub exhausted : st.recovery_exhausted ≡ false
  pub error : st.last_error ≡ ""
  pub lists :
      (st.last_failure_reasons ≡ [])
      × (st.last_check_results ≡ [])
      × (st.last_recovery_results ≡ [])

-- A state takes over what the old entry remembers, if there is one.
abbrev pub Follows : Option MonitorRuntimeState → MonitorRuntimeState → Type 0
Follows none st = IsBlank st
Follows (some old) st = IsKept old st

-- The status of a monitor that is enabled.
abbrev pub known_status : Option MonitorRuntimeState → String
known_status none = "unknown"
known_status (some old) = if is_empty old.status then "unknown" else old.status

-- How the state of a monitor starts, by its old entry.
pub record IsStart (mon : MonitorConfig) (old : Option MonitorRuntimeState)
    (st : MonitorRuntimeState) : Type 0 where
  pub configured : IsConfigured mon st
  pub follows : Follows old st
  pub status : st.status ≡ (if is_enabled mon then known_status old else "disabled")

start_status-known :
    (mon : MonitorConfig) (old : Option MonitorRuntimeState) (st : MonitorRuntimeState)
    → known_status old ≡ (if is_empty st.status then "unknown" else st.status)
    → start_status (is_enabled mon) st.status
      ≡ (if is_enabled mon then known_status old else "disabled")
start_status-known mon old st same = elim (Bool-cases (is_enabled mon)) [
  | inr off ↦ rw off refl
  | inl on ↦ elim (Bool-cases (is_empty st.status)) [
    | inl empty ↦ rw (on, same, empty) refl
    | inr text ↦ rw (on, same, text) refl
  ]
]

pub started_from-IsStart :
    (mon : MonitorConfig) (old : Option MonitorRuntimeState)
    → IsStart mon old (started_from mon (refreshed_or_new mon old))
unfolding new_state refreshed
started_from-IsStart mon none = record {
  configured = record {
    id = refl;
    name = refl;
    kind = refl;
    enabled = refl;
    interval = refl;
    failure_threshold = refl;
    max_recovery_attempts = refl;
    cooldown = refl;
    target = refl;
    metadata = refl;
    checks = refl;
    recoveries = refl;
  };
  follows = record {
    times = (refl, refl, refl, refl, refl, refl, refl, refl, refl);
    counts = (refl, refl, refl, refl, refl, refl, refl);
    exhausted = refl;
    error = refl;
    lists = (refl, refl, refl);
  };
  status = start_status-known mon none (new_state mon) refl;
}
started_from-IsStart mon (some old) = record {
  configured = record {
    id = refl;
    name = refl;
    kind = refl;
    enabled = refl;
    interval = refl;
    failure_threshold = refl;
    max_recovery_attempts = refl;
    cooldown = refl;
    target = refl;
    metadata = refl;
    checks = refl;
    recoveries = refl;
  };
  follows = record {
    check_started = refl;
    check_finished = refl;
    check_duration = refl;
    next_check = refl;
    success = refl;
    failure = refl;
    attempt = refl;
    recovered = refl;
    unrecovered = refl;
    cooldown_until = refl;
    failures = refl;
    checks = refl;
    successes = refl;
    failed = refl;
    recoveries = refl;
    failed_recoveries = refl;
    exhausted = refl;
    error = refl;
    reasons = refl;
    check_results = refl;
    recovery_results = refl;
  };
  status = start_status-known mon (some old) old refl;
}
