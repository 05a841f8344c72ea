-- ===== src/Engine/Invariant/Cycle.antt =====
-- `runMonitorCycle` keeps an invariant.
use rpi_procmon.Base.{String, Option, none, some, List, [], ◌∷◌, ℤ}
use rpi_procmon.Config.Types.{MonitorConfig}
use rpi_procmon.State.{CheckResult, MonitorRuntimeState}
use rpi_procmon.Engine.Env.{Shared, Manager, pure, ◌>>=◌, on_world, modify}
use rpi_procmon.Engine.Monitor.{checked}
use rpi_procmon.Engine.Run.{Outcome, acquire}
use rpi_procmon.Engine.Recover.{conclude_recovery}
use rpi_procmon.Engine.Cycle.{
  begin_check, check_succeeded, check_failed, recover, judged, end_check, run_monitor_cycle,
}
use rpi_procmon.Engine.Invariant.{
  Keeps, Keeps-pure, Keeps-on_world, Keeps-if, Keeps-bind, IsInvariant, Keeps-acquire,
  Keeps-persist_or_log, Keeps-evaluate, Keeps-entry, Keeps-put, Keeps-append,
}
use rpi_procmon.Engine.Invariant.Recover.{
  Keeps-set_status, Keeps-execute_recovery, Keeps-mark_recovery_exhausted, Keeps-conclude_recovery,
}

module _ (m : Manager) (mon : MonitorConfig) (P : Shared → Type 0)
    (Good : MonitorRuntimeState → Type 0) (inv : IsInvariant m mon P Good) where
  Keeps-begin_check : (start interval : ℤ) → Keeps P (begin_check m mon start interval)
  unfolding begin_check
  Keeps-begin_check start interval = Keeps-bind (acquire m) _ (Keeps-acquire m P inv.stable) λ u.
      Keeps-entry m mon P Good inv _ λ st good.
        Keeps-bind (modify _) _
          (Keeps-put m mon P Good inv _ (inv.kept.checking start interval st good))
          λ v. Keeps-bind _ _ (Keeps-persist_or_log m P inv.stable) λ w. Keeps-pure _

  module _ (status : String) (t ms : ℤ) (results : List CheckResult) (st : MonitorRuntimeState)
      (good : Good st) where
    Keeps-check_succeeded :
        Keeps P (check_succeeded m mon status t results (checked m.time t ms results st))
    unfolding check_succeeded
    Keeps-check_succeeded =
        Keeps-bind (modify _) _
          (Keeps-put m mon P Good inv _ (inv.kept.healthy t ms results st good))
          λ u.
            Keeps-bind _ _ (Keeps-if _ _ _ (Keeps-append m P inv.stable _) (Keeps-pure tt))
              λ v. Keeps-persist_or_log m P inv.stable

    Keeps-check_failed :
        (reasons : List String)
        → Keeps P (check_failed m mon status t results reasons (checked m.time t ms results st))
    unfolding check_failed
    Keeps-check_failed reasons =
        Keeps-bind (modify _) _
          (Keeps-put m mon P Good inv _ (inv.kept.degraded t ms results reasons st good))
          λ u.
            Keeps-bind (modify _) _ (Keeps-append m P inv.stable _)
              λ v. Keeps-bind _ _ (Keeps-persist_or_log m P inv.stable) λ w. Keeps-pure _

  Keeps-recover :
      (results : List CheckResult) (reasons : List String) → Keeps P (recover m mon results reasons)
  unfolding recover
  Keeps-recover results reasons = Keeps-bind (acquire m) _ (Keeps-acquire m P inv.stable) λ u.
      Keeps-entry m mon P Good inv _ λ st good.
        Keeps-bind (modify _) _ (Keeps-put m mon P Good inv st good) λ v.
          Keeps-if _ _ _
            (Keeps-bind _ _ (Keeps-mark_recovery_exhausted m mon P Good inv st results reasons good)
              λ w. Keeps-persist_or_log m P inv.stable)
            (Keeps-bind _ _ (Keeps-execute_recovery m mon P Good inv results reasons "degraded")
              λ outcome. after outcome outcome.error)
    where
      after :
          (outcome : Outcome) (err : Option String)
          → Keeps P (elim err [
            | some e ↦ pure tt
            | none ↦ conclude_recovery m mon "degraded" outcome >>= λ late. pure tt
          ])
      after outcome none =
          Keeps-bind _ _ (Keeps-conclude_recovery m mon P Good inv "degraded" outcome)
            λ late. Keeps-pure tt
      after outcome (some e) = Keeps-pure tt

  Keeps-judged :
      (status : String) (t ms : ℤ) (results : List CheckResult) (reasons : List String)
      (st : MonitorRuntimeState)
      → Good st
      → Keeps P (judged m mon status t results reasons (checked m.time t ms results st))
  unfolding judged
  Keeps-judged status t ms results [] st good = Keeps-check_succeeded status t ms results st good
  Keeps-judged status t ms results (r ∷ reasons) st good =
      Keeps-bind _ _ (Keeps-check_failed status t ms results st good (r ∷ reasons))
        λ wanted. Keeps-if wanted _ _ (Keeps-recover results (r ∷ reasons)) (Keeps-pure tt)

  Keeps-end_check :
      (start t : ℤ) (status : String) (results : List CheckResult) (reasons : List String)
      → Keeps P (end_check m mon start t status results reasons)
  unfolding end_check
  Keeps-end_check start t status results reasons =
      Keeps-bind (acquire m) _ (Keeps-acquire m P inv.stable) λ u.
        Keeps-entry m mon P Good inv _ λ st good.
          Keeps-bind (modify _) _ (Keeps-put m mon P Good inv st good) λ v.
            Keeps-bind (on_world m.env.ctx_err) _ (Keeps-on_world _) (elim [
              | some e ↦ Keeps-set_status m mon P Good inv status
              | none ↦ Keeps-judged status t _ results reasons st good
            ])

  pub Keeps-run_monitor_cycle : (interval : ℤ) → Keeps P (run_monitor_cycle m mon interval)
  unfolding run_monitor_cycle
  Keeps-run_monitor_cycle interval =
      Keeps-bind (on_world m.env.ctx_err) _ (Keeps-on_world _) (elim [
        | some e ↦ Keeps-pure tt
        | none ↦ Keeps-bind (on_world m.env.now) _ (Keeps-on_world _) λ start.
            Keeps-bind _ _ (Keeps-begin_check start interval) λ status.
              Keeps-bind _ _ (Keeps-evaluate m P inv.stable mon mon.checks) λ found.
                Keeps-bind (on_world m.env.now) _ (Keeps-on_world _)
                  λ t. Keeps-end_check start t status found.0 found.1
      ])
