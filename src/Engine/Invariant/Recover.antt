-- ===== src/Engine/Invariant/Recover.antt =====
-- `executeRecovery` and what follows it keep an invariant.
use rpi_procmon.Base.{String, Option, none, some, List, [], ◌∷◌, ◌++◌, ◌==◌}
use rpi_procmon.Config.Types.{MonitorConfig, ActionConfig}
use rpi_procmon.State.{CheckResult, ActionResult, MonitorRuntimeState}
use rpi_procmon.Engine.Env.{Shared, Manager, pure, on_world, modify, gets}
use rpi_procmon.Engine.Run.{Outcome, acquire, evaluate, final_check, run_actions}
use rpi_procmon.Engine.Recover.{
  set_status, roll_back, start_recovery, started, execute_recovery, append_recovery_exhausted,
  mark_recovery_exhausted, apply_recovery_outcome, conclude_recovery, run_forced_recovery,
}
use rpi_procmon.Engine.Invariant.{
  Keeps, Keeps-pure, Keeps-on_world, Keeps-read, Keeps-if, Keeps-bind, IsInvariant, Keeps-acquire,
  Keeps-persist, Keeps-persist_or_log, Keeps-evaluate, Keeps-entry, Keeps-put, Keeps-append,
}

module _ (m : Manager) (mon : MonitorConfig) (P : Shared → Type 0)
    (Good : MonitorRuntimeState → Type 0) (inv : IsInvariant m mon P Good) where
  Keeps-final_check : (results : List ActionResult) → Keeps P (final_check m mon results)
  unfolding final_check
  Keeps-final_check results =
      Keeps-bind (evaluate m mon mon.checks) _ (Keeps-evaluate m P inv.stable mon mon.checks)
        λ found.
          Keeps-bind (on_world m.env.ctx_err) _ (Keeps-on_world _)
            (elim [ none ↦ Keeps-pure _ | some e ↦ Keeps-pure _ ])

  Keeps-run_actions :
      (actions : List ActionConfig) (results : List ActionResult)
      → Keeps P (run_actions m mon actions results)
  unfolding run_actions
  Keeps-run_actions [] results = Keeps-final_check results
  Keeps-run_actions (action ∷ actions) results =
      Keeps-bind (on_world m.env.ctx_err) _ (Keeps-on_world _) (elim [
        | some e ↦ Keeps-pure _
        | none ↦ Keeps-bind (on_world (m.env.act mon action)) _ (Keeps-on_world _) λ r.
            Keeps-bind (on_world m.env.ctx_err) _ (Keeps-on_world _) (elim [
              | some e ↦ Keeps-pure _
              | none ↦
                  let more = Keeps-run_actions actions (results ++ r ∷ []) in
                  Keeps-if (action.kind == "recheck") _ _
                    (Keeps-bind (evaluate m mon mon.checks) _
                      (Keeps-evaluate m P inv.stable mon mon.checks)
                      λ found. Keeps-bind (on_world m.env.ctx_err) _ (Keeps-on_world _) (elim [
                        | some e ↦ Keeps-pure _
                        | none ↦ Keeps-if _ _ _ (Keeps-pure _) more
                      ]))
                    (Keeps-if r.success _ _ more (Keeps-pure _))
            ])
      ])

  pub Keeps-set_status : (status : String) → Keeps P (set_status m mon status)
  unfolding set_status
  Keeps-set_status status = Keeps-entry m mon P Good inv _ λ st good.
      Keeps-bind (modify _) _ (Keeps-put m mon P Good inv _ (inv.kept.status status st good))
        λ u. Keeps-persist_or_log m P inv.stable

  Keeps-roll_back : (status : String) (outcome : Outcome) → Keeps P (roll_back m mon status outcome)
  unfolding roll_back
  Keeps-roll_back status outcome = Keeps-if outcome.completed _ _ (Keeps-pure outcome) (
      Keeps-bind (acquire m) _ (Keeps-acquire m P inv.stable) λ u.
        Keeps-bind (set_status m mon status) _ (Keeps-set_status status) λ v. Keeps-pure outcome)

  Keeps-start_recovery :
      (results : List CheckResult) (reasons : List String) (status : String)
      → Keeps P (start_recovery m mon results reasons status)
  unfolding start_recovery
  Keeps-start_recovery results reasons status =
      Keeps-bind (acquire m) _ (Keeps-acquire m P inv.stable) λ u.
        Keeps-entry m mon P Good inv _ λ st good.
          Keeps-bind (on_world m.env.now) _ (Keeps-on_world _) λ t.
            Keeps-bind (modify _) _ (Keeps-put m mon P Good inv _ (inv.kept.recovering t st good))
              λ v.
                Keeps-bind (modify _) _ (Keeps-append m P inv.stable _)
                  λ w. Keeps-persist m P inv.stable

  pub Keeps-execute_recovery :
      (results : List CheckResult) (reasons : List String) (status : String)
      → Keeps P (execute_recovery m mon results reasons status)
  unfolding execute_recovery
  Keeps-execute_recovery results reasons status =
      Keeps-bind (on_world m.env.ctx_err) _ (Keeps-on_world _) (elim [
        | some e ↦ Keeps-pure _
        | none ↦
            Keeps-bind (start_recovery m mon results reasons status) _
              (Keeps-start_recovery results reasons status)
              λ saved. Keeps-bind _ _ (go saved) λ outcome. Keeps-roll_back status outcome
      ])
    where
      go : (saved : Option String) → Keeps P (started m mon saved)
      go none = Keeps-run_actions mon.recovery []
      go (some e) = Keeps-pure _

  Keeps-append_recovery_exhausted :
      (st : MonitorRuntimeState) (results : List CheckResult) (reasons : List String)
      → Good st
      → Keeps P (append_recovery_exhausted m mon st results reasons)
  unfolding append_recovery_exhausted
  Keeps-append_recovery_exhausted st results reasons good =
      Keeps-bind (on_world m.env.now) _ (Keeps-on_world _) λ t.
        Keeps-bind (modify _) _ (Keeps-put m mon P Good inv _ (inv.kept.exhausted _ t st good))
          λ u. Keeps-append m P inv.stable _

  pub Keeps-mark_recovery_exhausted :
      (st : MonitorRuntimeState) (results : List CheckResult) (reasons : List String)
      → Good st
      → Keeps P (mark_recovery_exhausted m mon st results reasons)
  unfolding mark_recovery_exhausted
  Keeps-mark_recovery_exhausted st results reasons good =
      Keeps-if st.recovery_exhausted _ _ (Keeps-put m mon P Good inv _ (inv.kept.stopped _ st good))
        (Keeps-append_recovery_exhausted st results reasons good)

  Keeps-apply_recovery_outcome :
      (st : MonitorRuntimeState) (outcome : Outcome)
      → Good st
      → Keeps P (apply_recovery_outcome m mon st outcome)
  unfolding apply_recovery_outcome
  Keeps-apply_recovery_outcome st outcome good =
      Keeps-bind (on_world m.env.now) _ (Keeps-on_world _) λ t.
        let lost = inv.kept.failed t outcome.checks outcome.reasons outcome.actions st good in
        Keeps-if outcome.recovered _ _
          (Keeps-bind (modify _) _
            (Keeps-put m mon P Good inv _
              (inv.kept.recovered t outcome.checks outcome.actions st good))
            λ u. Keeps-append m P inv.stable _)
          (Keeps-bind (modify _) _ (Keeps-put m mon P Good inv _ lost) λ u.
            Keeps-bind (modify _) _ (Keeps-append m P inv.stable _) λ v.
              Keeps-if _ _ _ (Keeps-append_recovery_exhausted _ outcome.checks outcome.reasons lost)
                (Keeps-pure tt))

  pub Keeps-conclude_recovery :
      (status : String) (outcome : Outcome) → Keeps P (conclude_recovery m mon status outcome)
  unfolding conclude_recovery
  Keeps-conclude_recovery status outcome =
      Keeps-bind (acquire m) _ (Keeps-acquire m P inv.stable) λ u.
        Keeps-entry m mon P Good inv _ λ st good.
          Keeps-bind (modify _) _ (Keeps-put m mon P Good inv st good) λ v.
            Keeps-bind (on_world m.env.ctx_err) _ (Keeps-on_world _) (elim [
              | some e ↦
                  Keeps-bind (set_status m mon status) _ (Keeps-set_status status) λ w. Keeps-pure _
              | none ↦
                  Keeps-bind (apply_recovery_outcome m mon st outcome) _
                    (Keeps-apply_recovery_outcome st outcome good)
                    λ w. Keeps-bind _ _ (Keeps-persist_or_log m P inv.stable) λ x. Keeps-pure _
            ])

  pub Keeps-run_forced_recovery : Keeps P (run_forced_recovery m mon)
  unfolding run_forced_recovery
  Keeps-run_forced_recovery =
      Keeps-bind (evaluate m mon mon.checks) _ (Keeps-evaluate m P inv.stable mon mon.checks)
        λ found. Keeps-bind (on_world m.env.ctx_err) _ (Keeps-on_world _) (elim [
          | some e ↦ Keeps-pure _
          | none ↦ Keeps-bind (acquire m) _ (Keeps-acquire m P inv.stable) λ u.
              Keeps-bind (gets _) _ (Keeps-read _) λ status.
                Keeps-bind _ _ (Keeps-execute_recovery found.0 _ status)
                  λ outcome. after status outcome outcome.error
        ])
    where
      after :
          (status : String) (outcome : Outcome) (err : Option String)
          → Keeps P
              (elim err [ some e ↦ pure (some e) | none ↦ conclude_recovery m mon status outcome ])
      after status outcome none = Keeps-conclude_recovery status outcome
      after status outcome (some e) = Keeps-pure _
