-- ===== src/Engine/Settle/Recovery.antt =====
-- A recovery leaves its monitor in a settled status.
use rpi_procmon.Base.{
  String, Bool, true, false, ◌≡◌, refl, sym, ◌∙◌, ◌⊎◌, inl, inr, Option, none, some, List, [], ◌∷◌,
  ◌++◌, ◌==◌, if◌then◌else◌,
}
use mathlib.Core.Option.{some-ne-none}
use rpi_procmon.Config.Types.{MonitorConfig, ActionConfig}
use rpi_procmon.State.{CheckResult, ActionResult, MonitorRuntimeState}
use rpi_procmon.Engine.Env.{Shared, Manager, Act, pure, ◌>>=◌, modify, gets}
use rpi_procmon.Engine.Monitor.{
  refreshed, ensure_monitor_state, put_state, recovered, failed, stopped,
}
use rpi_procmon.Engine.Run.{Outcome, acquire, final_check, run_actions}
use rpi_procmon.Engine.Recover.{
  set_status, roll_back, started, execute_recovery, append_recovery_exhausted,
  mark_recovery_exhausted, apply_recovery_outcome, conclude_recovery,
}
use rpi_procmon.Engine.Cycle.{after_recovery, recover}
use rpi_procmon.Engine.Invariant.{
  Keeps, Keeps-on_world, IsStable, Keeps-acquire, Keeps-persist_or_log, Keeps-append,
}
use rpi_procmon.Engine.Invariant.Frame.{LeavesEntry}
use rpi_procmon.Engine.Settle.{
  Ends, Ends-keeps, Ends-pure, Ends-if, Ends-bind, Ends-after, Ends-gets, Ends-put, Ends-set_status,
  Ends-known, Ends-forget, Nothing, HasStatus, HasStatus-IsStable, trivially,
}

-- An outcome that is complete has no error.
abbrev IsCoherent : Outcome → Type 0
IsCoherent o = o.completed ≡ true → o.error ≡ none

module _ (m : Manager) (mon : MonitorConfig) where
  abbrev Coherently : Outcome → Shared → Type 0
  Coherently o sh = IsCoherent o

  Ends-coherent : (o : Outcome) → IsCoherent o → Ends {W = m.env.World} Nothing (pure o) Coherently
  Ends-coherent o c = Ends-pure o (λ sh h. c)

  Ends-final_check :
      (results : List ActionResult) → Ends Nothing (final_check m mon results) Coherently
  unfolding final_check
  Ends-final_check results = Ends-after _ _ (trivially _) λ found.
      Ends-after _ _ (trivially _)
        (elim [ none ↦ Ends-coherent _ (λ h. refl) | some e ↦ Ends-coherent _ (λ h. cc) ])

  Ends-run_actions :
      (actions : List ActionConfig) (results : List ActionResult)
      → Ends Nothing (run_actions m mon actions results) Coherently
  unfolding run_actions
  Ends-run_actions [] results = Ends-final_check results
  Ends-run_actions (action ∷ actions) results = Ends-after _ _ (trivially _) (elim [
    | some e ↦ Ends-coherent _ (λ h. cc)
    | none ↦ Ends-after _ _ (trivially _) λ r. Ends-after _ _ (trivially _) (elim [
      | some e ↦ Ends-coherent _ (λ h. cc)
      | none ↦
          let more = Ends-run_actions actions (results ++ r ∷ []) in
          Ends-if (action.kind == "recheck") _ _
            (Ends-after _ _ (trivially _) λ found. Ends-after _ _ (trivially _) (elim [
              | some e ↦ Ends-coherent _ (λ h. cc)
              | none ↦ Ends-if _ _ _ (Ends-coherent _ (λ h. refl)) more
            ]))
            (Ends-if r.success _ _ more (Ends-coherent _ (λ h. refl)))
    ])
  ])

  Ends-started : (saved : Option String) → Ends Nothing (started m mon saved) Coherently
  unfolding started
  Ends-started none = Ends-run_actions mon.recovery []
  Ends-started (some e) = Ends-coherent _ (λ h. cc)

module _ (m : Manager) (mon : MonitorConfig) (leaves : LeavesEntry m mon.id) (S : String → Type 0)
    (is_healthy : S "healthy") (is_degraded : S "degraded") (is_failed : S "failed") where
  abbrev pub Settled : Shared → Type 0
  Settled = HasStatus m mon leaves S

  abbrev pub Settles : {A : Type 0} → (Shared → Type 0) → Act m.env.World A → Type 0
  Settles P p = Ends P p (λ _. Settled)

  pub settled : IsStable m Settled
  settled = HasStatus-IsStable m mon leaves S

  status-ensure : (sh : Shared) → Settled sh → S (ensure_monitor_state mon sh).status
  unfolding ensure_monitor_state refreshed
  status-ensure sh (st, found, good) = rw found good

  -- A write of a settled status, and what comes after it.
  pub Settles-put :
      {A : Type 0} (st : MonitorRuntimeState) (f : Unit → Act m.env.World A)
      → S st.status
      → ((u : Unit) → Keeps Settled (f u))
      → Settles Nothing (modify (put_state mon st) >>= f)
  Settles-put st f good keeps =
      Ends-bind _ (modify _) _ (Ends-put m mon leaves S st good) λ u. Ends-keeps (keeps u)

  Settles-append_recovery_exhausted :
      (st : MonitorRuntimeState) (results : List CheckResult) (reasons : List String)
      → Settles Nothing (append_recovery_exhausted m mon st results reasons)
  unfolding append_recovery_exhausted stopped
  Settles-append_recovery_exhausted st results reasons =
      Ends-after _ _ (trivially _)
        λ t. Settles-put _ _ is_failed λ u. Keeps-append m Settled settled _

  Settles-apply_recovery_outcome :
      (st : MonitorRuntimeState) (outcome : Outcome)
      → Settles Nothing (apply_recovery_outcome m mon st outcome)
  unfolding apply_recovery_outcome recovered failed
  Settles-apply_recovery_outcome st outcome = Ends-after _ _ (trivially _) λ t.
      Ends-if outcome.recovered _ _
        (Settles-put _ _ is_healthy λ u. Keeps-append m Settled settled _)
        (Ends-bind _ (modify _) _ (Ends-put m mon leaves S _ is_failed) λ u.
          Ends-after _ _ (Keeps-append m Settled settled _) λ v.
            Ends-if _ _ _
              (Ends-forget (Settles-append_recovery_exhausted _ outcome.checks outcome.reasons))
              (Ends-pure tt (λ sh h. h)))

  Settles-conclude_recovery :
      (outcome : Outcome) → Settles Nothing (conclude_recovery m mon "degraded" outcome)
  unfolding conclude_recovery
  Settles-conclude_recovery outcome = Ends-after _ _ (trivially _) λ u.
      Ends-after _ _ (trivially _) λ st. Ends-after _ _ (trivially _) λ v.
        Ends-after _ _ (trivially _) (elim [
          | some e ↦
              Ends-bind _ _ _ (Ends-set_status m mon leaves S "degraded" is_degraded)
                λ w. Ends-pure _ (λ sh h. h)
          | none ↦ Ends-bind _ _ _ (Settles-apply_recovery_outcome st outcome) λ w.
              Ends-after _ _ (Keeps-persist_or_log m Settled settled) λ x. Ends-pure _ (λ sh h. h)
        ])

  -- An interrupted recovery leaves a settled status; a complete one is followed by its conclusion.
  abbrev Rolled : Outcome → Shared → Type 0
  Rolled o sh = (o.error ≡ none) ⊎ Settled sh

  Ends-execute_recovery :
      (results : List CheckResult) (reasons : List String)
      → Ends Settled (execute_recovery m mon results reasons "degraded") Rolled
  unfolding execute_recovery roll_back
  Ends-execute_recovery results reasons = Ends-after _ _ (Keeps-on_world _) (elim [
    | some e ↦ Ends-pure _ (λ sh h. inr h)
    | none ↦ Ends-forget (
        Ends-after _ _ (trivially _) λ saved.
          Ends-bind _ _ _ (Ends-started m mon saved)
            λ outcome. Ends-known λ coherent. rolled outcome coherent outcome.completed refl)
  ])
    where
      rolled :
          (o : Outcome) (coherent : IsCoherent o) (b : Bool)
          → o.completed ≡ b
          → Ends Nothing
              (if b
                then pure o
                else (acquire m >>= λ _. set_status m mon "degraded" >>= λ _. pure o))
              Rolled
      rolled o coherent true e = Ends-pure o (λ sh h. inl (coherent e))
      rolled o coherent false e = Ends-after _ _ (trivially _) λ u.
          Ends-bind _ _ _ (Ends-set_status m mon leaves S "degraded" is_degraded)
            λ v. Ends-pure o (λ sh h. inr h)

  Settles-after_recovery : (o : Outcome) → Ends (Rolled o) (after_recovery m mon o) (λ _. Settled)
  unfolding after_recovery
  Settles-after_recovery o = go o.error refl
    where
      go :
          (err : Option String)
          → o.error ≡ err
          → Ends
              (Rolled o)
              (elim err [
                | some e ↦ pure tt
                | none ↦ conclude_recovery m mon "degraded" o >>= λ late. pure tt
              ])
              (λ _. Settled)
      go none e =
          Ends-forget
            (Ends-bind _ _ _ (Settles-conclude_recovery o) λ late. Ends-pure tt (λ sh h. h))
      go (some x) e = Ends-pure tt (λ sh h. elim h [
        | inl no_error ↦ absurd (some-ne-none x (sym e ∙ no_error))
        | inr rolled ↦ rolled
      ])

  pub Settles-recover :
      (results : List CheckResult) (reasons : List String)
      → Settles Settled (recover m mon results reasons)
  unfolding recover mark_recovery_exhausted stopped
  Settles-recover results reasons = Ends-after _ _ (Keeps-acquire m Settled settled) λ u.
      Ends-bind (λ st sh. S st.status) (gets _) _ (Ends-gets _ status-ensure)
        λ st. Ends-known λ good. Ends-bind _ (modify _) _ (Ends-put m mon leaves S st good) λ v.
          Ends-if _ _ _
            (Ends-bind _ _ _
              (Ends-if st.recovery_exhausted _ _ (Ends-put m mon leaves S _ is_failed)
                (Ends-forget (Settles-append_recovery_exhausted st results reasons)))
              λ w. Ends-keeps (Keeps-persist_or_log m Settled settled))
            (Ends-bind Rolled _ _ (Ends-execute_recovery results reasons)
              λ outcome. Settles-after_recovery outcome)
