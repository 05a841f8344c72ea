-- ===== src/Engine/Settle/Cycle.antt =====
-- A check leaves its monitor in a settled status.
use rpi_procmon.Base.{String, ◌≡◌, refl, ap, ◌∙◌, ◌⊎◌, inl, inr, none, some, List, [], ◌∷◌, ℤ}
use rpi_procmon.Config.Types.{MonitorConfig}
use rpi_procmon.State.{CheckResult, MonitorRuntimeState}
use rpi_procmon.Engine.Env.{Shared, Manager, Sys, ◌>>=◌, on_world, modify, gets}
use rpi_procmon.Engine.Monitor.{entry, refreshed_or_new, ensure_monitor_state, healthy, degraded}
use rpi_procmon.Engine.Run.{acquire, evaluate}
use rpi_procmon.Engine.Cycle.{
  begin_check, check_succeeded, check_failed, judged, end_check, run_monitor_cycle,
}
use rpi_procmon.Engine.Invariant.{
  Keeps, Keeps-pure, Keeps-on_world, Keeps-if, IsStable, Keeps-persist_or_log, Keeps-append,
}
use rpi_procmon.Engine.Invariant.Frame.{LeavesEntry}
use rpi_procmon.Engine.Settle.{
  Ends, Ends-keeps, Ends-pure, Ends-if, Ends-bind, Ends-after, Ends-gets, Ends-put, Ends-set_status,
  Ends-known, Ends-adapt, Nothing, HasStatus-IsStable, trivially,
}
use rpi_procmon.Engine.Settle.Recovery.{Settled, Settles-recover}

-- A status that a check may leave: that from before it, or a verdict.
abbrev pub IsSettled : String → String → Type 0
IsSettled before status =
    (status ≡ before) ⊎ (status ≡ "healthy") ⊎ (status ≡ "degraded") ⊎ (status ≡ "failed")

module _ (m : Manager) (mon : MonitorConfig) (leaves : LeavesEntry m mon.id) (before : String) where
  abbrev Left : Shared → Type 0
  Left =
      Settled m mon leaves (IsSettled before) (inr (inl refl)) (inr (inr (inl refl)))
        (inr (inr (inr refl)))

  left : IsStable m Left
  left = HasStatus-IsStable m mon leaves (IsSettled before)

  Ends-check_failed :
      (t : ℤ) (results : List CheckResult) (reasons : List String) (st : MonitorRuntimeState)
      → Ends Nothing (check_failed m mon before t results reasons st) (λ _. Left)
  unfolding check_failed degraded
  Ends-check_failed t results reasons st =
      Ends-bind _ (modify _) _ (Ends-put m mon leaves (IsSettled before) _ (inr (inr (inl refl))))
        λ u.
          Ends-after _ _ (Keeps-append m Left left _)
            λ v. Ends-after _ _ (Keeps-persist_or_log m Left left) λ w. Ends-pure _ (λ sh h. h)

  Ends-check_succeeded :
      (t : ℤ) (results : List CheckResult) (st : MonitorRuntimeState)
      → Ends Nothing (check_succeeded m mon before t results st) (λ _. Left)
  unfolding check_succeeded healthy
  Ends-check_succeeded t results st =
      Ends-bind _ (modify _) _ (Ends-put m mon leaves (IsSettled before) _ (inr (inl refl))) λ u.
        Ends-after _ _ (Keeps-if _ _ _ (Keeps-append m Left left _) (Keeps-pure tt))
          λ v. Ends-keeps (Keeps-persist_or_log m Left left)

  Ends-judged :
      (t : ℤ) (results : List CheckResult) (reasons : List String) (st : MonitorRuntimeState)
      → Ends Nothing (judged m mon before t results reasons st) (λ _. Left)
  unfolding judged
  Ends-judged t results [] st = Ends-check_succeeded t results st
  Ends-judged t results (r ∷ reasons) st =
      Ends-bind _ _ _ (Ends-check_failed t results (r ∷ reasons) st) λ wanted.
        Ends-if wanted _ _
          (Settles-recover m mon leaves (IsSettled before) (inr (inl refl)) (inr (inr (inl refl)))
            (inr (inr (inr refl))) results (r ∷ reasons))
          (Ends-pure tt (λ sh h. h))

  Ends-end_check :
      (start t : ℤ) (results : List CheckResult) (reasons : List String)
      → Ends Nothing (end_check m mon start t before results reasons) (λ _. Left)
  unfolding end_check
  Ends-end_check start t results reasons = Ends-after _ _ (trivially _) λ u.
      Ends-after _ _ (trivially _) λ st. Ends-after _ _ (trivially _) λ v.
        Ends-after _ _ (trivially _) (elim [
          | some e ↦ Ends-set_status m mon leaves (IsSettled before) before (inl refl)
          | none ↦ Ends-judged t results reasons _
        ])

  -- The status that `ensureMonitorStateLocked` finds.
  abbrev Found : Shared → Type 0
  Found sh = (refreshed_or_new mon (entry mon.id sh)).status ≡ before

  Keeps-acquire-Found : Keeps Found (acquire m)
  unfolding acquire
  Keeps-acquire-Found = record {
    at = λ s h. ap (λ o. (refreshed_or_new mon o).status) (leaves s.shared s.world) ∙ h;
  }

  Ends-begin_check :
      (start interval : ℤ) → Ends Found (begin_check m mon start interval) (λ b sh. b ≡ before)
  unfolding begin_check ensure_monitor_state
  Ends-begin_check start interval = Ends-after _ _ Keeps-acquire-Found λ u.
      Ends-bind (λ st sh. st.status ≡ before) (gets _) _ (Ends-gets _ (λ sh h. h))
        λ st. Ends-known λ same.
          Ends-after _ _ (trivially _)
            λ v. Ends-after _ _ (trivially _) λ w. Ends-pure st.status (λ sh h. same)

  Ends-run_monitor_cycle :
      (interval : ℤ) (old : Shared)
      → Found old
      → Ends (λ sh. sh ≡ old) (run_monitor_cycle m mon interval) (λ _ sh. (sh ≡ old) ⊎ Left sh)
  unfolding run_monitor_cycle
  Ends-run_monitor_cycle interval old found = Ends-after _ _ (Keeps-on_world _) (elim [
    | some e ↦ Ends-pure tt (λ sh h. inl h)
    | none ↦ Ends-after _ _ (Keeps-on_world _) λ start.
        Ends-bind (λ b sh. b ≡ before) _ _
          (Ends-adapt (λ sh h. rw h found) (λ b sh h. h) (Ends-begin_check start interval))
          λ b. Ends-known λ same. Ends-adapt (λ sh h. h) (λ _ sh h. inr h) (rest start b same)
  ])
    where
      rest :
          (start : ℤ) (b : String)
          → b ≡ before
          → Ends Nothing
              (evaluate m mon mon.checks >>= λ f.
                on_world m.env.now >>= λ t. end_check m mon start t b f.0 f.1)
              (λ _. Left)
      rest start b same = rw same (
          Ends-after _ _ (trivially _)
            λ f. Ends-after _ _ (trivially _) λ t. Ends-end_check start t f.0 f.1)

-- A check that begins either changes nothing of the shared fields, because its context had ended,
-- or it leaves its monitor with an entry whose status is the one from before the check, "healthy",
-- "degraded" or "failed": so it is "checking" or "recovering" only if it was before. This holds on
-- every path, those of a cancelled context and of a failed write included, if no other goroutine
-- writes the monitor's entry.
pub run_monitor_cycle-IsSettled :
    (m : Manager) (mon : MonitorConfig) (interval : ℤ) (s : Sys m.env.World)
    → LeavesEntry m mon.id
    → let (done, s') = run_monitor_cycle m mon interval s in
      (s'.shared ≡ s.shared)
      ⊎ ((st : MonitorRuntimeState) × (entry mon.id s'.shared ≡ some st)
          × IsSettled (refreshed_or_new mon (entry mon.id s.shared)).status st.status)
run_monitor_cycle-IsSettled m mon interval s leaves =
    (Ends-run_monitor_cycle m mon leaves _ interval s.shared refl).at s refl
