-- ===== src/Engine/Recover/Ran.antt =====
-- internal/engine/manager.go: which recovery actions `executeRecovery` runs.
use rpi_procmon.Base.{
  arith, String, ◌≡◌, refl, sym, ◌∙◌, Bool, true, false, ◌||◌, Option, none, some, List, [], ◌∷◌,
  ◌++◌, ◌==◌, if◌then◌else◌, ap, subst, Bool-cases, inl, inr,
}
use rpi_procmon.Config.Types.{MonitorConfig, ActionConfig}
use rpi_procmon.State.{CheckResult, ActionResult}
use mathlib.Core.List.{append-nil, append_assoc}
use rpi_procmon.Engine.Env.{Manager, Sys, Act, pure, on_world, ◌>>=◌}
use rpi_procmon.Engine.Run.{Outcome, run_actions, final_check, is_nil}
use rpi_procmon.Engine.Recover.{execute_recovery, roll_back, started}
use rpi_procmon.Engine.Recover.Quiet.{
  Ran, IsLog, Quiet, Quiet-on_world, Quiet-evaluate, Quiet-roll_back, Quiet-start_recovery,
}
use rpi_procmon.Engine.Recover.Results.{
  IsRun, IsRun-interrupted, IsRun-completed, IsRun-cons, IsRun-last,
}

module _ (m : Manager) (mon : MonitorConfig) (log : m.env.World → List Ran)
    (laws : IsLog m mon log) where
  -- After the runs `done`, the method adds those that make it a recovery.
  record Runs (actions : List ActionConfig) (before : List ActionResult) (done : List Ran)
      (p : Act m.env.World Outcome) : Type 0 where
    at :
        (s : Sys m.env.World)
        → (ran : List Ran) × (log (p s).1.world ≡ log s.world ++ ran)
          × IsRun actions before (done ++ ran) (p s).0

  Runs-pure :
      (actions : List ActionConfig) (before : List ActionResult) (done : List Ran) (o : Outcome)
      → IsRun actions before (done ++ []) o
      → Runs actions before done (pure o)
  unfolding pure
  Runs-pure actions before done o run = record {
    at = λ s. ([], sym (append-nil (log s.world)), run);
  }

  module _ {actions : List ActionConfig} {before : List ActionResult} {done : List Ran} where
    Runs-after :
        {A : Type 0} (p : Act m.env.World A) (f : A → Act m.env.World Outcome)
        → Quiet log p
        → ((a : A) → Runs actions before done (f a))
        → Runs actions before done (p >>= f)
    unfolding ◌>>=◌
    Runs-after p f quiet rest = record {
      at = λ s.
          let (ran, logged, run) = (rest (p s).0).at (p s).1 in
          (ran, logged ∙ ap (λ (before : List Ran). before ++ ran) (quiet.at s), run);
    }

    Runs-cases :
        (b : Bool) (p q : Act m.env.World Outcome)
        → (b ≡ true → Runs actions before done p)
        → (b ≡ false → Runs actions before done q)
        → Runs actions before done (if b then p else q)
    Runs-cases true p q kp kq = kp refl
    Runs-cases false p q kp kq = kq refl

    -- What is done after a recovery.
    Runs-then :
        (p : Act m.env.World Outcome) (f : Outcome → Act m.env.World Outcome)
        → Runs actions before done p
        → ((o : Outcome) → Quiet log (f o))
        → ((o : Outcome) (s : Sys m.env.World) → (f o s).0 ≡ o)
        → Runs actions before done (p >>= f)
    unfolding ◌>>=◌
    Runs-then p f runs quiet same = record {
      at = λ s.
          let (ran, logged, run) = runs.at s in
          (
            ran,
            (quiet (p s).0).at (p s).1 ∙ logged,
            subst (IsRun actions before (done ++ ran)) (sym (same (p s).0 (p s).1)) run,
          );
    }

  -- One action is run.
  Runs-act :
      (actions : List ActionConfig) (before : List ActionResult) (a : ActionConfig)
      (f : ActionResult → Act m.env.World Outcome)
      → ((r : ActionResult) → Runs actions before ((a, r) ∷ []) (f r))
      → Runs actions before [] (on_world (m.env.act mon a) >>= f)
  unfolding ◌>>=◌ on_world
  Runs-act actions before a f rest = record {
    at = λ s.
        let (r, w) = m.env.act mon a s.world in
        let (ran, logged, run) = (rest r).at (record s { world = w }) in
        (
          (a, r) ∷ ran,
          logged
              ∙ ap (λ (before : List Ran). before ++ ran) (laws.act a s.world)
              ∙ append_assoc (log s.world) ((a, r) ∷ []) ran,
          run,
        );
  }

  Quiet-ctx_err : Quiet log (on_world m.env.ctx_err)
  Quiet-ctx_err = Quiet-on_world log m.env.ctx_err laws.ctx_err

  Runs-final_check : (before : List ActionResult) → Runs [] before [] (final_check m mon before)
  unfolding final_check
  Runs-final_check before = Runs-after _ _ (Quiet-evaluate m mon log laws mon.checks) λ found.
      Runs-after _ _ Quiet-ctx_err (elim [
        | none ↦ Runs-pure _ _ _ _ (IsRun-completed [] before _ _ _ refl)
        | some e ↦ Runs-pure _ _ _ _ (IsRun-interrupted [] before e)
      ])

  module _ (a : ActionConfig) (actions : List ActionConfig) (before : List ActionResult)
      (r : ActionResult) where
    Runs-stop :
        (o : Outcome)
        → IsRun [] (before ++ r ∷ []) [] o
        → Runs (a ∷ actions) before ((a, r) ∷ []) (pure o)
    Runs-stop o run = Runs-pure _ _ _ o (IsRun-last a actions before r [] o run)

    Runs-more :
        (p : Act m.env.World Outcome)
        → (a.kind == "recheck" || r.success) ≡ true
        → Runs actions (before ++ r ∷ []) [] p
        → Runs (a ∷ actions) before ((a, r) ∷ []) p
    Runs-more p go_on runs = record {
      at = λ s.
          let (ran, logged, run) = runs.at s in
          (ran, logged, IsRun-cons a actions before r ran (p s).0 go_on run);
    }

  Runs-run_actions :
      (actions : List ActionConfig) (before : List ActionResult)
      → Runs actions before [] (run_actions m mon actions before)
  unfolding run_actions
  Runs-run_actions [] before = Runs-final_check before
  Runs-run_actions (a ∷ actions) before = Runs-after _ _ Quiet-ctx_err (elim [
    | some e ↦ Runs-pure _ _ _ _ (IsRun-interrupted (a ∷ actions) before e)
    | none ↦ Runs-act (a ∷ actions) before a _ λ r. Runs-after _ _ Quiet-ctx_err (elim [
      | some e ↦ Runs-stop a actions before r _ (IsRun-interrupted [] _ e)
      | none ↦
          Runs-cases (a.kind == "recheck") _ _
            (λ recheck. Runs-after _ _ (Quiet-evaluate m mon log laws mon.checks) λ found.
              Runs-after _ _ Quiet-ctx_err (elim [
                | some e ↦ Runs-stop a actions before r _ (IsRun-interrupted [] _ e)
                | none ↦
                    Runs-cases (is_nil found.1) _ _
                      (λ fine.
                        Runs-stop a actions before r _ (IsRun-completed [] _ true found.0 [] refl))
                      (λ failing.
                        Runs-more a actions before r _ (grind arith)
                          (Runs-run_actions actions (before ++ r ∷ [])))
              ]))
            (λ other.
              Runs-cases r.success _ _
                (λ success.
                  Runs-more a actions before r _ (grind arith)
                    (Runs-run_actions actions (before ++ r ∷ [])))
                (λ failure.
                  Runs-stop a actions before r _
                    (IsRun-completed [] _ false [] (r.message ∷ []) refl)))
    ])
  ])

  Runs-started : (saved : Option String) → Runs mon.recovery [] [] (started m mon saved)
  unfolding started
  Runs-started none = Runs-run_actions mon.recovery []
  Runs-started (some e) = Runs-pure _ _ _ _ (IsRun-interrupted mon.recovery [] _)

  roll_back_same :
      (status : String) (o : Outcome) (s : Sys m.env.World) → (roll_back m mon status o s).0 ≡ o
  unfolding roll_back pure ◌>>=◌
  roll_back_same status o s = elim (Bool-cases o.completed) [
    | inl done ↦ rw done refl
    | inr open' ↦ rw open' refl
  ]

  Runs-execute_recovery :
      (results : List CheckResult) (reasons : List String) (status : String)
      → Runs mon.recovery [] [] (execute_recovery m mon results reasons status)
  unfolding execute_recovery
  Runs-execute_recovery results reasons status = Runs-after _ _ Quiet-ctx_err (elim [
    | some e ↦ Runs-pure _ _ _ _ (IsRun-interrupted mon.recovery [] e)
    | none ↦ Runs-after _ _ (Quiet-start_recovery m mon log laws results reasons status) λ saved.
        Runs-then _ (roll_back m mon status) (Runs-started saved)
          (Quiet-roll_back m mon log laws status) (roll_back_same status)
  ])

-- Let `log` be the runs of actions for the monitor, which only the runner of actions adds to. A
-- recovery adds exactly the runs of the first actions of its monitor, in order and each once, and the
-- results that it returns are those of these runs; a further action was run only after a recheck or a
-- success. The outcome is complete exactly if there is no error; a complete outcome is a recovery
-- exactly if it has no reasons against it, and one with an error is none.
pub execute_recovery-IsRun :
    (m : Manager) (mon : MonitorConfig) (log : m.env.World → List Ran)
    → IsLog m mon log
    → (results : List CheckResult) (reasons : List String) (status_before : String)
      (s : Sys m.env.World)
    → (ran : List Ran) × (log (execute_recovery m mon results reasons status_before s).1.world
        ≡ log s.world ++ ran)
      × IsRun mon.recovery [] ran (execute_recovery m mon results reasons status_before s).0
execute_recovery-IsRun m mon log laws results reasons status_before s =
    (Runs-execute_recovery m mon log laws results reasons status_before).at s
