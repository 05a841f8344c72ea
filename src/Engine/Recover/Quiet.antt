-- ===== src/Engine/Recover/Quiet.antt =====
-- internal/engine/manager.go: what the engine does between the recovery actions leaves the record of
-- the runs as it is.
use rpi_procmon.Base.{
  ◌≡◌, refl, ◌∙◌, String, Bool, true, false, Option, none, some, List, [], ◌∷◌, ◌++◌, if◌then◌else◌,
}
use rpi_procmon.Config.Types.{MonitorConfig, CheckConfig, ActionConfig}
use rpi_procmon.State.{ProcmonState, ActionResult, CheckResult}
use rpi_procmon.Events.{History}
use rpi_procmon.Engine.Env.{Shared, Manager, Sys, Act, pure, ◌>>=◌, on_world, modify, gets}
use rpi_procmon.Engine.Run.{Outcome, acquire, persist, persist_or_log, state_saved, evaluate}
use rpi_procmon.Engine.Recover.{set_status, roll_back, start_recovery}

-- A run of an action: the action, and its result.
abbrev pub Ran : Type 0
Ran = ActionConfig × ActionResult

-- `log` reads off a world the runs of actions for the monitor: a run is added by a call of the
-- runner of actions, with the action and the result of that call, and by nothing else.
pub record IsLog (m : Manager) (mon : MonitorConfig) (log : m.env.World → List Ran) : Type 0 where
  pub act :
      (action : ActionConfig) (w : m.env.World)
      → log (m.env.act mon action w).1 ≡ log w ++ (action, (m.env.act mon action w).0) ∷ []
  pub now : (w : m.env.World) → log (m.env.now w).1 ≡ log w
  pub ctx_err : (w : m.env.World) → log (m.env.ctx_err w).1 ≡ log w
  pub check : (c : CheckConfig) (w : m.env.World) → log (m.env.check mon c w).1 ≡ log w
  pub save_state : (st : ProcmonState) (w : m.env.World) → log (m.env.save_state st w).1 ≡ log w
  pub save_events : (h : History) (w : m.env.World) → log (m.env.save_events h w).1 ≡ log w
  pub others : (sh : Shared) (w : m.env.World) → log (m.env.others sh w).1 ≡ log w

module _ {W : Type 0} (log : W → List Ran) where
  -- The method adds no run.
  pub record Quiet {A : Type 0} (p : Act W A) : Type 0 where
    pub at : (s : Sys W) → log (p s).1.world ≡ log s.world

  module _ {A : Type 0} where
    pub Quiet-pure : (a : A) → Quiet (pure a)
    unfolding pure
    Quiet-pure a = record { at = λ s. refl }

    pub Quiet-on_world : (f : W → A × W) → ((w : W) → log (f w).1 ≡ log w) → Quiet (on_world f)
    unfolding on_world
    Quiet-on_world f same = record { at = λ s. same s.world }

    pub Quiet-gets : (g : Shared → A) → Quiet (gets g)
    unfolding gets
    Quiet-gets g = record { at = λ s. refl }

    pub Quiet-if : (b : Bool) (p q : Act W A) → Quiet p → Quiet q → Quiet (if b then p else q)
    Quiet-if true p q kp kq = kp
    Quiet-if false p q kp kq = kq

  pub Quiet-modify : (f : Shared → Shared) → Quiet (modify f)
  unfolding modify
  Quiet-modify f = record { at = λ s. refl }

  pub Quiet-bind :
      {A B : Type 0} (p : Act W A) (f : A → Act W B)
      → Quiet p
      → ((a : A) → Quiet (f a))
      → Quiet (p >>= f)
  unfolding ◌>>=◌
  Quiet-bind p f kp kf = record { at = λ s. (kf (p s).0).at (p s).1 ∙ kp.at s }

module _ (m : Manager) (mon : MonitorConfig) (log : m.env.World → List Ran)
    (laws : IsLog m mon log) where
  pub Quiet-acquire : Quiet log (acquire m)
  unfolding acquire
  Quiet-acquire = record { at = λ s. laws.others s.shared s.world }

  Quiet-state_saved : (e : Option String) → Quiet log (state_saved m e)
  unfolding state_saved
  Quiet-state_saved (some e) = Quiet-pure log _
  Quiet-state_saved none = Quiet-bind log _ _ (Quiet-modify log _) λ u.
      Quiet-bind log _ _ (Quiet-gets log _) λ dirty.
        Quiet-if log dirty _ _
          (Quiet-bind log _ _ (Quiet-gets log _) λ history.
            Quiet-bind log _ _ (Quiet-on_world log _ (laws.save_events history)) (elim [
              | some e ↦ Quiet-pure log _
              | none ↦ Quiet-bind log _ _ (Quiet-modify log _) λ v. Quiet-pure log _
            ]))
          (Quiet-pure log _)

  pub Quiet-persist : Quiet log (persist m)
  unfolding persist
  Quiet-persist = Quiet-bind log _ _ (Quiet-on_world log _ laws.now) λ t.
      Quiet-bind log _ _ (Quiet-modify log _) λ u. Quiet-bind log _ _ (Quiet-gets log _) λ current.
        Quiet-bind log _ _ (Quiet-on_world log _ (laws.save_state current)) Quiet-state_saved

  Quiet-persist_or_log : Quiet log (persist_or_log m)
  unfolding persist_or_log
  Quiet-persist_or_log = Quiet-bind log _ _ Quiet-persist λ e. Quiet-pure log tt

  pub Quiet-evaluate : (checks : List CheckConfig) → Quiet log (evaluate m mon checks)
  unfolding evaluate
  Quiet-evaluate [] = Quiet-pure log _
  Quiet-evaluate (c ∷ checks) = Quiet-bind log _ _ (Quiet-on_world log _ laws.ctx_err) (elim [
    | some e ↦ Quiet-pure log _
    | none ↦
        Quiet-bind log _ _ (Quiet-on_world log _ (laws.check c))
          λ r. Quiet-bind log _ _ (Quiet-evaluate checks) λ rest. Quiet-pure log _
  ])

  pub Quiet-roll_back :
      (status : String) (outcome : Outcome) → Quiet log (roll_back m mon status outcome)
  unfolding roll_back set_status
  Quiet-roll_back status outcome = Quiet-if log outcome.completed _ _ (Quiet-pure log _) (
      Quiet-bind log _ _ Quiet-acquire λ u.
        Quiet-bind log _ _
          (Quiet-bind log _ _ (Quiet-gets log _)
            λ st. Quiet-bind log _ _ (Quiet-modify log _) λ v. Quiet-persist_or_log)
          λ v. Quiet-pure log _)

  pub Quiet-start_recovery :
      (results : List CheckResult) (reasons : List String) (status : String)
      → Quiet log (start_recovery m mon results reasons status)
  unfolding start_recovery
  Quiet-start_recovery results reasons status = Quiet-bind log _ _ Quiet-acquire λ u.
      Quiet-bind log _ _ (Quiet-gets log _) λ st.
        Quiet-bind log _ _ (Quiet-on_world log _ laws.now) λ t.
          Quiet-bind log _ _ (Quiet-modify log _)
            λ v. Quiet-bind log _ _ (Quiet-modify log _) λ x. Quiet-persist
