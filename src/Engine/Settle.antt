-- ===== src/Engine/Settle.antt =====
-- In which status a check leaves its monitor: the rules.
pub mod Recovery
pub mod Cycle
use rpi_procmon.Base.{
  String, Bool, true, false, ◌≡◌, refl, sym, ap, ◌∙◌, ◌⊎◌, inl, inr, Option, none, some, List, [],
  ◌∷◌, ◌++◌, ℤ, ◌==◌, some-injective, if◌then◌else◌,
}
use mathlib.Core.Option.{some-ne-none}
use rpi_procmon.Base.Dict.{lookup, insert, lookup-insert_self}
use rpi_procmon.Config.Types.{MonitorConfig, ActionConfig}
use rpi_procmon.State.{CheckResult, ActionResult, MonitorRuntimeState}
use rpi_procmon.Events.{Event}
use rpi_procmon.Engine.Env.{Shared, Manager, Sys, Act, pure, ◌>>=◌, on_world, modify, gets}
use rpi_procmon.Engine.Monitor.{
  entry, refreshed, refreshed_or_new, ensure_monitor_state, put_state, append_event, checking,
  checked, healthy, degraded, attempted, recovered, failed, stopped,
}
use rpi_procmon.Engine.Run.{Outcome, acquire, evaluate, final_check, run_actions}
use rpi_procmon.Engine.Recover.{
  with_status, set_status, roll_back, start_recovery, started, execute_recovery,
  append_recovery_exhausted, mark_recovery_exhausted, apply_recovery_outcome, conclude_recovery,
}
use rpi_procmon.Engine.Cycle.{
  begin_check, check_succeeded, check_failed, after_recovery, recover, judged, end_check,
  run_monitor_cycle,
}
use rpi_procmon.Engine.Invariant.{
  Keeps, Keeps-pure, Keeps-on_world, Keeps-if, Keeps-bind, Keeps-read, IsStable, Keeps-acquire,
  Keeps-persist, Keeps-persist_or_log, Keeps-evaluate, Keeps-append,
}
use rpi_procmon.Engine.Invariant.Frame.{LeavesEntry}

-- From `P`, `p` gives a value and a state with `Q`.
pub record Ends {W A : Type 0} (P : Shared → Type 0) (p : Act W A) (Q : A → Shared → Type 0)
    : Type 0 where
  pub at : (s : Sys W) → P s.shared → Q (p s).0 (p s).1.shared

module _ {W A : Type 0} {P : Shared → Type 0} where
  pub Ends-keeps : {p : Act W A} → Keeps P p → Ends P p (λ _. P)
  Ends-keeps k = record { at = k.at }

  pub Ends-pure :
      {Q : A → Shared → Type 0} (a : A)
      → ((sh : Shared) → P sh → Q a sh)
      → Ends {W = W} P (pure a) Q
  unfolding pure
  Ends-pure a q = record { at = λ s h. q s.shared h }

  pub Ends-if :
      {Q : A → Shared → Type 0} (b : Bool) (p q : Act W A)
      → Ends P p Q
      → Ends P q Q
      → Ends P (if b then p else q) Q
  Ends-if true p q kp kq = kp
  Ends-if false p q kp kq = kq

module _ {W A B : Type 0} {P : Shared → Type 0} {Q : B → Shared → Type 0} where
  pub Ends-bind :
      (R : A → Shared → Type 0) (p : Act W A) (f : A → Act W B)
      → Ends P p R
      → ((a : A) → Ends (R a) (f a) Q)
      → Ends P (p >>= f) Q
  unfolding ◌>>=◌
  Ends-bind R p f kp kf = record { at = λ s h. let (a, s') = p s in (kf a).at s' (kp.at s h) }

  -- A step that keeps what is known.
  pub Ends-after :
      (p : Act W A) (f : A → Act W B) → Keeps P p → ((a : A) → Ends P (f a) Q) → Ends P (p >>= f) Q
  Ends-after p f kp kf = Ends-bind (λ _. P) p f (Ends-keeps kp) kf

module _ {W : Type 0} {A : Type 0} {P : Shared → Type 0} {Q : A → Shared → Type 0} where
  pub Ends-gets :
      (g : Shared → A) → ((sh : Shared) → P sh → Q (g sh) sh) → Ends {W = W} P (gets g) Q
  unfolding gets
  Ends-gets g q = record { at = λ s h. q s.shared h }

abbrev pub Nothing : Shared → Type 0
Nothing sh = Unit

module _ (m : Manager) (mon : MonitorConfig) (leaves : LeavesEntry m mon.id) where
  -- The monitor has an entry, with a status in the set.
  abbrev pub HasStatus : (String → Type 0) → Shared → Type 0
  HasStatus S sh = (st : MonitorRuntimeState) × (entry mon.id sh ≡ some st) × S st.status

  pub append_event-HasStatus :
      (S : String → Type 0) (limit : ℤ) (e : Event) (sh : Shared)
      → HasStatus S sh
      → HasStatus S (append_event limit e sh)
  unfolding append_event
  append_event-HasStatus S limit e sh h = h

  pub HasStatus-IsStable : (S : String → Type 0) → IsStable m (HasStatus S)
  HasStatus-IsStable S = record {
    others = λ sh w h. (h.0, leaves sh w ∙ h.1, h.2);
    append = λ e sh h. append_event-HasStatus S m.cfg.events_max_entries e sh h;
    only = λ sh sh' monitors events h. (h.0, ap (lookup mon.id) monitors ∙ h.1, h.2);
  }

  pub Nothing-IsStable : IsStable m Nothing
  Nothing-IsStable = record { others = λ _ _ _. tt; append = λ _ _ _. tt; only = λ _ _ _ _ _. tt }

  module _ {P : Shared → Type 0} (S : String → Type 0) where
    Ends-put :
        (st : MonitorRuntimeState)
        → S st.status
        → Ends {W = m.env.World} P (modify (put_state mon st)) (λ _. HasStatus S)
    unfolding modify put_state
    Ends-put st good = record {
      at = λ s h. (st, lookup-insert_self mon.id st s.shared.current.monitors, good);
    }

  pub Ends-set_status :
      (S : String → Type 0) (status : String)
      → S status
      → Ends Nothing (set_status m mon status) (λ _. HasStatus S)
  unfolding set_status
  Ends-set_status S status good = Ends-after (gets _) _ (Keeps-read _) λ st.
      Ends-bind _ (modify _) _ (Ends-put S (with_status status st) good)
        λ u. Ends-keeps (Keeps-persist_or_log m (HasStatus S) (HasStatus-IsStable S))

pub trivially : {W A : Type 0} (p : Act W A) → Keeps Nothing p
trivially p = record { at = λ s h. tt }

-- What is known of a value needs no state.
pub Ends-known :
    {W A K : Type 0} {Q : A → Shared → Type 0} {p : Act W A}
    → (K → Ends Nothing p Q)
    → Ends (λ _. K) p Q
Ends-known f = record { at = λ s k. (f k).at s tt }

pub Ends-forget :
    {W A : Type 0} {P : Shared → Type 0} {Q : A → Shared → Type 0} {p : Act W A}
    → Ends Nothing p Q
    → Ends P p Q
Ends-forget e = record { at = λ s h. e.at s tt }

module _ {W A : Type 0} {P P' : Shared → Type 0} {Q Q' : A → Shared → Type 0} {p : Act W A} where
  -- Less is enough at the start, and less may be said at the end.
  pub Ends-adapt :
      ((sh : Shared) → P' sh → P sh)
      → ((a : A) (sh : Shared) → Q a sh → Q' a sh)
      → Ends P p Q
      → Ends P' p Q'
  Ends-adapt from to e = record { at = λ s h. to _ _ (e.at s (from s.shared h)) }
