-- ===== src/Engine/Invariant.antt =====
-- Properties of the shared fields that the methods of the engine keep, whatever their result and
-- whatever errors they meet.
pub mod Recover
pub mod Cycle
pub mod Frame
pub mod Counters
use rpi_procmon.Base.{
  String, Bool, true, false, ◌≡◌, refl, Option, none, some, List, [], ◌∷◌, ℤ, arith, if◌then◌else◌,
}
use rpi_procmon.Config.Types.{MonitorConfig, CheckConfig}
use rpi_procmon.State.{CheckResult, ActionResult, MonitorRuntimeState}
use rpi_procmon.Events.{Event}
use rpi_procmon.Engine.Env.{Shared, Manager, Sys, Act, pure, ◌>>=◌, on_world, modify, gets}
use rpi_procmon.Engine.Monitor.{
  ensure_monitor_state, put_state, append_event, checking, checked, healthy, degraded, recovering,
  attempted, recovered, failed, stopped, cooldown_end,
}
use rpi_procmon.Engine.Run.{acquire, persist, persist_or_log, evaluate}
use rpi_procmon.Engine.Recover.{with_status}

-- `p` keeps `P`.
pub record Keeps {W A : Type 0} (P : Shared → Type 0) (p : Act W A) : Type 0 where
  pub at : (s : Sys W) → P s.shared → P (p s).1.shared

module _ {W A : Type 0} {P : Shared → Type 0} where
  pub Keeps-pure : (a : A) → Keeps {W = W} P (pure a)
  unfolding pure
  Keeps-pure a = record { at = λ s h. h }

  pub Keeps-on_world : (f : W → A × W) → Keeps P (on_world f)
  unfolding on_world
  Keeps-on_world f = record { at = λ s h. h }

  -- A read alone.
  pub Keeps-read : (g : Shared → A) → Keeps {W = W} P (gets g)
  unfolding gets
  Keeps-read g = record { at = λ s h. h }

  pub Keeps-if : (b : Bool) (p q : Act W A) → Keeps P p → Keeps P q → Keeps P (if b then p else q)
  Keeps-if true p q kp kq = kp
  Keeps-if false p q kp kq = kq

module _ {W : Type 0} {P : Shared → Type 0} where
  pub Keeps-modify :
      (f : Shared → Shared) → ((sh : Shared) → P sh → P (f sh)) → Keeps {W = W} P (modify f)
  unfolding modify
  Keeps-modify f keep = record { at = λ s h. keep s.shared h }

module _ {W A B : Type 0} {P : Shared → Type 0} where
  pub Keeps-bind :
      (p : Act W A) (f : A → Act W B) → Keeps P p → ((a : A) → Keeps P (f a)) → Keeps P (p >>= f)
  unfolding ◌>>=◌
  Keeps-bind p f kp kf = record { at = λ s h. let (a, s') = p s in (kf a).at s' (kp.at s h) }

  -- What is read under the lock has the properties that the lock protects.
  pub Keeps-gets :
      (g : Shared → A) (f : A → Act W B) (Good : A → Type 0)
      → ((sh : Shared) → P sh → Good (g sh))
      → ((a : A) → Good a → Keeps P (f a))
      → Keeps P (gets g >>= f)
  unfolding ◌>>=◌
  Keeps-gets g f Good good kf = record { at = λ s h. (kf (g s.shared) (good s.shared h)).at s h }

-- A property of a monitor's state that no write of the engine to it breaks.
pub record IsKept (m : Manager) (mon : MonitorConfig) (Good : MonitorRuntimeState → Type 0)
    : Type 0 where
  pub status : (s : String) (st : MonitorRuntimeState) → Good st → Good (with_status s st)
  pub checking :
      (start interval : ℤ) (st : MonitorRuntimeState)
      → Good st
      → Good (checking m.time start interval st)
  pub healthy :
      (t ms : ℤ) (rs : List CheckResult) (st : MonitorRuntimeState)
      → Good st
      → Good (healthy m.time t (checked m.time t ms rs st))
  pub degraded :
      (t ms : ℤ) (rs : List CheckResult) (reasons : List String) (st : MonitorRuntimeState)
      → Good st
      → Good (degraded m.time t reasons (checked m.time t ms rs st))
  pub recovering : (t : ℤ) (st : MonitorRuntimeState) → Good st → Good (recovering m.time mon t st)
  pub recovered :
      (t : ℤ) (rs : List CheckResult) (actions : List ActionResult) (st : MonitorRuntimeState)
      → Good st
      → Good (recovered m.time t rs (attempted m.time mon t actions st))
  pub failed :
      (t : ℤ) (rs : List CheckResult) (reasons : List String) (actions : List ActionResult)
      (st : MonitorRuntimeState)
      → Good st
      → Good (failed m.time t rs reasons (attempted m.time mon t actions st))
  pub exhausted :
      (reason : String) (t : ℤ) (st : MonitorRuntimeState)
      → Good st
      → Good (record (stopped reason st) {
        recovery_exhausted = true;
        cooldown_until = cooldown_end m.time mon t;
      })
  pub stopped : (reason : String) (st : MonitorRuntimeState) → Good st → Good (stopped reason st)

-- A property of the shared fields that the other goroutines keep, and that speaks of the runtime
-- states and of the events only.
pub record IsStable (m : Manager) (P : Shared → Type 0) : Type 0 where
  pub others : (sh : Shared) (w : m.env.World) → P sh → P (m.env.others sh w).0
  pub append : (e : Event) (sh : Shared) → P sh → P (append_event m.cfg.events_max_entries e sh)
  pub only :
      (sh sh' : Shared)
      → sh'.current.monitors ≡ sh.current.monitors
      → sh'.event_history.events ≡ sh.event_history.events
      → P sh
      → P sh'

-- Such a property that a method on the monitor `mon` keeps, if what it writes to the entry of the
-- monitor is good.
pub record IsInvariant (m : Manager) (mon : MonitorConfig) (P : Shared → Type 0)
    (Good : MonitorRuntimeState → Type 0) : Type 0 where
  pub stable : IsStable m P
  pub ensure : (sh : Shared) → P sh → Good (ensure_monitor_state mon sh)
  pub put : (st : MonitorRuntimeState) → Good st → (sh : Shared) → P sh → P (put_state mon st sh)
  pub kept : IsKept m mon Good

module _ (m : Manager) (P : Shared → Type 0) (stable : IsStable m P) where
  pub Keeps-acquire : Keeps P (acquire m)
  unfolding acquire
  Keeps-acquire = record { at = λ s h. stable.others s.shared s.world h }

  persist-same :
      (s : Sys m.env.World)
      → ((persist m s).1.shared.current.monitors ≡ s.shared.current.monitors)
        × ((persist m s).1.shared.event_history.events ≡ s.shared.event_history.events)
  unfolding persist ◌>>=◌
  persist-same s = ground arith

  pub Keeps-persist : Keeps P (persist m)
  Keeps-persist = record {
    at = λ s h. let (monitors, events) = persist-same s in stable.only _ _ monitors events h;
  }

  pub Keeps-persist_or_log : Keeps P (persist_or_log m)
  unfolding persist_or_log
  Keeps-persist_or_log = Keeps-bind (persist m) _ Keeps-persist (λ err. Keeps-pure tt)

  pub Keeps-evaluate :
      (mon : MonitorConfig) (checks : List CheckConfig) → Keeps P (evaluate m mon checks)
  unfolding evaluate
  Keeps-evaluate mon [] = Keeps-pure _
  Keeps-evaluate mon (check ∷ checks) =
      Keeps-bind (on_world m.env.ctx_err) _ (Keeps-on_world _) (elim [
        | none ↦ Keeps-bind (on_world (m.env.check mon check)) _ (Keeps-on_world _) λ r.
            Keeps-bind (evaluate m mon checks) _ (Keeps-evaluate mon checks) λ rest. Keeps-pure _
        | some e ↦ Keeps-pure _
      ])

  pub Keeps-append :
      (e : Event) → Keeps {W = m.env.World} P (modify (append_event m.cfg.events_max_entries e))
  Keeps-append e = Keeps-modify (append_event m.cfg.events_max_entries e) (stable.append e)

module _ (m : Manager) (mon : MonitorConfig) (P : Shared → Type 0)
    (Good : MonitorRuntimeState → Type 0) (inv : IsInvariant m mon P Good) where
  -- A critical section reads the entry, and writes it back changed.
  pub Keeps-entry :
      {A : Type 0} (f : MonitorRuntimeState → Act m.env.World A)
      → ((st : MonitorRuntimeState) → Good st → Keeps P (f st))
      → Keeps P (gets (ensure_monitor_state mon) >>= f)
  Keeps-entry f kf = Keeps-gets (ensure_monitor_state mon) f Good inv.ensure kf

  pub Keeps-put :
      (st : MonitorRuntimeState) → Good st → Keeps {W = m.env.World} P (modify (put_state mon st))
  Keeps-put st good = Keeps-modify (put_state mon st) (inv.put st good)
