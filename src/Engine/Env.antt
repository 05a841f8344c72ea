-- ===== src/Engine/Env.antt =====
-- What the engine of internal/engine/manager.go is given, and what it shares between goroutines.
use rpi_procmon.Base.{String, Bool, Option, ℤ}
use rpi_procmon.Config.Types.{Config, MonitorConfig, CheckConfig, ActionConfig}
use rpi_procmon.State.{ProcmonState, CheckResult, ActionResult}
use rpi_procmon.Events.{History}

-- Go's `time`: texts of times (RFC 3339) and of durations; both are counts of nanoseconds.
pub record TimePackage : Type 0 where
  pub format : ℤ → String
  pub parse : String → Option ℤ
  pub parse_duration : String → Option ℤ

-- The fields of `Manager` that `m.mu` guards.
pub record Shared : Type 0 where
  pub current : ProcmonState
  pub event_history : History
  pub events_dirty : Bool

-- The world around a call of the engine: the clock, the context of the call, the runner behind
-- `checks.Run` and `actions.Run`, the two stores, the channel that is a monitor's lock (`lock`
-- gives the context's error where the context ends before the lock is free), and the other
-- goroutines. `others` is what they do to the shared fields and to the world between one unlocking
-- of `m.mu` and the next locking.
pub record Env : Type 1 where
  pub World : Type 0
  pub now : World → ℤ × World
  pub ctx_err : World → Option String × World
  pub check : MonitorConfig → CheckConfig → World → CheckResult × World
  pub act : MonitorConfig → ActionConfig → World → ActionResult × World
  pub save_state : ProcmonState → World → Option String × World
  pub save_events : History → World → Option String × World
  pub lock : String → World → Option String × World
  pub unlock : String → World → World
  pub others : Shared → World → Shared × World

-- The fields of `Manager` that never change.
pub record Manager : Type 1 where
  pub cfg : Config
  pub app_version : String
  pub started_at : ℤ
  pub time : TimePackage
  pub env : Env

pub record Sys (World : Type 0) : Type 0 where
  pub shared : Shared
  pub world : World

-- A method of the manager: it changes the shared fields and the world, and returns a value.
abbrev pub Act : Type 0 → Type 0 → Type 0
Act W A = Sys W → A × Sys W

module _ {W A : Type 0} where
  unfoldable pub pure : A → Act W A
  pure a s = (a, s)

  -- A read or write of the world alone.
  unfoldable pub on_world : (W → A × W) → Act W A
  on_world f s = let (a, w) = f s.world in (a, record s { world = w })

  unfoldable pub gets : (Shared → A) → Act W A
  gets f s = (f s.shared, s)

module _ {W : Type 0} where
  -- A change of the shared fields, under `m.mu`.
  unfoldable pub modify : (Shared → Shared) → Act W Unit
  modify f s = (tt, record s { shared = f s.shared })

module _ {W A B : Type 0} where
  infixl 5 ◌>>=◌
  -- Opening this opens the other actions too.
  unfoldable pub ◌>>=◌ : Act W A → (A → Act W B) → Act W B
  unfolding pure on_world gets modify
  ◌>>=◌ p f s = let (a, s') = p s in f a s'

module _ {W B : Type 0} where
  infixl 5 ◌>>◌
  abbrev pub ◌>>◌ : Act W Unit → Act W B → Act W B
  p >> q = p >>= λ _. q
