-- ===== src/Engine/Loop/Rounds.antt =====
-- internal/engine/manager.go: how often the loop of a monitor checks it.
use rpi_procmon.Base.{ℕ, zero, suc, ◌≡◌, refl, ap, ◌∙◌, none, List, [], ◌∷◌}
use rpi_procmon.Config.Types.{MonitorConfig}
use rpi_procmon.Engine.Env.{Manager, Sys, Act, pure, ◌>>=◌, on_world}
use rpi_procmon.Engine.Monitor.{parse_duration, one_minute}
use rpi_procmon.Engine.Cycle.{run_monitor_cycle}
use rpi_procmon.Engine.Trigger.{unlocked, locked, with_monitor_lock, cycle_for}
use rpi_procmon.Engine.Loop.{Wake, done, tick, locked_cycle, wait_loop, run_monitor_loop}

module _ {W : Type 0} where
  -- The system after a read or write of the world.
  abbrev after : {A : Type 0} → (W → A × W) → Sys W → Sys W
  after f s = record s { world = (f s.world).1 }

  -- The method returns `a` from every system, and changes the system by `f`.
  record Gives {A : Type 0} (p : Act W A) (a : A) (f : Sys W → Sys W) : Type 0 where
    at : (s : Sys W) → p s ≡ (a, f s)

  Gives-pure : {A : Type 0} (a : A) → Gives (pure a) a (λ s. s)
  unfolding pure
  Gives-pure a = record { at = λ s. refl }

  Gives-on_world :
      {A : Type 0} (f : W → A × W) (a : A)
      → ((w : W) → (f w).0 ≡ a)
      → Gives (on_world f) a (after f)
  unfolding on_world
  Gives-on_world f a same = record { at = λ s i. (same s.world i, after f s) }

  Gives-unit : (p : Act W Unit) → Gives p tt (λ s. (p s).1)
  Gives-unit p = record { at = λ s. refl }

  Gives-bind :
      {A B : Type 0} (p : Act W A) (g : A → Act W B) {a : A} {b : B} {f h : Sys W → Sys W}
      → Gives p a f
      → Gives (g a) b h
      → Gives (p >>= g) b (λ s. h (f s))
  unfolding ◌>>=◌
  Gives-bind p g {f = f} first rest = record {
    at = λ s. ap (λ r. g r.0 r.1) (first.at s) ∙ rest.at (f s);
  }

module _ (m : Manager) (mon : MonitorConfig) where
  -- The context does not end, and the lock of the monitor can be had.
  pub record IsFree : Type 0 where
    pub ctx_err : (w : m.env.World) → (m.env.ctx_err w).0 ≡ none
    pub lock : (w : m.env.World) → (m.env.lock mon.id w).0 ≡ none

  -- One cycle with the monitor's lock taken before and given back after it.
  abbrev pub round : Sys m.env.World → Sys m.env.World
  round s =
      let taken = after m.env.ctx_err (after (m.env.lock mon.id) (after m.env.ctx_err s)) in
      let checked =
        (run_monitor_cycle m mon (parse_duration m.time mon.interval one_minute) taken).1 in
      after (λ w. (tt, m.env.unlock mon.id w)) (after m.env.ctx_err checked)

  abbrev pub rounds : ℕ → Sys m.env.World → Sys m.env.World
  rounds zero s = s
  rounds (suc n) s = rounds n (round s)

  -- The ticks in front of the end of the context.
  abbrev pub ticks : List Wake → ℕ
  ticks [] = 0
  ticks (done ∷ wakes) = 0
  ticks (tick ∷ wakes) = suc (ticks wakes)

  module _ (free : IsFree) where
    Gives-ctx_err : Gives (on_world m.env.ctx_err) none (after m.env.ctx_err)
    Gives-ctx_err = Gives-on_world m.env.ctx_err none free.ctx_err

    Gives-cycle_for :
        Gives
          (cycle_for m mon)
          none
          (λ s. (run_monitor_cycle m mon (parse_duration m.time mon.interval one_minute) s).1)
    unfolding cycle_for
    Gives-cycle_for = Gives-bind _ _ (Gives-unit _) (Gives-pure none)

    Gives-locked_cycle : Gives (locked_cycle m mon) none round
    unfolding with_monitor_lock locked unlocked on_world
    Gives-locked_cycle = Gives-bind _ _ Gives-ctx_err (
        Gives-bind _ _ (Gives-on_world (m.env.lock mon.id) none free.lock) (
          Gives-bind _ _ Gives-ctx_err (
            Gives-bind _ _ Gives-cycle_for
              (Gives-bind _ _ Gives-ctx_err (Gives-bind _ _ (Gives-unit _) (Gives-pure none))))))

    Gives-wait_loop : (wakes : List Wake) → Gives (wait_loop m mon wakes) tt (rounds (ticks wakes))
    unfolding wait_loop
    Gives-wait_loop [] = Gives-pure tt
    Gives-wait_loop (done ∷ wakes) = Gives-pure tt
    Gives-wait_loop (tick ∷ wakes) = Gives-bind _ _ Gives-locked_cycle (Gives-wait_loop wakes)

    Gives-run_monitor_loop :
        (wakes : List Wake) → Gives (run_monitor_loop m mon wakes) tt (rounds (suc (ticks wakes)))
    unfolding run_monitor_loop
    Gives-run_monitor_loop wakes = Gives-bind _ _ Gives-locked_cycle (Gives-wait_loop wakes)

-- While its context does not end and its lock can be had, the loop of a monitor runs one cycle at
-- once and one more for each tick that it receives before the end of the context, and nothing else:
-- each with the lock of the monitor taken before and given back after it.
pub run_monitor_loop-rounds :
    (m : Manager) (mon : MonitorConfig)
    → IsFree m mon
    → (wakes : List Wake) (s : Sys m.env.World)
    → (run_monitor_loop m mon wakes s).1 ≡ rounds m mon (suc (ticks m mon wakes)) s
run_monitor_loop-rounds m mon free wakes s =
    ap (λ (r : Unit × Sys m.env.World). r.1) ((Gives-run_monitor_loop m mon free wakes).at s)
