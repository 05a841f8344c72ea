-- ===== src/Engine/Tests/Life.antt =====
-- The manager of Engine.Lab from its start on, and the lock of a monitor.
use rpi_procmon.Base.{◌≡◌, refl, ℕ, String, ◌⊎◌, inr, some, Bool, true, false, [], ◌∷◌}
use rpi_procmon.State.{ProcmonState}
use rpi_procmon.Events.{History}
use rpi_procmon.Engine.Lab.{lab, manager, monitor, start}
use rpi_procmon.Engine.Loop.{done, tick, run_monitor_loop}
use rpi_procmon.Engine.Env.{Manager}
use rpi_procmon.Engine.Loop.Rounds.{IsFree, rounds, run_monitor_loop-rounds}
use rpi_procmon.Engine.Lock.{Monitor, Move, Phase, Step, Reach, unused, update, has_lock}
use rpi_procmon.Engine.Lock.Exclusion.{mutual_exclusion, lock_live}

abbrev load_state : ℕ → (String ⊎ ProcmonState) × ℕ
load_state w = (inr start.shared.current, w)

abbrev load_events : ℕ → (String ⊎ History) × ℕ
load_events w = (inr start.shared.event_history, w)

-- The manager in a world where the locks of the monitors are never free.
abbrev waiting : Manager
waiting = record manager { env = record lab { lock = λ id w. (some "context canceled", w) } }

monitor-IsFree : IsFree manager (monitor "b" "off")
monitor-IsFree = record { ctx_err = λ w. refl; lock = λ w. refl }

run_monitor_loop-rounds_example :
    (run_monitor_loop manager (monitor "b" "off") (tick ∷ tick ∷ done ∷ tick ∷ []) start).1
    ≡ rounds manager (monitor "b" "off") 3 start
run_monitor_loop-rounds_example =
    run_monitor_loop-rounds manager (monitor "b" "off") monitor-IsFree
      (tick ∷ tick ∷ done ∷ tick ∷ []) start

-- The first goroutine has the lock, the second waits for it.
abbrev one : Monitor
one = record { full = false; at = update 0 Phase.waiting unused.at }

abbrev two : Monitor
two = record { full = true; at = update 0 Phase.holding one.at }

abbrev three : Monitor
three = record { full = true; at = update 1 Phase.waiting two.at }

three_reached : Reach three
unfolding update
three_reached =
    Reach.later
      (Reach.later (Reach.later Reach.start (Step.step 0 Move.enter)) (Step.step 0 Move.take))
      (Step.step 1 Move.enter)

mutual_exclusion_example : ◌≡◌ {A = ℕ} 0 0
unfolding update
mutual_exclusion_example = mutual_exclusion three_reached 0 0 refl refl

lock_live_example :
    Move three.full (three.at 1) true Phase.holding
    ⊎ ((o : ℕ) × (has_lock (three.at o) ≡ true)
        × ((full : Bool) × (p : Phase) × Move three.full (three.at o) full p))
unfolding update
lock_live_example = lock_live three_reached 1 refl
