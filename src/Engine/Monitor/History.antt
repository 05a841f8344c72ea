-- ===== src/Engine/Monitor/History.antt =====
-- The event history under `append_event`.
use rpi_procmon.Base.{
  ℕ, zero, suc, ◌<◌, ◌≢◌, ◌+◌, ◌-◌, ◌≤◌, ◌≡◌, refl, ap, List, [], ◌∷◌, ◌++◌, arith, ℤ, pos, negsuc,
  length, drop, length-append, length-drop, drop-append,
}
use native.Mathlib.Decide.{dec_lt}
use rpi_procmon.Events.{Event}
use rpi_procmon.Engine.Env.{Shared}
use rpi_procmon.Engine.Monitor.{cap_events, append_event}

-- The history holds no more than `limit` events, if the limit is positive.
abbrev pub IsWithin : ℤ → List Event → Type 0
IsWithin (pos n) events = 0 < n → length events ≤ n
IsWithin (negsuc n) events = Unit

-- What `append_event` makes of the events `old` and the event `e`.
pub record IsAppended (limit : ℤ) (old : List Event) (e : Event) (new : List Event) : Type 0 where
  pub dropped : ℕ
  pub dropped_le : dropped ≤ length old
  pub kept : new ≡ drop dropped old ++ e ∷ []
  pub within : IsWithin limit new
  pub needed : dropped ≢ 0 → pos (length new) ≡ limit

cap_events-over :
    (n : ℕ) (events : List Event)
    → suc n < length events
    → cap_events (pos (suc n)) events ≡ drop (length events - suc n) events
unfolding cap_events
cap_events-over n events h = ground arith

cap_events-fits :
    (n : ℕ) (events : List Event) → length events ≤ suc n → cap_events (pos (suc n)) events ≡ events
unfolding cap_events
cap_events-fits n events h = ground arith

cap_events-off : (events : List Event) → cap_events (pos 0) events ≡ events
unfolding cap_events
cap_events-off events = ground arith

cap_events-negsuc : (n : ℕ) (events : List Event) → cap_events (negsuc n) events ≡ events
unfolding cap_events
cap_events-negsuc n events = ground arith

module _ (old : List Event) (e : Event) where
  abbrev whole : List Event
  whole = old ++ e ∷ []

  length-whole : length whole ≡ length old + 1
  length-whole = length-append old (e ∷ [])

  capped :
      (n : ℕ)
      → suc n < length whole
      → IsAppended (pos (suc n)) old e (drop (length whole - suc n) whole)
  capped n over = record {
    dropped = length whole - suc n;
    dropped_le = omega (arith, length-whole);
    kept = drop-append (length whole - suc n) old (e ∷ []) (omega (arith, length-whole));
    within = λ _. omega (arith, length-drop (length whole - suc n) whole);
    needed = λ _. ap pos (omega (arith, length-drop (length whole - suc n) whole));
  }

  untouched : (limit : ℤ) → IsWithin limit whole → IsAppended limit old e whole
  untouched limit within = record {
    dropped = 0;
    dropped_le = omega arith;
    kept = refl;
    within = within;
    needed = λ h. absurd (h refl);
  }

  cap_events-IsAppended : (limit : ℤ) → IsAppended limit old e (cap_events limit whole)
  cap_events-IsAppended (pos zero) =
      rw (cap_events-off whole) (untouched (pos zero) (λ h. absurd (omega arith)))
  cap_events-IsAppended (pos (suc n)) = elim (dec_lt (suc n) (length whole)) [
    | yes over ↦ rw (cap_events-over n whole over) (capped n over)
    | no fits ↦
        rw (cap_events-fits n whole (omega arith)) (untouched (pos (suc n)) (λ _. omega arith))
  ]
  cap_events-IsAppended (negsuc n) = rw (cap_events-negsuc n whole) (untouched (negsuc n) tt)

-- An appended event is the last of the history, in front of it stand the events of before, less
-- some of the oldest; if the limit is positive, no more than `limit` events are left, and events
-- are dropped only if exactly `limit` are left.
pub append_event-IsAppended :
    (limit : ℤ) (e : Event) (sh : Shared)
    → IsAppended limit sh.event_history.events e (append_event limit e sh).event_history.events
unfolding append_event
append_event-IsAppended limit e sh = cap_events-IsAppended sh.event_history.events e limit
