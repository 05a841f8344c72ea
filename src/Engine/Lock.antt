-- ===== src/Engine/Lock.antt =====
-- internal/engine/manager.go: the lock of one monitor, a channel with a buffer of one, under any
-- interleaving of the goroutines that call `withMonitorLock` on it.
pub mod Exclusion
use rpi_procmon.Base.{ℕ, ◌+◌, String, Bool, true, false, Option, none, some, eqb, if◌then◌else◌}
use rpi_procmon.Base.Dict.{Dict, lookup, insert}

-- Where a goroutine stands: outside of the method, at its `select`, behind the send, in `fn`, or at
-- the deferred receive.
pub data Phase : Type 0 where
  outside waiting holding running leaving : Phase

-- A step of one goroutine; `full` tells whether the buffer holds its one element.
pub data Move : (full : Bool) → Phase → (full' : Bool) → Phase → Type 0 where
  -- The context has not ended.
  enter : {full : Bool} → Move full outside full waiting
  -- `<-ctx.Done()`
  give_up : {full : Bool} → Move full waiting full outside
  -- `lock <- struct{}{}`, which waits for room.
  take : Move false waiting true holding
  -- The context has ended behind the send.
  abort : {full : Bool} → Move full holding full leaving
  begin : {full : Bool} → Move full holding full running
  -- The end of `fn`.
  finish : {full : Bool} → Move full running full leaving
  -- `<-lock`, which waits for an element.
  release : Move true leaving false outside

pub record Monitor : Type 0 where
  pub full : Bool
  pub at : ℕ → Phase

unfoldable pub update : ℕ → Phase → (ℕ → Phase) → ℕ → Phase
update i p at j = if eqb i j then p else at j

-- The goroutine `i` makes a step.
pub data Step (s : Monitor) : Monitor → Type 0 where
  step :
      (i : ℕ) {full : Bool} {p : Phase}
      → Move s.full (s.at i) full p
      → Step s (record { full = full; at = update i p s.at })

abbrev pub unused : Monitor
unused = record { full = false; at = λ i. outside }

-- The states that any number of goroutines get to, in any order of their steps.
pub data Reach : Monitor → Type 0 where
  start : Reach unused
  later : {s t : Monitor} → Reach s → Step s t → Reach t

-- Does the goroutine have the lock?
abbrev pub has_lock : Phase → Bool
has_lock outside = false
has_lock waiting = false
has_lock holding = true
has_lock running = true
has_lock leaving = true

-- `monitorLock`: the channel of a monitor, by a number, and the channels afterwards. `fresh` is a
-- number that no channel has.
abbrev or_made : String → ℕ → Dict ℕ → Option ℕ → ℕ × Dict ℕ
or_made id fresh locks none = (fresh, insert id fresh locks)
or_made id fresh locks (some lock) = (lock, locks)

unfoldable pub monitor_lock : String → ℕ → Dict ℕ → ℕ × Dict ℕ
monitor_lock id fresh locks = or_made id fresh locks (lookup id locks)
