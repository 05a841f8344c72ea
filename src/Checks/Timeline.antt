-- ===== src/Checks/Timeline.antt =====
-- internal/checks/checks.go: the latest failure and the latest success in a log with timestamps.
pub mod Latest
pub mod Late
use rpi_procmon.Base.{
  String, Bool, true, false, Option, none, some, List, [], ◌∷◌, ℤ, pos, ltb_ℤ, eqb, if◌then◌else◌,
}
use rpi_procmon.Base.Text.{is_empty}
use rpi_procmon.Base.Text.Split.{cut_at}
use rpi_procmon.Checks.Patterns.{Regexp, first_match}

module _ (re : Regexp) (parse_nano : String → Option ℤ) where
  abbrev with_message : Option ℤ → String → Option (ℤ × String)
  with_message none message = none
  with_message (some at) message = some (at, message)

  abbrev stamp_of : Option (String × String) → Option (ℤ × String)
  stamp_of none = none
  stamp_of (some (before, after)) =
      if is_empty before then none else with_message (parse_nano before) after

  -- `splitDockerTimestampLine`; a time counts nanoseconds from Go's zero time.
  unfoldable pub split_timestamp : String → Option (ℤ × String)
  unfolding cut_at
  split_timestamp line = stamp_of (cut_at b' ' line)

  abbrev pub is_hit : Option String → Bool
  is_hit none = false
  is_hit (some p) = true

  -- The later of the two times, if a pattern matches the message.
  unfoldable pub later : List String → ℤ → String → ℤ → ℤ
  later patterns at message last =
      if is_hit (first_match re patterns message)
      then (if ltb_ℤ last at then at else last)
      else last

  -- The body of the loop of `findLatestPatternTimestamps`, for one kind of patterns.
  unfoldable pub advance : List String → Option (ℤ × String) → ℤ → ℤ
  unfolding later
  advance patterns none last = last
  advance patterns (some (at, message)) last = later patterns at message last

  -- The loop, with the two times so far; the patterns compile.
  unfoldable pub find_latest : List String → List String → List String → ℤ → ℤ → ℤ × ℤ
  unfolding advance split_timestamp
  find_latest failures successes [] last_failure last_success = (last_failure, last_success)
  find_latest failures successes (line ∷ lines) last_failure last_success =
      let stamp = split_timestamp line in
      find_latest failures successes lines (advance failures stamp last_failure)
        (advance successes stamp last_success)
