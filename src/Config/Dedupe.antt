-- ===== src/Config/Dedupe.antt =====
-- internal/config/load.go: `dedupeMonitors`, which keeps the last definition of each monitor id, at
-- the place of the first.
pub mod Last
use rpi_procmon.Base.{
  ℕ, String, Bool, Option, none, some, List, [], ◌∷◌, ◌++◌, ◌==◌, if◌then◌else◌, length, set, has,
}
use rpi_procmon.Base.Dict.{Dict, lookup, insert}
use rpi_procmon.Base.Text.{trim_space, is_empty}
use rpi_procmon.Config.Types.{MonitorConfig}

-- The variables of the loop; the set `duplicateSeen` is the list of its elements.
pub record Dedupe : Type 0 where
  pub deduped : List MonitorConfig
  pub index_by_id : Dict ℕ
  pub duplicate_ids : List String
  pub duplicate_seen : List String

abbrev pub trimmed : MonitorConfig → MonitorConfig
trimmed mon = record mon { id = trim_space mon.id }

unfoldable pub note_duplicate : String → Dedupe → Dedupe
note_duplicate id d = if has d.duplicate_seen id then d else record d {
  duplicate_seen = id ∷ d.duplicate_seen;
  duplicate_ids = d.duplicate_ids ++ id ∷ [];
}

-- The body of the loop for a monitor with a trimmed id, by what `indexByID` has for it.
unfoldable pub placed : MonitorConfig → Option ℕ → Dedupe → Dedupe
unfolding note_duplicate
placed mon (some index) d = note_duplicate mon.id (record d { deduped = set d.deduped index mon })
placed mon none d = record d {
  index_by_id = insert mon.id (length d.deduped) d.index_by_id;
  deduped = d.deduped ++ mon ∷ [];
}

-- The loop; `none` is the error that a monitor id is required.
unfoldable pub dedupe_loop : List MonitorConfig → Dedupe → Option Dedupe
dedupe_loop [] d = some d
dedupe_loop (mon ∷ mons) d =
    let rest =
      dedupe_loop mons (placed (trimmed mon) (lookup (trim_space mon.id) d.index_by_id) d) in
    if is_empty (trim_space mon.id) then none else rest

abbrev pub no_monitors : Dedupe
no_monitors = record { deduped = []; index_by_id = []; duplicate_ids = []; duplicate_seen = [] }

unfoldable pub dedupe_monitors : List MonitorConfig → Option Dedupe
dedupe_monitors mons = dedupe_loop mons no_monitors
