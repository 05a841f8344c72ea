-- ===== src/Persistence/Stores.antt =====
-- internal/state/store.go and internal/events/store.go: the two stores, over internal/persistence.
pub mod Trimmed
use rpi_procmon.Base.{
  String, ◌⊎◌, inl, inr, Option, none, some, List, [], ℤ, pos, eqb_ℤ, if◌then◌else◌,
}
use rpi_procmon.State
use rpi_procmon.State.{ProcmonState}
use rpi_procmon.Events
use rpi_procmon.Events.{History, trim_to_limit}
use rpi_procmon.Persistence.{Disk, save, load}

-- `json.MarshalIndent` and `json.Unmarshal` of the two types; the error's text on the left.
pub record Json : Type 0 where
  pub encode_state : ProcmonState → String ⊎ String
  pub decode_state : String → String ⊎ ProcmonState
  pub encode_history : History → String ⊎ String
  pub decode_history : String → String ⊎ History

-- The zero values of the two types; a nil map and an empty one are both `[]`.
abbrev pub no_state : ProcmonState
no_state = record {
  version = pos 0;
  app_version = "";
  started_at = "";
  last_updated_at = "";
  monitors = [];
}

abbrev pub no_history : History
no_history = record { version = pos 0; events = [] }

-- A file without a version is of the current one.
abbrev version_or : ℤ → ℤ → ℤ
version_or schema version = if eqb_ℤ version (pos 0) then schema else version

module _ {W : Type 0} (disk : Disk W) (json : Json) where
  abbrev pub finished_state : String ⊎ ProcmonState → String ⊎ ProcmonState
  finished_state (inl e) = inl e
  finished_state (inr st) = inr (record st { version = version_or State.schema_version st.version })

  -- `FileStore.Load` of the states.
  unfoldable pub load_state : String → W → (String ⊎ ProcmonState) × W
  load_state path w =
      let (r, w') = load disk no_state json.decode_state path w in (finished_state r, w')

  abbrev pub write_text : String → String ⊎ String → W → Option String × W
  write_text path (inl e) w = (some e, w)
  write_text path (inr text) w = save disk path text w

  -- `FileStore.Save` of the states.
  unfoldable pub save_state : String → ProcmonState → W → Option String × W
  save_state path snapshot w = write_text path (json.encode_state snapshot) w

  abbrev pub finished_history : ℤ → String ⊎ History → String ⊎ History
  finished_history max_entries (inl e) = inl e
  finished_history max_entries (inr h) = inr (record {
    version = version_or Events.schema_version h.version;
    events = trim_to_limit h.events max_entries;
  })

  -- `FileStore.Load` of the events.
  unfoldable pub load_events : String → ℤ → W → (String ⊎ History) × W
  unfolding trim_to_limit
  load_events path max_entries w =
      let (r, w') = load disk no_history json.decode_history path w in
      (finished_history max_entries r, w')

  abbrev pub trimmed_history : ℤ → History → History
  trimmed_history max_entries h = record {
    version = Events.schema_version;
    events = trim_to_limit h.events max_entries;
  }

  -- `FileStore.Save` of the events.
  unfoldable pub save_events : String → ℤ → History → W → Option String × W
  unfolding trim_to_limit
  save_events path max_entries h w =
      write_text path (json.encode_history (trimmed_history max_entries h)) w
