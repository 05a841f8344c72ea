-- ===== src/Daemon/Durable.antt =====
-- internal/engine/manager.go over internal/state/store.go and internal/persistence/json.go: what is
-- on the disk once `persistLocked` has reported success.
use rpi_procmon.Base.{
  ◌≡◌, ◌≢◌, refl, ◌∙◌, String, Bool, false, ◌⊎◌, inl, inr, Option, none, some, ℤ, Option-cases,
  Bool-cases,
}
use rpi_procmon.Config.Types.{Config}
use rpi_procmon.State.{ProcmonState}
use rpi_procmon.Events.{schema_version}
use rpi_procmon.Engine.Env.{TimePackage, Manager, Sys, ◌>>=◌}
use rpi_procmon.Engine.Run.{persist, state_saved}
use rpi_procmon.Persistence.{Disk}
use rpi_procmon.Persistence.Atomic.{IsDisk, save-IsSaved}
use rpi_procmon.Persistence.Stores.{Json, save_state, save_events, write_text}
use rpi_procmon.Daemon.{Parts, manager_of}

module _ {W : Type 0} (disk : Disk W) (json : Json) (content : W → String → Option String)
    (is_temp : String → Bool) (laws : IsDisk disk content is_temp) where
  -- The file holds an encoding.
  abbrev pub Holds : String → String ⊎ String → W → Type 0
  Holds path encoded w = (text : String) × (encoded ≡ inr text) × (content w path ≡ some text)

  write_text-Holds :
      (path : String) (encoded : String ⊎ String) (w : W)
      → is_temp path ≡ false
      → (write_text disk json path encoded w).0 ≡ none
      → Holds path encoded (write_text disk json path encoded w).1
  write_text-Holds path (inl e) w lasting ok = absurd (cc ok)
  write_text-Holds path (inr text) w lasting ok =
      (text, refl, (save-IsSaved disk content is_temp laws path text w lasting).success ok)

  -- A write to another file changes nothing here.
  write_text-other :
      (path other : String) (encoded : String ⊎ String) (w : W)
      → is_temp path ≡ false
      → is_temp other ≡ false
      → other ≢ path
      → content (write_text disk json path encoded w).1 other ≡ content w other
  write_text-other path other (inl e) w lasting real apart = refl
  write_text-other path other (inr text) w lasting real apart =
      (save-IsSaved disk content is_temp laws path text w lasting).others other real apart

module _ {W : Type 0} (parts : Parts W) (cfg : Config) (app_version : String) (started_at : ℤ)
    (time : TimePackage) (content : W → String → Option String) (is_temp : String → Bool)
    (laws : IsDisk parts.disk content is_temp) where
  abbrev pub m : Manager
  m = manager_of parts cfg app_version started_at time

  abbrev pub IsOnDisk : Option String × Sys W → Type 0
  IsOnDisk (some e, s) = Unit
  IsOnDisk (none, s) =
      Holds parts.disk parts.json content is_temp laws cfg.state_file
        (parts.json.encode_state s.shared.current) s.world

  abbrev saving : Sys W → Option String × W
  saving s =
      save_events parts.disk parts.json cfg.events_file cfg.events_max_entries
        (record s.shared.event_history { version = schema_version }) s.world

  kept :
      (s : Sys W)
      → is_temp cfg.state_file ≡ false
      → is_temp cfg.events_file ≡ false
      → cfg.state_file ≢ cfg.events_file
      → Holds parts.disk parts.json content is_temp laws cfg.state_file
          (parts.json.encode_state s.shared.current)
          s.world
      → Holds parts.disk parts.json content is_temp laws cfg.state_file
          (parts.json.encode_state s.shared.current)
          (saving s).1
  unfolding save_events
  kept s lasting lasting' apart (text, encoded, there) = (
    text,
    encoded,
    write_text-other parts.disk parts.json content is_temp laws cfg.events_file cfg.state_file _
          s.world lasting' lasting apart
        ∙ there,
  )

  state_saved-IsOnDisk :
      (failed : Option String) (s : Sys W)
      → is_temp cfg.state_file ≡ false
      → is_temp cfg.events_file ≡ false
      → cfg.state_file ≢ cfg.events_file
      → (failed ≡ none
          → Holds parts.disk parts.json content is_temp laws cfg.state_file
              (parts.json.encode_state s.shared.current)
              s.world)
      → IsOnDisk (state_saved m failed s)
  unfolding state_saved ◌>>=◌
  state_saved-IsOnDisk (some e) s lasting lasting' apart held = tt
  state_saved-IsOnDisk none s lasting lasting' apart held =
      elim (Bool-cases s.shared.events_dirty) [
        | inr clean ↦ rw clean (held refl)
        | inl dirty ↦ rw dirty (elim (Option-cases (saving s).0) [
          | inr (e, failed) ↦ rw failed tt
          | inl ok ↦ rw ok (kept s lasting lasting' apart (held refl))
        ])
      ]

-- Once `persistLocked` of the daemon reports success, the state file holds the encoding of the
-- state that the manager has then, if the state file and the event file are two files and none has
-- a temporary name: the events, saved behind it, do not touch it.
pub persist-IsOnDisk :
    {W : Type 0} (parts : Parts W) (cfg : Config) (app_version : String) (started_at : ℤ)
    (time : TimePackage) (content : W → String → Option String) (is_temp : String → Bool)
    (laws : IsDisk parts.disk content is_temp) (s : Sys W)
    → is_temp cfg.state_file ≡ false
    → is_temp cfg.events_file ≡ false
    → cfg.state_file ≢ cfg.events_file
    → IsOnDisk parts cfg app_version started_at time content is_temp laws
        (persist (manager_of parts cfg app_version started_at time) s)
unfolding persist ◌>>=◌ save_state
persist-IsOnDisk {W = W} parts cfg app_version started_at time content is_temp laws s lasting
      lasting' apart =
    let current' : ProcmonState = record s.shared.current {
      version = rpi_procmon.State.schema_version;
      app_version = app_version;
      last_updated_at = time.format (parts.now s.world).0;
    } in
    let encoded = parts.json.encode_state current' in
    let ticked = (parts.now s.world).1 in
    let saved = write_text parts.disk parts.json cfg.state_file encoded ticked in
    state_saved-IsOnDisk parts cfg app_version started_at time content is_temp laws saved.0
      (record { shared = record s.shared { current = current' }; world = saved.1 }) lasting lasting'
      apart
      (λ ok.
        write_text-Holds parts.disk parts.json content is_temp laws cfg.state_file encoded ticked
          lasting ok)
