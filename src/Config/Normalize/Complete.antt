-- ===== src/Config/Normalize/Complete.antt =====
-- What a configuration has after `Normalize` (internal/config/load.go): no field is left out, every
-- part is valid, and ids stand once.
use rpi_procmon.Base.{String, true, false, ◌≡◌, none, List, [], ◌∷◌, pos, ltb_ℤ, leb_ℤ, has}
use rpi_procmon.Base.Text.{trim_space, is_empty, is_blank}
use rpi_procmon.Config.Types.{CheckConfig, ActionConfig, MonitorConfig}
use rpi_procmon.Config.Validate.{
  Parsers, valid_duration, validate_target, validate_check, validate_action,
}
use rpi_procmon.Config.Normalize.{is_none}

module _ (parsers : Parsers) where
  -- The checks of a monitor are complete and valid, and no id stands twice.
  abbrev pub AreChecks : String → List String → List CheckConfig → Type 0
  AreChecks monitor_id seen [] = Unit
  AreChecks monitor_id seen (c ∷ cs) =
      (is_blank c.id ≡ false)
      × (is_blank c.name ≡ false)
      × (is_blank c.kind ≡ false)
      × (has seen c.id ≡ false)
      × (validate_check parsers monitor_id c ≡ none)
      × AreChecks monitor_id (c.id ∷ seen) cs

  abbrev pub AreActions : String → List ActionConfig → Type 0
  AreActions monitor_id [] = Unit
  AreActions monitor_id (a ∷ as') =
      (is_blank a.name ≡ false)
      × (is_blank a.kind ≡ false)
      × (validate_action parsers monitor_id a ≡ none)
      × AreActions monitor_id as'

  -- A monitor with nothing left out.
  pub record IsNormal (mon : MonitorConfig) : Type 0 where
    pub trimmed : trim_space mon.id ≡ mon.id
    pub identified : is_empty mon.id ≡ false
    pub named : is_blank mon.name ≡ false
    pub typed : is_blank mon.kind ≡ false
    pub timed : is_blank mon.interval ≡ false
    pub interval : valid_duration parsers mon.interval false ≡ true
    pub threshold : leb_ℤ mon.failure_threshold (pos 0) ≡ false
    pub attempts : ltb_ℤ mon.max_recovery_attempts (pos 0) ≡ false
    pub cooled : is_blank mon.cooldown ≡ false
    pub cooldown : valid_duration parsers mon.cooldown true ≡ true
    pub transport : is_blank mon.target.transport ≡ false
    pub target : validate_target mon.id mon.target ≡ none
    pub checked : is_none parsers mon.checks ≡ false
    pub checks : AreChecks mon.id [] mon.checks
    pub recoverable : is_none parsers mon.recovery ≡ false
    pub recovery : AreActions mon.id mon.recovery

  abbrev pub AreNormal : List String → List MonitorConfig → Type 0
  AreNormal seen [] = Unit
  AreNormal seen (mon ∷ mons) =
      IsNormal mon × (has seen mon.id ≡ false) × AreNormal (mon.id ∷ seen) mons
