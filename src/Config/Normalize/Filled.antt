-- ===== src/Config/Normalize/Filled.antt =====
-- The fields that `Normalize` (internal/config/load.go) fills in are present afterwards.
use rpi_procmon.Base.{ℕ, String, false, ◌≡◌, refl, pos, leb_ℤ, Bool-cases, inl, inr}
use rpi_procmon.Base.Text.{trim_space, is_empty, is_blank, trim_space_idem}
use rpi_procmon.Base.Text.Blank.{concat-ne-blank, trim_space-ne-blank}
use rpi_procmon.Config.Types.{CheckConfig, ActionConfig, MonitorConfig}
use rpi_procmon.Config.Validate.{Parsers}
use rpi_procmon.Config.Normalize.{or_text, named_check, named_action, filled}

pub or_text-ne-blank :
    (value def : String) → is_blank def ≡ false → is_blank (or_text value def) ≡ false
or_text-ne-blank value def h = elim (Bool-cases (is_blank value)) [
  | inl blank ↦ rw blank h
  | inr text ↦ rw text text
]

module _ (parsers : Parsers) where
  pub named_check-id :
      (monitor_id : String) (j : ℕ) (c : CheckConfig)
      → is_blank monitor_id ≡ false
      → is_blank (named_check parsers monitor_id j c).id ≡ false
  unfolding named_check
  named_check-id monitor_id j c h = or_text-ne-blank c.id _ (concat-ne-blank monitor_id _ h)

  pub named_check-name :
      (monitor_id : String) (j : ℕ) (c : CheckConfig)
      → is_blank monitor_id ≡ false
      → is_blank (named_check parsers monitor_id j c).name ≡ false
  unfolding named_check
  named_check-name monitor_id j c h =
      or_text-ne-blank c.name _ (or_text-ne-blank c.id _ (concat-ne-blank monitor_id _ h))

  pub named_action-name :
      (monitor_id : String) (j : ℕ) (a : ActionConfig)
      → is_blank monitor_id ≡ false
      → is_blank (named_action parsers monitor_id j a).name ≡ false
  unfolding named_action
  named_action-name monitor_id j a h = or_text-ne-blank a.name _ (concat-ne-blank monitor_id _ h)

  pub filled-trimmed :
      (given : MonitorConfig) → trim_space (filled parsers given).id ≡ (filled parsers given).id
  unfolding filled
  filled-trimmed given = trim_space_idem given.id

  pub filled-id :
      (given : MonitorConfig)
      → is_empty (filled parsers given).id ≡ false
      → is_blank (filled parsers given).id ≡ false
  unfolding filled
  filled-id given h = trim_space-ne-blank given.id h

  pub filled-name :
      (given : MonitorConfig)
      → is_empty (filled parsers given).id ≡ false
      → is_blank (filled parsers given).name ≡ false
  unfolding filled
  filled-name given h = or_text-ne-blank given.name _ (trim_space-ne-blank given.id h)

  pub filled-kind : (given : MonitorConfig) → is_blank (filled parsers given).kind ≡ false
  unfolding filled trim_space
  filled-kind given = or_text-ne-blank given.kind "generic" refl

  pub filled-interval : (given : MonitorConfig) → is_blank (filled parsers given).interval ≡ false
  unfolding filled trim_space
  filled-interval given = or_text-ne-blank given.interval "1m" refl

  pub filled-cooldown : (given : MonitorConfig) → is_blank (filled parsers given).cooldown ≡ false
  unfolding filled trim_space
  filled-cooldown given = or_text-ne-blank given.cooldown "5m" refl

  pub filled-transport :
      (given : MonitorConfig) → is_blank (filled parsers given).target.transport ≡ false
  unfolding filled trim_space
  filled-transport given = or_text-ne-blank given.target.transport "local" refl

  pub filled-threshold :
      (given : MonitorConfig) → leb_ℤ (filled parsers given).failure_threshold (pos 0) ≡ false
  unfolding filled
  filled-threshold given = elim (Bool-cases (leb_ℤ given.failure_threshold (pos 0))) [
    | inl low ↦ rw low refl
    | inr high ↦ rw high high
  ]
