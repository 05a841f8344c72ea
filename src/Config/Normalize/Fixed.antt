-- ===== src/Config/Normalize/Fixed.antt =====
-- `Normalize` (internal/config/load.go) on a configuration that is complete already.
use rpi_procmon.Base.{ℕ, suc, String, false, ◌≡◌, refl, List, [], ◌∷◌, has}
use rpi_procmon.Base.Text.{is_blank}
use rpi_procmon.Config.Types.{CheckConfig, ActionConfig, MonitorConfig}
use rpi_procmon.Config.Validate.{Parsers}
use rpi_procmon.Config.Normalize.{
  ok, or_text, normalize_checks, normalize_actions, filled, normalize_monitor, normalize_monitors,
}
use rpi_procmon.Config.Normalize.Complete.{AreChecks, AreActions, IsNormal, AreNormal}

or_text-kept : (value def : String) → is_blank value ≡ false → or_text value def ≡ value
or_text-kept value def h = rw h refl

module _ (parsers : Parsers) where
  -- Nothing changes in a complete list of checks.
  AreChecks-fixed :
      (monitor_id : String) (j : ℕ) (seen : List String) (cs : List CheckConfig)
      → AreChecks parsers monitor_id seen cs
      → normalize_checks parsers monitor_id j seen cs ≡ ok cs
  unfolding normalize_checks
  AreChecks-fixed monitor_id j seen [] h = refl
  AreChecks-fixed monitor_id j seen (c ∷ cs) (id, name, kind, new, valid, rest) =
      rw (id, name, kind, new, valid, AreChecks-fixed monitor_id (suc j) (c.id ∷ seen) cs rest) refl

  AreActions-fixed :
      (monitor_id : String) (j : ℕ) (actions : List ActionConfig)
      → AreActions parsers monitor_id actions
      → normalize_actions parsers monitor_id j actions ≡ ok actions
  unfolding normalize_actions
  AreActions-fixed monitor_id j [] h = refl
  AreActions-fixed monitor_id j (a ∷ actions) (name, kind, valid, rest) =
      rw (name, kind, valid, AreActions-fixed monitor_id (suc j) actions rest) refl

  filled-fixed : (mon : MonitorConfig) → IsNormal parsers mon → filled parsers mon ≡ mon
  unfolding filled
  filled-fixed mon h =
      rw (h.trimmed, h.named, h.typed, h.timed, h.threshold, h.cooled, h.transport) refl

  IsNormal-fixed :
      (seen : List String) (mon : MonitorConfig)
      → IsNormal parsers mon
      → has seen mon.id ≡ false
      → normalize_monitor parsers seen mon ≡ ok mon
  unfolding normalize_monitor
  IsNormal-fixed seen mon h new =
      rw
        (
          filled-fixed mon h,
          h.identified,
          new,
          h.attempts,
          h.interval,
          h.cooldown,
          h.target,
          h.checked,
          AreChecks-fixed mon.id 0 [] mon.checks h.checks,
          h.recoverable,
          AreActions-fixed mon.id 0 mon.recovery h.recovery,
        )
        refl

  pub AreNormal-fixed :
      (seen : List String) (mons : List MonitorConfig)
      → AreNormal parsers seen mons
      → normalize_monitors parsers seen mons ≡ ok mons
  unfolding normalize_monitors
  AreNormal-fixed seen [] h = refl
  AreNormal-fixed seen (mon ∷ mons) (normal, new, rest) =
      rw (IsNormal-fixed seen mon normal new) (rw (AreNormal-fixed (mon.id ∷ seen) mons rest) refl)
