-- ===== src/Config/Normalize.antt =====
-- internal/config/load.go: `Normalize`, which fills in what a monitor leaves out and validates it.
-- On an error the caller drops the configuration, so the model returns the error alone.
pub mod Complete
pub mod Fixed
pub mod Chain
pub mod Filled
pub mod Accepted
use rpi_procmon.Base.{
  ℕ, suc, ◌+◌, String, Bool, true, false, not, Option, none, some, List, [], ◌∷◌, ◌++◌, ℤ, pos,
  ltb_ℤ, leb_ℤ, ◌==◌, if◌then◌else◌, has,
}
use rpi_procmon.Base.Text.{trim_space, is_empty, is_blank, itoa, concat}
use rpi_procmon.Config.Types.{TargetConfig, CheckConfig, ActionConfig, MonitorConfig}
use rpi_procmon.Config.Validate.{
  ConfigError, Parsers, valid_duration, validate_target, validate_check, validate_action,
  monitor_id_required, duplicate_monitor, negative_attempts, no_checks, no_recovery, bad_interval,
  bad_cooldown, check_type_missing, check_duplicate, action_type_missing,
}

pub data Result (A : Type 0) : Type 0 where
  ok : A → Result A
  err : ConfigError → Result A

-- The next test is made only if this one has passed.
infixl 5 ◌>>=◌ ◌>>◌
abbrev pub ◌>>=◌ : {A B : Type 0} (passed : Result A) (next : A → Result B) → Result B
err reason >>= next = err reason
ok value >>= next = next value

abbrev pub ◌>>◌ : {B : Type 0} → Result (Unit {0}) → Result B → Result B
m >> k = m >>= λ _. k

-- `if bad { return err }`.
abbrev pub refuse : Bool → ConfigError → Result (Unit {0})
refuse true e = err e
refuse false e = ok tt

-- `if err := …; err != nil { return err }`.
abbrev pub require : Option ConfigError → Result (Unit {0})
require none = ok tt
require (some e) = err e

abbrev pub or_text : String → String → String
or_text value def = if is_blank value then def else value

module _ (parsers : Parsers) where
  -- The id and the name that a check gets; `j` counts from 0.
  unfoldable pub named_check : String → ℕ → CheckConfig → CheckConfig
  named_check monitor_id j check =
      let id = or_text check.id (concat (monitor_id ∷ "-check-" ∷ itoa (pos (j + 1)) ∷ [])) in
      record check { id = id; name = or_text check.name id }

  -- The loop over the checks, with the ids seen so far.
  unfoldable pub normalize_checks :
      String → ℕ → List String → List CheckConfig → Result (List CheckConfig)
  unfolding named_check
  normalize_checks monitor_id j seen [] = ok []
  normalize_checks monitor_id j seen (c ∷ checks) = do
    let check = named_check monitor_id j c
    refuse (is_blank check.kind) (check_type_missing monitor_id check.id)
    refuse (has seen check.id) (check_duplicate monitor_id check.id)
    require (validate_check parsers monitor_id check)
    rest ← normalize_checks monitor_id (suc j) (check.id ∷ seen) checks
    ok (check ∷ rest)

  unfoldable pub named_action : String → ℕ → ActionConfig → ActionConfig
  named_action monitor_id j action = record action {
    name = or_text action.name (concat (monitor_id ∷ "-action-" ∷ itoa (pos (j + 1)) ∷ []));
  }

  -- The loop over the recovery actions.
  unfoldable pub normalize_actions : String → ℕ → List ActionConfig → Result (List ActionConfig)
  unfolding named_action
  normalize_actions monitor_id j [] = ok []
  normalize_actions monitor_id j (a ∷ actions) = do
    let action = named_action monitor_id j a
    refuse (is_blank action.kind) (action_type_missing monitor_id action.name)
    require (validate_action parsers monitor_id action)
    rest ← normalize_actions monitor_id (suc j) actions
    ok (action ∷ rest)

  abbrev pub is_none : {A : Type 0} → List A → Bool
  is_none [] = true
  is_none (x ∷ xs) = false

  -- The fields of a monitor that are filled in.
  unfoldable pub filled : MonitorConfig → MonitorConfig
  filled mon =
      let id = trim_space mon.id in
      record mon {
        id = id;
        name = or_text mon.name id;
        kind = or_text mon.kind "generic";
        interval = or_text mon.interval "1m";
        failure_threshold =
            if leb_ℤ mon.failure_threshold (pos 0) then pos 1 else mon.failure_threshold;
        cooldown = or_text mon.cooldown "5m";
        target = record mon.target { transport = or_text mon.target.transport "local" };
      }

  -- The body of the loop over the monitors.
  unfoldable pub normalize_monitor : List String → MonitorConfig → Result MonitorConfig
  normalize_monitor seen given = do
    let mon = filled given
    refuse (is_empty mon.id) monitor_id_required
    refuse (has seen mon.id) (duplicate_monitor mon.id)
    refuse (ltb_ℤ mon.max_recovery_attempts (pos 0)) (negative_attempts mon.id)
    refuse (not (valid_duration parsers mon.interval false)) (bad_interval mon.id mon.interval)
    refuse (not (valid_duration parsers mon.cooldown true)) (bad_cooldown mon.id mon.cooldown)
    require (validate_target mon.id mon.target)
    refuse (is_none mon.checks) (no_checks mon.id)
    checks ← normalize_checks mon.id 0 [] mon.checks
    refuse (is_none mon.recovery) (no_recovery mon.id)
    recovery ← normalize_actions mon.id 0 mon.recovery
    ok (record mon { checks = checks; recovery = recovery })

  -- The loop over the monitors, with the ids seen so far.
  unfoldable pub normalize_monitors : List String → List MonitorConfig → Result (List MonitorConfig)
  normalize_monitors seen [] = ok []
  normalize_monitors seen (mon ∷ mons) = do
    mon' ← normalize_monitor seen mon
    rest ← normalize_monitors (mon'.id ∷ seen) mons
    ok (mon' ∷ rest)

  -- `Normalize`, on the monitors of the configuration.
  unfoldable pub normalize : List MonitorConfig → Result (List MonitorConfig)
  unfolding normalize_monitors
  normalize mons = normalize_monitors [] mons
