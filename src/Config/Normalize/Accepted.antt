-- ===== src/Config/Normalize/Accepted.antt =====
-- What `Normalize` (internal/config/load.go) accepts is complete.
use rpi_procmon.Base.{
  ℕ, suc, String, Bool, true, false, not, ◌≡◌, refl, ◌∙◌, subst, none, List, [], ◌∷◌, pos, ltb_ℤ,
  arith, has,
}
use rpi_procmon.Base.Text.{is_empty, is_blank}
use rpi_procmon.Config.Types.{CheckConfig, ActionConfig, MonitorConfig}
use rpi_procmon.Config.Validate.{
  Parsers, valid_duration, validate_target, validate_check, validate_action, check_type_missing,
  check_duplicate, action_type_missing, monitor_id_required, duplicate_monitor, negative_attempts,
  bad_interval, bad_cooldown, no_checks, no_recovery,
}
use rpi_procmon.Config.Normalize.{
  ok, named_check, normalize_checks, named_action, normalize_actions, is_none, filled,
  normalize_monitor, normalize_monitors, normalize,
}
use rpi_procmon.Config.Normalize.Complete.{AreChecks, AreActions, IsNormal, AreNormal}
use rpi_procmon.Config.Normalize.Fixed.{AreNormal-fixed}
use rpi_procmon.Config.Normalize.Chain.{ok-injective, bind-ok, refuse-ok, require-ok}
use rpi_procmon.Config.Normalize.Filled.{
  named_check-id, named_check-name, named_action-name, filled-trimmed, filled-id, filled-name,
  filled-kind, filled-interval, filled-cooldown, filled-transport, filled-threshold,
}

not-false : {b : Bool} → not b ≡ false → b ≡ true
not-false {b = b} h = grind arith

module _ (parsers : Parsers) where
  -- What the loop over the checks returns.
  normalize_checks-AreChecks :
      (monitor_id : String) (j : ℕ) (seen : List String) (cs out : List CheckConfig)
      → is_blank monitor_id ≡ false
      → normalize_checks parsers monitor_id j seen cs ≡ ok out
      → AreChecks parsers monitor_id seen out × (is_none parsers out ≡ is_none parsers cs)
  unfolding normalize_checks
  normalize_checks-AreChecks monitor_id j seen [] out ne h =
      subst (λ out. AreChecks parsers monitor_id seen out × (is_none parsers out ≡ true))
        (ok-injective h) (tt, refl)
  normalize_checks-AreChecks monitor_id j seen (c ∷ cs) out ne h =
      let check = named_check parsers monitor_id j c in
      let (typed, h1) =
        refuse-ok (is_blank check.kind) (check_type_missing monitor_id check.id) _ out h in
      let (new, h2) =
        refuse-ok (has seen check.id) (check_duplicate monitor_id check.id) _ out h1 in
      let (valid, h3) = require-ok (validate_check parsers monitor_id check) _ out h2 in
      let (rest, found, h4) =
        bind-ok (normalize_checks parsers monitor_id (suc j) (check.id ∷ seen) cs)
          (λ rest. ok (check ∷ rest)) out h3 in
      subst (λ out. AreChecks parsers monitor_id seen out × (is_none parsers out ≡ false))
        {x = check ∷ rest} (ok-injective h4)
        (
          (
            named_check-id parsers monitor_id j c ne,
            named_check-name parsers monitor_id j c ne,
            typed,
            new,
            valid,
            (normalize_checks-AreChecks monitor_id (suc j) (check.id ∷ seen) cs rest ne found).0,
          ),
          refl,
        )

  -- What the loop over the recovery actions returns.
  normalize_actions-AreActions :
      (monitor_id : String) (j : ℕ) (actions out : List ActionConfig)
      → is_blank monitor_id ≡ false
      → normalize_actions parsers monitor_id j actions ≡ ok out
      → AreActions parsers monitor_id out × (is_none parsers out ≡ is_none parsers actions)
  unfolding normalize_actions
  normalize_actions-AreActions monitor_id j [] out ne h =
      subst (λ out. AreActions parsers monitor_id out × (is_none parsers out ≡ true))
        (ok-injective h) (tt, refl)
  normalize_actions-AreActions monitor_id j (a ∷ actions) out ne h =
      let action = named_action parsers monitor_id j a in
      let (typed, h1) =
        refuse-ok (is_blank action.kind) (action_type_missing monitor_id action.name) _ out h in
      let (valid, h2) = require-ok (validate_action parsers monitor_id action) _ out h1 in
      let (rest, found, h3) =
        bind-ok (normalize_actions parsers monitor_id (suc j) actions) (λ rest. ok (action ∷ rest))
          out h2 in
      subst (λ out. AreActions parsers monitor_id out × (is_none parsers out ≡ false))
        {x = action ∷ rest} (ok-injective h3)
        (
          (
            named_action-name parsers monitor_id j a ne,
            typed,
            valid,
            (normalize_actions-AreActions monitor_id (suc j) actions rest ne found).0,
          ),
          refl,
        )

  -- The tests that a monitor has passed.
  record Passed (seen : List String) (mon out : MonitorConfig) : Type 0 where
    identified : is_empty mon.id ≡ false
    new : has seen mon.id ≡ false
    attempts : ltb_ℤ mon.max_recovery_attempts (pos 0) ≡ false
    interval : not (valid_duration parsers mon.interval false) ≡ false
    cooldown : not (valid_duration parsers mon.cooldown true) ≡ false
    target : validate_target mon.id mon.target ≡ none
    checked : is_none parsers mon.checks ≡ false
    checks : List CheckConfig
    checks_found : normalize_checks parsers mon.id 0 [] mon.checks ≡ ok checks
    recoverable : is_none parsers mon.recovery ≡ false
    recovery : List ActionConfig
    recovery_found : normalize_actions parsers mon.id 0 mon.recovery ≡ ok recovery
    whole : record mon { checks = checks; recovery = recovery } ≡ out

  normalize_monitor-Passed :
      (seen : List String) (given out : MonitorConfig)
      → normalize_monitor parsers seen given ≡ ok out
      → Passed seen (filled parsers given) out
  unfolding normalize_monitor
  normalize_monitor-Passed seen given out h =
      let mon = filled parsers given in
      let (identified, h1) = refuse-ok (is_empty mon.id) monitor_id_required _ out h in
      let (new, h2) = refuse-ok (has seen mon.id) (duplicate_monitor mon.id) _ out h1 in
      let (attempts, h3) =
        refuse-ok (ltb_ℤ mon.max_recovery_attempts (pos 0)) (negative_attempts mon.id) _ out h2 in
      let (interval, h4) =
        refuse-ok (not (valid_duration parsers mon.interval false))
          (bad_interval mon.id mon.interval) _ out h3 in
      let (cooldown, h5) =
        refuse-ok (not (valid_duration parsers mon.cooldown true))
          (bad_cooldown mon.id mon.cooldown) _ out h4 in
      let (target, h6) = require-ok (validate_target mon.id mon.target) _ out h5 in
      let (checked, h7) = refuse-ok (is_none parsers mon.checks) (no_checks mon.id) _ out h6 in
      let (checks, checks_found, h8) =
        bind-ok (normalize_checks parsers mon.id 0 [] mon.checks) _ out h7 in
      let (recoverable, h9) =
        refuse-ok (is_none parsers mon.recovery) (no_recovery mon.id) _ out h8 in
      let (recovery, recovery_found, h10) =
        bind-ok (normalize_actions parsers mon.id 0 mon.recovery) _ out h9 in
      record {
        identified = identified;
        new = new;
        attempts = attempts;
        interval = interval;
        cooldown = cooldown;
        target = target;
        checked = checked;
        checks = checks;
        checks_found = checks_found;
        recoverable = recoverable;
        recovery = recovery;
        recovery_found = recovery_found;
        whole = ok-injective h10;
      }

  -- The fields of a monitor that `Normalize` accepts.
  normalize_monitor-IsNormal :
      (seen : List String) (given out : MonitorConfig)
      → normalize_monitor parsers seen given ≡ ok out
      → IsNormal parsers out × (has seen out.id ≡ false)
  normalize_monitor-IsNormal seen given out h =
      let p = normalize_monitor-Passed seen given out h in
      let mon = filled parsers given in
      let ne = filled-id parsers given p.identified in
      let (checks_ok, checks_some) =
        normalize_checks-AreChecks mon.id 0 [] mon.checks p.checks ne p.checks_found in
      let (recovery_ok, recovery_some) =
        normalize_actions-AreActions mon.id 0 mon.recovery p.recovery ne p.recovery_found in
      let normal : IsNormal parsers (record mon { checks = p.checks; recovery = p.recovery }) =
        record {
          trimmed = filled-trimmed parsers given;
          identified = p.identified;
          named = filled-name parsers given p.identified;
          typed = filled-kind parsers given;
          timed = filled-interval parsers given;
          interval = not-false p.interval;
          threshold = filled-threshold parsers given;
          attempts = p.attempts;
          cooled = filled-cooldown parsers given;
          cooldown = not-false p.cooldown;
          transport = filled-transport parsers given;
          target = p.target;
          checked = checks_some ∙ p.checked;
          checks = checks_ok;
          recoverable = recovery_some ∙ p.recoverable;
          recovery = recovery_ok;
        } in
      subst (λ out. IsNormal parsers out × (has seen out.id ≡ false)) p.whole (normal, p.new)

  AreNormal-seen :
      (seen : List String) (mons out : List MonitorConfig)
      → normalize_monitors parsers seen mons ≡ ok out
      → AreNormal parsers seen out
  unfolding normalize_monitors
  AreNormal-seen seen [] out h = subst (AreNormal parsers seen) (ok-injective h) tt
  AreNormal-seen seen (given ∷ mons) out h =
      let (mon, found, h1) = bind-ok (normalize_monitor parsers seen given) _ out h in
      let (rest, rest_found, h2) =
        bind-ok (normalize_monitors parsers (mon.id ∷ seen) mons) (λ rest. ok (mon ∷ rest)) out
          h1 in
      let (normal, new) = normalize_monitor-IsNormal seen given mon found in
      subst (AreNormal parsers seen) {x = mon ∷ rest} (ok-injective h2)
        (normal, new, AreNormal-seen (mon.id ∷ seen) mons rest rest_found)

-- The configurations that `Normalize` accepts are complete afterwards: ids are trimmed, present and
-- stand once, names, types and durations are present, the durations, the target, the checks and the
-- actions are valid, the threshold is at least 1, and the cap on recovery attempts is not negative.
pub normalize-AreNormal :
    (parsers : Parsers) (mons out : List MonitorConfig)
    → normalize parsers mons ≡ ok out
    → AreNormal parsers [] out
unfolding normalize
normalize-AreNormal parsers mons out h = AreNormal-seen parsers [] mons out h

-- A configuration that `Normalize` has returned is left as it is by a second call, which accepts
-- it.
pub normalize_idem :
    (parsers : Parsers) (mons out : List MonitorConfig)
    → normalize parsers mons ≡ ok out
    → normalize parsers out ≡ ok out
unfolding normalize
normalize_idem parsers mons out h =
    AreNormal-fixed parsers [] out (normalize-AreNormal parsers mons out h)
