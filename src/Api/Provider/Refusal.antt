-- ===== src/Api/Provider/Refusal.antt =====
-- internal/api/server.go over internal/engine/manager.go: a trigger on a monitor that there is not,
-- or that is disabled.
use rpi_procmon.Base.{
  ◌≡◌, refl, eq_iff, ℕ, String, Bool, true, false, some, List, [], ◌∷◌, inl, inr, Bool-cases, ◌==◌,
  ◌||◌, ◌++◌, ap, subst, ◌⊎◌, has,
}
use rpi_procmon.Base.Text.{is_empty}
use rpi_procmon.Config.Types.{MonitorConfig, is_enabled}
use rpi_procmon.Engine.Start.Started.{ids}
use rpi_procmon.Engine.Env.{Manager, Sys, pure}
use rpi_procmon.Engine.Trigger.{
  TriggerError, monitor_not_found, monitor_disabled, Result, ok, err, lookup_enabled_monitor,
  trigger_check, trigger_recovery,
}
use rpi_procmon.Api.{Request, Response, error_json, write_json}
use rpi_procmon.Api.Auth.{authorize_admin}
use rpi_procmon.Api.Route.{
  error_status, trigger_error_text, run_action, trigger_response, serve_action, serve_segments,
}
use rpi_procmon.Api.Provider.{snapshots, control}

-- Is this one of the two actions?
abbrev pub is_trigger : String → Bool
is_trigger action = action == "check" || action == "recover"

authorize_admin-on :
    (sha256 : String → List ℕ) (token : String) (r : Request)
    → authorize_admin sha256 token r ≡ true
    → is_empty token ≡ false
unfolding authorize_admin
authorize_admin-on sha256 token r h = elim (Bool-cases (is_empty token)) [
  | inl off ↦ absurd (cc (rw off at h))
  | inr on ↦ on
]

run_action-refused :
    (m : Manager) (sha256 : String → List ℕ) (is_deadline : String → Bool) (id action : String)
    (e : TriggerError) (s : Sys m.env.World)
    → is_trigger action ≡ true
    → lookup_enabled_monitor id m.cfg.monitors ≡ err e
    → run_action sha256 is_deadline (control m) id action s
      ≡ (write_json (error_status is_deadline e) (error_json (trigger_error_text e)), s)
unfolding run_action trigger_response pure trigger_check trigger_recovery
run_action-refused m sha256 is_deadline id action e s trigger refused =
    elim (Bool-cases (action == "check")) [
      | inl check ↦ rw (check, trigger_check, refused) refl
      | inr other ↦ elim (Bool-cases (action == "recover")) [
        | inl recover ↦ rw (other, recover, trigger_recovery, refused) refl
        | inr none' ↦ absurd (cc (rw (other, none') at trigger))
      ]
    ]

-- The monitor is the first of the list with the id.
abbrev pub IsFirst : String → MonitorConfig → List MonitorConfig → Type 0
IsFirst id mon mons =
    (before : List MonitorConfig) × (after : List MonitorConfig) × (mons ≡ before ++ mon ∷ after)
    × (has (ids before) id ≡ false)
    × (mon.id ≡ id)

-- What the lookup of the manager gives, by the monitors before the first with the id.
abbrev IsLooked : String → List MonitorConfig → Result MonitorConfig → Type 0
IsLooked id mons found =
    ((has (ids mons) id ≡ false) × (found ≡ err monitor_not_found))
    ⊎ (((mon : MonitorConfig) × IsFirst id mon mons
          × (is_enabled mon ≡ false)
          × (found ≡ err monitor_disabled))
        ⊎ ((mon : MonitorConfig) × IsFirst id mon mons
            × (is_enabled mon ≡ true)
            × (found ≡ ok mon)))

IsFirst-later :
    (id : String) (mon other : MonitorConfig) (mons : List MonitorConfig)
    → (other.id == id) ≡ false
    → IsFirst id mon mons
    → IsFirst id mon (other ∷ mons)
IsFirst-later id mon other mons no' (before, after, split, new, same) =
    (other ∷ before, after, ap (λ rest. other ∷ rest) split, rw no' new, same)

IsLooked-later :
    (id : String) (other : MonitorConfig) (mons : List MonitorConfig) (found : Result MonitorConfig)
    → (other.id == id) ≡ false
    → IsLooked id mons found
    → IsLooked id (other ∷ mons) found
IsLooked-later id other mons found no' (inl (none', e)) = inl (rw no' none', e)
IsLooked-later id other mons found no' (inr (inl (mon, first, off, e))) =
    inr (inl (mon, IsFirst-later id mon other mons no' first, off, e))
IsLooked-later id other mons found no' (inr (inr (mon, first, off, e))) =
    inr (inr (mon, IsFirst-later id mon other mons no' first, off, e))

lookup_enabled_monitor-IsLooked :
    (id : String) (mons : List MonitorConfig) → IsLooked id mons (lookup_enabled_monitor id mons)
unfolding lookup_enabled_monitor
lookup_enabled_monitor-IsLooked id [] = inl (refl, refl)
lookup_enabled_monitor-IsLooked id (mon ∷ mons) = elim (Bool-cases (mon.id == id)) [
  | inr no' ↦
      let same : lookup_enabled_monitor id mons ≡ lookup_enabled_monitor id (mon ∷ mons) =
        rw no' refl in
      subst (IsLooked id (mon ∷ mons)) same (
        IsLooked-later id mon mons (lookup_enabled_monitor id mons) no'
          (lookup_enabled_monitor-IsLooked id mons))
  | inl same ↦
      let first : IsFirst id mon (mon ∷ mons) = ([], mons, refl, refl, (eq_iff mon.id id).0 same) in
      elim (Bool-cases (is_enabled mon)) [
        | inl on ↦ inr (inr (mon, first, on, rw (same, on) refl))
        | inr off ↦ inr (inl (mon, first, off, rw (same, off) refl))
      ]
]

-- How a trigger on the monitor `id` is answered, in a system that was `s`.
abbrev pub IsAnswered :
    {W : Type 0} → String → List MonitorConfig → Sys W → Response × Sys W → Type 0
IsAnswered id mons s r =
    ((has (ids mons) id ≡ false) × (r ≡ (write_json 404 (error_json "monitor not found"), s)))
    ⊎ (((mon : MonitorConfig) × IsFirst id mon mons
          × (is_enabled mon ≡ false)
          × (r ≡ (write_json 409 (error_json "monitor is disabled"), s)))
        ⊎ ((mon : MonitorConfig) × IsFirst id mon mons × (is_enabled mon ≡ true)))

-- An authorized POST request for a check or a recovery is answered by the configuration: if no
-- monitor has the id, with the status 404 and the error "monitor not found", and nothing changes;
-- if the first monitor with the id is disabled, with the status 409 and the error "monitor is
-- disabled", and nothing changes; otherwise that monitor is enabled.
pub serve_segments-IsAnswered :
    (m : Manager) (sha256 : String → List ℕ) (is_deadline : String → Bool) (token : String)
    (r : Request) (id action : String) (s : Sys m.env.World)
    → r.method ≡ "POST"
    → authorize_admin sha256 token r ≡ true
    → is_trigger action ≡ true
    → IsAnswered id m.cfg.monitors s (
        serve_segments sha256 is_deadline
          (snapshots m)
          (some (control m))
          token
          r
          (id ∷ action ∷ [])
          s)
unfolding serve_segments serve_action error_status
serve_segments-IsAnswered m sha256 is_deadline token r id action s post authorized trigger =
    rw ((eq_iff r.method "POST").1 post, authorize_admin-on sha256 token r authorized, authorized)
      (elim (lookup_enabled_monitor-IsLooked id m.cfg.monitors) [
        | inl (none', e) ↦
            inl (
              none',
              run_action-refused m sha256 is_deadline id action monitor_not_found s trigger e,
            )
        | inr (inl (mon, first, off, e)) ↦ inr (
            inl (
              mon,
              first,
              off,
              run_action-refused m sha256 is_deadline id action monitor_disabled s trigger e,
            ))
        | inr (inr (mon, first, on, e)) ↦ inr (inr (mon, first, on))
      ])
