-- ===== src/Config/Load/Loaded.antt =====
-- internal/config/load.go: what a configuration that `Load` returns is.
use rpi_procmon.Base.{
  ◌≡◌, refl, String, false, ◌⊎◌, inl, inr, Option, none, some, List, [], ℤ, pos, leb_ℤ,
  if◌then◌else◌, Bool-cases,
}
use rpi_procmon.Base.Text.{is_blank, trim_space}
use rpi_procmon.Config.Types.{MonitorConfig, Config}
use rpi_procmon.Config.Validate.{Parsers}
use rpi_procmon.Config.Dedupe.{Dedupe, dedupe_monitors}
use rpi_procmon.Config.Normalize.{normalize, or_text, Result, ok, err}
use rpi_procmon.Config.Normalize.Complete.{AreNormal}
use rpi_procmon.Config.Normalize.Accepted.{normalize-AreNormal}
use rpi_procmon.Config.Load.{
  Host, LoadError, apply_defaults, apply_env_overrides, is_nil, normalized, rewrite_config, finish,
  rewritten, sanitized, parsed, opened, load,
}

-- What the daemon needs of its configuration.
pub record IsReady (parsers : Parsers) (cfg : Config) : Type 0 where
  pub monitors : AreNormal parsers [] cfg.monitors
  pub entries : leb_ℤ cfg.events_max_entries (pos 0) ≡ false
  pub log_file : is_blank cfg.log_file ≡ false
  pub state_file : is_blank cfg.state_file ≡ false
  pub events_file : is_blank cfg.events_file ≡ false
  pub listen_address : is_blank cfg.api.listen_address ≡ false
  pub read_header_timeout : is_blank cfg.api.read_header_timeout ≡ false

abbrev pub IsLoaded : Parsers → LoadError ⊎ Config → Type 0
IsLoaded parsers (inl e) = Unit
IsLoaded parsers (inr cfg) = IsReady parsers cfg

or_text-present : (value def : String) → is_blank def ≡ false → is_blank (or_text value def) ≡ false
or_text-present value def h = elim (Bool-cases (is_blank value)) [
  | inl blank ↦ rw blank h
  | inr present ↦ rw present present
]

module _ {W : Type 0} (host : Host W) (parsers : Parsers) where
  entries-positive : (n : ℤ) → leb_ℤ (if leb_ℤ n (pos 0) then pos 1000 else n) (pos 0) ≡ false
  entries-positive n = elim (Bool-cases (leb_ℤ n (pos 0))) [
    | inl low ↦ rw low refl
    | inr high ↦ rw high high
  ]

  normalized-IsLoaded :
      (cfg : Config) (r : Result (List MonitorConfig))
      → normalize parsers cfg.monitors ≡ r
      → IsLoaded parsers (normalized host parsers (apply_defaults cfg) r)
  unfolding apply_defaults trim_space
  normalized-IsLoaded cfg (err e) h = tt
  normalized-IsLoaded cfg (ok mons) h = record {
    monitors = normalize-AreNormal parsers cfg.monitors mons h;
    entries = entries-positive cfg.events_max_entries;
    log_file = or_text-present cfg.log_file _ refl;
    state_file = or_text-present cfg.state_file _ refl;
    events_file = or_text-present cfg.events_file _ refl;
    listen_address = or_text-present cfg.api.listen_address _ refl;
    read_header_timeout = or_text-present cfg.api.read_header_timeout _ refl;
  }

  finish-IsLoaded : (read : Config) → IsLoaded parsers (finish host parsers read)
  unfolding finish apply_defaults
  finish-IsLoaded read =
      let cfg = apply_env_overrides host.getenv read in
      elim (Bool-cases (is_nil (apply_defaults cfg).monitors)) [
        | inl empty ↦ rw empty tt
        | inr some' ↦ rw some' (normalized-IsLoaded cfg (normalize parsers cfg.monitors) refl)
      ]

  rewritten-IsLoaded :
      (cfg : Config) (r : Option String × W) → IsLoaded parsers (rewritten host parsers cfg r).0
  rewritten-IsLoaded cfg (some e, w) = tt
  rewritten-IsLoaded cfg (none, w) = finish-IsLoaded cfg

  sanitized-IsLoaded :
      (cfg : Config) (d : Option Dedupe) (w : W)
      → IsLoaded parsers (sanitized host parsers cfg d w).0
  sanitized-IsLoaded cfg none w = tt
  sanitized-IsLoaded cfg (some d) w =
      let cfg' = record cfg { monitors = d.deduped } in
      elim (Bool-cases (is_nil d.duplicate_ids)) [
        | inl unique ↦ rw unique (finish-IsLoaded cfg')
        | inr twice ↦ rw twice (rewritten-IsLoaded cfg' (rewrite_config host parsers cfg' w))
      ]

  parsed-IsLoaded :
      (file : String) (r : String ⊎ Config) (w : W)
      → IsLoaded parsers (parsed host parsers file r w).0
  parsed-IsLoaded file (inl e) w = tt
  parsed-IsLoaded file (inr cfg) w =
      sanitized-IsLoaded (record cfg { config_file = file }) (dedupe_monitors cfg.monitors) w

  opened-IsLoaded :
      (file : String) (r : (String ⊎ String) × W) → IsLoaded parsers (opened host parsers file r).0
  opened-IsLoaded file (inl e, w) = tt
  opened-IsLoaded file (inr content, w) = elim (Bool-cases (is_blank content)) [
    | inl blank ↦ rw blank tt
    | inr text ↦ rw text (parsed-IsLoaded file (host.decode content _) w)
  ]

-- A configuration that `Load` returns has normal monitors, a positive limit of the event history,
-- and non-blank file names, address and timeout, whatever the file and the environment hold.
pub load-IsLoaded :
    {W : Type 0} (host : Host W) (parsers : Parsers) (w : W)
    → IsLoaded parsers (load host parsers w).0
unfolding load
load-IsLoaded host parsers w = opened-IsLoaded host parsers _ (host.read_file _ w)
