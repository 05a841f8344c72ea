-- ===== src/Api/Route/Guard.antt =====
-- internal/api/server.go: who can reach the triggers, and how a trigger that refuses is answered.
use rpi_procmon.Base.{
  ◌≡◌, refl, ℕ, String, Bool, false, Option, none, some, List, [], ◌∷◌, inl, inr, Bool-cases, ◌==◌,
  ◌||◌,
}
use rpi_procmon.Base.Text.{trim_space, is_empty}
use rpi_procmon.Config.Types.{Config}
use rpi_procmon.Api.{ControlProvider, SnapshotProvider, Request}
use rpi_procmon.Base.Text.Split.{trim_of, split_on, trim_prefix}
use rpi_procmon.Api.Auth.{authorize_admin}
use rpi_procmon.Api.Route.{serve_action, serve_segments, serve_monitor_route}
use rpi_procmon.Api.Server.{
  WebPackage, monitor_path, serve_api, serve_pattern, with_cors, serve, patterns,
}

module _ {W : Type 0} (sha256 : String → List ℕ) (is_deadline : String → Bool)
    (provider : SnapshotProvider W) (control control' : ControlProvider W) (token : String)
    (r : Request) (refused : authorize_admin sha256 token r ≡ false) where
  serve_action-same :
      (id action : String) (w : W)
      → serve_action sha256 is_deadline (some control) token r id action w
        ≡ serve_action sha256 is_deadline (some control') token r id action w
  unfolding serve_action
  serve_action-same id action w = rw refused refl

  serve_segments-same :
      (parts : List String) (w : W)
      → serve_segments sha256 is_deadline provider (some control) token r parts w
        ≡ serve_segments sha256 is_deadline provider (some control') token r parts w
  unfolding serve_segments
  serve_segments-same [] w = refl
  serve_segments-same (id ∷ []) w = refl
  serve_segments-same (id ∷ action ∷ []) w = elim (Bool-cases (r.method == "POST")) [
    | inl post ↦ rw post (serve_action-same id action w)
    | inr other ↦ rw other refl
  ]
  serve_segments-same (a ∷ b ∷ c ∷ parts) w = refl

  serve_monitor_route-same :
      (path : String) (w : W)
      → serve_monitor_route sha256 is_deadline provider (some control) token r path w
        ≡ serve_monitor_route sha256 is_deadline provider (some control') token r path w
  unfolding serve_monitor_route
  serve_monitor_route-same path w = elim (Bool-cases (is_empty (trim_of b'/' path))) [
    | inl empty ↦ rw empty refl
    | inr some' ↦ rw some' (serve_segments-same (split_on b'/' (trim_of b'/' path)) w)
  ]

module _ {W : Type 0} (web : WebPackage) (provider : SnapshotProvider W)
    (control control' : ControlProvider W) (token : String) (r : Request)
    (refused : authorize_admin web.sha256 token r ≡ false) where
  serve_api-same :
      (pattern : String) (w : W)
      → serve_api web provider (some control) token pattern r w
        ≡ serve_api web provider (some control') token pattern r w
  unfolding serve_api
  serve_api-same pattern w = elim (Bool-cases (pattern == "/health")) [
    | inl e ↦ rw e refl
    | inr h ↦ elim (Bool-cases (pattern == "/status")) [
      | inl e ↦ rw (h, e) refl
      | inr s ↦ elim (Bool-cases (pattern == "/events")) [
        | inl e ↦ rw (h, s, e) refl
        | inr v ↦ elim (Bool-cases (pattern == "/monitors")) [
          | inl e ↦ rw (h, s, v, e) refl
          | inr m ↦
              rw (h, s, v, m)
                (serve_monitor_route-same web.sha256 web.is_deadline provider control control' token
                  r refused (monitor_path web provider r.path) w)
        ]
      ]
    ]
  ]

  serve_pattern-same :
      (pattern : Option String) (w : W)
      → serve_pattern web provider (some control) token pattern r w
        ≡ serve_pattern web provider (some control') token pattern r w
  unfolding serve_pattern
  serve_pattern-same none w = refl
  serve_pattern-same (some pattern) w = elim (Bool-cases (pattern == "/ui")) [
    | inl e ↦ rw e refl
    | inr u ↦ elim (Bool-cases ((pattern == "/ui/") || (pattern == "/ui/index.html"))) [
      | inl e ↦ rw (u, e) refl
      | inr i ↦ rw (u, i) (serve_api-same (trim_prefix "/api/v1" pattern) w)
    ]
  ]

-- A request that does not carry the configured admin token never reaches a trigger: whatever the
-- two triggers are, the server gives the same response and leaves the same world behind.
pub serve-guarded :
    {W : Type 0} (web : WebPackage) (provider : SnapshotProvider W) (cfg : Config)
    (control control' : ControlProvider W) (r : Request) (w : W)
    → authorize_admin web.sha256 (trim_space cfg.api.admin_token) r ≡ false
    → serve web provider cfg (some control) r w ≡ serve web provider cfg (some control') r w
unfolding serve with_cors
serve-guarded web provider cfg control control' r w refused =
    let same =
      serve_pattern-same web provider control control' (trim_space cfg.api.admin_token) r refused
        (web.mux (patterns web provider) r.path) w in
    elim (Bool-cases (r.method == "OPTIONS")) [
      | inl options ↦ rw options refl
      | inr other ↦ rw (other, same) refl
    ]
