-- ===== src/Api/Server.antt =====
-- internal/api/server.go: the handlers, what they are registered for, and CORS.
use rpi_procmon.Base.{
  ℕ, String, Bool, ◌||◌, ◌⊎◌, inl, inr, Option, none, some, List, [], ◌∷◌, ◌++◌, ◌==◌,
  if◌then◌else◌,
}
use rpi_procmon.Base.Text.{trim_space, is_empty}
use rpi_procmon.Base.Text.Split.{has_prefix, trim_prefix}
use rpi_procmon.Config.Types.{Config}
use rpi_procmon.State.{ProcmonStatus}
use rpi_procmon.Events.{Filter}
use rpi_procmon.Api.{
  ControlProvider, SnapshotProvider, Request, Body, empty, ui_page, redirect_to, error_json,
  status_json, health_json, monitors_json, events_json, Response, write_json, not_found,
}
use rpi_procmon.Api.Query.{
  QueryPackage, normalize_event_limit, parse_event_filter, format_filter_since,
}
use rpi_procmon.Api.Route.{serve_monitor_route}

-- `net/http` and `crypto/sha256`: `mux` gives the pattern that `http.ServeMux` chooses for a path,
-- of those that are registered.
pub record WebPackage : Type 0 where
  pub query : QueryPackage
  pub sha256 : String → List ℕ
  pub is_deadline : String → Bool
  pub mux : List String → String → Option String

-- `overallStatusHealthy`.
unfoldable pub overall_status_healthy : String → Bool
overall_status_healthy status = status == "healthy" || status == "recovering"

-- `serveUI`.
unfoldable pub serve_ui : Request → Response
serve_ui r =
    if (r.path == "/ui/") || (r.path == "/ui/index.html")
    then record {
      status = 200;
      headers = ("Content-Type", "text/html; charset=utf-8") ∷ [];
      body = ui_page;
    }
    else not_found

module _ {W : Type 0} (web : WebPackage) (provider : SnapshotProvider W) where
  -- `serveHealth`.
  unfoldable pub serve_health : W → Response × W
  unfolding overall_status_healthy
  serve_health w =
      let (snapshot, w') = provider.snapshot w in
      let ok = overall_status_healthy snapshot.overall_status in
      (write_json (if ok then 200 else 503) (health_json ok snapshot), w')

  abbrev events_response : String ⊎ Filter → W → Response × W
  events_response (inl e) w = (write_json 400 (error_json e), w)
  events_response (inr filter) w =
      let (events, w') = provider.events_snapshot filter w in
      (
        write_json 200 (
            events_json events filter (normalize_event_limit filter.limit)
              (format_filter_since web.query filter.since)),
        w',
      )

  -- `serveEvents`.
  unfoldable pub serve_events : Request → W → Response × W
  unfolding parse_event_filter normalize_event_limit format_filter_since
  serve_events r w = events_response (parse_event_filter web.query r) w

  -- The path of a monitor below the one of the two patterns.
  unfoldable pub monitor_path : String → String
  unfolding has_prefix trim_prefix
  monitor_path path =
      if has_prefix "/api/v1/" path
      then trim_prefix "/api/v1/monitors/" path
      else trim_prefix "/monitors/" path

  abbrev pub api_patterns : List String
  api_patterns = "/health" ∷ "/status" ∷ "/events" ∷ "/monitors" ∷ "/monitors/" ∷ []

  abbrev snapshot_answer : (ProcmonStatus → Body) → ProcmonStatus × W → Response × W
  snapshot_answer body (snapshot, w) = (write_json 200 (body snapshot), w)

  -- The handler that `register` has for a pattern.
  unfoldable pub serve_api :
      Option (ControlProvider W) → String → String → Request → W → Response × W
  unfolding serve_health serve_events serve_monitor_route monitor_path
  serve_api control admin_token pattern r w =
      if pattern == "/health"
      then serve_health w
      else if pattern == "/status"
      then snapshot_answer status_json (provider.snapshot w)
      else if pattern == "/events"
      then serve_events r w
      else if pattern == "/monitors"
      then snapshot_answer (λ snapshot. monitors_json snapshot.monitors) (provider.snapshot w)
      else serve_monitor_route web.sha256 web.is_deadline provider control admin_token r
          (monitor_path r.path) w

  abbrev versioned : List String → List String
  versioned [] = []
  versioned (p ∷ ps) = p ∷ Prim.Native.String.◌++◌ "/api/v1" p ∷ versioned ps

  abbrev pub patterns : List String
  patterns = "/ui" ∷ "/ui/" ∷ "/ui/index.html" ∷ versioned api_patterns

  -- The handler of a pattern.
  unfoldable pub serve_pattern :
      Option (ControlProvider W) → String → Option String → Request → W → Response × W
  unfolding serve_ui serve_api
  serve_pattern control admin_token none r w = (not_found, w)
  serve_pattern control admin_token (some pattern) r w =
      if pattern == "/ui"
      then (record { status = 301; headers = []; body = redirect_to "/ui/" }, w)
      else if (pattern == "/ui/") || (pattern == "/ui/index.html")
      then (serve_ui r, w)
      else serve_api control admin_token (trim_prefix "/api/v1" pattern) r w

  abbrev pub cors_headers : String → List (String × String)
  cors_headers origin =
      ("Access-Control-Allow-Origin", origin)
      ∷ ("Access-Control-Allow-Methods", "GET, POST, OPTIONS")
      ∷ ("Access-Control-Allow-Headers", "Accept, Authorization, Content-Type")
      ∷ []

  abbrev with_headers : List (String × String) → Response × W → Response × W
  with_headers headers (resp, w) = (record resp { headers = headers ++ resp.headers }, w)

  -- `withCORS`.
  unfoldable pub with_cors : (Request → W → Response × W) → String → Request → W → Response × W
  with_cors next allowed_origin r w =
      let origin = if is_empty allowed_origin then "http://127.0.0.1:9645" else allowed_origin in
      let headers = cors_headers origin in
      if r.method == "OPTIONS"
      then (record { status = 204; headers = headers; body = empty }, w)
      else with_headers headers (next r w)

  -- The handler of `NewServer`.
  unfoldable pub serve : Config → Option (ControlProvider W) → Request → W → Response × W
  unfolding serve_pattern with_cors
  serve cfg control =
      with_cors
        (λ r. serve_pattern control (trim_space cfg.api.admin_token) (web.mux patterns r.path) r)
        cfg.api.cors_origin
