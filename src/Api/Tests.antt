-- ===== src/Api/Tests.antt =====
-- Requests to a server over the manager of Engine.Lab, with the token "secret" and a digest that is
-- the list of a text's codes.

use Prim.Native.Char.{code}
use Prim.Native.String
use rpi_procmon.Base.{
  ◌≡◌, ◌↔◌, refl, ap, ℕ, String, true, false, inl, inr, some, List, [], ◌∷◌, pos, take, select,
  reverse, ◌==◌, if◌then◌else◌,
}
use rpi_procmon.Base.Text.{is_empty, trim_space}
use rpi_procmon.Base.Text.Number.{atoi}
use rpi_procmon.Base.Text.Split.{fields, equal_fold}
use rpi_procmon.Config.Types.{Config}
use rpi_procmon.Events.{Event}
use rpi_procmon.Engine.Env.{Sys}
use rpi_procmon.Engine.Lab.{clock, manager, start}
use rpi_procmon.Engine.Query.Newest.{passes}
use rpi_procmon.Engine.Run.{acquire}
use rpi_procmon.Engine.Trigger.{monitor_not_found, lookup_enabled_monitor}
use rpi_procmon.Api.{ControlProvider, Request, write_json, events_json}
use rpi_procmon.Api.Auth.{bearer_token, authorize_admin, NoCollision, authorize_admin-bearer_token}
use rpi_procmon.Api.Auth.Bearer.{bearer_token-solid}
use rpi_procmon.Api.Query.{format_filter_since}
use rpi_procmon.Api.Route.{serve_segments}
use rpi_procmon.Api.Route.Guard.{serve-guarded}
use rpi_procmon.Api.Server.{WebPackage, serve_events, serve}
use rpi_procmon.Api.Provider.{snapshots, control}
use rpi_procmon.Api.Provider.Refusal.{IsAnswered, serve_segments-IsAnswered}
use rpi_procmon.Api.Provider.Events.{AsksFor, IsSince, filter_of, serve_events-newest}

abbrev codes : String → List ℕ
codes Prim.Native.String.[] = []
codes (Prim.Native.String.◌∷◌ c s) = code c ∷ codes s

abbrev query_of : String → String
query_of key = ""

-- A request for a check of an unknown monitor, with the header `authorization`.
abbrev post : String → Request
post authorization = record {
  method = "POST";
  path = "/monitors/c/check";
  authorization = authorization;
  query = query_of;
}

bearer_token-solid_example :
    bearer_token (Prim.Native.String.◌++◌ "bEARER" (Prim.Native.String.◌++◌ " " "secret"))
    ≡ "secret"
unfolding equal_fold
bearer_token-solid_example = bearer_token-solid "bEARER" "secret" refl refl refl refl

abbrev web : WebPackage
web = record {
  query = record {
    parse_time = λ s. inl "no time";
    format_time = λ t. "";
    atoi_error = λ s. "no number";
  };
  sha256 = codes;
  is_deadline = λ e. false;
  mux = λ patterns path. some "/monitors/";
}

abbrev cfg : Config
cfg = record manager.cfg { api = record manager.cfg.api { admin_token = "secret" } }

-- Triggers that fail.
abbrev broken : ControlProvider (Sys ℕ)
broken = record {
  trigger_check = λ id s. (rpi_procmon.Engine.Trigger.err monitor_not_found, s);
  trigger_recovery = λ id s. (rpi_procmon.Engine.Trigger.err monitor_not_found, s);
}

wrong_token : authorize_admin codes "secret" (post "Bearer guess") ≡ false
unfolding authorize_admin bearer_token trim_space fields equal_fold
wrong_token = refl

right_token : authorize_admin codes "secret" (post "Bearer secret") ≡ true
unfolding authorize_admin bearer_token trim_space fields equal_fold
right_token = refl

serve-guarded_example :
    serve web (snapshots manager) cfg (some (control manager)) (post "Bearer guess") start
    ≡ serve web (snapshots manager) cfg (some broken) (post "Bearer guess") start
unfolding trim_space
serve-guarded_example =
    serve-guarded web (snapshots manager) cfg (control manager) broken (post "Bearer guess") start
      wrong_token

serve_segments-IsAnswered_example : IsAnswered "c" manager.cfg.monitors start (
    serve_segments codes web.is_deadline
      (snapshots manager)
      (some (control manager))
      "secret"
      (post "Bearer secret")
      ("c" ∷ "check" ∷ [])
      start)
serve_segments-IsAnswered_example =
    serve_segments-IsAnswered manager codes web.is_deadline "secret" (post "Bearer secret") "c"
      "check" start refl right_token refl

-- A request for the newest event of the monitor "a".
abbrev one_of_a : String → String
one_of_a key = if key == "monitor_id" then " a " else if key == "limit" then "1" else ""

abbrev get_events : Request
get_events = record (post "") { method = "GET"; path = "/events"; query = one_of_a }

abbrev event_named : String → String → Event
event_named id monitor_id = record {
  id = id;
  timestamp = "";
  monitor_id = monitor_id;
  monitor_name = "";
  monitor_type = "";
  event_type = "failed";
  status_before = "";
  status_after = "";
  reason = "";
  consecutive_failures = pos 0;
  recovery_count = pos 0;
  check_results = [];
  recovery_results = [];
}

abbrev events : List Event
events = event_named "1" "a" ∷ event_named "2" "a" ∷ event_named "3" "b" ∷ []

abbrev eventful : Sys ℕ
eventful = record start {
  shared = record start.shared { event_history = record { version = pos 1; events = events } };
}

one_of_a-AsksFor : AsksFor (trim_space (one_of_a "limit")) (pos 1)
unfolding trim_space atoi
one_of_a-AsksFor = inr (refl, refl)

one_of_a-IsSince : IsSince web.query (trim_space (one_of_a "since")) (pos 0)
unfolding trim_space
one_of_a-IsSince = inl (refl, refl)

second_kept :
    take 1 (select (passes clock (filter_of get_events (pos 1) (pos 0))) (reverse events))
    ≡ event_named "2" "a" ∷ []
unfolding trim_space
second_kept = refl

serve_events-newest_example :
    (serve_events web (snapshots manager) get_events eventful).0
    ≡ write_json 200 (
        events_json
          (take 1 (
            select
              (passes clock (filter_of get_events (pos 1) (pos 0)))
              (reverse (acquire manager eventful).1.shared.event_history.events)))
          (filter_of get_events (pos 1) (pos 0))
          (pos 1)
          (format_filter_since web.query (pos 0)))
serve_events-newest_example =
    serve_events-newest manager web get_events (pos 1) (pos 0) eventful one_of_a-AsksFor
      one_of_a-IsSince

first_code : List ℕ → ℕ
first_code [] = 0
first_code (n ∷ ns) = n

guess-NoCollision : NoCollision codes (bearer_token "Bearer guess") "secret"
unfolding bearer_token trim_space fields equal_fold first_code
guess-NoCollision same = absurd (cc (ap first_code same))

authorize_admin-bearer_token_example :
    (authorize_admin codes "secret" (post "Bearer guess") ≡ true)
    ↔ ((is_empty "secret" ≡ false) × (bearer_token "Bearer guess" ≡ "secret"))
authorize_admin-bearer_token_example =
    authorize_admin-bearer_token codes "secret" (post "Bearer guess") guess-NoCollision
