-- ===== src/Api/Provider/Events.antt =====
-- internal/api/server.go over internal/engine/manager.go: the answer to a query for events.
use rpi_procmon.Base.{
  ℕ, zero, suc, ltb, if◌then◌else◌, Bool-cases, inr, String, true, false, refl, ◌∙◌, ◌⊎◌, inl, some,
  ◌≡◌, ap, inr, List, ℤ, pos, negsuc, take, select, reverse, arith,
}
use rpi_procmon.Events.{Filter, Event}
use rpi_procmon.Engine.Env.{Manager, Sys, ◌>>=◌}
use rpi_procmon.Engine.Query.{event_limit}
use rpi_procmon.Engine.Query.Newest.{passes, events_snapshot-newest}
use rpi_procmon.Engine.Run.{acquire}
use rpi_procmon.Api.{Request, write_json, events_json}
use rpi_procmon.Api.Query.{
  QueryPackage, normalize_event_limit, parse_limit, parse_since, parse_event_filter,
  format_filter_since,
}
use rpi_procmon.Base.Text.{trim_space, is_empty}
use rpi_procmon.Base.Text.Number.{atoi}
use rpi_procmon.Api.Server.{WebPackage, serve_events}
use rpi_procmon.Api.Provider.{snapshots, take_events_snapshot}

reported_limit : (limit : ℤ) → normalize_event_limit limit ≡ pos (event_limit limit)
unfolding normalize_event_limit event_limit
reported_limit (pos n) = ground arith
reported_limit (negsuc n) = ground arith

answered :
    (m : Manager) (web : WebPackage) (r : Request) (filter : Filter) (s : Sys m.env.World)
    → parse_event_filter web.query r ≡ inr filter
    → (serve_events web (snapshots m) r s).0
      ≡ write_json 200 (
          events_json
            (take
              (event_limit filter.limit)
              (select (passes m.time filter) (reverse (acquire m s).1.shared.event_history.events)))
            filter
            (pos (event_limit filter.limit))
            (format_filter_since web.query filter.since))
unfolding serve_events take_events_snapshot ◌>>=◌
answered m web r filter s parsed =
    rw (parsed, reported_limit filter.limit)
      (ap
        (λ (es : List Event). write_json 200 (
          events_json es filter (pos (event_limit filter.limit))
            (format_filter_since web.query filter.since)))
        (events_snapshot-newest m.time filter (acquire m s).1.shared).0)

-- The number of events that a query may ask for: 50 unless it asks for a positive number, and at
-- most 500.
abbrev pub allowed : ℤ → ℕ
allowed (pos zero) = 50
allowed (pos (suc n)) = if ltb 500 (suc n) then 500 else suc n
allowed (negsuc n) = 50

-- The limit that a text asks for, where no text asks for none.
abbrev pub AsksFor : String → ℤ → Type 0
AsksFor text asked =
    ((is_empty text ≡ true) × (asked ≡ pos 0))
    ⊎ ((is_empty text ≡ false) × (atoi text ≡ some asked))

-- The time that a text names, where no text names the zero time.
abbrev pub IsSince : QueryPackage → String → ℤ → Type 0
IsSince library text since =
    ((is_empty text ≡ true) × (since ≡ pos 0))
    ⊎ ((is_empty text ≡ false) × (library.parse_time text ≡ inr since))

allowed-event_limit : (asked : ℤ) → event_limit asked ≡ allowed asked
unfolding event_limit
allowed-event_limit (pos zero) = refl
allowed-event_limit (pos (suc n)) = ground arith
allowed-event_limit (negsuc n) = ground arith

allowed_idem : (asked : ℤ) → allowed (pos (allowed asked)) ≡ allowed asked
allowed_idem (pos zero) = refl
allowed_idem (pos (suc n)) = elim (Bool-cases (ltb 500 (suc n))) [
  | inl over ↦ rw over refl
  | inr within ↦ rw within (rw within refl)
]
allowed_idem (negsuc n) = refl

-- The filter that a request asks for.
abbrev pub filter_of : Request → ℤ → ℤ → Filter
filter_of r asked since = record {
  monitor_id = trim_space (r.query "monitor_id");
  event_type = trim_space (r.query "event_type");
  since = since;
  limit = pos (allowed asked);
}

parse_limit-allowed :
    (library : QueryPackage) (text : String) (asked : ℤ)
    → AsksFor text asked
    → parse_limit library text ≡ inr (pos (allowed asked))
unfolding parse_limit
parse_limit-allowed library text asked (inl (empty, zero_asked)) = rw (empty, zero_asked) refl
parse_limit-allowed library text asked (inr (some', number)) =
    rw (some', number) (ap inr (reported_limit asked ∙ ap pos (allowed-event_limit asked)))

parse_since-IsSince :
    (library : QueryPackage) (text : String) (since : ℤ)
    → IsSince library text since
    → parse_since library text ≡ inr since
unfolding parse_since
parse_since-IsSince library text since (inl (empty, zero_since)) = rw (empty, zero_since) refl
parse_since-IsSince library text since (inr (some', time)) = rw some' time

parse_event_filter-filter_of :
    (library : QueryPackage) (r : Request) (asked since : ℤ)
    → AsksFor (trim_space (r.query "limit")) asked
    → IsSince library (trim_space (r.query "since")) since
    → parse_event_filter library r ≡ inr (filter_of r asked since)
unfolding parse_event_filter
parse_event_filter-filter_of library r asked since limited timed =
    rw
      (
        parse_event_filter,
        parse_limit-allowed library (trim_space (r.query "limit")) asked limited,
        parse_since-IsSince library (trim_space (r.query "since")) since timed,
      )
      refl

-- A query for events whose limit is a number or missing and whose time can be read or is missing is
-- answered with status 200 and the newest events of the history, as the manager's lock shows it,
-- that are of the monitor and the type that the request names, if it names them, and not before its
-- time, newest first: as many as it asks for, 50 if it asks for none, never more than 500. The filter
-- and the number are reported with them.
pub serve_events-newest :
    (m : Manager) (web : WebPackage) (r : Request) (asked since : ℤ) (s : Sys m.env.World)
    → AsksFor (trim_space (r.query "limit")) asked
    → IsSince web.query (trim_space (r.query "since")) since
    → (serve_events web (snapshots m) r s).0
      ≡ write_json 200 (
          events_json
            (take (allowed asked) (
              select
                (passes m.time (filter_of r asked since))
                (reverse (acquire m s).1.shared.event_history.events)))
            (filter_of r asked since)
            (pos (allowed asked))
            (format_filter_since web.query since))
serve_events-newest m web r asked since s limited timed =
    answered m web r (filter_of r asked since) s
      (parse_event_filter-filter_of web.query r asked since limited timed)
    ∙ ap
        (λ (n : ℕ). write_json 200 (
          events_json
            (take n (
              select (passes m.time (filter_of r asked since))
                (reverse (acquire m s).1.shared.event_history.events)))
            (filter_of r asked since) (pos n) (format_filter_since web.query since)))
        (allowed-event_limit (pos (allowed asked)) ∙ allowed_idem asked)
