-- ===== src/Api/Query.antt =====
-- internal/api/server.go: the filter of a query for events.
pub mod Limits
use rpi_procmon.Base.{
  String, ◌⊎◌, inl, inr, Option, none, some, ℤ, pos, leb_ℤ, ltb_ℤ, eqb_ℤ, if◌then◌else◌,
}
use rpi_procmon.Base.Text.{trim_space, is_empty}
use rpi_procmon.Base.Text.Number.{atoi}
use rpi_procmon.Events.{Filter}
use rpi_procmon.Api.{Request}

-- `time.Parse` and `Format` for RFC 3339, by nanoseconds from Go's zero time, and the texts of the
-- errors.
pub record QueryPackage : Type 0 where
  pub parse_time : String → String ⊎ ℤ
  pub format_time : ℤ → String
  pub atoi_error : String → String

-- `normalizeEventLimit`.
unfoldable pub normalize_event_limit : ℤ → ℤ
normalize_event_limit limit =
    if leb_ℤ limit (pos 0) then pos 50 else if ltb_ℤ (pos 500) limit then pos 500 else limit

module _ (library : QueryPackage) where
  abbrev number_or_error : String → Option ℤ → String ⊎ ℤ
  number_or_error value none = inl (library.atoi_error value)
  number_or_error value (some n) = inr (normalize_event_limit n)

  unfoldable pub parse_limit : String → String ⊎ ℤ
  unfolding normalize_event_limit
  parse_limit value =
      if is_empty value
      then inr (normalize_event_limit (pos 0))
      else number_or_error value (atoi value)

  unfoldable pub parse_since : String → String ⊎ ℤ
  parse_since value = if is_empty value then inr (pos 0) else library.parse_time value

  -- `parseEventFilter`; the error's text on the left.
  unfoldable pub parse_event_filter : Request → String ⊎ Filter
  unfolding parse_limit parse_since
  parse_event_filter r = elim (parse_limit (trim_space (r.query "limit"))) [
    | inl e ↦ inl e
    | inr limit ↦ elim (parse_since (trim_space (r.query "since"))) [
      | inl e ↦ inl e
      | inr since ↦ inr (record {
        monitor_id = trim_space (r.query "monitor_id");
        event_type = trim_space (r.query "event_type");
        since = since;
        limit = limit;
      })
    ]
  ]

  -- `formatFilterSince`.
  unfoldable pub format_filter_since : ℤ → String
  format_filter_since since = if eqb_ℤ since (pos 0) then "" else library.format_time since
