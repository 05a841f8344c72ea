-- ===== src/Checks/Web.antt =====
-- internal/checks/checks.go: `runHTTPJSON`.
use rpi_procmon.Base.{
  String, Bool, true, false, ◌&&◌, ◌||◌, not, ◌⊎◌, inl, inr, Option, none, some, [], ◌∷◌, ℤ, pos,
  ◌-ℤ◌, quot, leb_ℤ, ltb_ℤ, if◌then◌else◌,
}
use rpi_procmon.Base.Dict.{Dict}
use rpi_procmon.Base.Text.{is_empty, concat, itoa}
use rpi_procmon.Config.Types.{CheckConfig}
use rpi_procmon.State.{Observation, number}
use rpi_procmon.Engine.Monitor.{parse_duration}
use rpi_procmon.Checks.Host.{HealthResponse, HttpResponse, Host, Report, passed, failing}

abbrev pub three_seconds : ℤ
three_seconds = pos 3000000000

abbrev is_false : Option Bool → Bool
is_false none = false
is_false (some b) = not b

abbrev serial_state : Dict Observation → Option Bool → Report
serial_state seen none = failing "health response missing serial_connected" seen
serial_state seen (some false) = failing "serial disconnected" seen
serial_state seen (some true) = passed seen

-- The requirements on the parsed response.
unfoldable pub judge_health : CheckConfig → Dict Observation → HealthResponse → Report
judge_health check seen parsed =
    if check.require_ok && is_false parsed.ok
    then if is_empty parsed.error
      then failing "health not ok" seen
      else failing (concat ("health not ok: " ∷ parsed.error ∷ [])) seen
    else if check.require_serial_connected
    then serial_state seen parsed.serial_connected
    else passed seen

abbrev judge_parsed : CheckConfig → Dict Observation → String ⊎ HealthResponse → Report
judge_parsed check seen (inl e) = failing (concat ("health response invalid JSON: " ∷ e ∷ [])) seen
judge_parsed check seen (inr parsed) = judge_health check seen parsed

module _ {W : Type 0} (host : Host W) where
  -- What is made of a response that took `latency_ms`.
  unfoldable pub judge_response : CheckConfig → ℤ → HttpResponse → Report
  unfolding judge_health
  judge_response check latency_ms resp =
      let seen =
        ("http_status", number resp.status)
        ∷ ("latency_ms", number latency_ms)
        ∷ ("response_len", number (pos resp.body_len))
        ∷ [] in
      if ltb_ℤ resp.status (pos 200) || leb_ℤ (pos 300) resp.status
      then failing (concat ("health HTTP " ∷ itoa resp.status ∷ [])) seen
      else if ltb_ℤ (pos 0) check.max_latency_ms && ltb_ℤ check.max_latency_ms latency_ms
      then failing
          (concat
            ("health latency " ∷ itoa latency_ms ∷ "ms > " ∷ itoa check.max_latency_ms ∷ "ms" ∷ []))
          seen
      else if not check.require_ok && not check.require_serial_connected
      then passed seen
      else judge_parsed check seen (host.parse_health resp.body)

  -- `runHTTPJSON`.
  unfoldable pub run_http_json : CheckConfig → W → Report × W
  unfolding judge_response
  run_http_json check w =
      let (start, w1) = host.now w in
      let (got, w2) =
        host.get check.url (parse_duration host.time check.timeout three_seconds) w1 in
      elim got [
        | inl e ↦ (failing (concat ("health check failed: " ∷ e ∷ [])) [], w2)
        | inr resp ↦
            let (finished, w3) = host.now w2 in
            (judge_response check (quot (finished -ℤ start) 1000000) resp, w3)
      ]
