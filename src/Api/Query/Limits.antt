-- ===== src/Api/Query/Limits.antt =====
-- internal/api/server.go and internal/engine/manager.go: the limit of a query for events.
use rpi_procmon.Base.{◌≡◌, ℤ, pos, negsuc, arith}
use rpi_procmon.Engine.Query.{event_limit}
use rpi_procmon.Api.Query.{normalize_event_limit}

-- The limit that the server reports for a query is the one that the engine works with, and a limit
-- that has been normalized is left as it is.
pub normalize_event_limit-event_limit :
    (limit : ℤ)
    → (normalize_event_limit limit ≡ pos (event_limit (normalize_event_limit limit)))
      × (normalize_event_limit (normalize_event_limit limit) ≡ normalize_event_limit limit)
unfolding normalize_event_limit event_limit
normalize_event_limit-event_limit (pos n) = ground arith
normalize_event_limit-event_limit (negsuc n) = ground arith
