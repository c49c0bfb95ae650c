-- ===== src/Status/MultiProvider.antt =====
-- pkg/status/multi_provider.go. A provider is the counters of a server; the time 0 is the zero time,
-- and a count is the bits of an int32 or an int64.
use viking_ftpd.Prelude.{ℕ, ◌+◌, ◌%◌, ◌^◌, ◌||◌, List, [], ◌∷◌, ◌==◌, if◌then◌else◌, ltb}
use viking_ftpd.Status.ConnMetrics.{ConnMetrics}

-- the loops of GetActiveConnections and GetTotalConnections
unfoldable pub active_from : ℕ → List ConnMetrics → ℕ
active_from total [] = total
active_from total (p ∷ ps) = active_from ((total + p.active) % 2 ^ 32) ps

unfoldable pub total_from : ℕ → List ConnMetrics → ℕ
total_from total [] = total
total_from total (p ∷ ps) = total_from ((total + p.total) % 2 ^ 64) ps

abbrev pub get_active_connections : List ConnMetrics → ℕ
get_active_connections providers = active_from 0 providers

abbrev pub get_total_connections : List ConnMetrics → ℕ
get_total_connections providers = total_from 0 providers

-- one provider of GetStartTime
abbrev pub earlier : ℕ → ℕ → ℕ
earlier earliest t =
    if t == 0 then earliest else (if earliest == 0 || ltb t earliest then t else earliest)

unfoldable pub earliest_from : ℕ → List ConnMetrics → ℕ
earliest_from earliest [] = earliest
earliest_from earliest (p ∷ ps) = earliest_from (earlier earliest p.start_time) ps

abbrev pub get_start_time : List ConnMetrics → ℕ
get_start_time providers = earliest_from 0 providers
