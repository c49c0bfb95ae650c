-- ===== src/Status/ConnMetrics.antt =====
-- pkg/status/conn_metrics.go. The atomic counters stay in the range of int32 and int64, so that they
-- stand in ℕ; no more connections are counted out than were counted in.
use viking_ftpd.Prelude.{ℕ, suc, ◌-◌}

pub record ConnMetrics : Type 0 where
  pub active : ℕ
  pub total : ℕ
  pub start_time : ℕ

abbrev pub set_start_time : ℕ → ConnMetrics → ConnMetrics
set_start_time t m = record m { start_time = t }

-- IncActive: the new value, and the counters after it
abbrev pub inc_active : ConnMetrics → ℕ × ConnMetrics
inc_active m = (suc m.active, record m { active = suc m.active })

abbrev pub dec_active : ConnMetrics → ConnMetrics
dec_active m = record m { active = m.active - 1 }

abbrev pub inc_total : ConnMetrics → ConnMetrics
inc_total m = record m { total = suc m.total }
