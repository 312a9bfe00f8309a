-- ===== src/Metrics.antt =====
-- internal/selfmetrics/selfmetrics.go and stats.go: the self-observability counters.
-- A counter is an `atomic.Int64`: a 64-bit pattern whose `Add` wraps around.
pub mod Collector
use groundcover_go.Base.{ℕ}
use groundcover_go.Base.Words.{add64}

pub data DropReason : Type 0 where
  overflow send_exhausted before_send : DropReason

pub record Metrics : Type 0 where
  pub captured : ℕ
  pub sent : ℕ
  pub dropped_overflow : ℕ
  pub dropped_send : ℕ
  pub dropped_before_send : ℕ
  pub retries : ℕ
  pub rate_limited : ℕ
  pub panics_recovered : ℕ
  pub config_reloads : ℕ
  pub queue_pending_items : ℕ
  pub queue_pending_bytes : ℕ
  pub subsystems_disabled : ℕ

unfoldable pub new : Metrics
new = record {
  captured = 0;
  sent = 0;
  dropped_overflow = 0;
  dropped_send = 0;
  dropped_before_send = 0;
  retries = 0;
  rate_limited = 0;
  panics_recovered = 0;
  config_reloads = 0;
  queue_pending_items = 0;
  queue_pending_bytes = 0;
  subsystems_disabled = 0;
}

unfoldable pub inc_captured : Metrics → Metrics
inc_captured m = record m { captured = add64 m.captured 1 }

unfoldable pub add_sent : Metrics → ℕ → Metrics
add_sent m n = record m { sent = add64 m.sent n }

unfoldable pub add_dropped : Metrics → DropReason → ℕ → Metrics
add_dropped m overflow n = record m { dropped_overflow = add64 m.dropped_overflow n }
add_dropped m send_exhausted n = record m { dropped_send = add64 m.dropped_send n }
add_dropped m before_send n = record m { dropped_before_send = add64 m.dropped_before_send n }

unfoldable pub inc_retries : Metrics → Metrics
inc_retries m = record m { retries = add64 m.retries 1 }

unfoldable pub inc_rate_limited : Metrics → Metrics
inc_rate_limited m = record m { rate_limited = add64 m.rate_limited 1 }

unfoldable pub inc_panics_recovered : Metrics → Metrics
inc_panics_recovered m = record m { panics_recovered = add64 m.panics_recovered 1 }

unfoldable pub inc_config_reloads : Metrics → Metrics
inc_config_reloads m = record m { config_reloads = add64 m.config_reloads 1 }

unfoldable pub inc_subsystems_disabled : Metrics → Metrics
inc_subsystems_disabled m = record m { subsystems_disabled = add64 m.subsystems_disabled 1 }

unfoldable pub set_queue_pending : Metrics → ℕ → ℕ → Metrics
set_queue_pending m items bytes = record m {
  queue_pending_items = items;
  queue_pending_bytes = bytes;
}

-- A snapshot loads the counters one by one; here they do not change between the loads.
pub record Snapshot : Type 0 where
  pub captured : ℕ
  pub sent : ℕ
  pub dropped_overflow : ℕ
  pub dropped_send : ℕ
  pub dropped_before_send : ℕ
  pub retries : ℕ
  pub rate_limited : ℕ
  pub panics_recovered : ℕ
  pub config_reloads : ℕ
  pub queue_pending_items : ℕ
  pub queue_pending_bytes : ℕ
  pub subsystems_disabled : ℕ

unfoldable pub snapshot : Metrics → Snapshot
snapshot m = record {
  captured = m.captured;
  sent = m.sent;
  dropped_overflow = m.dropped_overflow;
  dropped_send = m.dropped_send;
  dropped_before_send = m.dropped_before_send;
  retries = m.retries;
  rate_limited = m.rate_limited;
  panics_recovered = m.panics_recovered;
  config_reloads = m.config_reloads;
  queue_pending_items = m.queue_pending_items;
  queue_pending_bytes = m.queue_pending_bytes;
  subsystems_disabled = m.subsystems_disabled;
}

-- The twelve stores of `Reset`.
unfoldable pub reset : Metrics → Metrics
reset m = record m {
  captured = 0;
  sent = 0;
  dropped_overflow = 0;
  dropped_send = 0;
  dropped_before_send = 0;
  retries = 0;
  rate_limited = 0;
  panics_recovered = 0;
  config_reloads = 0;
  queue_pending_items = 0;
  queue_pending_bytes = 0;
  subsystems_disabled = 0;
}

-- The public form of a snapshot.
pub record Stats : Type 0 where
  pub captured : ℕ
  pub sent : ℕ
  pub dropped_overflow : ℕ
  pub dropped_send_exhausted : ℕ
  pub dropped_before_send : ℕ
  pub retries : ℕ
  pub rate_limited : ℕ
  pub panics_recovered : ℕ
  pub config_reloads : ℕ
  pub queue_pending_items : ℕ
  pub queue_pending_bytes : ℕ
  pub subsystems_disabled : ℕ

unfoldable pub stats_from_snapshot : Snapshot → Stats
stats_from_snapshot s = record {
  captured = s.captured;
  sent = s.sent;
  dropped_overflow = s.dropped_overflow;
  dropped_send_exhausted = s.dropped_send;
  dropped_before_send = s.dropped_before_send;
  retries = s.retries;
  rate_limited = s.rate_limited;
  panics_recovered = s.panics_recovered;
  config_reloads = s.config_reloads;
  queue_pending_items = s.queue_pending_items;
  queue_pending_bytes = s.queue_pending_bytes;
  subsystems_disabled = s.subsystems_disabled;
}

-- `Client.Stats`
unfoldable pub stats : Metrics → Stats
unfolding snapshot stats_from_snapshot
stats m = stats_from_snapshot (snapshot m)
