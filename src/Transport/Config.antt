-- ===== src/Transport/Config.antt =====
-- `WorkerConfig` of internal/transport/worker.go. The clock and the sleep are no part of it: a
-- sleep is an effect of the delivery, and its length is what the theorems speak about.
use groundcover_go.Base.{ℕ, ◌*◌, ◌^◌, if◌then◌else◌}
use groundcover_go.Base.Int.{ℤ, pos, negsuc, is_positive}

pub record WorkerConfig : Type 0 where
  pub batch_size : ℤ
  pub max_batch_bytes : ℤ
  pub flush_interval : ℤ
  pub max_retries : ℤ
  pub base_backoff : ℤ
  pub retry_max : ℤ
  pub rate_limit_backoff : ℤ
  pub max_concurrent : ℤ

-- in nanoseconds
abbrev pub millisecond : ℕ
millisecond = 1000000

abbrev pub second : ℕ
second = 1000000000

-- `if c.F <= 0 { c.F = d }`
unfoldable pub or_default : ℤ → ℕ → ℤ
or_default z d = if is_positive z then z else pos d

-- `if c.MaxRetries < 0 { c.MaxRetries = 0 }`
unfoldable pub at_least_zero : ℤ → ℤ
at_least_zero (pos n) = pos n
at_least_zero (negsuc n) = pos 0

unfoldable pub with_defaults : WorkerConfig → WorkerConfig
unfolding or_default at_least_zero
with_defaults c = record {
  batch_size = or_default c.batch_size 250;
  max_batch_bytes = or_default c.max_batch_bytes (512 * 2 ^ 10);
  flush_interval = or_default c.flush_interval (5 * second);
  max_retries = at_least_zero c.max_retries;
  base_backoff = or_default c.base_backoff (200 * millisecond);
  retry_max = or_default c.retry_max (30 * second);
  rate_limit_backoff = or_default c.rate_limit_backoff (30 * second);
  max_concurrent = or_default c.max_concurrent 4;
}
