-- ===== src/Transport/Backoff/Policy.antt =====
-- When `classifyRetry` retries, and how long it waits.
use groundcover_go.Base.{
  ℕ, ◌^◌, ◌≤◌, ◌<◌, ◌≡◌, Bool, true, false, ◌||◌, Option, none, some, arith, if◌then◌else◌,
}
use groundcover_go.Base.Words.{lt_int}
use groundcover_go.Base.Int.{to_nat}
use groundcover_go.Transport.Config.{WorkerConfig}
use groundcover_go.Transport.Sender.{SendError}
use groundcover_go.Transport.Backoff.{exp_backoff, Decision, give_up, retry_in, classify_retry}
use groundcover_go.Transport.Backoff.Bounds.{ceiling, IsModest, exp_backoff-le}

-- An error that is no `SendError` counts as transient.
abbrev pub is_transient : Option SendError → Bool
is_transient none = true
is_transient (some se) = se.rate_limited || se.retryable

abbrev pub is_limited : Option SendError → Bool
is_limited none = false
is_limited (some se) = se.rate_limited

-- the wait that the server asked for
abbrev pub asked : Option SendError → ℕ
asked none = 0
asked (some se) = se.retry_after

-- What the policy demands of a decision.
pub record Retries (cfg : WorkerConfig) (e : Option SendError) (attempt : ℕ) (d : Decision)
    : Type 0 where
  pub wait : ℕ
  pub decided : d ≡ retry_in wait
  pub limited : is_limited e ≡ true → (to_nat cfg.rate_limit_backoff ≤ wait) × (asked e ≤ wait)
  pub jittered : is_limited e ≡ false → wait ≤ ceiling cfg attempt

-- Below MaxRetries a transient error is retried: a rate limited one after RateLimitBackoff and
-- after what the server asked for, at the least, any other within the backoff's ceiling.
-- At MaxRetries, or on a permanent error, the batch is given up. The settings are modest, and the
-- wait that the server asked for is not negative.
pub classify_retry_lem :
    (cfg : WorkerConfig) (rng : ℕ) (e : Option SendError) (attempt : ℕ)
    → IsModest cfg
    → to_nat cfg.rate_limit_backoff < 2 ^ 63
    → asked e < 2 ^ 63
    → (is_transient e ≡ true
        → attempt < to_nat cfg.max_retries
        → Retries cfg e attempt (classify_retry cfg rng e attempt).1)
      × (is_transient e ≡ false → (classify_retry cfg rng e attempt).1 ≡ give_up)
      × (to_nat cfg.max_retries ≤ attempt → (classify_retry cfg rng e attempt).1 ≡ give_up)
unfolding classify_retry
classify_retry_lem cfg rng none attempt h k a = (
  λ _ p. record {
    wait = (exp_backoff cfg rng attempt).0;
    decided = ground arith;
    limited = λ q. cc;
    jittered = λ _. exp_backoff-le cfg rng attempt h;
  },
  λ p. cc,
  λ p. ground arith,
)
classify_retry_lem cfg rng (some se) attempt h k a = (
  λ t p. record {
    wait = wait;
    decided = ground arith;
    limited = λ q. (ground arith, ground arith);
    jittered = λ q. ground (arith, exp_backoff-le cfg rng attempt h);
  },
  λ t. ground arith,
  λ p. ground arith,
)
  where
    floor : ℕ
    floor = to_nat cfg.rate_limit_backoff

    wait : ℕ
    wait =
        if se.rate_limited
        then (if lt_int floor se.retry_after then se.retry_after else floor)
        else (exp_backoff cfg rng attempt).0
