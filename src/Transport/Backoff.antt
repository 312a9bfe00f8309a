-- ===== src/Transport/Backoff.antt =====
-- The retry policy: `jitterRNG` of internal/transport/util.go, and `expBackoff` and
-- `classifyRetry` of internal/transport/worker.go. Durations are 64-bit patterns in nanoseconds.
pub mod Bounds
pub mod Policy
use Prim.Native.Nat.{bit_or, bit_xor}
use groundcover_go.Base.{
  ℕ, zero, suc, ◌+◌, ◌/◌, ◌%◌, ◌^◌, Bool, true, false, not, List, [], ◌∷◌, Option, none, some, leb,
  if◌then◌else◌,
}
use groundcover_go.Base.Words.{add64, mul64, lt_int}
use groundcover_go.Base.Int.{ℤ, to_nat}
use groundcover_go.Transport.Config.{WorkerConfig}
use groundcover_go.Transport.Sender.{SendError}

-- `newJitterRNG` at the clock's reading, in nanoseconds
pub new_jitter_rng : ℕ → ℕ
new_jitter_rng now = bit_or (now % 2 ^ 64) 1

abbrev shr : ℕ → ℕ → ℕ
shr z k = z / 2 ^ k

-- `next`: the output, and the new state of the counter
unfoldable pub next : ℕ → ℕ × ℕ
next state =
    let z = add64 state 0x9E3779B97F4A7C15 in
    let z' = mul64 (bit_xor z (shr z 30)) 0xBF58476D1CE4E5B9 in
    let z'' = mul64 (bit_xor z' (shr z' 27)) 0x94D049BB133111EB in (bit_xor z'' (shr z'' 31), z)

unfoldable pub intn : ℕ → ℕ → ℕ × ℕ
intn state n = if not (lt_int 0 n) then (0, state) else ((next state).0 % n, (next state).1)

-- the loop of `expBackoff`: `rounds` doublings, cut at `retry_max`
unfoldable pub double : ℕ → ℕ → ℕ → ℕ
double retry_max zero d = d
double retry_max (suc rounds) d =
    let d' = mul64 d 2 in
    let rest = double retry_max rounds d' in if not (lt_int d' retry_max) then retry_max else rest

unfoldable pub exp_backoff : WorkerConfig → ℕ → ℕ → ℕ × ℕ
unfolding double intn
exp_backoff cfg rng attempt =
    intn rng (add64 (double (to_nat cfg.retry_max) attempt (to_nat cfg.base_backoff)) 1)

pub data Decision : Type 0 where
  give_up : Decision
  retry_in : ℕ → Decision

-- what `classifyRetry` returns: whether it calls `OnRateLimited`, its decision, and the random state
-- after it. `asSendError` finds a `SendError` in the error, or none.
unfoldable pub classify_retry : WorkerConfig → ℕ → Option SendError → ℕ → Bool × Decision × ℕ
classify_retry cfg rng none attempt =
    let (wait, rng') = exp_backoff cfg rng attempt in
    if leb (to_nat cfg.max_retries) attempt
    then (false, give_up, rng)
    else (false, retry_in wait, rng')
classify_retry cfg rng (some se) attempt =
    let (wait, rng') = exp_backoff cfg rng attempt in
    let floor = to_nat cfg.rate_limit_backoff in
    if se.rate_limited
    then (if leb (to_nat cfg.max_retries) attempt
        then (true, give_up, rng)
        else (true, retry_in (if lt_int floor se.retry_after then se.retry_after else floor), rng))
    else (if not se.retryable
        then (false, give_up, rng)
        else (if leb (to_nat cfg.max_retries) attempt
            then (false, give_up, rng)
            else (false, retry_in wait, rng')))
