-- ===== src/Transport/Examples.antt =====
-- Tests of the delivery, and its theorems at concrete inputs.
use groundcover_go.Base.{
  ℕ, zero, suc, ◌≤◌, ◌<◌, ◌≡◌, refl, true, false, List, [], ◌∷◌, Option, none, some, arith,
}
use groundcover_go.Base.Words.{lt_int}
use groundcover_go.Base.Int.{pos, negsuc}
use groundcover_go.Ring.{HasZero, Buffer}
use groundcover_go.Transport.Config.{WorkerConfig, with_defaults}
use groundcover_go.Transport.Sender.{
  SendError, server_failed, parse_retry_after, atoi_non_negative, digits_from,
}
use groundcover_go.Transport.Sender.Laws.{parse_retry_after_overflow}
use groundcover_go.Transport.Backoff.{classify_retry, give_up}
use groundcover_go.Transport.Backoff.Policy.{is_transient, Retries, classify_retry_lem}
use groundcover_go.Transport.Delivery.{
  Encoding, encoded, Outcome, delivered, failed, Network, Run, send_with_retry,
}
use groundcover_go.Transport.Delivery.Settlement.{
  Sent, sum_of, as_sent, as_dropped, send_with_retry-Sent,
}
use groundcover_go.Transport.Delivery.Progress.{send_with_retry_through}
use groundcover_go.Transport.Worker.{dispatch_ready}
use groundcover_go.Transport.Worker.Drains.{Drained, dispatch_ready-Drained}

instance abbrev zero_ℕ : HasZero ℕ
zero_ℕ = record { zero_value = 0 }

abbrev no_dates : List ℕ → Option ℕ
no_dates _ = none

-- two retries, a base of 200 ms, and a cap of 50 ms
abbrev hasty : WorkerConfig
hasty = record {
  batch_size = pos 2;
  max_batch_bytes = pos 1000;
  flush_interval = pos 5000000000;
  max_retries = pos 2;
  base_backoff = pos 200000000;
  retry_max = pos 50000000;
  rate_limit_backoff = pos 1000;
  max_concurrent = pos 4;
}

abbrev unavailable : SendError
unavailable = record {
  status_code = 503;
  retryable = true;
  rate_limited = false;
  retry_after = 0;
  err = server_failed;
}

-- down for two attempts, then up
abbrev recovers : ℕ → ℕ → Outcome
recovers zero body = failed (some unavailable)
recovers (suc zero) body = failed none
recovers _ body = delivered

abbrev network : Network ℕ
network = record { send = recovers; cancelled = λ _. false }

abbrev encode : List ℕ → Encoding ℕ
encode _ = encoded 0

with_defaults_of_zero :
    (with_defaults (record hasty { max_retries = negsuc 4; retry_max = pos 0 })).retry_max
    ≡ pos 30000000000
unfolding with_defaults
with_defaults_of_zero = refl

retry_after_date : parse_retry_after no_dates (b'M' ∷ []) ≡ 0
unfolding parse_retry_after atoi_non_negative digits_from
retry_after_date = refl

-- 9999999999 seconds
parse_retry_after_overflow_example :
    lt_int
      (parse_retry_after no_dates
        (b'9' ∷ b'9' ∷ b'9' ∷ b'9' ∷ b'9' ∷ b'9' ∷ b'9' ∷ b'9' ∷ b'9' ∷ b'9' ∷ []))
      0
    ≡ true
parse_retry_after_overflow_example =
    parse_retry_after_overflow no_dates b'9'
      (b'9' ∷ b'9' ∷ b'9' ∷ b'9' ∷ b'9' ∷ b'9' ∷ b'9' ∷ b'9' ∷ b'9' ∷ []) (omega arith)
      (omega arith) (omega arith)

classify_retry_lem_example :
    (true ≡ true
      → 1 < 2
      → Retries hasty (some unavailable) 1 (classify_retry hasty 5 (some unavailable) 1).1)
    × (true ≡ false → (classify_retry hasty 5 (some unavailable) 1).1 ≡ give_up)
    × (2 ≤ 1 → (classify_retry hasty 5 (some unavailable) 1).1 ≡ give_up)
classify_retry_lem_example =
    classify_retry_lem hasty 5 (some unavailable) 1 (omega arith) (omega arith) (omega arith)

send_with_retry-Sent_example :
    (r : Run) × (send_with_retry hasty network encode (7 ∷ 8 ∷ []) 1 ≡ some r)
    × Sent hasty network 2 r
send_with_retry-Sent_example = send_with_retry-Sent hasty network encode (7 ∷ 8 ∷ []) 1

abbrev passing :
    (i : ℕ)
    → i < 2
    → (e : Option SendError) × (recovers i 0 ≡ failed e) × (is_transient e ≡ true) × (false ≡ false)
passing zero h = (some unavailable, refl, refl, refl)
passing (suc zero) h = (none, refl, refl, refl)
passing (suc (suc i)) h = absurd (omega arith)

send_with_retry_through_example :
    (r : Run) × (send_with_retry hasty network encode (7 ∷ 8 ∷ []) 1 ≡ some r)
    × (sum_of as_sent r.effects ≡ 2)
    × (sum_of as_dropped r.effects ≡ 0)
send_with_retry_through_example =
    send_with_retry_through hasty network encode (7 ∷ 8 ∷ []) 0 1 2 refl (omega arith) passing refl

abbrev three : Buffer ℕ
three = record {
  buf = 4 ∷ 5 ∷ 6 ∷ [];
  sz = 1 ∷ 1 ∷ 1 ∷ [];
  head = 0;
  count = 3;
  bytes = 3;
  max_items = 3;
  max_bytes = 20;
  size_of = λ _. pos 1;
}

dispatch_ready-Drained_example : Drained hasty three (dispatch_ready hasty three)
dispatch_ready-Drained_example = dispatch_ready-Drained hasty three refl (omega arith) (omega arith)
