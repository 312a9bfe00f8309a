-- ===== src/Transport/Delivery/Progress.antt =====
-- Retrying is worth it: a batch gets through if the sender recovers in time.
use groundcover_go.Base.{
  ℕ, zero, suc, ◌+◌, ◌≤◌, ◌<◌, ◌≡◌, refl, ap, ◌∙◌, inl, inr, Bool, true, false, List, [], ◌∷◌, ◌++◌,
  Option, none, some, arith, length, if◌then◌else◌, Bool-cases,
}
use groundcover_go.Base.Words.{lt_int}
use groundcover_go.Base.Int.{to_nat}
use groundcover_go.Transport.Config.{WorkerConfig}
use groundcover_go.Transport.Sender.{SendError}
use groundcover_go.Transport.Backoff.{retry_in, exp_backoff, classify_retry}
use groundcover_go.Transport.Backoff.Policy.{is_transient}
use groundcover_go.Transport.Delivery.{
  attempted, on_retry, on_rate_limited, slept, Encoding, encoded, Outcome, delivered, failed,
  Network, Run, after_effects, finished, rate_limit_seen, after_failure, on_outcome, deliver_from,
  deliver_batch, contain, send_with_retry,
}
use groundcover_go.Transport.Delivery.Settlement.{sum_of, as_sent, as_dropped}

-- Below MaxRetries a transient error is retried.
retries_on :
    (cfg : WorkerConfig) (rng : ℕ) (e : Option SendError) (attempt : ℕ)
    → is_transient e ≡ true
    → attempt < to_nat cfg.max_retries
    → (limited : Bool) × (wait : ℕ) × (rng' : ℕ) × (classify_retry cfg rng e attempt
        ≡ (limited, retry_in wait, rng'))
unfolding classify_retry
retries_on cfg rng none attempt t h =
    (false, (exp_backoff cfg rng attempt).0, (exp_backoff cfg rng attempt).1, ground arith)
retries_on cfg rng (some se) attempt t h = elim (Bool-cases se.rate_limited) [
  | inl limited ↦ (true, floor, rng, ground arith)
  | inr free ↦
      (false, (exp_backoff cfg rng attempt).0, (exp_backoff cfg rng attempt).1, ground arith)
]
  where
    floor : ℕ
    floor =
        if lt_int (to_nat cfg.rate_limit_backoff) se.retry_after
        then se.retry_after
        else to_nat cfg.rate_limit_backoff

module _ {Body : Type 0} (cfg : WorkerConfig) (net : Network Body) (n : ℕ) (body : Body) where
  -- the attempt of number `i` fails in a way that passes, and the context lives on
  abbrev pub Passing : ℕ → Type 0
  Passing i =
      (e : Option SendError) × (net.send i body ≡ failed e)
      × (is_transient e ≡ true)
      × (net.cancelled i ≡ false)

  abbrev Through : Option Run → Type 0
  Through o =
      (r : Run) × (o ≡ some r)
      × (r.panicked ≡ false)
      × (sum_of as_sent r.effects ≡ n)
      × (sum_of as_dropped r.effects ≡ 0)

  Through-failure :
      (attempt : ℕ) (limited : Bool) (wait rng : ℕ) (rest : ℕ → Option Run)
      → net.cancelled attempt ≡ false
      → Through (rest rng)
      → Through (after_failure cfg net n attempt (limited, retry_in wait, rng) rest)
  unfolding after_failure finished rate_limit_seen
  Through-failure attempt true wait rng rest alive (r, e, calm, all, kept) =
      let es = attempted ∷ on_rate_limited ∷ on_retry ∷ slept wait ∷ [] in
      rw (alive, after_failure)
        (
          record r { effects = es ++ r.effects },
          ap (after_effects es) e,
          calm,
          ground arith,
          ground arith,
        )
  Through-failure attempt false wait rng rest alive (r, e, calm, all, kept) =
      let es = attempted ∷ on_retry ∷ slept wait ∷ [] in
      rw (alive, after_failure)
        (
          record r { effects = es ++ r.effects },
          ap (after_effects es) e,
          calm,
          ground arith,
          ground arith,
        )

  Through-round :
      (attempt rng : ℕ) (o : Outcome) (rest : ℕ → Option Run)
      → (e : Option SendError) → o ≡ failed e
      → is_transient e ≡ true
      → net.cancelled attempt ≡ false
      → attempt < to_nat cfg.max_retries
      → ((rng' : ℕ) → Through (rest rng'))
      → Through (on_outcome cfg net n attempt rng o rest)
  unfolding on_outcome
  Through-round attempt rng o rest e fails t alive h next =
      let (limited, wait, rng', same) = retries_on cfg rng e attempt t h in
      rw (fails, on_outcome, same)
        (Through-failure attempt limited wait rng' rest alive (next rng'))

  Through-from :
      (failures fuel attempt rng : ℕ)
      → to_nat cfg.max_retries < attempt + fuel
      → attempt + failures ≤ to_nat cfg.max_retries
      → ((i : ℕ) → attempt ≤ i → i < attempt + failures → Passing i)
      → net.send (attempt + failures) body ≡ delivered
      → Through (deliver_from cfg net fuel n body attempt rng)
  unfolding deliver_from
  Through-from failures zero attempt rng enough few passing done = absurd (omega arith)
  Through-from zero (suc fuel) attempt rng enough few passing done =
      let here : net.send attempt body ≡ delivered =
        ap (λ i. net.send i body) {x = attempt} (omega arith) ∙ done in
      rw here (unfold on_outcome finished in (_, refl, refl, omega arith, refl))
  Through-from (suc failures) (suc fuel) attempt rng enough few passing done =
      let (e, fails, t, alive) = passing attempt (omega arith) (omega arith) in
      Through-round attempt rng (net.send attempt body)
        (λ rng'. deliver_from cfg net fuel n body (suc attempt) rng') e fails t alive (omega arith)
        (λ rng'.
          Through-from failures fuel (suc attempt) rng' (omega arith) (omega arith)
            (λ i p q. passing i (omega arith) (omega arith))
            (ap (λ i. net.send i body) {x = suc attempt + failures} (omega arith) ∙ done))

module _ {Body T : Type 0} (cfg : WorkerConfig) (net : Network Body) where
  -- If the encoder succeeds, the first `failures` attempts fail in a transient way, no more than
  -- MaxRetries of them, without the context ending, and the next attempt succeeds, then
  -- `sendWithRetry` reports every item of the batch as sent, and none as dropped.
  pub send_with_retry_through :
      (encode : List T → Encoding Body) (batch : List T) (body : Body) (rng failures : ℕ)
      → encode batch ≡ encoded body
      → failures ≤ to_nat cfg.max_retries
      → ((i : ℕ) → i < failures → Passing cfg net (length batch) body i)
      → net.send failures body ≡ delivered
      → (r : Run) × (send_with_retry cfg net encode batch rng ≡ some r)
        × (sum_of as_sent r.effects ≡ length batch)
        × (sum_of as_dropped r.effects ≡ 0)
  unfolding send_with_retry deliver_batch
  send_with_retry_through encode batch body rng failures enc few passing done =
      let (r, e, calm, all, kept) =
        Through-from cfg net (length batch) body failures (suc (to_nat cfg.max_retries)) 0 rng
          (omega arith) (omega arith) (λ i _ q. passing i (omega arith))
          (ap (λ i. net.send i body) {x = 0 + failures} (omega arith) ∙ done) in
      (r, rw (enc, send_with_retry, deliver_batch, e) (unfold contain in rw calm), all, kept)
