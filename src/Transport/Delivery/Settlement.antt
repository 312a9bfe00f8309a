-- ===== src/Transport/Delivery/Settlement.antt =====
-- A batch is settled exactly once: sent or dropped, whole.
use groundcover_go.Base.{
  ℕ, zero, suc, ◌+◌, ◌≤◌, ◌<◌, ◌≡◌, refl, ap, ◌⊎◌, inl, inr, Bool, true, false, List, [], ◌∷◌, ◌++◌,
  Option, none, some, arith, length, Bool-cases,
}
use native.Mathlib.Decide.{dec_lt}
use groundcover_go.Base.Int.{to_nat}
use groundcover_go.Transport.Config.{WorkerConfig}
use groundcover_go.Transport.Sender.{SendError}
use groundcover_go.Transport.Backoff.{Decision, give_up, retry_in, classify_retry}
use groundcover_go.Transport.Delivery.{
  Effect, attempted, on_retry, on_rate_limited, panic_reported, on_sent, on_send_exhausted, slept,
  Encoding, encoded, encode_failed, encode_panicked, Outcome, delivered, send_panicked, failed,
  Network, Run, after_effects, finished, rate_limit_seen, after_failure, on_outcome, deliver_from,
  deliver_batch, contain, send_with_retry,
}

-- a sum over effects
abbrev pub sum_of : (Effect → ℕ) → List Effect → ℕ
sum_of w [] = 0
sum_of w (e ∷ es) = w e + sum_of w es

pub sum_of-append :
    (w : Effect → ℕ) (xs ys : List Effect) → sum_of w (xs ++ ys) ≡ sum_of w xs + sum_of w ys
sum_of-append w [] ys = omega arith
sum_of-append w (x ∷ xs) ys = omega (arith, sum_of-append w xs ys)

-- items reported as sent
abbrev pub as_sent : Effect → ℕ
as_sent (on_sent n) = n
as_sent _ = 0

-- items reported as dropped
abbrev pub as_dropped : Effect → ℕ
as_dropped (on_send_exhausted n) = n
as_dropped _ = 0

-- reports of either kind
abbrev pub as_report : Effect → ℕ
as_report (on_sent n) = 1
as_report (on_send_exhausted n) = 1
as_report _ = 0

abbrev pub as_attempt : Effect → ℕ
as_attempt attempted = 1
as_attempt _ = 0

abbrev pub as_retry : Effect → ℕ
as_retry on_retry = 1
as_retry _ = 0

-- One report, of all `n` items.
abbrev pub Settles : ℕ → List Effect → Type 0
Settles n es =
    (sum_of as_report es ≡ 1)
    × (((sum_of as_sent es ≡ n) × (sum_of as_dropped es ≡ 0))
        ⊎ ((sum_of as_sent es ≡ 0) × (sum_of as_dropped es ≡ n)))

abbrev Unsettled : List Effect → Type 0
Unsettled es = (sum_of as_report es ≡ 0) × (sum_of as_sent es ≡ 0) × (sum_of as_dropped es ≡ 0)

-- what has happened from the attempt of number `attempt` on
record Accounts (limit n attempt : ℕ) (r : Run) : Type 0 where
  settled :
      ((r.panicked ≡ true) × Unsettled r.effects) ⊎ ((r.panicked ≡ false) × Settles n r.effects)
  tries : attempt + sum_of as_attempt r.effects ≤ limit + 1
  repeats : attempt + sum_of as_retry r.effects ≤ limit
  paired : sum_of as_attempt r.effects ≤ sum_of as_retry r.effects + 1

abbrev Done : ℕ → ℕ → ℕ → Option Run → Type 0
Done limit n attempt o = (r : Run) × (o ≡ some r) × Accounts limit n attempt r

retry_below :
    (cfg : WorkerConfig) (rng : ℕ) (e : Option SendError) (attempt : ℕ)
    → to_nat cfg.max_retries ≤ attempt
    → (classify_retry cfg rng e attempt).1 ≡ give_up
unfolding classify_retry
retry_below cfg rng none attempt h = ground arith
retry_below cfg rng (some se) attempt h = ground arith

-- Effects with one attempt and one retry, put before those from the next attempt on.
before_next :
    (limit n attempt : ℕ) (es : List Effect) (o : Option Run)
    → Unsettled es
    → (sum_of as_attempt es ≡ 1) × (sum_of as_retry es ≡ 1)
    → Done limit n (suc attempt) o
    → Done limit n attempt (after_effects es o)
before_next limit n attempt es o u c (r, e, a) = (
  record r { effects = es ++ r.effects },
  ap (after_effects es) e,
  record {
    settled = ground (
      arith,
      sum_of-append as_report es r.effects,
      sum_of-append as_sent es r.effects,
      sum_of-append as_dropped es r.effects,
    );
    tries = omega (arith, sum_of-append as_attempt es r.effects);
    repeats = omega (arith, sum_of-append as_retry es r.effects);
    paired =
        omega (arith, sum_of-append as_attempt es r.effects, sum_of-append as_retry es r.effects);
  },
)

retries_left :
    (attempt limit wait : ℕ) → (limit ≤ attempt → retry_in wait ≡ give_up) → attempt < limit
retries_left attempt limit wait stop = elim (dec_lt attempt limit) [
  | yes p ↦ p
  | no n ↦ cc (stop (omega arith))
]

module _ {Body : Type 0} (cfg : WorkerConfig) (net : Network Body) where
  abbrev limit : ℕ
  limit = to_nat cfg.max_retries

  after_failure-Done :
      (n attempt : ℕ) (verdict : Bool × Decision × ℕ) (rest : ℕ → Option Run)
      → attempt ≤ limit
      → (limit ≤ attempt → verdict.1 ≡ give_up)
      → ((rng : ℕ) → attempt < limit → Done limit n (suc attempt) (rest rng))
      → Done limit n attempt (after_failure cfg net n attempt verdict rest)
  unfolding after_failure finished rate_limit_seen
  after_failure-Done n attempt (true, give_up, rng) rest h stop next = (_, refl, ground arith)
  after_failure-Done n attempt (false, give_up, rng) rest h stop next = (_, refl, ground arith)
  after_failure-Done n attempt (true, retry_in wait, rng) rest h stop next =
      let left = retries_left attempt limit wait stop in
      elim (Bool-cases (net.cancelled attempt)) [
        | inl ended ↦ rw (ended, after_failure) (_, refl, ground arith)
        | inr alive ↦
            rw (alive, after_failure)
              (before_next limit n attempt
                (attempted ∷ on_rate_limited ∷ on_retry ∷ slept wait ∷ []) (rest rng) (omega arith)
                (omega arith) (next rng left))
      ]
  after_failure-Done n attempt (false, retry_in wait, rng) rest h stop next =
      let left = retries_left attempt limit wait stop in
      elim (Bool-cases (net.cancelled attempt)) [
        | inl ended ↦ rw (ended, after_failure) (_, refl, ground arith)
        | inr alive ↦
            rw (alive, after_failure)
              (before_next limit n attempt (attempted ∷ on_retry ∷ slept wait ∷ []) (rest rng)
                (omega arith) (omega arith) (next rng left))
      ]

  on_outcome-Done :
      (n attempt rng : ℕ) (o : Outcome) (rest : ℕ → Option Run)
      → attempt ≤ limit
      → ((rng' : ℕ) → attempt < limit → Done limit n (suc attempt) (rest rng'))
      → Done limit n attempt (on_outcome cfg net n attempt rng o rest)
  unfolding on_outcome
  on_outcome-Done n attempt rng delivered rest h next = (_, refl, ground arith)
  on_outcome-Done n attempt rng send_panicked rest h next = (_, refl, ground arith)
  on_outcome-Done n attempt rng (failed e) rest h next =
      after_failure-Done n attempt (classify_retry cfg rng e attempt) rest h
        (retry_below cfg rng e attempt) next

  deliver_from-Done :
      (fuel n : ℕ) (body : Body) (attempt rng : ℕ)
      → attempt ≤ limit
      → limit < attempt + fuel
      → Done limit n attempt (deliver_from cfg net fuel n body attempt rng)
  unfolding deliver_from
  deliver_from-Done zero n body attempt rng h enough = absurd (omega arith)
  deliver_from-Done (suc fuel) n body attempt rng h enough =
      on_outcome-Done n attempt rng (net.send attempt body)
        (λ rng'. deliver_from cfg net fuel n body (suc attempt) rng') h
        (λ rng' left. deliver_from-Done fuel n body (suc attempt) rng' (omega arith) (omega arith))

  deliver_batch-Done :
      (n : ℕ) (e : Encoding Body) (rng : ℕ) → Done limit n 0 (deliver_batch cfg net n e rng)
  unfolding deliver_batch finished
  deliver_batch-Done n (encoded body) rng =
      deliver_from-Done (suc limit) n body 0 rng (omega arith) (omega arith)
  deliver_batch-Done n encode_failed rng = (_, refl, ground arith)
  deliver_batch-Done n encode_panicked rng = (_, refl, ground arith)

  -- what `sendWithRetry` leaves behind for a batch of `n` items
  pub record Sent (n : ℕ) (r : Run) : Type 0 where
    pub settled : Settles n r.effects
    pub contained : r.panicked ≡ false
    pub tries : sum_of as_attempt r.effects ≤ limit + 1
    pub repeats : sum_of as_retry r.effects ≤ limit
    pub paired : sum_of as_attempt r.effects ≤ sum_of as_retry r.effects + 1

  contain-Sent : (n : ℕ) (r : Run) → Accounts limit n 0 r → Sent n (contain cfg net n r)
  unfolding contain
  contain-Sent n r a =
      let last = panic_reported ∷ on_send_exhausted n ∷ [] in
      ground (
        arith,
        sum_of-append as_report r.effects last,
        sum_of-append as_sent r.effects last,
        sum_of-append as_dropped r.effects last,
        sum_of-append as_attempt r.effects last,
        sum_of-append as_retry r.effects last,
      )

  -- Whatever the encoder, the sender and the context do, a panic included, `sendWithRetry` ends,
  -- contains the panic, and reports the batch exactly once: as sent with all its items, or as
  -- dropped with all its items. It makes MaxRetries + 1 attempts at most, reports MaxRetries
  -- retries at most, and never more than one attempt beyond the retries that it reports.
  pub send_with_retry-Sent :
      {T : Type 0} (encode : List T → Encoding Body) (batch : List T) (rng : ℕ)
      → (r : Run) × (send_with_retry cfg net encode batch rng ≡ some r) × Sent (length batch) r
  unfolding send_with_retry
  send_with_retry-Sent encode batch rng =
      let (r, e, a) = deliver_batch-Done (length batch) (encode batch) rng in
      (contain cfg net (length batch) r, rw (e, send_with_retry), contain-Sent (length batch) r a)
