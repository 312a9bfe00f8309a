-- ===== src/Transport/Delivery.antt =====
-- `deliverBatch` and `sendWithRetry` of internal/transport/worker.go.
-- What they do to the world is a list of effects in order: the calls of the Observer, the attempts,
-- the sleeps. A nil Observer is one whose calls do nothing.
pub mod Settlement
pub mod Progress
use groundcover_go.Base.{
  ℕ, zero, suc, ◌+◌, Bool, true, false, List, [], ◌∷◌, ◌++◌, Option, none, some, length,
  if◌then◌else◌,
}
use groundcover_go.Base.Int.{to_nat}
use groundcover_go.Transport.Config.{WorkerConfig}
use groundcover_go.Transport.Sender.{SendError}
use groundcover_go.Transport.Backoff.{Decision, give_up, retry_in, classify_retry}

pub data Effect : Type 0 where
  attempted on_retry on_rate_limited logged panic_reported : Effect
  on_sent on_send_exhausted slept : ℕ → Effect

-- what the encoder returns
pub data Encoding (Body : Type 0) : Type 0 where
  encoded : Body → Encoding Body
  encode_failed encode_panicked : Encoding Body

-- What one call of `Sender.Send` comes to. A failure is known by what `asSendError` finds in it.
pub data Outcome : Type 0 where
  delivered send_panicked : Outcome
  failed : Option SendError → Outcome

-- The sender and the context, as the delivery of one batch meets them: what the attempt of each
-- number comes to, and whether the context has ended after the sleep that follows it.
pub record Network (Body : Type 0) : Type 0 where
  pub send : ℕ → Body → Outcome
  pub cancelled : ℕ → Bool

pub record Run : Type 0 where
  pub effects : List Effect
  pub panicked : Bool
  pub rng : ℕ

abbrev pub after_effects : List Effect → Option Run → Option Run
after_effects es none = none
after_effects es (some r) = some (record r { effects = es ++ r.effects })

finished : List Effect → ℕ → Option Run
finished es rng = some (record { effects = es; panicked = false; rng = rng })

-- The observer's call in `classifyRetry`
rate_limit_seen : Bool → List Effect
rate_limit_seen true = on_rate_limited ∷ []
rate_limit_seen false = []

module _ {Body : Type 0} (cfg : WorkerConfig) (net : Network Body) where
  -- what follows a failed attempt; `rest` is the loop from the next attempt on
  pub after_failure : ℕ → ℕ → Bool × Decision × ℕ → (ℕ → Option Run) → Option Run
  unfolding finished rate_limit_seen
  after_failure n attempt (limited, give_up, rng) rest =
      finished (attempted ∷ rate_limit_seen limited ++ (on_send_exhausted n ∷ [])) rng
  after_failure n attempt (limited, retry_in wait, rng) rest =
      let es = attempted ∷ rate_limit_seen limited ++ (on_retry ∷ slept wait ∷ []) in
      elim (net.cancelled attempt) [
        | true ↦ finished (es ++ (on_send_exhausted n ∷ [])) rng
        | false ↦ after_effects es (rest rng)
      ]

  -- one round of the loop, for what the attempt came to
  pub on_outcome : ℕ → ℕ → ℕ → Outcome → (ℕ → Option Run) → Option Run
  unfolding finished
  on_outcome n attempt rng delivered rest = finished (attempted ∷ on_sent n ∷ []) rng
  on_outcome n attempt rng send_panicked rest =
      some (record { effects = attempted ∷ []; panicked = true; rng = rng })
  on_outcome n attempt rng (failed e) rest =
      after_failure n attempt (classify_retry cfg rng e attempt) rest

  -- the loop of `deliverBatch` for a batch of `n` items; none if the fuel runs out
  pub deliver_from : ℕ → ℕ → Body → ℕ → ℕ → Option Run
  deliver_from zero n body attempt rng = none
  deliver_from (suc fuel) n body attempt rng =
      on_outcome n attempt rng (net.send attempt body)
        (λ rng'. deliver_from fuel n body (suc attempt) rng')

  -- A retry is made only below MaxRetries, so MaxRetries + 1 rounds are enough.
  pub deliver_batch : ℕ → Encoding Body → ℕ → Option Run
  unfolding finished
  deliver_batch n (encoded body) rng = deliver_from (suc (to_nat cfg.max_retries)) n body 0 rng
  deliver_batch n encode_failed rng = finished (logged ∷ on_send_exhausted n ∷ []) rng
  deliver_batch n encode_panicked rng = some (record { effects = []; panicked = true; rng = rng })

  -- `safeguard.Do` reports a panic to the handler; the batch is then counted as dropped.
  pub contain : ℕ → Run → Run
  contain n r =
      if r.panicked
      then record r {
        effects = r.effects ++ (panic_reported ∷ on_send_exhausted n ∷ []);
        panicked = false;
      }
      else r

  pub send_with_retry : {T : Type 0} → (List T → Encoding Body) → List T → ℕ → Option Run
  send_with_retry encode batch rng =
      let run = deliver_batch (length batch) (encode batch) rng in
      elim run [ none ↦ none | some r ↦ some (contain (length batch) r) ]
