-- ===== src/Pipeline.antt =====
-- The pipeline that the client and the worker run over the buffer and the counters: `enqueue` and
-- `metricsObserver` of client.go, `dispatch`, `reportQueue` and the sends of
-- internal/transport/worker.go. Captures, the worker loop, `Flush` and the sends run in goroutines
-- of their own; a step below is one call under a lock or one atomic update, and any interleaving
-- of them is a sequence of steps.
pub mod Accounts
pub mod Conservation
mod Examples
use groundcover_go.Base.{
  ℕ, suc, ◌+◌, ◌-◌, ◌≤◌, ◌<◌, ◌≡◌, Bool, true, false, List, [], ◌∷◌, ◌++◌, some, length, ltb,
}
use groundcover_go.Base.Int.{to_nat}
use groundcover_go.Metrics.{
  Metrics, send_exhausted, overflow, inc_captured, add_sent, add_dropped, inc_retries,
  inc_rate_limited, inc_panics_recovered, set_queue_pending,
}
use groundcover_go.Ring.{Buffer, HasZero, push, pop_batch}
use groundcover_go.Transport.Config.{WorkerConfig}
use groundcover_go.Transport.Delivery.{
  Effect, attempted, on_retry, on_rate_limited, logged, panic_reported, on_sent, on_send_exhausted,
  slept, Encoding, Network, Run, send_with_retry,
}

-- `metricsObserver`, and the panic handler that `newClient` installs; an attempt, a sleep and a log
-- line change no counter
pub observe : Metrics → Effect → Metrics
observe m (on_sent n) = add_sent m n
observe m on_retry = inc_retries m
observe m on_rate_limited = inc_rate_limited m
observe m (on_send_exhausted n) = add_dropped m send_exhausted n
observe m panic_reported = inc_panics_recovered m
observe m attempted = m
observe m logged = m
observe m (slept n) = m

-- a send under way: what it has still to do, and whether it holds a slot of the semaphore
pub record Flight : Type 0 where
  pub todo : List Effect
  pub holds_slot : Bool

pub record Pipeline (T : Type 0) : Type 0 where
  pub ring : Buffer T
  pub metrics : Metrics
  -- captures that have been counted and not yet pushed
  pub entering : ℕ
  -- entries that `Push` has evicted and `enqueue` has not yet counted
  pub evicted : ℕ
  pub flights : List Flight

-- the slots in use
pub slots : List Flight → ℕ
slots [] = 0
slots (f ∷ fs) = elim f.holds_slot [ true ↦ suc (slots fs) | false ↦ slots fs ]

module _ {T Body : Type 0} ⦃z : HasZero T⦄ (cfg : WorkerConfig)
    (encode : List T → Encoding Body) where
  pub data Step : Pipeline T → Pipeline T → Type 0 where
    -- `c.metrics.IncCaptured()`
    capture :
        (s : Pipeline T)
        → Step s (record s { metrics = inc_captured s.metrics; entering = s.entering + 1 })
    -- `dropped := c.ring.Push(e)`
    enqueue :
        (s : Pipeline T) (x : T)
        → 0 < s.entering
        → Step s (record s {
          ring = (push s.ring x).0;
          entering = s.entering - 1;
          evicted = s.evicted + (push s.ring x).1;
        })
    -- `c.metrics.AddDropped(selfmetrics.DropOverflow, int64(dropped))`
    count_dropped :
        (s : Pipeline T) (dropped : ℕ)
        → dropped ≤ s.evicted
        → Step s (record s {
          metrics = add_dropped s.metrics overflow dropped;
          evicted = s.evicted - dropped;
        })
    -- `SetQueuePending`, by `enqueue` or `reportQueue`: the two gauges may stem from two moments
    report_queue :
        (s : Pipeline T) (items bytes : ℕ)
        → Step s (record s { metrics = set_queue_pending s.metrics items bytes })
    -- one round of `dispatchReady`: `PopBatch`, then `dispatch`. A free slot of the semaphore goes
    -- to a new goroutine; with none free the caller sends by itself.
    dispatch :
        (s : Pipeline T) (net : Network Body) (rng : ℕ) (r : Run)
        → 0 < length (pop_batch s.ring cfg.batch_size cfg.max_batch_bytes).0
        → send_with_retry cfg net encode (pop_batch s.ring cfg.batch_size cfg.max_batch_bytes).0 rng
          ≡ some r
        → Step s (record s {
          ring = (pop_batch s.ring cfg.batch_size cfg.max_batch_bytes).1;
          flights =
              record {
                todo = r.effects;
                holds_slot = ltb (slots s.flights) (to_nat cfg.max_concurrent);
              }
              ∷ s.flights;
        })
    -- a send goes on: its next effect reaches the observer
    advance :
        (s : Pipeline T) (before after : List Flight) (e : Effect) (todo : List Effect)
        (held : Bool)
        → s.flights ≡ before ++ (record { todo = e ∷ todo; holds_slot = held } ∷ after)
        → Step s (record s {
          metrics = observe s.metrics e;
          flights = before ++ (record { todo = todo; holds_slot = held } ∷ after);
        })
    -- a send ends: `inflight.Done()`, and its slot is free again
    finish :
        (s : Pipeline T) (before after : List Flight) (held : Bool)
        → s.flights ≡ before ++ (record { todo = []; holds_slot = held } ∷ after)
        → Step s (record s { flights = before ++ after })

  pub data Reach (s : Pipeline T) : Pipeline T → Type 0 where
    here : Reach s s
    next : {t u : Pipeline T} → Reach s t → Step t u → Reach s u
