-- ===== src/Transport/Lifecycle.antt =====
-- The life of a worker: `Start`, `Notify`, `loop`, `dispatch`, `Flush`, `Close` and `waitInflight` of
-- internal/transport/worker.go, for the loop's goroutine, a caller of `Flush` and one of `Close`
-- that run at once with the senders and with the captures. A step is one operation on a channel,
-- on the buffer or on the wait group, with what follows it in the goroutine and none other sees; any interleaving is a sequence of steps. A second call of
-- `Close` waits for the first by `closeOnce` and does nothing else, so it is no step.
pub mod Settled
pub mod Missed
pub mod Flushed
pub mod Returns
pub mod Progress
mod Examples
use groundcover_go.Base.{
  ℕ, zero, suc, ◌+◌, ◌≤◌, ◌<◌, ◌≡◌, ◌⊎◌, Bool, true, false, List, [], ◌∷◌, ◌++◌, length, ltb,
  if◌then◌else◌,
}
use groundcover_go.Base.Int.{to_nat}
use groundcover_go.Ring.{Buffer, HasZero, push, pop_batch}
use groundcover_go.Transport.Config.{WorkerConfig}

-- where a goroutine stands in `dispatchReady` and `dispatch`
pub data Drain (T : Type 0) : Type 0 where
  popping : Drain T  -- before `PopBatch`
  holding : List T → Drain T  -- before the select of `dispatch`
  sending : List T → Drain T  -- in `sendWithRetry`, called by the goroutine itself

pub data Loop (T : Type 0) : Type 0 where
  unstarted selecting reporting exited : Loop T
  draining : (stopping : Bool) → Drain T → Loop T

pub data Flush (T : Type 0) : Type 0 where
  idle reporting : Flush T
  draining : Drain T → Flush T
  -- in `waitInflight`; `done` tells whether `inflight.Wait` has returned, and the channel is closed
  waiting : (done : Bool) → Flush T
  -- with an error, if the context expired
  returned : (expired : Bool) → Flush T

-- `late` tells whether the context expired before the loop had stopped.
pub data Closing (T : Type 0) : Type 0 where
  open_still awaiting_stop : Closing T
  draining : (late : Bool) → Drain T → Closing T
  waiting : (late done : Bool) → Closing T
  closed : (expired : Bool) → Closing T

-- what the goroutines share
pub record Shared (T : Type 0) : Type 0 where
  pub ring : Buffer T
  -- the batches of the senders that the wait group counts; each holds a slot of the semaphore
  pub inflight : List (List T)
  -- the items that `PopBatch` has handed out, and those that a finished send has reported
  pub taken : ℕ
  pub settled : ℕ

pub record Worker (T : Type 0) : Type 0 where
  pub shared : Shared T
  pub loop : Loop T
  pub flush : Flush T
  pub closing : Closing T
  -- the hints in the channel `trigger`
  pub trigger : ℕ
  -- how often `stop` and `stopped` have been closed, the base context cancelled, and
  -- `OnSubsystemDisabled` called
  pub stop : ℕ
  pub stopped : ℕ
  pub cancelled : ℕ
  pub disabled : ℕ

-- the channel `trigger` has room for one hint
pub notify : ℕ → ℕ
notify n = if ltb n 1 then n + 1 else n

-- `NewWorker`, on a buffer
pub new_worker : {T : Type 0} → Buffer T → Worker T
new_worker ring = record {
  shared = record { ring = ring; inflight = []; taken = 0; settled = 0 };
  loop = unstarted;
  flush = idle;
  closing = open_still;
  trigger = 0;
  stop = 0;
  stopped = 0;
  cancelled = 0;
  disabled = 0;
}

module _ {T : Type 0} ⦃z : HasZero T⦄ (cfg : WorkerConfig) where
  abbrev pub next_batch : Shared T → List T × Buffer T
  next_batch sh = pop_batch sh.ring cfg.batch_size cfg.max_batch_bytes

  -- one operation of `dispatchReady`, by whoever runs it
  pub data Move (sh : Shared T) : Drain T → Shared T → Drain T → Type 0 where
    take :
        0 < length (next_batch sh).0
        → Move sh popping
            (record sh { ring = (next_batch sh).1; taken = sh.taken + length (next_batch sh).0 })
            (holding (next_batch sh).0)
    -- `w.sem <- struct{}{}`, `w.inflight.Add(1)` and the new goroutine
    spawn :
        (batch : List T)
        → length sh.inflight < to_nat cfg.max_concurrent
        → Move sh (holding batch) (record sh { inflight = batch ∷ sh.inflight }) popping
    send_here :
        (batch : List T)
        → to_nat cfg.max_concurrent ≤ length sh.inflight
        → Move sh (holding batch) sh (sending batch)
    sent :
        (batch : List T)
        → Move sh (sending batch) (record sh { settled = sh.settled + length batch }) popping

  -- `PopBatch` has nothing to give, and `dispatchReady` returns.
  abbrev pub Drained : Shared T → Type 0
  Drained sh = length (next_batch sh).0 ≡ 0

  pub data Step (s : Worker T) : Worker T → Type 0 where
    -- other parts of the program: a capture, and a sender that ends
    pushed :
        (x : T) → Step s (record s { shared = record s.shared { ring = (push s.shared.ring x).0 } })
    landed :
        (before after : List (List T)) (batch : List T)
        → s.shared.inflight ≡ before ++ (batch ∷ after)
        → Step s (record s {
          shared = record s.shared {
            inflight = before ++ after;
            settled = s.shared.settled + length batch;
          };
        })
    notified : Step s (record s { trigger = notify s.trigger })
    -- `Start`; a second one finds `startOnce` done
    started : s.loop ≡ unstarted → Step s (record s { loop = selecting })
    -- the three cases of the loop's select
    woken_by_stop :
        s.loop ≡ selecting → 0 < s.stop → Step s (record s { loop = draining true popping })
    woken_by_tick : s.loop ≡ selecting → Step s (record s { loop = draining false popping })
    woken_by_trigger :
        (n : ℕ)
        → s.loop ≡ selecting
        → s.trigger ≡ suc n
        → Step s (record s { loop = draining false popping; trigger = n })
    loop_moved :
        (stopping : Bool) {d d' : Drain T} {sh : Shared T}
        → s.loop ≡ draining stopping d
        → Move s.shared d sh d'
        → Step s (record s { shared = sh; loop = draining stopping d' })
    loop_drained :
        s.loop ≡ draining false popping → Drained s.shared → Step s (record s { loop = reporting })
    -- the return of the loop, with its deferred `close(w.stopped)`
    loop_ended :
        s.loop ≡ draining true popping
        → Drained s.shared
        → Step s (record s { loop = exited; stopped = s.stopped + 1 })
    loop_reported : s.loop ≡ reporting → Step s (record s { loop = selecting })
    -- a panic of the observer or of the buffer: the deferred close, then the handler of `Start`
    loop_panicked :
        (stopping : Bool)
        → (s.loop ≡ reporting) ⊎ (s.loop ≡ draining stopping popping)
        → Step s (record s { loop = exited; stopped = s.stopped + 1; disabled = s.disabled + 1 })
    flush_called : s.flush ≡ idle → Step s (record s { flush = draining popping })
    flush_moved :
        {d d' : Drain T} {sh : Shared T}
        → s.flush ≡ draining d
        → Move s.shared d sh d'
        → Step s (record s { shared = sh; flush = draining d' })
    flush_drained :
        s.flush ≡ draining popping → Drained s.shared → Step s (record s { flush = reporting })
    flush_reported : s.flush ≡ reporting → Step s (record s { flush = waiting false })
    -- `inflight.Wait` of the goroutine in `waitInflight`
    flush_waited :
        s.flush ≡ waiting false
        → s.shared.inflight ≡ []
        → Step s (record s { flush = waiting true })
    -- the two cases of the select of `waitInflight`, either of which may come where both can
    flush_done : s.flush ≡ waiting true → Step s (record s { flush = returned false })
    flush_expired :
        (done : Bool) → s.flush ≡ waiting done → Step s (record s { flush = returned true })
    flush_over : (expired : Bool) → s.flush ≡ returned expired → Step s (record s { flush = idle })
    -- `close(w.stop)`, under `closeOnce`
    close_called :
        s.closing ≡ open_still → Step s (record s { closing = awaiting_stop; stop = s.stop + 1 })
    close_saw_stop :
        s.closing ≡ awaiting_stop
        → 0 < s.stopped
        → Step s (record s { closing = draining false popping })
    close_late : s.closing ≡ awaiting_stop → Step s (record s { closing = draining true popping })
    close_moved :
        (late : Bool) {d d' : Drain T} {sh : Shared T}
        → s.closing ≡ draining late d
        → Move s.shared d sh d'
        → Step s (record s { shared = sh; closing = draining late d' })
    close_drained :
        (late : Bool)
        → s.closing ≡ draining late popping
        → Drained s.shared
        → Step s (record s { closing = waiting late false })
    -- the same in `Close`, where `w.cancelBase()` follows
    close_waited :
        (late : Bool)
        → s.closing ≡ waiting late false
        → s.shared.inflight ≡ []
        → Step s (record s { closing = waiting late true })
    close_done :
        (late : Bool)
        → s.closing ≡ waiting late true
        → Step s (record s { closing = closed late; cancelled = s.cancelled + 1 })
    close_expired :
        (late done : Bool)
        → s.closing ≡ waiting late done
        → Step s (record s { closing = closed true; cancelled = s.cancelled + 1 })

  pub data Reach (s : Worker T) : Worker T → Type 0 where
    here : Reach s s
    next : {t u : Worker T} → Reach s t → Step t u → Reach s u
