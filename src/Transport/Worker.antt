-- ===== src/Transport/Worker.antt =====
-- `dispatchReady` of internal/transport/worker.go, the loop that `Flush`, `Close`, and the worker
-- loop at each wake-up run: it pops and dispatches batches until the buffer is empty.
pub mod Drains
use groundcover_go.Base.{
  ℕ, zero, suc, ◌+◌, List, [], ◌∷◌, Option, none, some, length, ◌==◌, if◌then◌else◌,
}
use groundcover_go.Ring.{Buffer, HasZero, pop_batch}
use groundcover_go.Transport.Config.{WorkerConfig}

module _ {T : Type 0} where
  prepend : List T → Option (List (List T) × Buffer T) → Option (List (List T) × Buffer T)
  prepend batch none = none
  prepend batch (some (batches, end)) = some (batch ∷ batches, end)

module _ {T : Type 0} ⦃z : HasZero T⦄ (cfg : WorkerConfig) where
  -- The batches in the order of their dispatch, and the buffer left; none if the fuel runs out.
  pub dispatch_rounds : ℕ → Buffer T → Option (List (List T) × Buffer T)
  dispatch_rounds zero ring = none
  dispatch_rounds (suc fuel) ring =
      let (batch, ring') = pop_batch ring cfg.batch_size cfg.max_batch_bytes in
      let rest = dispatch_rounds fuel ring' in
      if length batch == 0 then some ([], ring') else prepend batch rest

  -- Each round but the last takes an entry at least.
  pub dispatch_ready : Buffer T → Option (List (List T) × Buffer T)
  dispatch_ready ring = dispatch_rounds (suc ring.count) ring
