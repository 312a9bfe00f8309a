-- ===== src/Transport/Lifecycle/Missed.antt =====
-- What `Flush` does not wait for.
use groundcover_go.Base.{
  ◌+◌, ◌^◌, ◌<◌, ◌≡◌, refl, ap, List, [], ◌∷◌, length, length-drop, length-append, arith, false,
}
use groundcover_go.Base.Int.{to_nat}
use groundcover_go.Ring.{Buffer, HasZero, clamp_size, push, pop_batch}
use groundcover_go.Ring.Inv.{IsValid}
use groundcover_go.Ring.Batch.{pop_batch_lem}
use groundcover_go.Ring.Core.{contents, length-contents}
use groundcover_go.Ring.Push.{push_lem, with_new}
use groundcover_go.Transport.Config.{WorkerConfig}
use groundcover_go.Transport.Worker.Drains.{count_split}
use groundcover_go.Transport.Lifecycle.{
  holding, Loop, Flush, Worker, new_worker, take, Step, Reach, here, next,
}

module _ {T : Type 0} ⦃z : HasZero T⦄ (cfg : WorkerConfig) where
  -- `Flush` has returned without an error, and an item that left the buffer is in the loop's hands.
  pub record Missed (ring : Buffer T) (s : Worker T) : Type 0 where
    pub reached : Reach cfg (new_worker ring) s
    pub fine : s.flush ≡ Flush.returned false
    pub batch : List T
    pub one : length batch ≡ 1
    pub held : s.loop ≡ Loop.draining false (holding batch)
    pub taken : s.shared.taken ≡ 1
    pub unsettled : s.shared.settled ≡ 0

  -- A single captured item is enough, on any valid empty buffer with room for it: the loop pops it,
  -- and before the loop hands it to a sender a whole `Flush` finds the buffer empty and no sender
  -- counted, and returns without an error.
  pub flush_misses :
      (ring : Buffer T) (x : T)
      → IsValid ring
      → ring.count ≡ 0
      → ring.bytes + clamp_size (ring.size_of x) < 2 ^ 63
      → to_nat cfg.max_batch_bytes < 2 ^ 63
      → (s : Worker T) × Missed ring s
  unfolding new_worker
  flush_misses ring x v empty room lim =
      let p = push_lem ring x v room in
      let b = (push ring x).0 in
      let one : b.count ≡ 1 = omega (
        arith,
        p.evicts.keeps,
        length-contents ring,
        length-contents b,
        ap length p.kept,
        length-drop (push ring x).1 (with_new ring x),
        length-append (contents ring) ((x, clamp_size (ring.size_of x)) ∷ []),
      ) in
      let (first, more) = pop_batch_lem cfg.batch_size cfg.max_batch_bytes b p.valid lim in
      let out = pop_batch b cfg.batch_size cfg.max_batch_bytes in
      let (second, _) = pop_batch_lem cfg.batch_size cfg.max_batch_bytes out.1 first.valid lim in
      let again = pop_batch out.1 cfg.batch_size cfg.max_batch_bytes in
      let split = count_split b out first in
      let split' = count_split out.1 again second in
      let some_popped : 0 < length out.0 = more (omega arith) in
      let none_popped : length again.0 ≡ 0 = omega arith in
      let popped =
        next (next (next (next here (Step.started refl)) (Step.pushed x)) (Step.woken_by_tick refl))
          (Step.loop_moved false refl (take some_popped)) in
      (
        _,
        record {
          reached =
              next
                (next
                  (next
                    (next (next popped (Step.flush_called refl))
                      (Step.flush_drained refl none_popped))
                    (Step.flush_reported refl))
                  (Step.flush_waited refl refl))
                (Step.flush_done refl);
          fine = refl;
          batch = out.0;
          one = omega arith;
          held = refl;
          taken = omega arith;
          unsettled = refl;
        },
      )
