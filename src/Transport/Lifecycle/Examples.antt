-- ===== src/Transport/Lifecycle/Examples.antt =====
-- The theorems on the life of a worker at concrete runs.
use groundcover_go.Base.{ℕ, ◌+◌, ◌*◌, ◌≤◌, ◌≡◌, refl, [], ◌∷◌, arith, false}
use groundcover_go.Base.Int.{pos}
use groundcover_go.Ring.{
  HasZero, Buffer, clamp_size, relinearize, new_cap, grow, pop_oldest, append, shrink, grow_if_full,
  make_room, push, batch_full, take_batch, pop_batch,
}
use groundcover_go.Ring.Inv.{IsValid}
use groundcover_go.Ring.Push.{push_lem}
use groundcover_go.Transport.Lifecycle.Flushed.{Alone, start, then, Flushed, flush_delivers}
use groundcover_go.Transport.Lifecycle.Returns.{flush_returns}
use groundcover_go.Transport.Config.{WorkerConfig}
use groundcover_go.Transport.Lifecycle.{
  Loop, Flush, Closing, Worker, new_worker, take, spawn, Step, Reach, here, next,
}
use groundcover_go.Transport.Lifecycle.Settled.{Inv, new_worker-Inv}
use groundcover_go.Ring.Refinement.{IsLight}
use groundcover_go.Transport.Lifecycle.Progress.{moves, captures, outstanding, bounded_moves}
use groundcover_go.Transport.Lifecycle.Missed.{Missed, flush_misses}

instance abbrev zero_ℕ : HasZero ℕ
zero_ℕ = record { zero_value = 0 }

abbrev cfg : WorkerConfig
cfg = record {
  batch_size = pos 2;
  max_batch_bytes = pos 100;
  flush_interval = pos 1000;
  max_retries = pos 1;
  base_backoff = pos 10;
  retry_max = pos 100;
  rate_limit_backoff = pos 50;
  max_concurrent = pos 1;
}

abbrev hollow : Buffer ℕ
hollow = record {
  buf = [];
  sz = [];
  head = 0;
  count = 0;
  bytes = 0;
  max_items = 3;
  max_bytes = 20;
  size_of = λ x. pos 5;
}

hollow-IsValid : IsValid hollow
hollow-IsValid = omega arith

-- the buffer after 5 has gone through it
abbrev used : Buffer ℕ
used = (pop_batch (push hollow 5).0 cfg.batch_size cfg.max_batch_bytes).1

-- a worker with 5 in its buffer
abbrev loaded : Worker ℕ
loaded = record (new_worker hollow) {
  shared = record { ring = (push hollow 5).0; inflight = []; taken = 0; settled = 0 };
}

-- the same after `Flush` has taken 5 and handed it to a sender, and the sender has ended
abbrev flushed : Worker ℕ
flushed = record {
  shared = record { ring = used; inflight = []; taken = 1; settled = 1 };
  loop = Loop.unstarted;
  flush = Flush.returned false;
  closing = Closing.open_still;
  trigger = 0;
  stop = 0;
  stopped = 0;
  cancelled = 0;
  disabled = 0;
}

flushed-Alone : Alone cfg loaded flushed
unfolding new_worker push clamp_size make_room grow_if_full grow relinearize new_cap append shrink
    pop_oldest pop_batch take_batch batch_full
flushed-Alone =
    then
      (then
        (then
          (then
            (then
              (then
                (then (then start (Step.flush_called refl) refl)
                  (Step.flush_moved refl (take (omega arith))) refl)
                (Step.flush_moved refl (spawn (5 ∷ []) (omega arith))) refl)
              (Step.flush_drained refl refl) refl)
            (Step.flush_reported refl) refl)
          (Step.landed [] [] (5 ∷ []) refl) refl)
        (Step.flush_waited refl refl) refl)
      (Step.flush_done refl) refl

loaded-IsValid : IsValid loaded.shared.ring
unfolding clamp_size
loaded-IsValid = (push_lem hollow 5 hollow-IsValid (omega arith)).valid

flush_delivers_example : Flushed cfg loaded flushed
unfolding new_worker
flush_delivers_example = flush_delivers cfg flushed-Alone (omega arith) loaded-IsValid refl refl

flush_returns_example :
    (t : Worker ℕ) × Alone cfg loaded t × (t.flush ≡ Flush.returned false) × Flushed cfg loaded t
unfolding new_worker
flush_returns_example = flush_returns cfg loaded (omega arith) loaded-IsValid refl

-- 5 again, taken by `Close` after the loop has stopped
-- 5 again, taken by `Close` after the loop has stopped
abbrev closed_down : Worker ℕ
closed_down = record {
  shared = record { ring = used; inflight = []; taken = 1; settled = 1 };
  loop = Loop.exited;
  flush = Flush.idle;
  closing = Closing.waiting false false;
  trigger = 0;
  stop = 1;
  stopped = 1;
  cancelled = 0;
  disabled = 0;
}

closed_down-reached : Reach cfg (new_worker hollow) closed_down
unfolding new_worker push clamp_size make_room grow_if_full grow relinearize new_cap append shrink
    pop_oldest pop_batch take_batch batch_full
closed_down-reached =
    next
      (next
        (next
          (next
            (next
              (next
                (next
                  (next (next (next here (Step.started refl)) (Step.close_called refl))
                    (Step.woken_by_stop refl (omega arith)))
                  (Step.loop_ended refl refl))
                (Step.close_saw_stop refl (omega arith)))
              (Step.pushed 5))
            (Step.close_moved false refl (take (omega arith))))
          (Step.close_moved false refl (spawn (5 ∷ []) (omega arith))))
        (Step.landed [] [] (5 ∷ []) refl))
      (Step.close_drained false refl refl)

hollow-IsLight : IsLight hollow
unfolding clamp_size
hollow-IsLight = record {
  valid = hollow-IsValid;
  account = omega arith;
  limit = omega arith;
  small = λ x. omega arith;
}

bounded_moves_example :
    IsValid closed_down.shared.ring
    × (moves cfg closed_down-reached + outstanding closed_down
        ≤ 3 * (hollow.count + captures cfg closed_down-reached))
bounded_moves_example = bounded_moves cfg hollow closed_down-reached hollow-IsLight (omega arith)

new_worker-Inv_example : Inv cfg closed_down
new_worker-Inv_example = new_worker-Inv cfg hollow closed_down-reached

flush_misses_example : (s : Worker ℕ) × Missed cfg hollow s
unfolding clamp_size
flush_misses_example = flush_misses cfg hollow 5 hollow-IsValid refl (omega arith) (omega arith)
