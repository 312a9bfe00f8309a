-- ===== src/Pipeline/Conservation.antt =====
-- No event is lost from the accounts, under any interleaving.
use groundcover_go.Base.{
  ℕ, ◌+◌, ◌%◌, ◌^◌, ◌≤◌, ◌<◌, ◌≡◌, ap, subst, List, [], ◌∷◌, some, arith, length,
}
use groundcover_go.Base.Int.{to_nat}
use groundcover_go.Metrics.{inc_captured, add_dropped, set_queue_pending}
use groundcover_go.Ring.{HasZero, clamp_size, pop_batch}
use groundcover_go.Ring.Inv.{IsValid}
use groundcover_go.Ring.Batch.{pop_batch_lem}
use groundcover_go.Ring.Weight.{push-Entered, Batch-light}
use groundcover_go.Ring.Frame.{Same-push, Same-pop_batch}
use groundcover_go.Transport.Config.{WorkerConfig}
use groundcover_go.Transport.Delivery.{Encoding, Network, Run, send_with_retry}
use groundcover_go.Transport.Delivery.Settlement.{sum_of, as_sent, as_dropped, send_with_retry-Sent}
use groundcover_go.Transport.Worker.Drains.{count_split}
use groundcover_go.Pipeline.{
  Flight, Pipeline, slots, Step, capture, enqueue, count_dropped, report_queue, dispatch, advance,
  finish, Reach, here, next,
}
use groundcover_go.Pipeline.Accounts.{
  owed, owed-append, observe_lem, slots-take, slots-drop, slots-keep,
}

module _ {T Body : Type 0} ⦃z : HasZero T⦄ (cfg : WorkerConfig)
    (encode : List T → Encoding Body) where
  -- What holds between any two steps. The byte bound and every item's size lie below 2 ^ 62.
  pub record Inv (s : Pipeline T) : Type 0 where
    pub valid : IsValid s.ring
    pub light : s.ring.bytes < 2 ^ 62
    pub limit : s.ring.max_bytes < 2 ^ 62
    pub small : (x : T) → clamp_size (s.ring.size_of x) < 2 ^ 62
    pub slotted : slots s.flights ≤ to_nat cfg.max_concurrent
    pub balanced :
        s.metrics.captured
        ≡ (s.metrics.sent
            + s.metrics.dropped_overflow
            + s.metrics.dropped_send
            + s.ring.count
            + owed s.flights
            + s.entering
            + s.evicted)
          % 2 ^ 64

  reported :
      (net : Network Body) (batch : List T) (rng : ℕ) (r : Run)
      → send_with_retry cfg net encode batch rng ≡ some r
      → sum_of as_sent r.effects + sum_of as_dropped r.effects ≡ length batch
  reported net batch rng r e =
      let (r', e', sent) = send_with_retry-Sent cfg net encode batch rng in
      let same : r' ≡ r = cc in
      subst (λ (q : Run). sum_of as_sent q.effects + sum_of as_dropped q.effects ≡ length batch)
        same (omega (arith, sent.settled))

  Step-Inv :
      {s t : Pipeline T} → to_nat cfg.max_batch_bytes < 2 ^ 63 → Step cfg encode s t → Inv s → Inv t
  Step-Inv lim (capture s) i = record {
    valid = i.valid;
    light = i.light;
    limit = i.limit;
    small = i.small;
    slotted = i.slotted;
    balanced = unfold inc_captured in omega (arith, i.balanced);
  }
  Step-Inv lim (enqueue s x h) i =
      let same = Same-push s.ring x in
      let e = push-Entered s.ring x i.valid i.light i.limit (i.small x) in
      record {
        valid = e.valid;
        light = e.light;
        limit = omega (arith, same.limit, i.limit);
        small = λ y. omega (arith, i.small y, ap (λ f. clamp_size (f y)) same.sizes);
        slotted = i.slotted;
        balanced = omega (arith, i.balanced, e.counted);
      }
  Step-Inv lim (count_dropped s dropped h) i = record {
    valid = i.valid;
    light = i.light;
    limit = i.limit;
    small = i.small;
    slotted = i.slotted;
    balanced = unfold add_dropped in omega (arith, i.balanced);
  }
  Step-Inv lim (report_queue s items bytes) i = record {
    valid = i.valid;
    light = i.light;
    limit = i.limit;
    small = i.small;
    slotted = i.slotted;
    balanced = unfold set_queue_pending in i.balanced;
  }
  Step-Inv lim (dispatch s net rng r h e) i =
      let (batch, b') = pop_batch s.ring cfg.batch_size cfg.max_batch_bytes in
      let same = Same-pop_batch s.ring cfg.batch_size cfg.max_batch_bytes in
      let t = (pop_batch_lem cfg.batch_size cfg.max_batch_bytes s.ring i.valid lim).0 in
      record {
        valid = t.valid;
        light = omega (arith, Batch-light s.ring (batch, b') i.valid t, i.light);
        limit = omega (arith, same.limit, i.limit);
        small = λ y. omega (arith, i.small y, ap (λ f. clamp_size (f y)) same.sizes);
        slotted = slots-take s.flights r.effects (to_nat cfg.max_concurrent) i.slotted;
        balanced =
            omega (arith, i.balanced, count_split s.ring (batch, b') t, reported net batch rng r e);
      }
  Step-Inv lim (advance s before after e todo held p) i =
      let f : Flight = record { todo = e ∷ todo; holds_slot = held } in
      let f' : Flight = record { todo = todo; holds_slot = held } in
      let (same, moved) = observe_lem s.metrics e in
      record {
        valid = i.valid;
        light = i.light;
        limit = i.limit;
        small = i.small;
        slotted = omega (arith, i.slotted, ap slots p, slots-keep before after e todo held);
        balanced = omega (
          arith,
          i.balanced,
          same,
          moved,
          ap owed p,
          owed-append before (f ∷ after),
          owed-append before (f' ∷ after),
        );
      }
  Step-Inv lim (finish s before after held p) i =
      let f : Flight = record { todo = []; holds_slot = held } in
      record {
        valid = i.valid;
        light = i.light;
        limit = i.limit;
        small = i.small;
        slotted = omega (arith, i.slotted, ap slots p, slots-drop before after held);
        balanced = omega (
          arith,
          i.balanced,
          ap owed p,
          owed-append before (f ∷ after),
          owed-append before after,
        );
      }

  -- From any state in which the accounts balance, whatever is captured, evicted, dispatched, retried,
  -- sent or dropped in whatever order, the accounts balance: the captured events are, modulo
  -- 2 ^ 64, those sent, dropped on overflow or after their delivery failed, buffered, on their way
  -- into the buffer, evicted but not yet counted, and those that sends under way have yet to
  -- report. Throughout the buffer stays valid, and no more sends hold a slot of the semaphore than
  -- MaxConcurrent. The byte limits are as in `Inv`, and MaxBatchBytes fits an `int`.
  pub Reach-Inv :
      {s t : Pipeline T}
      → to_nat cfg.max_batch_bytes < 2 ^ 63
      → Inv s
      → Reach cfg encode s t
      → Inv t
  Reach-Inv lim i here = i
  Reach-Inv lim i (next r st) = Step-Inv lim st (Reach-Inv lim i r)
