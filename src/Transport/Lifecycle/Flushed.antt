-- ===== src/Transport/Lifecycle/Flushed.antt =====
-- What `Flush` has done when it returns without an error.
use groundcover_go.Base.{
  ℕ, zero, suc, refl, ◌+◌, ◌^◌, ◌<◌, ◌≡◌, ap, Bool, true, false, [], ◌∷◌, length, length-append,
  arith,
}
use groundcover_go.Base.Int.{to_nat}
use groundcover_go.Ring.{HasZero, pop_batch}
use groundcover_go.Ring.Inv.{IsValid}
use groundcover_go.Ring.Batch.{pop_batch_lem}
use groundcover_go.Transport.Config.{WorkerConfig}
use groundcover_go.Transport.Worker.Drains.{count_split, empty_of_length}
use groundcover_go.Transport.Lifecycle.{
  Drain, Flush, Shared, Worker, Move, take, spawn, send_here, sent, Step,
}
use groundcover_go.Transport.Lifecycle.Settled.{in_hand, flush_hand, items, items-append}

module _ {T : Type 0} where
  -- 1 once the buffer has been found empty, and once the senders have been waited for
  abbrev has_drained : Flush T → ℕ
  has_drained Flush.reporting = 1
  has_drained (Flush.waiting done) = 1
  has_drained (Flush.returned expired) = 1
  has_drained _ = 0

  abbrev has_waited : Flush T → ℕ
  has_waited (Flush.waiting true) = 1
  has_waited (Flush.returned false) = 1
  has_waited _ = 0

  -- the items in the buffer, with the senders, with `Flush`, and those reported
  abbrev all_items : Worker T → ℕ
  all_items s =
      s.shared.ring.count + items s.shared.inflight + flush_hand s.flush + s.shared.settled

module _ {T : Type 0} ⦃z : HasZero T⦄ (cfg : WorkerConfig) where
  -- a capture, or a move of the loop or of `Close` in `dispatchReady`
  abbrev pub interferes : {s t : Worker T} → Step cfg s t → Bool
  interferes (Step.pushed x) = true
  interferes (Step.loop_moved b h mv) = true
  interferes (Step.close_moved b h mv) = true
  interferes _ = false

  -- any other steps, by whatever goroutine
  pub data Alone (s : Worker T) : Worker T → Type 0 where
    start : Alone s s
    then : {t u : Worker T} → Alone s t → (st : Step cfg t u) → interferes st ≡ false → Alone s u

  -- the items stay, and `Flush` has done what it is past
  record Kept (n : ℕ) (t : Worker T) : Type 0 where
    valid : IsValid t.shared.ring
    emptied : 0 < has_drained t.flush → t.shared.ring.count ≡ 0
    waited : 0 < has_waited t.flush → length t.shared.inflight ≡ 0
    all : all_items t ≡ n

  record MoveKept (sh sh' : Shared T) (d d' : Drain T) : Type 0 where
    valid : IsValid sh'.ring
    all :
        sh'.ring.count + items sh'.inflight + in_hand d' + sh'.settled
        ≡ sh.ring.count + items sh.inflight + in_hand d + sh.settled

  Move-MoveKept :
      {sh sh' : Shared T} {d d' : Drain T}
      → to_nat cfg.max_batch_bytes < 2 ^ 63
      → Move cfg sh d sh' d'
      → IsValid sh.ring
      → MoveKept sh sh' d d'
  unfolding items
  Move-MoveKept {sh} lim (take h) v =
      let (popped, _) = pop_batch_lem cfg.batch_size cfg.max_batch_bytes sh.ring v lim in
      record {
        valid = popped.valid;
        all = omega (
          arith,
          count_split sh.ring (pop_batch sh.ring cfg.batch_size cfg.max_batch_bytes) popped,
        );
      }
  Move-MoveKept lim (spawn batch h) v = record { valid = v; all = omega arith }
  Move-MoveKept lim (send_here batch h) v = record { valid = v; all = omega arith }
  Move-MoveKept lim (sent batch) v = record { valid = v; all = omega arith }

  Step-Kept :
      (n : ℕ) {s t : Worker T} (st : Step cfg s t)
      → to_nat cfg.max_batch_bytes < 2 ^ 63
      → interferes st ≡ false
      → Kept n s
      → Kept n t
  unfolding items
  Step-Kept n (Step.pushed x) lim q k = ground arith
  Step-Kept n (Step.loop_moved b h mv) lim q k = ground arith
  Step-Kept n (Step.close_moved b h mv) lim q k = ground arith
  Step-Kept n (Step.landed before after batch h) lim q k = record {
    valid = k.valid;
    emptied = k.emptied;
    waited = λ w. omega (
      arith,
      k.waited w,
      ap length h,
      length-append before (batch ∷ after),
      length-append before after,
    );
    all =
        omega (
          arith,
          k.all,
          ap items h,
          items-append before (batch ∷ after),
          items-append before after,
        );
  }
  Step-Kept n (Step.flush_called h) lim q k = record {
    valid = k.valid;
    emptied = λ w. ground arith;
    waited = λ w. ground arith;
    all = omega (arith, k.all, ap flush_hand h);
  }
  Step-Kept n (Step.flush_moved h mv) lim q k =
      let m = Move-MoveKept lim mv k.valid in
      record {
        valid = m.valid;
        emptied = λ w. ground arith;
        waited = λ w. ground arith;
        all = omega (arith, k.all, m.all, ap flush_hand h);
      }
  Step-Kept n {s} (Step.flush_drained h p) lim q k =
      let (_, more) = pop_batch_lem cfg.batch_size cfg.max_batch_bytes s.shared.ring k.valid lim in
      record {
        valid = k.valid;
        emptied = λ w. none_left s.shared.ring.count more p;
        waited = λ w. ground arith;
        all = omega (arith, k.all, ap flush_hand h);
      }
    where
      none_left : (c : ℕ) {l : ℕ} → (0 < c → 0 < l) → l ≡ 0 → c ≡ 0
      none_left zero more e = refl
      none_left (suc c) more e = absurd (omega (arith, more (omega arith), e))
  Step-Kept n (Step.flush_reported h) lim q k = record {
    valid = k.valid;
    emptied = λ w. k.emptied (omega (arith, ap has_drained h));
    waited = λ w. ground arith;
    all = omega (arith, k.all, ap flush_hand h);
  }
  Step-Kept n (Step.flush_waited h p) lim q k = record {
    valid = k.valid;
    emptied = λ w. k.emptied (omega (arith, ap has_drained h));
    waited = λ w. ap length p;
    all = omega (arith, k.all, ap flush_hand h);
  }
  Step-Kept n (Step.flush_done h) lim q k = record {
    valid = k.valid;
    emptied = λ w. k.emptied (omega (arith, ap has_drained h));
    waited = λ w. k.waited (omega (arith, ap has_waited h));
    all = omega (arith, k.all, ap flush_hand h);
  }
  Step-Kept n (Step.flush_expired done h) lim q k = record {
    valid = k.valid;
    emptied = λ w. k.emptied (omega (arith, ap has_drained h));
    waited = λ w. ground arith;
    all = omega (arith, k.all, ap flush_hand h);
  }
  Step-Kept n (Step.flush_over expired h) lim q k = record {
    valid = k.valid;
    emptied = λ w. ground arith;
    waited = λ w. ground arith;
    all = omega (arith, k.all, ap flush_hand h);
  }
  -- the steps that change neither the buffer nor the senders nor `Flush`
  Step-Kept n Step.notified lim q k = record {
    valid = k.valid;
    emptied = k.emptied;
    waited = k.waited;
    all = k.all;
  }
  Step-Kept n (Step.started h) lim q k = record {
    valid = k.valid;
    emptied = k.emptied;
    waited = k.waited;
    all = k.all;
  }
  Step-Kept n (Step.woken_by_stop h p) lim q k = record {
    valid = k.valid;
    emptied = k.emptied;
    waited = k.waited;
    all = k.all;
  }
  Step-Kept n (Step.woken_by_tick h) lim q k = record {
    valid = k.valid;
    emptied = k.emptied;
    waited = k.waited;
    all = k.all;
  }
  Step-Kept n (Step.woken_by_trigger m h p) lim q k = record {
    valid = k.valid;
    emptied = k.emptied;
    waited = k.waited;
    all = k.all;
  }
  Step-Kept n (Step.loop_drained h p) lim q k = record {
    valid = k.valid;
    emptied = k.emptied;
    waited = k.waited;
    all = k.all;
  }
  Step-Kept n (Step.loop_ended h p) lim q k = record {
    valid = k.valid;
    emptied = k.emptied;
    waited = k.waited;
    all = k.all;
  }
  Step-Kept n (Step.loop_reported h) lim q k = record {
    valid = k.valid;
    emptied = k.emptied;
    waited = k.waited;
    all = k.all;
  }
  Step-Kept n (Step.loop_panicked stopping h) lim q k = record {
    valid = k.valid;
    emptied = k.emptied;
    waited = k.waited;
    all = k.all;
  }
  Step-Kept n (Step.close_called h) lim q k = record {
    valid = k.valid;
    emptied = k.emptied;
    waited = k.waited;
    all = k.all;
  }
  Step-Kept n (Step.close_saw_stop h p) lim q k = record {
    valid = k.valid;
    emptied = k.emptied;
    waited = k.waited;
    all = k.all;
  }
  Step-Kept n (Step.close_late h) lim q k = record {
    valid = k.valid;
    emptied = k.emptied;
    waited = k.waited;
    all = k.all;
  }
  Step-Kept n (Step.close_drained late h p) lim q k = record {
    valid = k.valid;
    emptied = k.emptied;
    waited = k.waited;
    all = k.all;
  }
  Step-Kept n (Step.close_waited late h p) lim q k = record {
    valid = k.valid;
    emptied = k.emptied;
    waited = k.waited;
    all = k.all;
  }
  Step-Kept n (Step.close_done late h) lim q k = record {
    valid = k.valid;
    emptied = k.emptied;
    waited = k.waited;
    all = k.all;
  }
  Step-Kept n (Step.close_expired late done h) lim q k = record {
    valid = k.valid;
    emptied = k.emptied;
    waited = k.waited;
    all = k.all;
  }

  Alone-Kept :
      (n : ℕ) {s t : Worker T}
      → Alone s t
      → to_nat cfg.max_batch_bytes < 2 ^ 63
      → Kept n s
      → Kept n t
  Alone-Kept n start lim k = k
  Alone-Kept n (then r st q) lim k = Step-Kept n st lim q (Alone-Kept n r lim k)

  -- the whole of what there was has been reported, and nothing is left
  pub record Flushed (s t : Worker T) : Type 0 where
    pub emptied : t.shared.ring.count ≡ 0
    pub no_senders : t.shared.inflight ≡ []
    pub settled :
        t.shared.settled ≡ s.shared.settled + s.shared.ring.count + items s.shared.inflight

  -- Let `Flush` be called on a worker with a valid buffer, with a byte limit of batches that fits an
  -- int, and let nothing be captured and neither the loop nor `Close` move a batch, while senders end
  -- and the other goroutines do anything else. When `Flush` has returned without an error, the
  -- buffer is empty, no sender runs, and every item that the buffer or a sender held at the call
  -- has been reported.
  pub flush_delivers :
      {s t : Worker T}
      → Alone s t
      → to_nat cfg.max_batch_bytes < 2 ^ 63
      → IsValid s.shared.ring
      → s.flush ≡ Flush.idle
      → t.flush ≡ Flush.returned false
      → Flushed s t
  unfolding items
  flush_delivers {s} {t} r lim v idle over =
      let k = Alone-Kept (all_items s) r lim (record {
        valid = v;
        emptied = λ w. absurd (omega (arith, w, ap has_drained idle));
        waited = λ w. absurd (omega (arith, w, ap has_waited idle));
        all = refl;
      }) in
      let none_left : t.shared.ring.count ≡ 0 = k.emptied (omega (arith, ap has_drained over)) in
      let no_senders : t.shared.inflight ≡ [] =
        empty_of_length t.shared.inflight (k.waited (omega (arith, ap has_waited over))) in
      record {
        emptied = none_left;
        no_senders = no_senders;
        settled =
            omega (
              arith,
              k.all,
              none_left,
              ap items no_senders,
              ap flush_hand idle,
              ap flush_hand over,
            );
      }
