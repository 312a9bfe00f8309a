-- ===== src/Transport/Lifecycle/Progress.antt =====
-- How much a worker, `Flush` and `Close` can do with what was captured.
use groundcover_go.Base.{
  ℕ, ◌+◌, ◌*◌, ◌^◌, ◌≤◌, ◌<◌, ap, [], ◌∷◌, length, length-append, length-drop, arith, inl, inr,
}
use groundcover_go.Base.Int.{to_nat}
use groundcover_go.Ring.{Buffer, HasZero, clamp_size, push, pop_batch}
use groundcover_go.Ring.Core.{contents, length-contents}
use groundcover_go.Ring.Inv.{IsValid}
use groundcover_go.Ring.Push.{push_lem, with_new}
use groundcover_go.Ring.Batch.{pop_batch_lem}
use groundcover_go.Ring.Refinement.{IsLight, push-IsLight, pop_batch-IsLight}
use groundcover_go.Transport.Config.{WorkerConfig}
use groundcover_go.Transport.Worker.Drains.{count_split}
use groundcover_go.Transport.Lifecycle.{
  Drain, popping, holding, sending, Loop, Flush, Closing, Shared, Worker, new_worker, Move, take,
  spawn, send_here, sent, Step, Reach, here, next,
}

module _ {T : Type 0} where
  -- the moves that a goroutine has still to make for the batch in its hands
  abbrev to_make : Drain T → ℕ
  to_make popping = 0
  to_make (holding batch) = 2
  to_make (sending batch) = 1

  abbrev of_loop : Loop T → ℕ
  of_loop (Loop.draining b d) = to_make d
  of_loop _ = 0

  abbrev of_flush : Flush T → ℕ
  of_flush (Flush.draining d) = to_make d
  of_flush _ = 0

  abbrev of_closing : Closing T → ℕ
  of_closing (Closing.draining late d) = to_make d
  of_closing _ = 0

  -- three for each item in the buffer, and those under way
  abbrev pub outstanding : Worker T → ℕ
  outstanding s = 3 * s.shared.ring.count + of_loop s.loop + of_flush s.flush + of_closing s.closing

module _ {T : Type 0} ⦃z : HasZero T⦄ (cfg : WorkerConfig) where
  -- 1 for a move of `dispatchReady`, and else 0
  abbrev is_move : {s t : Worker T} → Step cfg s t → ℕ
  is_move (Step.loop_moved b h mv) = 1
  is_move (Step.flush_moved h mv) = 1
  is_move (Step.close_moved b h mv) = 1
  is_move _ = 0

  -- 1 for a capture, and else 0
  abbrev is_capture : {s t : Worker T} → Step cfg s t → ℕ
  is_capture (Step.pushed x) = 1
  is_capture _ = 0

  pub moves : {s t : Worker T} → Reach cfg s t → ℕ
  moves here = 0
  moves (next r st) = moves r + is_move st

  pub captures : {s t : Worker T} → Reach cfg s t → ℕ
  captures here = 0
  captures (next r st) = captures r + is_capture st

  record Spent (sh sh' : Shared T) (d d' : Drain T) : Type 0 where
    light : IsLight sh'.ring
    paid : 3 * sh'.ring.count + to_make d' + 1 ≤ 3 * sh.ring.count + to_make d

  Move-Spent :
      {sh sh' : Shared T} {d d' : Drain T}
      → to_nat cfg.max_batch_bytes < 2 ^ 63
      → Move cfg sh d sh' d'
      → IsLight sh.ring
      → Spent sh sh' d d'
  Move-Spent {sh} lim (take some_taken) h = record {
    light = pop_batch-IsLight sh.ring cfg.batch_size cfg.max_batch_bytes h lim;
    paid = omega (
      arith,
      some_taken,
      count_split sh.ring (pop_batch sh.ring cfg.batch_size cfg.max_batch_bytes)
          (pop_batch_lem cfg.batch_size cfg.max_batch_bytes sh.ring h.valid lim).0,
    );
  }
  Move-Spent lim (spawn batch few) h = record { light = h; paid = omega arith }
  Move-Spent lim (send_here batch many) h = record { light = h; paid = omega arith }
  Move-Spent lim (sent batch) h = record { light = h; paid = omega arith }

  record Paid {s t : Worker T} (st : Step cfg s t) : Type 0 where
    light : IsLight t.shared.ring
    paid : is_move st + outstanding t ≤ 3 * is_capture st + outstanding s

  push-count-le : (b : Buffer T) (x : T) → IsLight b → (push b x).0.count ≤ b.count + 1
  push-count-le b x h =
      let p = push_lem b x h.valid (omega (arith, h.account, h.small x)) in
      omega (
        arith,
        length-contents b,
        length-contents (push b x).0,
        ap length p.kept,
        length-drop (push b x).1 (with_new b x),
        length-append (contents b) ((x, clamp_size (b.size_of x)) ∷ []),
      )

  Step-Paid :
      {s t : Worker T} (st : Step cfg s t)
      → to_nat cfg.max_batch_bytes < 2 ^ 63
      → IsLight s.shared.ring
      → Paid st
  Step-Paid {s} (Step.pushed x) lim h = record {
    light = push-IsLight s.shared.ring x h;
    paid = omega (arith, push-count-le s.shared.ring x h);
  }
  Step-Paid (Step.landed before after batch q) lim h = record { light = h; paid = omega arith }
  Step-Paid Step.notified lim h = record { light = h; paid = omega arith }
  Step-Paid (Step.started q) lim h = record { light = h; paid = omega (arith, ap of_loop q) }
  Step-Paid (Step.woken_by_stop q p) lim h = record {
    light = h;
    paid = omega (arith, ap of_loop q);
  }
  Step-Paid (Step.woken_by_tick q) lim h = record { light = h; paid = omega (arith, ap of_loop q) }
  Step-Paid (Step.woken_by_trigger n q p) lim h = record {
    light = h;
    paid = omega (arith, ap of_loop q);
  }
  Step-Paid (Step.loop_moved stopping q mv) lim h =
      let m = Move-Spent lim mv h in
      record { light = m.light; paid = omega (arith, m.paid, ap of_loop q) }
  Step-Paid (Step.loop_drained q p) lim h = record { light = h; paid = omega (arith, ap of_loop q) }
  Step-Paid (Step.loop_ended q p) lim h = record { light = h; paid = omega (arith, ap of_loop q) }
  Step-Paid (Step.loop_reported q) lim h = record { light = h; paid = omega (arith, ap of_loop q) }
  Step-Paid (Step.loop_panicked stopping (inl q)) lim h = record {
    light = h;
    paid = omega (arith, ap of_loop q);
  }
  Step-Paid (Step.loop_panicked stopping (inr q)) lim h = record {
    light = h;
    paid = omega (arith, ap of_loop q);
  }
  Step-Paid (Step.flush_called q) lim h = record { light = h; paid = omega (arith, ap of_flush q) }
  Step-Paid (Step.flush_moved q mv) lim h =
      let m = Move-Spent lim mv h in
      record { light = m.light; paid = omega (arith, m.paid, ap of_flush q) }
  Step-Paid (Step.flush_drained q p) lim h = record {
    light = h;
    paid = omega (arith, ap of_flush q);
  }
  Step-Paid (Step.flush_reported q) lim h = record {
    light = h;
    paid = omega (arith, ap of_flush q);
  }
  Step-Paid (Step.flush_waited q p) lim h = record {
    light = h;
    paid = omega (arith, ap of_flush q);
  }
  Step-Paid (Step.flush_done q) lim h = record { light = h; paid = omega (arith, ap of_flush q) }
  Step-Paid (Step.flush_expired done q) lim h = record {
    light = h;
    paid = omega (arith, ap of_flush q);
  }
  Step-Paid (Step.flush_over e q) lim h = record { light = h; paid = omega (arith, ap of_flush q) }
  Step-Paid (Step.close_called q) lim h = record {
    light = h;
    paid = omega (arith, ap of_closing q);
  }
  Step-Paid (Step.close_saw_stop q p) lim h = record {
    light = h;
    paid = omega (arith, ap of_closing q);
  }
  Step-Paid (Step.close_late q) lim h = record { light = h; paid = omega (arith, ap of_closing q) }
  Step-Paid (Step.close_moved late q mv) lim h =
      let m = Move-Spent lim mv h in
      record { light = m.light; paid = omega (arith, m.paid, ap of_closing q) }
  Step-Paid (Step.close_drained late q p) lim h = record {
    light = h;
    paid = omega (arith, ap of_closing q);
  }
  Step-Paid (Step.close_waited late q p) lim h = record {
    light = h;
    paid = omega (arith, ap of_closing q);
  }
  Step-Paid (Step.close_done late q) lim h = record {
    light = h;
    paid = omega (arith, ap of_closing q);
  }
  Step-Paid (Step.close_expired late done q) lim h = record {
    light = h;
    paid = omega (arith, ap of_closing q);
  }

  Reach-paid :
      {s t : Worker T} (r : Reach cfg s t)
      → to_nat cfg.max_batch_bytes < 2 ^ 63
      → IsLight s.shared.ring
      → IsLight t.shared.ring × (moves r + outstanding t ≤ 3 * captures r + outstanding s)
  unfolding moves captures
  Reach-paid here lim h = (h, omega arith)
  Reach-paid (next r st) lim h =
      let (light, sofar) = Reach-paid r lim h in
      let p = Step-Paid st lim light in (p.light, omega (arith, sofar, p.paid))

  -- From a new worker on, over a valid buffer whose account, bound and sizes lie below 2 ^ 62, with a
  -- byte limit of batches that fits an int, and under any interleaving: the buffer is valid again,
  -- and the loop, `Flush` and `Close` together have made at most three moves, a pop, a hand-over and
  -- a send, for each item that the buffer held at first and each one captured since, less those that
  -- the items still in the buffer and the batches in hand are good for.
  pub bounded_moves :
      (ring : Buffer T) {s : Worker T} (r : Reach cfg (new_worker ring) s)
      → IsLight ring
      → to_nat cfg.max_batch_bytes < 2 ^ 63
      → IsValid s.shared.ring × (moves r + outstanding s ≤ 3 * (ring.count + captures r))
  unfolding new_worker
  bounded_moves ring r h lim =
      let (light, p) = Reach-paid r lim h in (light.valid, omega (arith, p))
