-- ===== src/Transport/Lifecycle/Settled.antt =====
-- What holds of a worker at any time.
use groundcover_go.Base.{
  ℕ, ◌+◌, ◌≤◌, ◌≡◌, ap, List, [], ◌∷◌, ◌++◌, length, length-append, arith, true, false, inl, inr,
}
use groundcover_go.Base.Int.{to_nat}
use groundcover_go.Ring.{Buffer, HasZero}
use groundcover_go.Transport.Config.{WorkerConfig}
use groundcover_go.Transport.Lifecycle.{
  Drain, popping, holding, sending, Loop, Flush, Closing, Shared, Worker, notify, new_worker, Move,
  take, spawn, send_here, sent, Step, Reach, here, next,
}

module _ {T : Type 0} where
  -- the items of a batch that a goroutine has in hand
  abbrev pub in_hand : Drain T → ℕ
  in_hand popping = 0
  in_hand (holding batch) = length batch
  in_hand (sending batch) = length batch

  abbrev pub loop_hand : Loop T → ℕ
  loop_hand (Loop.draining b d) = in_hand d
  loop_hand _ = 0

  abbrev pub flush_hand : Flush T → ℕ
  flush_hand (Flush.draining d) = in_hand d
  flush_hand _ = 0

  abbrev pub close_hand : Closing T → ℕ
  close_hand (Closing.draining late d) = in_hand d
  close_hand _ = 0

  -- 1 from the point on that the name tells, and else 0
  abbrev pub has_exited : Loop T → ℕ
  has_exited Loop.exited = 1
  has_exited _ = 0

  abbrev pub has_begun : Closing T → ℕ
  has_begun Closing.open_still = 0
  has_begun _ = 1

  abbrev pub has_closed : Closing T → ℕ
  has_closed (Closing.closed e) = 1
  has_closed _ = 0

  -- `Close` has gone on because the loop had stopped.
  abbrev pub has_seen_stop : Closing T → ℕ
  has_seen_stop (Closing.draining false d) = 1
  has_seen_stop (Closing.waiting false done) = 1
  has_seen_stop (Closing.closed false) = 1
  has_seen_stop _ = 0

  unfoldable pub items : List (List T) → ℕ
  items [] = 0
  items (b ∷ bs) = length b + items bs

  pub items-append : (xs ys : List (List T)) → items (xs ++ ys) ≡ items xs + items ys
  unfolding items
  items-append [] ys = omega arith
  items-append (x ∷ xs) ys = omega (arith, items-append xs ys)

module _ {T : Type 0} ⦃z : HasZero T⦄ (cfg : WorkerConfig) where
  pub record Inv (s : Worker T) : Type 0 where
    pub one_hint : s.trigger ≤ 1
    pub stop_once : s.stop ≡ has_begun s.closing
    pub stopped_once : s.stopped ≡ has_exited s.loop
    pub cancelled_once : s.cancelled ≡ has_closed s.closing
    pub disabled_once : s.disabled ≤ has_exited s.loop
    pub seen : has_seen_stop s.closing ≤ has_exited s.loop
    pub slots : length s.shared.inflight ≤ to_nat cfg.max_concurrent
    pub balanced :
        s.shared.taken
        ≡ s.shared.settled
          + items s.shared.inflight
          + loop_hand s.loop
          + flush_hand s.flush
          + close_hand s.closing

  -- A move of `dispatchReady` loses no item.
  record Moved (sh sh' : Shared T) (d d' : Drain T) : Type 0 where
    slots : length sh'.inflight ≤ to_nat cfg.max_concurrent
    kept :
        sh'.taken + sh.settled + items sh.inflight + in_hand d
        ≡ sh.taken + sh'.settled + items sh'.inflight + in_hand d'

  Move-Moved :
      {sh sh' : Shared T} {d d' : Drain T}
      → Move cfg sh d sh' d'
      → length sh.inflight ≤ to_nat cfg.max_concurrent
      → Moved sh sh' d d'
  unfolding items
  Move-Moved (take h) few = omega (arith, few)
  Move-Moved (spawn batch h) few = omega (arith, few)
  Move-Moved (send_here batch h) few = omega (arith, few)
  Move-Moved (sent batch) few = omega (arith, few)

  Step-Inv : {s t : Worker T} → Step cfg s t → Inv s → Inv t
  unfolding items notify
  Step-Inv (Step.pushed x) i = omega (arith, i)
  Step-Inv (Step.landed before after batch h) i = omega (
    arith,
    i,
    ap items h,
    ap length h,
    items-append before (batch ∷ after),
    items-append before after,
    length-append before (batch ∷ after),
    length-append before after,
  )
  Step-Inv Step.notified i = ground arith
  Step-Inv (Step.started h) i = omega (arith, i, ap loop_hand h, ap has_exited h)
  Step-Inv (Step.woken_by_stop h p) i = omega (arith, i, ap loop_hand h, ap has_exited h)
  Step-Inv (Step.woken_by_tick h) i = omega (arith, i, ap loop_hand h, ap has_exited h)
  Step-Inv (Step.woken_by_trigger n h p) i = omega (arith, i, ap loop_hand h, ap has_exited h)
  Step-Inv (Step.loop_moved stopping h mv) i =
      let m = Move-Moved mv i.slots in omega (arith, i, m, ap loop_hand h, ap has_exited h)
  Step-Inv (Step.loop_drained h p) i = omega (arith, i, ap loop_hand h, ap has_exited h)
  Step-Inv (Step.loop_ended h p) i = omega (arith, i, ap loop_hand h, ap has_exited h)
  Step-Inv (Step.loop_reported h) i = omega (arith, i, ap loop_hand h, ap has_exited h)
  Step-Inv (Step.loop_panicked stopping (inl h)) i =
      omega (arith, i, ap loop_hand h, ap has_exited h)
  Step-Inv (Step.loop_panicked stopping (inr h)) i =
      omega (arith, i, ap loop_hand h, ap has_exited h)
  Step-Inv (Step.flush_called h) i = omega (arith, i, ap flush_hand h)
  Step-Inv (Step.flush_moved h mv) i =
      let m = Move-Moved mv i.slots in omega (arith, i, m, ap flush_hand h)
  Step-Inv (Step.flush_drained h p) i = omega (arith, i, ap flush_hand h)
  Step-Inv (Step.flush_reported h) i = omega (arith, i, ap flush_hand h)
  Step-Inv (Step.flush_waited h p) i = omega (arith, i, ap flush_hand h)
  Step-Inv (Step.flush_done h) i = omega (arith, i, ap flush_hand h)
  Step-Inv (Step.flush_expired done h) i = omega (arith, i, ap flush_hand h)
  Step-Inv (Step.flush_over expired h) i = omega (arith, i, ap flush_hand h)
  Step-Inv (Step.close_called h) i =
      omega (arith, i, ap close_hand h, ap has_begun h, ap has_closed h, ap has_seen_stop h)
  Step-Inv (Step.close_saw_stop h p) i =
      omega (arith, i, ap close_hand h, ap has_begun h, ap has_closed h, ap has_seen_stop h)
  Step-Inv (Step.close_late h) i =
      omega (arith, i, ap close_hand h, ap has_begun h, ap has_closed h, ap has_seen_stop h)
  Step-Inv (Step.close_moved true h mv) i =
      let m = Move-Moved mv i.slots in
      omega (arith, i, m, ap close_hand h, ap has_begun h, ap has_closed h, ap has_seen_stop h)
  Step-Inv (Step.close_moved false h mv) i =
      let m = Move-Moved mv i.slots in
      omega (arith, i, m, ap close_hand h, ap has_begun h, ap has_closed h, ap has_seen_stop h)
  Step-Inv (Step.close_drained true h p) i =
      omega (arith, i, ap close_hand h, ap has_begun h, ap has_closed h, ap has_seen_stop h)
  Step-Inv (Step.close_drained false h p) i =
      omega (arith, i, ap close_hand h, ap has_begun h, ap has_closed h, ap has_seen_stop h)
  Step-Inv (Step.close_waited true h p) i =
      omega (arith, i, ap close_hand h, ap has_begun h, ap has_closed h, ap has_seen_stop h)
  Step-Inv (Step.close_waited false h p) i =
      omega (arith, i, ap close_hand h, ap has_begun h, ap has_closed h, ap has_seen_stop h)
  Step-Inv (Step.close_done true h) i =
      omega (arith, i, ap close_hand h, ap has_begun h, ap has_closed h, ap has_seen_stop h)
  Step-Inv (Step.close_done false h) i =
      omega (arith, i, ap close_hand h, ap has_begun h, ap has_closed h, ap has_seen_stop h)
  Step-Inv (Step.close_expired late done h) i =
      omega (arith, i, ap close_hand h, ap has_begun h, ap has_closed h, ap has_seen_stop h)

  Reach-keeps : {s t : Worker T} → Reach cfg s t → Inv s → Inv t
  Reach-keeps here i = i
  Reach-keeps (next r st) i = Step-Inv st (Reach-keeps r i)

  -- Under any interleaving of captures, wake-ups, senders, panics, `Flush` and `Close`, from a new
  -- worker on: the trigger holds one hint at most; `stop` and `stopped` are closed once at most, by
  -- `Close` and at the exit of the loop; the context is cancelled once, at the end of `Close`, and
  -- the subsystem reported as disabled once at most; `Close` believes the loop stopped only if it
  -- is; no more senders run than MaxConcurrent; and every item that left the buffer has been
  -- reported, or is in the hands of a sender, the loop, `Flush` or `Close`.
  pub new_worker-Inv : (ring : Buffer T) {s : Worker T} → Reach cfg (new_worker ring) s → Inv s
  unfolding new_worker items
  new_worker-Inv ring r = Reach-keeps r (omega arith)
