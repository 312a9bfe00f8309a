-- ===== src/Transport/Lifecycle/Returns.antt =====
-- `Flush` can always come to its end.
use groundcover_go.Base.{
  ℕ, zero, suc, refl, ◌^◌, ◌<◌, ◌≡◌, sym, ap, subst, false, List, [], ◌∷◌, length, ltb, arith, inl,
  inr, Bool-cases,
}
use groundcover_go.Base.Int.{to_nat}
use groundcover_go.Ring.{HasZero, pop_batch}
use groundcover_go.Ring.Inv.{IsValid}
use groundcover_go.Ring.Batch.{pop_batch_lem}
use groundcover_go.Transport.Config.{WorkerConfig}
use groundcover_go.Transport.Worker.Drains.{count_split}
use groundcover_go.Transport.Lifecycle.{
  popping, holding, Flush, Worker, take, spawn, send_here, sent, Step, next_batch,
}
use groundcover_go.Transport.Lifecycle.Flushed.{Alone, start, then, Flushed, flush_delivers}

module _ {T : Type 0} ⦃z : HasZero T⦄ (cfg : WorkerConfig) where
  -- a run of `Flush` to its return without an error
  Ends : Worker T → Type 0
  Ends s = (t : Worker T) × Alone cfg s t × (t.flush ≡ Flush.returned false)

  -- the senders end, one by one, and `Wait` returns
  land_all :
      (bs : List (List T)) {s t : Worker T}
      → Alone cfg s t
      → t.flush ≡ Flush.waiting false
      → t.shared.inflight ≡ bs
      → Ends s
  unfolding Ends
  land_all [] r h none =
      (_, then (then r (Step.flush_waited h none) refl) (Step.flush_done refl) refl, refl)
  land_all (b ∷ bs) r h more = land_all bs (then r (Step.landed [] bs b more) refl) h refl

  -- the batch in hand goes to a sender, or is sent
  hand_over :
      {s t : Worker T} (batch : List T)
      → Alone cfg s t
      → t.flush ≡ Flush.draining (holding batch)
      → (u : Worker T) × Alone cfg s u
        × (u.flush ≡ Flush.draining popping)
        × (u.shared.ring ≡ t.shared.ring)
  hand_over {s} {t} batch r h =
      elim (Bool-cases (ltb (length t.shared.inflight) (to_nat cfg.max_concurrent))) [
        | inl p ↦ (_, then r (Step.flush_moved h (spawn batch (ground arith))) refl, refl, refl)
        | inr p ↦ (
          _,
          then (then r (Step.flush_moved h (send_here batch (ground arith))) refl)
              (Step.flush_moved refl (sent batch)) refl,
          refl,
          refl,
        )
      ]

  -- `fuel` is more than the items in the buffer
  drain_through :
      (fuel : ℕ) {s t : Worker T}
      → Alone cfg s t
      → to_nat cfg.max_batch_bytes < 2 ^ 63
      → IsValid t.shared.ring
      → t.shared.ring.count < fuel
      → t.flush ≡ Flush.draining popping
      → Ends s
  unfolding Ends
  drain_through zero r lim v few h = absurd (omega (arith, few))
  drain_through (suc fuel) {s} {t} r lim v few h =
      let (popped, more) = pop_batch_lem cfg.batch_size cfg.max_batch_bytes t.shared.ring v lim in
      let split =
        count_split t.shared.ring (pop_batch t.shared.ring cfg.batch_size cfg.max_batch_bytes)
          popped in
      elim (Bool-cases (ltb 0 (length (next_batch cfg t.shared).0))) [
        | inl p ↦
            let taken : 0 < length (next_batch cfg t.shared).0 = ground arith in
            let (u, r', h', same) =
              hand_over (next_batch cfg t.shared).0 (then r (Step.flush_moved h (take taken)) refl)
                refl in
            let v' : IsValid u.shared.ring = subst IsValid (sym same) popped.valid in
            let less : u.shared.ring.count < fuel =
              omega (arith, few, taken, split, ap (λ b. b.count) same) in
            drain_through fuel r' lim v' less h'
        | inr p ↦
            land_all t.shared.inflight
              (then (then r (Step.flush_drained h (ground arith)) refl) (Step.flush_reported refl)
                refl)
              refl refl
      ]

  -- From any worker with a valid buffer on which `Flush` is not running, whatever the loop and
  -- `Close` are at and whatever senders run, and with a byte limit of batches that fits an int:
  -- there is a run without captures and without moves of the loop and of `Close` in which `Flush`
  -- returns without an error; then the buffer is empty, no sender runs, and every item that the
  -- buffer or a sender held at the call has been reported.
  pub flush_returns :
      (s : Worker T)
      → to_nat cfg.max_batch_bytes < 2 ^ 63
      → IsValid s.shared.ring
      → s.flush ≡ Flush.idle
      → (t : Worker T) × Alone cfg s t × (t.flush ≡ Flush.returned false) × Flushed cfg s t
  unfolding Ends
  flush_returns s lim v idle =
      let (t, r, over) =
        drain_through (suc s.shared.ring.count) (then start (Step.flush_called idle) refl) lim v
          (omega arith) refl in
      (t, r, over, flush_delivers cfg r lim v idle over)
