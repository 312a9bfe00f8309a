-- ===== src/Sdk/Delivered/InOrder.antt =====
-- The events of a client leave in the order of their captures, but for those reported as dropped.
use mathlib.Core.List.{flatten}
use Prim.Native.String.{String}
use groundcover_go.Base.{
  ℕ, zero, suc, ◌+◌, ◌%◌, ◌^◌, ◌<◌, ◌≡◌, refl, sym, ap, ◌∙◌, subst, true, Bool-cases, inl, inr,
  List, [], ◌∷◌, ◌++◌, Option, some, arith, drop, ltb,
}
use groundcover_go.Base.Int.{ℤ, is_positive, to_nat}
use groundcover_go.Capture.Attributes.{Value}
use groundcover_go.Capture.Client.{
  ClientConfig, Opt, Finished, ready, refused, lost, Client, finish, finish_and_enqueue, settle,
  enqueue, call_guarded,
}
use groundcover_go.Capture.Client.Guarded.{call_guarded-keeps}
use groundcover_go.Capture.Event.{Event}
use groundcover_go.Capture.Scope.{Scope}
use groundcover_go.Metrics.{
  overflow, add_dropped, inc_captured, inc_panics_recovered, set_queue_pending,
}
use groundcover_go.Ring.{Buffer, HasZero, push}
use groundcover_go.Ring.Core.{contents, values, length-contents}
use groundcover_go.Ring.Feed.{AllSmall, sized, push_all, push_all-Fed}
use groundcover_go.Ring.Inv.{IsValid}
use groundcover_go.Sdk.Delivered.{Input, with_ready, sum, queued, feed}
use groundcover_go.Transport.Config.{WorkerConfig}
use groundcover_go.Transport.Worker.{dispatch_ready}
use groundcover_go.Transport.Worker.Drains.{AllSized, empty_of_length, dispatch_ready-Drained}

values-sized : {T : Type 0} (size_of : T → ℤ) (xs : List T) → values (sized size_of xs) ≡ xs
values-sized size_of [] = refl
values-sized size_of (x ∷ xs) = ap (λ ys. x ∷ ys) (values-sized size_of xs)

values-drop : {T : Type 0} (n : ℕ) (q : List (T × ℕ)) → values (drop n q) ≡ drop n (values q)
values-drop zero q = refl
values-drop (suc n) [] = refl
values-drop (suc n) (e ∷ q) = values-drop n q

module _ ⦃z : HasZero Event⦄ (print : Value → String) (cfg : ClientConfig) where
  -- a client after some events have been pushed, and what it says of those that the buffer lost
  record Pushes (c : Client) (es : List Event) (after : Client) : Type 0 where
    ring : after.ring ≡ (push_all c.ring es).0
    told : sum after.on_drop ≡ sum c.on_drop + (push_all c.ring es).1
    counted :
        after.metrics.dropped_overflow
        ≡ (c.metrics.dropped_overflow + (push_all c.ring es).1) % 2 ^ 64

  enqueue-Pushes :
      (c : Client) (e : Event)
      → c.metrics.dropped_overflow < 2 ^ 64
      → Pushes c (e ∷ []) (enqueue cfg c e)
  unfolding enqueue add_dropped set_queue_pending push_all inc_panics_recovered
  enqueue-Pushes c e h = elim (Bool-cases (ltb 0 (push c.ring e).1)) [
    | inl p ↦ record {
      ring = refl;
      told = rw p (omega arith);
      counted = rw p (
          call_guarded-keeps cfg.on_drop (push c.ring e).1
            (add_dropped c.metrics overflow (push c.ring e).1) (λ m. m.dropped_overflow) (λ m. refl)
          ∙ omega arith);
    }
    | inr p ↦ record { ring = refl; told = rw p (ground arith); counted = rw p (ground arith) }
  ]

  -- the outcomes of a capture, each at most one push
  settle-Pushes :
      (c : Client) (f : Finished)
      → c.metrics.dropped_overflow < 2 ^ 64
      → Pushes c (with_ready f []) (settle cfg c f)
  unfolding settle add_dropped inc_panics_recovered inc_captured push_all
  settle-Pushes c (ready e) h =
      let written = call_guarded cfg.debug_out e c.metrics in
      let same : written.dropped_overflow ≡ c.metrics.dropped_overflow =
        call_guarded-keeps cfg.debug_out e c.metrics (λ m. m.dropped_overflow) (λ m. refl) in
      let p =
        enqueue-Pushes (record c { metrics = inc_captured written }) e (omega (arith, same, h)) in
      record { ring = p.ring; told = p.told; counted = omega (arith, p.counted, same) }
  settle-Pushes c refused h = record { ring = refl; told = omega arith; counted = omega (arith, h) }
  settle-Pushes c lost h = record { ring = refl; told = omega arith; counted = omega (arith, h) }

  captured-Pushes :
      (c : Client) (scope : Option Scope) (opts : List Opt) (e : Event)
      → c.metrics.dropped_overflow < 2 ^ 64
      → Pushes c
          (with_ready (finish print cfg scope opts e).0 [])
          (finish_and_enqueue print cfg c scope opts e)
  unfolding finish_and_enqueue inc_panics_recovered
  captured-Pushes c scope opts e h = elim (Bool-cases (finish print cfg scope opts e).1) [
    | inl p ↦
        let q =
          settle-Pushes (record c { metrics = inc_panics_recovered c.metrics })
            (finish print cfg scope opts e).0 h in
        rw p (record { ring = q.ring; told = q.told; counted = q.counted })
    | inr p ↦ rw p (settle-Pushes c (finish print cfg scope opts e).0 h)
  ]

  -- one capture, and then the others
  Pushes-next :
      (c d after : Client) (f : Finished) (es : List Event)
      → Pushes c (with_ready f []) d
      → Pushes d es after
      → Pushes c (with_ready f es) after
  unfolding push_all
  Pushes-next c d after (ready e) es p q = record {
    ring = q.ring ∙ ap (λ b. (push_all b es).0) p.ring;
    told = omega (arith, q.told, p.told, ap (λ b. (push_all b es).1) p.ring);
    counted = omega (arith, q.counted, p.counted, ap (λ b. (push_all b es).1) p.ring);
  }
  Pushes-next c d after refused es p q = record {
    ring = q.ring ∙ ap (λ b. (push_all b es).0) p.ring;
    told = omega (arith, q.told, p.told, ap (λ b. (push_all b es).1) p.ring);
    counted = omega (arith, q.counted, p.counted, ap (λ b. (push_all b es).1) p.ring);
  }
  Pushes-next c d after lost es p q = record {
    ring = q.ring ∙ ap (λ b. (push_all b es).0) p.ring;
    told = omega (arith, q.told, p.told, ap (λ b. (push_all b es).1) p.ring);
    counted = omega (arith, q.counted, p.counted, ap (λ b. (push_all b es).1) p.ring);
  }

  feed-Pushes :
      (c : Client) (inputs : List Input)
      → c.metrics.dropped_overflow < 2 ^ 64
      → Pushes c (queued print cfg inputs) (feed print cfg c inputs)
  unfolding feed queued push_all
  feed-Pushes c [] h = record { ring = refl; told = omega arith; counted = omega (arith, h) }
  feed-Pushes c ((scope, opts, e) ∷ inputs) h =
      let d = finish_and_enqueue print cfg c scope opts e in
      let p = captured-Pushes c scope opts e h in
      Pushes-next c d (feed print cfg d inputs) (finish print cfg scope opts e).0
        (queued print cfg inputs) p (feed-Pushes d inputs (omega (arith, p.counted)))

  -- what is sent of some events, and what is said of the others
  pub record Delivered (wcfg : WorkerConfig) (c : Client) (es : List Event) (after : Client)
      : Type 0 where
    pub batches : List (List Event)
    pub left : Buffer Event
    pub dropped : ℕ
    pub returned : dispatch_ready wcfg after.ring ≡ some (batches, left)
    pub in_order : flatten batches ≡ drop dropped es
    pub sized : AllSized (to_nat wcfg.batch_size) batches
    pub emptied : left.count ≡ 0
    pub told : sum after.on_drop ≡ sum c.on_drop + dropped
    pub counted : after.metrics.dropped_overflow ≡ (c.metrics.dropped_overflow + dropped) % 2 ^ 64

  -- Let a client with a valid, empty buffer make any captures, while nobody else takes from the
  -- buffer. With an account and a bound below 2 ^ 62, sizes of the queued events below 2 ^ 62, an
  -- overflow counter that is a 64-bit word, a positive batch size and a byte limit of batches that
  -- fits an int: `dispatchReady` then ends with the buffer empty, and its batches hold, in the order
  -- of the captures, all events that were neither refused nor lost, but for the oldest ones; those
  -- are as many as OnDrop has been told and as the overflow counter has grown by, modulo 2 ^ 64.
  pub feed-Delivered :
      (wcfg : WorkerConfig) (c : Client) (inputs : List Input)
      → IsValid c.ring
      → c.ring.count ≡ 0
      → c.ring.bytes < 2 ^ 62
      → c.ring.max_bytes < 2 ^ 62
      → AllSmall c.ring.size_of (queued print cfg inputs)
      → c.metrics.dropped_overflow < 2 ^ 64
      → is_positive wcfg.batch_size ≡ true
      → to_nat wcfg.max_batch_bytes < 2 ^ 63
      → Delivered wcfg c (queued print cfg inputs) (feed print cfg c inputs)
  feed-Delivered wcfg c inputs v empty light limit small h positive fits =
      let es = queued print cfg inputs in
      let p = feed-Pushes c inputs h in
      let f = push_all-Fed c.ring es v light limit small in
      let d =
        dispatch_ready-Drained wcfg (feed print cfg c inputs).ring positive fits
          (subst IsValid (sym p.ring) f.valid) in
      let none_before : contents c.ring ≡ [] =
        empty_of_length (contents c.ring) (omega (arith, length-contents c.ring)) in
      record {
        batches = d.batches;
        left = d.after;
        dropped = (push_all c.ring es).1;
        returned = d.returned;
        in_order =
            d.in_order
            ∙ ap (λ b. values (contents b)) p.ring
            ∙ ap values f.kept
            ∙ ap (λ q. values (drop (push_all c.ring es).1 (q ++ sized c.ring.size_of es)))
                none_before
            ∙ values-drop (push_all c.ring es).1 (sized c.ring.size_of es)
            ∙ ap (drop (push_all c.ring es).1) (values-sized c.ring.size_of es);
        sized = d.sized;
        emptied = d.emptied;
        told = p.told;
        counted = p.counted;
      }
