-- ===== src/Capture/Client/Enqueue.antt =====
-- What `enqueue` and `finishAndEnqueue` do to the buffer and the counters.
use groundcover_go.Base.{
  ℕ, ◌+◌, ◌<◌, ◌^◌, ◌≡◌, refl, ap, ◌∙◌, Bool, false, inl, inr, List, ◌∷◌, Option, ltb, leb, arith,
  Bool-cases, if◌then◌else◌,
}
use Prim.Native.String.{String}
use groundcover_go.Base.Words.{add64}
use groundcover_go.Metrics.{
  Metrics, overflow, add_dropped, set_queue_pending, inc_captured, inc_panics_recovered,
}
use groundcover_go.Ring.{HasZero, push, len, bytes, clamp_size}
use groundcover_go.Ring.Inv.{IsValid}
use groundcover_go.Ring.Push.{Pushed, push_lem}
use groundcover_go.Capture.Event.{Event}
use groundcover_go.Capture.Attributes.{Value}
use groundcover_go.Capture.Scope.{Scope}
use groundcover_go.Capture.Client.{
  ClientConfig, Client, Opt, Finished, ready, refused, lost, finish, enqueue, settle,
  finish_and_enqueue, call_guarded,
}
use groundcover_go.Capture.Client.Guarded.{
  panics_on, call_guarded-keeps, call_guarded-counts, panics_on-bound,
}

module _ ⦃z : HasZero Event⦄ where
  -- The buffer is what `Push` makes of it; the counter of overflow, OnDrop, the gauges and Notify
  -- tell of that buffer and of the entries lost.
  pub record Queued (cfg : ClientConfig) (c : Client) (e : Event) (after : Client) : Type 0 where
    pub ring : after.ring ≡ (push c.ring e).0
    pub pushed : Pushed c.ring e (push c.ring e)
    pub counted :
        after.metrics.dropped_overflow ≡ add64 c.metrics.dropped_overflow (push c.ring e).1
    pub told :
        after.on_drop
        ≡ (if ltb 0 (push c.ring e).1 then (push c.ring e).1 ∷ c.on_drop else c.on_drop)
    pub items : after.metrics.queue_pending_items ≡ after.ring.count
    pub bytes : after.metrics.queue_pending_bytes ≡ after.ring.bytes
    pub noticed :
        after.notified ≡ c.notified + (if leb cfg.batch_size after.ring.count then 1 else 0)

  -- On a valid buffer whose byte account has room for the event in an int, `enqueue` pushes it,
  -- counts the entries lost and tells OnDrop of them if there are any, sets the gauges to what the
  -- buffer then holds, and wakes the worker exactly if that is a whole batch.
  pub enqueue-Queued :
      (cfg : ClientConfig) (c : Client) (e : Event)
      → IsValid c.ring
      → c.ring.bytes + clamp_size (c.ring.size_of e) < 2 ^ 63
      → c.metrics.dropped_overflow < 2 ^ 64
      → Queued cfg c e (enqueue cfg c e)
  unfolding enqueue add_dropped set_queue_pending inc_panics_recovered len bytes
  enqueue-Queued cfg c e v room small =
      let none_lost : ltb 0 (push c.ring e).1 ≡ false → (push c.ring e).1 ≡ 0 = λ p. ground arith in
      record {
        ring = refl;
        pushed = push_lem c.ring e v room;
        counted = elim (Bool-cases (ltb 0 (push c.ring e).1)) [
          | inl p ↦ rw p (
              call_guarded-keeps cfg.on_drop (push c.ring e).1 _ (λ m. m.dropped_overflow)
                (λ m. refl))
          | inr p ↦ rw p (omega (arith, none_lost p))
        ];
        told = refl;
        items = refl;
        bytes = refl;
        noticed = elim (Bool-cases (leb cfg.batch_size (push c.ring e).0.count)) [
          | inl q ↦ rw q refl
          | inr q ↦ rw q (omega arith)
        ];
      }

  -- 1 for the outcome that a counter counts, and else 0
  abbrev pub as_ready : Finished → ℕ
  as_ready (ready e) = 1
  as_ready refused = 0
  as_ready lost = 0

  abbrev pub as_refused : Finished → ℕ
  as_refused (ready e) = 0
  as_refused refused = 1
  as_refused lost = 0

  abbrev pub as_lost : Finished → ℕ
  as_lost (ready e) = 0
  as_lost refused = 0
  as_lost lost = 1

  -- the counters are 64-bit words
  pub record IsCounted (c : Client) : Type 0 where
    pub captured : c.metrics.captured < 2 ^ 64
    pub dropped_before_send : c.metrics.dropped_before_send < 2 ^ 64
    pub panics_recovered : c.metrics.panics_recovered < 2 ^ 64

  -- what a capture that ends so leaves in the counters, modulo 2 ^ 64
  pub record Accounted (c : Client) (f : Finished) (panics : ℕ) (after : Client) : Type 0 where
    pub captured : after.metrics.captured ≡ add64 c.metrics.captured (as_ready f)
    pub dropped_before_send :
        after.metrics.dropped_before_send ≡ add64 c.metrics.dropped_before_send (as_refused f)
    pub panics_recovered :
        after.metrics.panics_recovered ≡ add64 c.metrics.panics_recovered (panics + as_lost f)
    pub ring :
        after.ring ≡ (elim f [ ready e ↦ (push c.ring e).0 | refused ↦ c.ring | lost ↦ c.ring ])

  -- Counting the lost entries and telling OnDrop changes no other counter.
  if_counted :
      {A : Type 0} (cfg : ClientConfig) (b : Bool) (m : Metrics) (n : ℕ) (field : Metrics → A)
      → ((m : Metrics) → field (inc_panics_recovered m) ≡ field m)
      → field (add_dropped m overflow n) ≡ field m
      → field (if b then call_guarded cfg.on_drop n (add_dropped m overflow n) else m) ≡ field m
  if_counted cfg b m n field g h = elim (Bool-cases b) [
    | inl p ↦ rw p (call_guarded-keeps cfg.on_drop n _ field g ∙ h)
    | inr p ↦ rw p refl
  ]

  -- the panics of OnDrop when it is told of the entries that a push loses
  abbrev pub drop_panics : ClientConfig → Client → Event → ℕ
  drop_panics cfg c e =
      if ltb 0 (push c.ring e).1 then panics_on cfg.on_drop (push c.ring e).1 else 0

  -- the panics of the debug writer and of OnDrop at the end of a capture
  abbrev pub panics_after : ClientConfig → Client → Finished → ℕ
  panics_after cfg c (ready e) = panics_on cfg.debug_out e + drop_panics cfg c e
  panics_after cfg c refused = 0
  panics_after cfg c lost = 0

  pub panics_after-bound :
      (cfg : ClientConfig) (c : Client) (f : Finished) → panics_after cfg c f < 3
  panics_after-bound cfg c (ready e) = elim (Bool-cases (ltb 0 (push c.ring e).1)) [
    | inl p ↦ rw p (
        omega
          (arith, panics_on-bound cfg.debug_out e, panics_on-bound cfg.on_drop (push c.ring e).1))
    | inr p ↦ rw p (omega (arith, panics_on-bound cfg.debug_out e))
  ]
  panics_after-bound cfg c refused = omega arith
  panics_after-bound cfg c lost = omega arith

  told-counts :
      (cfg : ClientConfig) (c : Client) (e : Event) (m : Metrics)
      → m.panics_recovered < 2 ^ 64
      → let (after, n) = push c.ring e in
        (if ltb 0 n
          then call_guarded cfg.on_drop n (add_dropped m overflow n)
          else m).panics_recovered
        ≡ add64 m.panics_recovered (drop_panics cfg c e)
  unfolding add_dropped
  told-counts cfg c e m h = elim (Bool-cases (ltb 0 (push c.ring e).1)) [
    | inl p ↦ rw p (call_guarded-counts cfg.on_drop (push c.ring e).1 _ h)
    | inr p ↦ rw p (omega (arith, h))
  ]

  pub settle-Accounted :
      (cfg : ClientConfig) (c : Client) (f : Finished)
      → IsCounted c
      → Accounted c f (panics_after cfg c f) (settle cfg c f)
  unfolding settle enqueue add_dropped set_queue_pending inc_captured inc_panics_recovered
  settle-Accounted cfg c refused h = record {
    captured = omega (arith, h);
    dropped_before_send = refl;
    panics_recovered = omega (arith, h);
    ring = refl;
  }
  settle-Accounted cfg c lost h = record {
    captured = omega (arith, h);
    dropped_before_send = omega (arith, h);
    panics_recovered = refl;
    ring = refl;
  }
  settle-Accounted cfg c (ready e) h =
      let (after, dropped) = push c.ring e in
      let written = call_guarded cfg.debug_out e c.metrics in
      let same = if_counted cfg (ltb 0 dropped) (inc_captured written) dropped in
      let kept = call_guarded-keeps cfg.debug_out e c.metrics in
      let counts = call_guarded-counts cfg.debug_out e c.metrics h.panics_recovered in
      record {
        captured =
            same (λ m. m.captured) (λ m. refl) refl
            ∙ ap (λ n. add64 n 1) (kept (λ m. m.captured) (λ m. refl));
        dropped_before_send =
            same (λ m. m.dropped_before_send) (λ m. refl) refl
            ∙ kept (λ m. m.dropped_before_send) (λ m. refl)
            ∙ omega (arith, h);
        panics_recovered =
            told-counts cfg c e (inc_captured written) (omega (arith, counts))
            ∙ omega (arith, counts);
        ring = refl;
      }

  -- A panic of BeforeSend has been counted before.
  after_panic :
      (cfg : ClientConfig) (c : Client) (f : Finished)
      → IsCounted c
      → Accounted c f
          (1 + panics_after cfg c f)
          (settle cfg (record c { metrics = inc_panics_recovered c.metrics }) f)
  unfolding inc_panics_recovered
  after_panic cfg c f h =
      let c' : Client = record c { metrics = inc_panics_recovered c.metrics } in
      let h' : IsCounted c' = record {
        captured = h.captured;
        dropped_before_send = h.dropped_before_send;
        panics_recovered = omega arith;
      } in
      let a = settle-Accounted cfg c' f h' in
      record {
        captured = a.captured;
        dropped_before_send = a.dropped_before_send;
        panics_recovered = a.panics_recovered ∙ omega arith;
        ring = a.ring;
      }

  -- Every capture ends in one of three ways. It is counted as captured and pushed, or as dropped by
  -- BeforeSend, or as a panic recovered, where an option or the hasher panicked; a panic of
  -- BeforeSend, and for an event that is pushed one of the debug writer and one of OnDrop, are
  -- counted besides. Only a push changes the buffer.
  pub finish_and_enqueue-Accounted :
      (print : Value → String) (cfg : ClientConfig) (c : Client) (scope : Option Scope)
      (opts : List Opt) (e : Event)
      → IsCounted c
      → let (f, panicked) = finish print cfg scope opts e in
        Accounted c f
          (if panicked then 1 + panics_after cfg c f else panics_after cfg c f)
          (finish_and_enqueue print cfg c scope opts e)
  unfolding finish_and_enqueue
  finish_and_enqueue-Accounted print cfg c scope opts e h =
      elim (Bool-cases (finish print cfg scope opts e).1) [
        | inl p ↦ rw p (after_panic cfg c (finish print cfg scope opts e).0 h)
        | inr p ↦ rw p (settle-Accounted cfg c (finish print cfg scope opts e).0 h)
      ]
