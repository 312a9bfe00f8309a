-- ===== src/Sdk/Calls.antt =====
-- client.go: what a call of an entry point does.
use Prim.Native.String.{String}
use groundcover_go.Base.{
  ℕ, ◌+◌, ◌<◌, ◌≡◌, refl, ap, ◌∙◌, Bool, true, false, Option, none, some, List, [], arith, inl, inr,
  Bool-cases, if◌then◌else◌,
}
use groundcover_go.Ring.{HasZero}
use groundcover_go.Capture.Attributes.{Value}
use groundcover_go.Capture.Event.{Event}
use groundcover_go.Capture.Scope.{Scope}
use groundcover_go.Capture.Client.{
  Client, Opt, Finished, ready, refused, lost, finish, settle, new_error_event, new_panic_event,
  new_message_event, message_options,
}
use groundcover_go.Capture.Client.Enqueue.{
  IsCounted, Accounted, settle-Accounted, finish_and_enqueue-Accounted, panics_after,
  panics_after-bound,
}
use groundcover_go.Transport.Config.{WorkerConfig}
use groundcover_go.Sdk.{
  Working, Sdk, disabled, working, Call, capture_error, capture_message, capture_recovered, recover,
  Toll, work, flush, returned, event_of, capture, capture_and_flush, perform,
}

-- the panic that a call raises: the one that `Recover` has stopped
abbrev pub panic_of : {V : Type 0} → Call V → Option V
panic_of (recover scope (some (v, f, t))) = some v
panic_of _ = none

-- whether there is anything to report
abbrev pub reports : {V : Type 0} → Call V → Bool
reports (recover scope none) = false
reports (recover scope (some r)) = true
reports (capture_error scope opts none) = false
reports (capture_error scope opts (some f)) = true
reports (capture_message scope opts level msg f) = true
reports (capture_recovered scope opts none) = false
reports (capture_recovered scope opts (some f)) = true

-- what the worker does in the flush of a call that asks for one
abbrev pub toll_of : {V : Type 0} → Call V → Option Toll
toll_of (recover scope (some (v, f, t))) = some t
toll_of _ = none

module _ ⦃z : HasZero Event⦄ (print : Value → String) where
  -- a client after the flush that follows a capture: there is none where the capture was lost
  abbrev pub after_flush : Option Toll → WorkerConfig → Finished → Client → Client
  after_flush none cfg f c = c
  after_flush (some t) cfg (ready e) c = work cfg t c
  after_flush (some t) cfg refused c = work cfg t c
  after_flush (some t) cfg lost c = c

  -- a capture ends in one of the three ways, the flush follows, and the settings stay
  pub record Captured (t : Option Toll) (w w' : Working) : Type 0 where
    pub outcome : Finished
    pub panics : ℕ
    pub few : panics < 4
    pub before_flush : Client
    pub accounted : Accounted w.client outcome panics before_flush
    pub client : w'.client ≡ after_flush t w.worker outcome before_flush
    pub config : w'.config ≡ w.config
    pub worker : w'.worker ≡ w.worker

  -- BeforeSend, the debug writer and OnDrop panic once each at most.
  panics_few :
      (w : Working) (f : Finished) (b : Bool)
      → (if b then 1 + panics_after w.config w.client f else panics_after w.config w.client f) < 4
  panics_few w f b = elim (Bool-cases b) [
    | inl p ↦ rw p (omega (arith, panics_after-bound w.config w.client f))
    | inr p ↦ rw p (omega (arith, panics_after-bound w.config w.client f))
  ]

  pub capture-Captured :
      (w : Working) (scope : Option Scope) (opts : List Opt) (e : Option Event)
      → IsCounted w.client
      → Captured none w (capture print w scope opts e)
  unfolding capture settle
  capture-Captured w scope opts none h = record {
    outcome = lost;
    panics = 0;
    few = omega arith;
    before_flush = _;
    accounted = settle-Accounted w.config w.client lost h;
    client = refl;
    config = refl;
    worker = refl;
  }
  capture-Captured w scope opts (some e) h =
      let (f, panicked) = finish print w.config scope opts e in
      record {
        outcome = f;
        panics =
            if panicked
            then 1 + panics_after w.config w.client f
            else panics_after w.config w.client f;
        few = panics_few w f panicked;
        before_flush = _;
        accounted = finish_and_enqueue-Accounted print w.config w.client scope opts e h;
        client = refl;
        config = refl;
        worker = refl;
      }

  -- the flush, where the capture came to its end
  flushed-Captured :
      (t : Toll) (w w' : Working) (f : Finished) (panics : ℕ)
      → panics < 4
      → Accounted w.client f panics w'.client
      → w'.config ≡ w.config
      → w'.worker ≡ w.worker
      → Captured (some t) w (if returned f then flush t w' else w')
  unfolding flush
  flushed-Captured t w w' f panics few a p q = record {
    outcome = f;
    panics = panics;
    few = few;
    before_flush = w'.client;
    accounted = a;
    client = client f;
    config = config f;
    worker = worker f;
  }
    where
      client :
          (f : Finished)
          → (if returned f then flush t w' else w').client
            ≡ after_flush (some t) w.worker f w'.client
      client (ready e) = ap (λ cfg. work cfg t w'.client) q
      client refused = ap (λ cfg. work cfg t w'.client) q
      client lost = refl

      config : (f : Finished) → (if returned f then flush t w' else w').config ≡ w.config
      config (ready e) = p
      config refused = p
      config lost = p

      worker : (f : Finished) → (if returned f then flush t w' else w').worker ≡ w.worker
      worker (ready e) = q
      worker refused = q
      worker lost = q

  and_flush-Captured :
      (w : Working) (scope : Option Scope) (t : Toll) (e : Option Event)
      → IsCounted w.client
      → Captured (some t) w (capture_and_flush print w scope t e)
  unfolding capture_and_flush capture settle
  and_flush-Captured w scope t none h =
      flushed-Captured t w (capture print w scope [] none) lost 0 (omega arith)
        (settle-Accounted w.config w.client lost h) refl refl
  and_flush-Captured w scope t (some e) h =
      let (f, panicked) = finish print w.config scope [] e in
      flushed-Captured t w (capture print w scope [] (some e)) f _ (panics_few w f panicked)
        (finish_and_enqueue-Accounted print w.config w.client scope [] e h) refl refl

  pub record Performed {V : Type 0} (c : Call V) (sdk : Sdk) (r : Sdk × Option V) : Type 0 where
    pub raised : r.1 ≡ panic_of c
    pub inert : sdk ≡ disabled → r.0 ≡ disabled
    pub silent : reports c ≡ false → r.0 ≡ sdk
    pub counted :
        (w : Working)
        → sdk ≡ working w
        → reports c ≡ true
        → IsCounted w.client
        → (w' : Working) × (r.0 ≡ working w') × Captured (toll_of c) w w'

  module _ {V : Type 0} where
    pub raised_lem : (c : Call V) (sdk : Sdk) → (perform print c sdk).1 ≡ panic_of c
    unfolding perform
    raised_lem (recover scope none) sdk = refl
    raised_lem (recover scope (some (v, f, t))) disabled = refl
    raised_lem (recover scope (some (v, f, t))) (working w) = refl
    raised_lem (capture_error scope opts err) disabled = refl
    raised_lem (capture_error scope opts none) (working w) = refl
    raised_lem (capture_error scope opts (some f)) (working w) = refl
    raised_lem (capture_message scope opts level msg f) disabled = refl
    raised_lem (capture_message scope opts level msg f) (working w) = refl
    raised_lem (capture_recovered scope opts r) disabled = refl
    raised_lem (capture_recovered scope opts none) (working w) = refl
    raised_lem (capture_recovered scope opts (some f)) (working w) = refl

    pub inert_lem : (c : Call V) → (perform print c disabled).0 ≡ disabled
    unfolding perform
    inert_lem (recover scope none) = refl
    inert_lem (recover scope (some (v, f, t))) = refl
    inert_lem (capture_error scope opts err) = refl
    inert_lem (capture_message scope opts level msg f) = refl
    inert_lem (capture_recovered scope opts r) = refl

    pub silent_lem : (c : Call V) (sdk : Sdk) → reports c ≡ false → (perform print c sdk).0 ≡ sdk
    unfolding perform
    silent_lem (recover scope none) sdk h = refl
    silent_lem (capture_error scope opts none) (working w) h = refl
    silent_lem (capture_recovered scope opts none) (working w) h = refl
    silent_lem (capture_error scope opts none) disabled h = refl
    silent_lem (capture_recovered scope opts none) disabled h = refl
    silent_lem (recover scope (some r)) sdk h = ground arith
    silent_lem (capture_error scope opts (some f)) sdk h = ground arith
    silent_lem (capture_message scope opts level msg f) sdk h = ground arith
    silent_lem (capture_recovered scope opts (some f)) sdk h = ground arith

    pub counted_lem :
        (c : Call V) (w : Working)
        → reports c ≡ true
        → IsCounted w.client
        → (w' : Working) × ((perform print c (working w)).0 ≡ working w')
          × Captured (toll_of c) w w'
    unfolding perform
    counted_lem (recover scope (some (v, f, t))) w h n =
        (_, refl, and_flush-Captured w scope t (event_of new_panic_event f) n)
    counted_lem (capture_error scope opts (some f)) w h n =
        (_, refl, capture-Captured w scope opts (event_of new_error_event f) n)
    counted_lem (capture_message scope opts level msg f) w h n = (
      _,
      refl,
      capture-Captured w scope (message_options level opts) (some (new_message_event f msg)) n,
    )
    counted_lem (capture_recovered scope opts (some f)) w h n =
        (_, refl, capture-Captured w scope opts (event_of new_panic_event f) n)
    counted_lem (recover scope none) w h n = ground arith
    counted_lem (capture_error scope opts none) w h n = ground arith
    counted_lem (capture_recovered scope opts none) w h n = ground arith

    -- `Recover` raises again the panic that it stopped, whatever the client, and no other call
    -- raises one. A call on a disabled client, and one that has nothing to report, changes nothing.
    -- Any other call, where its counters are 64-bit words, is accounted for as one captured event,
    -- one refused by BeforeSend or one contained panic, with at most one panic each of BeforeSend,
    -- the debug writer and OnDrop besides; then `Recover` leaves what the worker's work in its flush
    -- makes of the client, unless the capture was lost to a panic. The settings stay.
    pub perform-Performed : (c : Call V) (sdk : Sdk) → Performed c sdk (perform print c sdk)
    perform-Performed c sdk = record {
      raised = raised_lem c sdk;
      inert = λ e. ap (λ s. (perform print c s).0) e ∙ inert_lem c;
      silent = silent_lem c sdk;
      counted = λ w e h n. rw e (counted_lem c w h n);
    }
