-- ===== src/Sdk.antt =====
-- client.go: the construction of a client, and its entry points. `Start` launches the loop that
-- Transport/Lifecycle models. The log that a contained panic writes to and a sender injected by
-- a test are left out; of the debug writer there is whether it panics. The client's own `http.Client` is no part of the model.
pub mod Setup
pub mod Global
pub mod Session
pub mod Calls
pub mod Privacy
pub mod Delivered
mod Examples
mod DeliveryExamples
use Prim.Native.String.{String}
use groundcover_go.Base.{
  ℕ, zero, suc, Bool, true, false, Option, none, some, List, [], ◌∷◌, if◌then◌else◌,
}
use groundcover_go.Base.Int.{ℤ, pos, to_nat}
use groundcover_go.Metrics.{new as new_metrics, inc_panics_recovered}
use groundcover_go.Base.Words.{add64}
use groundcover_go.Ring.{Buffer, HasZero, new, len, bytes, pop_batch}
use groundcover_go.Transport.Config.{WorkerConfig, with_defaults}
use groundcover_go.Transport.Http.{HttpConfig}
use groundcover_go.Capture.Attributes.{Value}
use groundcover_go.Capture.Event.{Event, Level}
use groundcover_go.Capture.Scope.{Scope}
use groundcover_go.Capture.Settings.{
  Config, with_client_defaults, Validity, usable, missing_dsn, validate, endpoint,
}
use groundcover_go.Capture.Resource.{Host, ServiceConfig, Resource, detect_resource}
use groundcover_go.Capture.Wire.Size.{estimate_size}
use groundcover_go.Capture.Client.{
  Answer, ClientConfig, Opt, Finished, ready, refused, lost, Client, finish, finish_and_enqueue,
  Facts, new_error_event, new_panic_event, new_message_event, message_options,
}

-- the whole of a `Config`
pub record Settings : Type 0 where
  pub config : Config
  pub service : ServiceConfig
  pub ingestion_key : String
  pub before_send : Option (Event → Answer)
  pub hasher : Option (String → Option String)
  pub on_drop : Option (ℕ → Bool)
  pub debug_out : Option (Event → Bool)

-- a client that is not disabled, with the number of flushes that `Recover` has asked for
pub record Working : Type 0 where
  pub config : ClientConfig
  pub res : Resource
  pub http : HttpConfig
  pub worker : WorkerConfig
  pub client : Client
  pub flushes : ℕ

pub data Sdk : Type 0 where
  disabled : Sdk
  working : Working → Sdk

-- the literal that `newClient` hands to `NewWorker`; the fields it leaves out are zero
unfoldable pub worker_config : Config → WorkerConfig
worker_config resolved = record {
  batch_size = resolved.batch_size;
  max_batch_bytes = resolved.max_batch_bytes;
  flush_interval = resolved.flush_interval;
  max_retries = resolved.max_retries;
  base_backoff = pos 0;
  retry_max = resolved.retry_max;
  rate_limit_backoff = resolved.rate_limit_backoff;
  max_concurrent = pos 0;
}

unfoldable pub assemble : Host → Settings → Config → Working
assemble host s resolved =
    let res = detect_resource s.service host in
    record {
      config = record {
        before_send = s.before_send;
        hasher = s.hasher;
        batch_size = to_nat resolved.batch_size;
        on_drop = s.on_drop;
        debug_out = s.debug_out;
      };
      res = res;
      http = record {
        endpoint = endpoint resolved;
        ingestion_key = s.ingestion_key;
        user_agent = res.user_agent;
      };
      worker = with_defaults (worker_config resolved);
      client = record {
        ring = new resolved.max_queue resolved.max_bytes (some (λ e. pos (estimate_size e)));
        metrics = new_metrics;
        on_drop = [];
        notified = 0;
      };
      flushes = 0;
    }

abbrev pub built_for : Host → Settings → Validity → Option Sdk
built_for host s missing_dsn = none
built_for host s usable =
    let resolved = with_client_defaults s.config in
    if resolved.disabled then some disabled else some (working (assemble host s resolved))

-- `newClient`, none where the configuration is unusable
unfoldable pub new_client : Host → Settings → Option Sdk
new_client host s = built_for host s (validate s.config)

-- What the worker does to a client, in a flush or between two calls: the batches that it takes from
-- the buffer, and what it and the sends add to the counters. Which batches and sends there are is
-- the worker's matter (Transport) and the sender's; here they are given.
pub record Toll : Type 0 where
  pub batches : ℕ
  pub sent : ℕ
  pub dropped_send : ℕ
  pub retries : ℕ
  pub rate_limited : ℕ
  pub panics : ℕ
  pub subsystems_disabled : ℕ

-- A call of an entry point. The event's facts are missing where the error or the panic value
-- panics when its text is asked for. `V` are the panic values.
pub data Call (V : Type 0) : Type 0 where
  -- none is a nil error
  capture_error : Option Scope → List Opt → Option (Option Facts) → Call V
  capture_message : Option Scope → List Opt → Level → String → Facts → Call V
  -- none is a nil value
  capture_recovered : Option Scope → List Opt → Option (Option Facts) → Call V
  -- a deferred `Recover`, none where nothing panics, with what the worker does in its flush
  recover : Option Scope → Option (V × Option Facts × Toll) → Call V

-- whether `finishAndEnqueue` returned, so that the code after it runs
abbrev pub returned : Finished → Bool
returned (ready e) = true
returned refused = true
returned lost = false

abbrev pub event_of : (Facts → Event) → Option Facts → Option Event
event_of build none = none
event_of build (some f) = some (build f)

module _ ⦃z : HasZero Event⦄ where
  pub take_batches : WorkerConfig → ℕ → Buffer Event → Buffer Event
  take_batches cfg zero ring = ring
  take_batches cfg (suc n) ring =
      (pop_batch (take_batches cfg n ring) cfg.batch_size cfg.max_batch_bytes).1

  -- a client after the worker's work: `PopBatch`, and the counters and gauges of `metricsObserver`
  unfoldable pub work : WorkerConfig → Toll → Client → Client
  work cfg t c =
      let ring = take_batches cfg t.batches c.ring in
      record c {
        ring = ring;
        metrics = record c.metrics {
          sent = add64 c.metrics.sent t.sent;
          dropped_send = add64 c.metrics.dropped_send t.dropped_send;
          retries = add64 c.metrics.retries t.retries;
          rate_limited = add64 c.metrics.rate_limited t.rate_limited;
          panics_recovered = add64 c.metrics.panics_recovered t.panics;
          subsystems_disabled = add64 c.metrics.subsystems_disabled t.subsystems_disabled;
          queue_pending_items = len ring;
          queue_pending_bytes = bytes ring;
        };
      }

  -- `Worker.Flush`, whose error is not looked at
  unfoldable pub flush : Toll → Working → Working
  flush t w = record w { client = work w.worker t w.client; flushes = suc w.flushes }

module _ ⦃z : HasZero Event⦄ (print : Value → String) where
  -- `safeguard.Do` of building an event and of `finishAndEnqueue`
  unfoldable pub capture : Working → Option Scope → List Opt → Option Event → Working
  capture w scope opts none = record w {
    client = record w.client { metrics = inc_panics_recovered w.client.metrics };
  }
  capture w scope opts (some e) = record w {
    client = finish_and_enqueue print w.config w.client scope opts e;
  }

  -- the same, and the flush of `Recover` behind it
  unfoldable pub capture_and_flush : Working → Option Scope → Toll → Option Event → Working
  unfolding capture
  capture_and_flush w scope t none = capture w scope [] none
  capture_and_flush w scope t (some e) =
      let w' = capture w scope [] (some e) in
      if returned (finish print w.config scope [] e).0 then flush t w' else w'

  -- an entry point: the client after it, and the panic that it raises, if any
  unfoldable pub perform : {V : Type 0} → Call V → Sdk → Sdk × Option V
  perform (recover scope none) sdk = (sdk, none)
  perform (recover scope (some (v, f, t))) disabled = (disabled, some v)
  perform (recover scope (some (v, f, t))) (working w) =
      (working (capture_and_flush w scope t (event_of new_panic_event f)), some v)
  perform (capture_error scope opts err) disabled = (disabled, none)
  perform (capture_error scope opts none) (working w) = (working w, none)
  perform (capture_error scope opts (some f)) (working w) =
      (working (capture w scope opts (event_of new_error_event f)), none)
  perform (capture_message scope opts level msg f) disabled = (disabled, none)
  perform (capture_message scope opts level msg f) (working w) = (
    working (capture w scope (message_options level opts) (some (new_message_event f msg))),
    none,
  )
  perform (capture_recovered scope opts r) disabled = (disabled, none)
  perform (capture_recovered scope opts none) (working w) = (working w, none)
  perform (capture_recovered scope opts (some f)) (working w) =
      (working (capture w scope opts (event_of new_panic_event f)), none)
