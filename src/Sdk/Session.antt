-- ===== src/Sdk/Session.antt =====
-- The package-level functions of client_global.go over the life of a program: calls of `Init`, the
-- captures and `WithScope`, in any order, with what the worker of the current client does between them. The captures
-- of the package go to the current client. What the workers of the clients torn down do is left out.
pub mod Routed
pub mod Accounts
pub mod Stats
use Prim.Native.String.{String}
use groundcover_go.Metrics.{inc_panics_recovered}
use groundcover_go.Base.{Bool, if◌then◌else◌, Option, none, some, List, [], ◌∷◌}
use groundcover_go.Ring.{HasZero}
use groundcover_go.Capture.Attributes.{Value}
use groundcover_go.Capture.Event.{Event}
use groundcover_go.Capture.Resource.{Host}
use groundcover_go.Sdk.{
  Sdk, disabled, working, Toll, work, Settings, new_client, Call, capture_error, capture_message,
  capture_recovered, recover, perform,
}
use groundcover_go.Sdk.Global.{Global, at_start, init, current_global, global_recover, served}

-- what happens to a client: a capture of the package, the worker's work, or another call
pub data Deed (V : Type 0) : Type 0 where
  did : Call V → Deed V
  worked : Toll → Deed V
  -- `WithScope`, and whether its function panics; what becomes of the scope is in Capture/Scope
  scoped : (panics : Bool) → Deed V

pub data Action (V : Type 0) : Type 0 where
  init_with : Settings → Action V
  call : Deed V → Action V

-- the client that `global` points to, if any, changed in place
abbrev pub touched : (Sdk → Sdk) → Global → Global
touched f g = record g { current = elim g.current [ none ↦ none | some (n, c) ↦ some (n, f c) ] }

-- The specification: the clients that were constructed, the newest first, each with the calls that
-- were made and the work of its worker while it was the current one, the first one last.
abbrev pub Sessions : Type 0 → Type 0
Sessions V = List (Sdk × List (Deed V))

abbrev pub opened : {V : Type 0} → Option Sdk → Sessions V → Sessions V
opened none ss = ss
opened (some c) ss = (c, []) ∷ ss

abbrev pub called : {V : Type 0} → Deed V → Sessions V → Sessions V
called c [] = []
called c ((k, cs) ∷ ss) = (k, c ∷ cs) ∷ ss

unfoldable pub sessions : {V : Type 0} → Host → List (Action V) → Sessions V
sessions host [] = []
sessions host (init_with s ∷ actions) = opened (new_client host s) (sessions host actions)
sessions host (call c ∷ actions) = called c (sessions host actions)

-- a panic of the function is contained and counted; a disabled client has no counters here
unfoldable pub scoped_on : Bool → Sdk → Sdk
scoped_on panics disabled = disabled
scoped_on panics (working w) = working (record w {
  client = record w.client {
    metrics = if panics then inc_panics_recovered w.client.metrics else w.client.metrics;
  };
})

module _ ⦃z : HasZero Event⦄ where
  -- the worker's work on a client; a disabled client has no worker
  unfoldable pub worked_on : Toll → Sdk → Sdk
  worked_on t disabled = disabled
  worked_on t (working w) = working (record w { client = work w.worker t w.client })

module _ ⦃z : HasZero Event⦄ (print : Value → String) {V : Type 0} where
  -- `CaptureError`, `CaptureMessage`, `CaptureRecovered` and `Recover` of the package, on a client
  unfoldable pub perform_on : Call V → Sdk → Sdk × Option V
  perform_on (capture_error scope opts err) sdk = perform print (capture_error scope opts err) sdk
  perform_on (capture_message scope opts level msg f) sdk =
      perform print (capture_message scope opts level msg f) sdk
  perform_on (capture_recovered scope opts r) sdk =
      perform print (capture_recovered scope opts r) sdk
  perform_on (recover scope p) sdk = global_recover print scope p sdk

  unfoldable pub deed_on : Deed V → Sdk → Sdk × Option V
  deed_on (did c) sdk = perform_on c sdk
  deed_on (worked t) sdk = (worked_on t sdk, none)
  deed_on (scoped panics) sdk = (scoped_on panics sdk, none)

  -- a call, on the current client, and the panic that it raises; the disabled client has no state
  unfoldable pub global_call : Deed V → Global → Global × Option V
  global_call c g = (touched (λ sdk. (deed_on c sdk).0) g, (deed_on c (current_global g)).1)

  unfoldable pub act : Host → Action V → Global → Global
  act host (init_with s) g = (init host s g).0
  act host (call c) g = (global_call c g).0

  -- the first action last
  unfoldable pub run : Host → List (Action V) → Global
  run host [] = at_start
  run host (a ∷ actions) = act host a (run host actions)

  -- a client after its calls, the first one last
  unfoldable pub after_calls : Sdk → List (Deed V) → Sdk
  after_calls k [] = k
  after_calls k (c ∷ cs) = (deed_on c (after_calls k cs)).0

  unfoldable pub clients : Sessions V → List Sdk
  clients [] = []
  clients ((k, cs) ∷ ss) = after_calls k cs ∷ clients ss
