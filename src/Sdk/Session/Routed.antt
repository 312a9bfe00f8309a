-- ===== src/Sdk/Session/Routed.antt =====
-- Every capture of the package reaches the client that is current at the time, and no other.
use Prim.Native.String.{String}
use groundcover_go.Base.{◌≡◌, refl, sym, ap, ◌∙◌, Option, none, some, List, [], ◌∷◌}
use groundcover_go.Ring.{HasZero}
use groundcover_go.Capture.Attributes.{Value}
use groundcover_go.Capture.Event.{Event}
use groundcover_go.Capture.Resource.{Host}
use groundcover_go.Sdk.{
  Sdk, new_client, Call, capture_error, capture_message, capture_recovered, recover,
}
use groundcover_go.Sdk.Calls.{panic_of, raised_lem}
use groundcover_go.Sdk.Global.{
  init, current_global, global_recover-perform, served, swap_in-served, with_new,
}
use groundcover_go.Sdk.Session.{
  Deed, did, worked, scoped, Action, init_with, call, deed_on, perform_on, touched, global_call,
  act, run, Sessions, opened, called, sessions, after_calls, clients,
}

module _ ⦃z : HasZero Event⦄ (print : Value → String) {V : Type 0} where
  opened-clients :
      (o : Option Sdk) (ss : Sessions V)
      → clients print (opened o ss) ≡ with_new o (clients print ss)
  unfolding clients after_calls
  opened-clients none ss = refl
  opened-clients (some c) ss = refl

  called-clients :
      (c : Deed V) (ss : Sessions V)
      → touched (λ sdk. (deed_on print c sdk).0) (served (clients print ss))
        ≡ served (clients print (called c ss))
  unfolding clients after_calls served
  called-clients c [] = refl
  called-clients c ((k, cs) ∷ ss) = refl

  -- the panic of a call does not depend on the client
  perform_on-panic : (c : Call V) (sdk : Sdk) → (perform_on print c sdk).1 ≡ panic_of c
  unfolding perform_on
  perform_on-panic (capture_error scope opts err) sdk =
      raised_lem print (capture_error scope opts err) sdk
  perform_on-panic (capture_message scope opts level msg f) sdk =
      raised_lem print (capture_message scope opts level msg f) sdk
  perform_on-panic (capture_recovered scope opts r) sdk =
      raised_lem print (capture_recovered scope opts r) sdk
  perform_on-panic (recover scope p) sdk =
      (global_recover-perform print scope p sdk).0 ∙ raised_lem print (recover scope p) sdk

  -- the worker and `WithScope` raise none
  abbrev pub panic_of_deed : Deed V → Option V
  panic_of_deed (did c) = panic_of c
  panic_of_deed (worked t) = none
  panic_of_deed (scoped panics) = none

  deed_on-panic : (c : Deed V) (sdk : Sdk) → (deed_on print c sdk).1 ≡ panic_of_deed c
  unfolding deed_on
  deed_on-panic (did c) sdk = perform_on-panic c sdk
  deed_on-panic (worked t) sdk = refl
  deed_on-panic (scoped panics) sdk = refl

  act-clients :
      (host : Host) (a : Action V) (actions : List (Action V))
      → act print host a (served (clients print (sessions host actions)))
        ≡ served (clients print (sessions host (a ∷ actions)))
  unfolding act sessions init global_call
  act-clients host (init_with s) actions =
      swap_in-served (new_client host s) (clients print (sessions host actions))
      ∙ ap served (sym (opened-clients (new_client host s) (sessions host actions)))
  act-clients host (call c) actions = called-clients c (sessions host actions)

  pub routed :
      (host : Host) (actions : List (Action V))
      → run print host actions ≡ served (clients print (sessions host actions))
  unfolding run served clients sessions
  routed host [] = refl
  routed host (a ∷ actions) =
      ap (act print host a) (routed host actions) ∙ act-clients host a actions

  -- Over any calls of `Init`, captures and `WithScope` through the package, and any work of the
  -- current client's worker between them: each client that `Init` made has performed, in order, the
  -- calls that were made and the work that was done between that `Init` and the next successful one,
  -- and no others; the newest is the current one, every other one has been torn down once, and a
  -- call before the first success, or an `Init` that fails, leaves no trace. Whatever client is
  -- current, the next call raises the panic that `Recover` has stopped, if any, and no other.
  pub run_lem :
      (host : Host) (actions : List (Action V)) (c : Deed V)
      → (run print host actions ≡ served (clients print (sessions host actions)))
        × ((global_call print c (run print host actions)).1 ≡ panic_of_deed c)
  unfolding global_call
  run_lem host actions c =
      (routed host actions, deed_on-panic c (current_global (run print host actions)))
