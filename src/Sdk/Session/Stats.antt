-- ===== src/Sdk/Session/Stats.antt =====
-- What `GlobalStats` says of the captures since the last `Init`.
use Prim.Native.String.{String}
use groundcover_go.Base.{
  ℕ, ◌+◌, ◌*◌, ◌%◌, ◌^◌, ◌≤◌, ◌≡◌, refl, sym, ap, ◌∙◌, subst, Option, none, some, List, [], ◌∷◌,
  arith, Bool-cases, inl, inr,
}
use groundcover_go.Metrics.{new}
use groundcover_go.Ring.{HasZero}
use groundcover_go.Capture.Attributes.{Value}
use groundcover_go.Capture.Event.{Event}
use groundcover_go.Capture.Resource.{Host}
use groundcover_go.Capture.Client.{Client}
use groundcover_go.Capture.Client.Enqueue.{IsCounted}
use groundcover_go.Capture.Settings.{with_client_defaults, Validity, usable, missing_dsn, validate}
use groundcover_go.Sdk.{
  Working, Sdk, disabled, working, Settings, assemble, built_for, new_client, Call, capture_error,
  capture_message, capture_recovered, recover,
}
use groundcover_go.Sdk.Calls.{inert_lem}
use groundcover_go.Sdk.Global.{current_global, global_recover, served}
use groundcover_go.Sdk.Session.{
  Deed, did, worked, scoped, worked_on, scoped_on, deed_on, Action, init_with, call, perform_on,
  run, Sessions, opened, called, sessions, after_calls, clients,
}
use groundcover_go.Sdk.Session.Accounts.{tally, reported, other_panics, after_calls-Tallied}
use groundcover_go.Sdk.Session.Routed.{routed}

-- the calls since the last `Init` that succeeded
abbrev pub calls_since : {V : Type 0} → Sessions V → List (Deed V)
calls_since [] = []
calls_since ((k, cs) ∷ ss) = cs

-- a client that has counted nothing
Fresh : Sdk → Type 0
Fresh disabled = Unit {0}
Fresh (working w) = w.client.metrics ≡ new

AllFresh : {V : Type 0} → Sessions V → Type 0
AllFresh [] = Unit {0}
AllFresh ((k, cs) ∷ ss) = Fresh k × AllFresh ss

AnyFresh : Option Sdk → Type 0
AnyFresh none = Unit {0}
AnyFresh (some k) = Fresh k

built_for-AnyFresh : (host : Host) (s : Settings) (v : Validity) → AnyFresh (built_for host s v)
unfolding AnyFresh Fresh assemble
built_for-AnyFresh host s missing_dsn = tt
built_for-AnyFresh host s usable = elim (Bool-cases (with_client_defaults s.config).disabled) [
  | inl e ↦ rw e tt
  | inr e ↦ rw e refl
]

opened-AllFresh :
    {V : Type 0} (o : Option Sdk) (ss : Sessions V)
    → AnyFresh o
    → AllFresh ss
    → AllFresh (opened o ss)
unfolding AllFresh AnyFresh
opened-AllFresh none ss h g = g
opened-AllFresh (some k) ss h g = (h, g)

called-AllFresh : {V : Type 0} (c : Deed V) (ss : Sessions V) → AllFresh ss → AllFresh (called c ss)
unfolding AllFresh
called-AllFresh c [] g = g
called-AllFresh c ((k, cs) ∷ ss) g = g

sessions-AllFresh :
    {V : Type 0} (host : Host) (actions : List (Action V)) → AllFresh (sessions host actions)
unfolding sessions new_client AllFresh
sessions-AllFresh host [] = tt
sessions-AllFresh host (init_with s ∷ actions) =
    opened-AllFresh (new_client host s) (sessions host actions)
      (built_for-AnyFresh host s (validate s.config)) (sessions-AllFresh host actions)
sessions-AllFresh host (call c ∷ actions) =
    called-AllFresh c (sessions host actions) (sessions-AllFresh host actions)

module _ ⦃z : HasZero Event⦄ (print : Value → String) {V : Type 0} where
  kept_disabled : (c : Call V) → (perform_on print c disabled).0 ≡ disabled
  unfolding perform_on global_recover
  kept_disabled (capture_error scope opts err) = inert_lem print (capture_error scope opts err)
  kept_disabled (capture_message scope opts level msg f) =
      inert_lem print (capture_message scope opts level msg f)
  kept_disabled (capture_recovered scope opts r) = inert_lem print (capture_recovered scope opts r)
  kept_disabled (recover scope none) = refl
  kept_disabled (recover scope (some (v, f, t))) = refl

  stays_disabled : (cs : List (Deed V)) → after_calls print disabled cs ≡ disabled
  unfolding after_calls deed_on worked_on scoped_on
  stays_disabled [] = refl
  stays_disabled (did c ∷ cs) =
      ap (λ s. (perform_on print c s).0) (stays_disabled cs) ∙ kept_disabled c
  stays_disabled (worked t ∷ cs) = ap (worked_on t) (stays_disabled cs)
  stays_disabled (scoped panics ∷ cs) = ap (scoped_on panics) (stays_disabled cs)

  -- the calls on the counters of a client that had counted nothing, with the panics of callbacks
  pub Accounts : List (Deed V) → Client → Type 0
  Accounts cs c =
      (panics : ℕ) × (panics ≤ 3 * reported cs)
      × (tally c % 2 ^ 64 ≡ (reported cs + other_panics cs + panics) % 2 ^ 64)

  after_calls-Accounts :
      (k : Sdk) (cs : List (Deed V)) (w : Working)
      → Fresh k
      → after_calls print k cs ≡ working w
      → Accounts cs w.client
  unfolding Fresh Accounts new
  after_calls-Accounts disabled cs w f h =
      let no : disabled ≡ working w = sym (stays_disabled cs) ∙ h in cc
  after_calls-Accounts (working v) cs w f h =
      let a : v.client.metrics.captured ≡ 0 = ap (λ m. m.captured) f in
      let b : v.client.metrics.dropped_before_send ≡ 0 = ap (λ m. m.dropped_before_send) f in
      let c : v.client.metrics.panics_recovered ≡ 0 = ap (λ m. m.panics_recovered) f in
      let counted : IsCounted v.client = record {
        captured = omega (arith, a);
        dropped_before_send = omega (arith, b);
        panics_recovered = omega (arith, c);
      } in
      let (u, p, t) = after_calls-Tallied print v cs counted in
      let same : u ≡ w = cc in
      subst (λ x. Accounts cs x.client) same (t.panics, t.few, omega (arith, t.total, a, b, c))

  current-Accounts :
      (ss : Sessions V) (w : Working)
      → AllFresh ss
      → current_global (served (clients print ss)) ≡ working w
      → Accounts (calls_since ss) w.client
  unfolding AllFresh current_global served clients
  current-Accounts [] w f h = cc
  current-Accounts ((k, cs) ∷ ss) w f h = after_calls-Accounts k cs w f.0 h

  -- Over any calls of `Init`, captures and `WithScope` through the package, and any work of the
  -- current client's worker between them and in the flushes of `Recover`, while the current client
  -- is one that is not disabled: the events that it captured, those that its BeforeSend refused and
  -- the panics that it counted are, modulo 2 ^ 64, as many as the captures since the last `Init`
  -- that succeeded with something to report, the panics since then that its worker contained or that
  -- functions given to `WithScope` raised, and at most three panics for each of these captures
  -- besides: one of BeforeSend, one of the debug writer and one of OnDrop.
  pub session-Accounts :
      (host : Host) (actions : List (Action V)) (w : Working)
      → current_global (run print host actions) ≡ working w
      → Accounts (calls_since (sessions host actions)) w.client
  session-Accounts host actions w h =
      current-Accounts (sessions host actions) w (sessions-AllFresh host actions)
        (ap current_global (sym (routed print host actions)) ∙ h)
