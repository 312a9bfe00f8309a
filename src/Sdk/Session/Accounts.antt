-- ===== src/Sdk/Session/Accounts.antt =====
-- The counters of the current client account for the captures of the package.
use Prim.Native.String.{String}
use groundcover_go.Base.{
  Bool, ℕ, ◌+◌, ◌*◌, ◌%◌, ◌^◌, ◌≤◌, ◌<◌, ◌≡◌, refl, sym, ap, subst, ◌∙◌, Option, none, some, List,
  [], ◌∷◌, arith, inl, inr, Bool-cases, if◌then◌else◌,
}
use groundcover_go.Metrics.{inc_panics_recovered}
use groundcover_go.Ring.{HasZero}
use groundcover_go.Capture.Attributes.{Value}
use groundcover_go.Capture.Event.{Event}
use groundcover_go.Capture.Scope.{Scope}
use groundcover_go.Capture.Client.{Client, Facts, Finished, ready, refused, lost, new_panic_event}
use groundcover_go.Capture.Client.Enqueue.{IsCounted, Accounted, as_ready, as_refused, as_lost}
use groundcover_go.Transport.Config.{WorkerConfig}
use groundcover_go.Sdk.{
  Working, Sdk, Toll, work, flush, capture, working, Call, capture_error, capture_message,
  capture_recovered, recover, event_of, perform,
}
use groundcover_go.Sdk.Calls.{
  reports, toll_of, after_flush, capture-Captured, counted_lem, silent_lem,
}
use groundcover_go.Sdk.Global.{global_recover}
use groundcover_go.Sdk.Session.{
  Deed, did, worked, scoped, worked_on, scoped_on, deed_on, perform_on, after_calls,
}

-- events that went on to the buffer, those that BeforeSend refused, and contained panics
abbrev pub tally : Client → ℕ
tally c = c.metrics.captured + c.metrics.dropped_before_send + c.metrics.panics_recovered

-- the calls that had something to report
abbrev pub reported : {V : Type 0} → List (Deed V) → ℕ
reported [] = 0
reported (did c ∷ cs) = (if reports c then 1 else 0) + reported cs
reported (worked t ∷ cs) = reported cs
reported (scoped panics ∷ cs) = reported cs

-- the panics that the worker contained in the flush of a call of the package
abbrev pub flush_panics : {V : Type 0} → Call V → ℕ
flush_panics (recover scope (some (v, f, t))) = t.panics
flush_panics _ = 0

-- the panics that the worker contained, and those of functions given to `WithScope`
abbrev pub other_panics : {V : Type 0} → List (Deed V) → ℕ
other_panics [] = 0
other_panics (did c ∷ cs) = flush_panics c + other_panics cs
other_panics (worked t ∷ cs) = t.panics + other_panics cs
other_panics (scoped panics ∷ cs) = (if panics then 1 else 0) + other_panics cs

module _ ⦃z : HasZero Event⦄ where
  -- `n` reports and `k` panics of the worker or of `WithScope` between two states, and at most three panics of
  -- callbacks for each report besides
  pub record Tallied (n k : ℕ) (c c' : Client) : Type 0 where
    pub counted : IsCounted c'
    pub panics : ℕ
    pub few : panics ≤ 3 * n
    pub total : tally c' % 2 ^ 64 ≡ (tally c + n + k + panics) % 2 ^ 64

  one_way : (f : Finished) → as_ready f + as_refused f + as_lost f ≡ 1
  one_way (ready e) = refl
  one_way refused = refl
  one_way lost = refl

  Accounted-Tallied :
      (c c' : Client) (f : Finished) (panics : ℕ)
      → panics < 4
      → Accounted c f panics c'
      → Tallied 1 0 c c'
  Accounted-Tallied c c' f panics h a = record {
    counted = record {
      captured = omega (arith, a.captured);
      dropped_before_send = omega (arith, a.dropped_before_send);
      panics_recovered = omega (arith, a.panics_recovered);
    };
    panics = panics;
    few = omega arith;
    total = omega (arith, a.captured, a.dropped_before_send, a.panics_recovered, one_way f);
  }

  Tallied-trans :
      (m j n k : ℕ) (a b c : Client)
      → Tallied m j a b
      → Tallied n k b c
      → Tallied (n + m) (k + j) a c
  Tallied-trans m j n k a b c s t = record {
    counted = t.counted;
    panics = s.panics + t.panics;
    few = omega (arith, s.few, t.few);
    total = omega (arith, s.total, t.total);
  }

  Tallied-nothing : (c : Client) → IsCounted c → Tallied 0 0 c c
  Tallied-nothing c h = record { counted = h; panics = 0; few = omega arith; total = omega arith }

  -- the worker's work, after some calls
  work-Tallied :
      (n k : ℕ) (cfg : WorkerConfig) (t : Toll) (a c : Client)
      → Tallied n k a c
      → Tallied n (t.panics + k) a (work cfg t c)
  unfolding work
  work-Tallied n k cfg t a c s = record {
    counted = record {
      captured = s.counted.captured;
      dropped_before_send = s.counted.dropped_before_send;
      panics_recovered = omega arith;
    };
    panics = s.panics;
    few = s.few;
    total = omega (arith, s.total);
  }

  -- `WithScope`, after some calls
  scoped-Tallied :
      (n k : ℕ) (panics : Bool) (a c : Client)
      → Tallied n k a c
      → Tallied n
          ((if panics then 1 else 0) + k)
          a
          (record c { metrics = if panics then inc_panics_recovered c.metrics else c.metrics })
  unfolding inc_panics_recovered
  scoped-Tallied n k panics a c s = elim (Bool-cases panics) [
    | inl p ↦ rw p (record {
      counted = record {
        captured = s.counted.captured;
        dropped_before_send = s.counted.dropped_before_send;
        panics_recovered = omega arith;
      };
      panics = s.panics;
      few = s.few;
      total = omega (arith, s.total);
    })
    | inr p ↦ rw p (record {
      counted = s.counted;
      panics = s.panics;
      few = s.few;
      total = omega (arith, s.total);
    })
  ]

  -- a client that works after `n` reports and `k` of those panics, its counters raised
  Worked : (n k : ℕ) → Working → Sdk → Type 0
  Worked n k w s = (w' : Working) × (s ≡ working w') × Tallied n k w.client w'.client

  module _ (print : Value → String) {V : Type 0} where
    -- a call that does not flush
    performed :
        (c : Call V) (w : Working)
        → toll_of c ≡ none
        → IsCounted w.client
        → Worked (if reports c then 1 else 0) 0 w (perform print c (working w)).0
    unfolding Worked
    performed c w n h = elim (Bool-cases (reports c)) [
      | inl e ↦
          let (w', p, q) = counted_lem print c w e h in
          let same : w'.client ≡ q.before_flush =
            q.client ∙ ap (λ t. after_flush print t w.worker q.outcome q.before_flush) n in
          (
            w',
            p,
            rw e (
                subst (λ x. Tallied 1 0 w.client x) (sym same)
                  (Accounted-Tallied w.client q.before_flush q.outcome q.panics q.few q.accounted)),
          )
      | inr e ↦ (w, silent_lem print c (working w) e, rw e (Tallied-nothing w.client h))
    ]

    recovered :
        (scope : Option Scope) (p : Option (V × Option Facts × Toll)) (w : Working)
        → IsCounted w.client
        → Worked
            (if reports (recover scope p) then 1 else 0)
            (flush_panics (recover scope p))
            w
            (global_recover print scope p (working w)).0
    unfolding Worked global_recover flush
    recovered scope none w h = (w, refl, Tallied-nothing w.client h)
    recovered scope (some (v, f, t)) w h =
        let q = capture-Captured print w scope [] (event_of new_panic_event f) h in
        let c = capture print w scope [] (event_of new_panic_event f) in
        let a = Accounted-Tallied w.client q.before_flush q.outcome q.panics q.few q.accounted in
        let flushed =
          work-Tallied 1 0 c.worker t w.client c.client
            (subst (λ x. Tallied 1 0 w.client x) (sym q.client) a) in
        let no_more : t.panics + 0 ≡ t.panics = omega arith in
        (_, refl, subst (λ k. Tallied 1 k w.client (work c.worker t c.client)) no_more flushed)

    perform_on-Worked :
        (c : Call V) (w : Working)
        → IsCounted w.client
        → Worked (if reports c then 1 else 0) (flush_panics c) w (perform_on print c (working w)).0
    unfolding perform_on
    perform_on-Worked (capture_error scope opts err) w h =
        performed (capture_error scope opts err) w refl h
    perform_on-Worked (capture_message scope opts level msg f) w h =
        performed (capture_message scope opts level msg f) w refl h
    perform_on-Worked (capture_recovered scope opts r) w h =
        performed (capture_recovered scope opts r) w refl h
    perform_on-Worked (recover scope p) w h = recovered scope p w h

    pub after_calls-Tallied :
        (w : Working) (cs : List (Deed V))
        → IsCounted w.client
        → (w' : Working) × (after_calls print (working w) cs ≡ working w')
          × Tallied (reported cs) (other_panics cs) w.client w'.client
    unfolding after_calls Worked deed_on worked_on scoped_on
    after_calls-Tallied w [] h = (w, refl, Tallied-nothing w.client h)
    after_calls-Tallied w (did c ∷ cs) h =
        let (u, p, t) = after_calls-Tallied w cs h in
        let (w', q, r) = perform_on-Worked c u t.counted in
        (
          w',
          ap (λ s. (perform_on print c s).0) p ∙ q,
          Tallied-trans (reported cs) (other_panics cs) (if reports c then 1 else 0)
              (flush_panics c) w.client u.client w'.client t r,
        )
    after_calls-Tallied w (worked t ∷ cs) h =
        let (u, p, s) = after_calls-Tallied w cs h in
        (
          record u { client = work u.worker t u.client },
          ap (worked_on t) p,
          work-Tallied (reported cs) (other_panics cs) u.worker t w.client u.client s,
        )
    after_calls-Tallied w (scoped panics ∷ cs) h =
        let (u, p, s) = after_calls-Tallied w cs h in
        (
          _,
          ap (scoped_on panics) p,
          scoped-Tallied (reported cs) (other_panics cs) panics w.client u.client s,
        )
