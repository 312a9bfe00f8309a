-- ===== src/Middleware/Faithful.antt =====
-- What every middleware leaves of the handler that it runs.
use Prim.Native.String.{String}
use groundcover_go.Base.{
  ℕ, ◌≡◌, refl, sym, subst, arith, Bool, true, false, ◌||◌, Option, none, some, ◌∷◌, Bool-cases,
  inl, inr,
}
use groundcover_go.Capture.Attributes.{Attributes, empty}
use groundcover_go.Capture.Scope.{Context}
use groundcover_go.Guard.{Result, returned, panicked, Act}
use groundcover_go.Middleware.{
  Error, Panic, is_abort_panic, is_broken_pipe_panic, recovered, World, Request, Options,
  seed_scope, capture_recovered, flush_best_effort,
}
use groundcover_go.Middleware.Http.{
  nethttp_defer, nethttp, gin_defer, gin_next, gin, iris_next, abort_defer, iris, answer_next, echo,
  fiber_defer, fiber, fasthttp_defer, fasthttp, negroni_defer, negroni,
}
use groundcover_go.Middleware.Rpc.{rpc_next, rpc_defer, server_interceptor}

-- A handler ended, in the request's context, and then its middleware did. The two end alike, with
-- the same value or the same panic; and a panic has been captured once, in that context, unless
-- it is a quiet one, which leaves no report.
pub record SameEnd {A : Type 0} (quiet : Panic → Bool) (ctx : Context)
    (bare wrapped : Result Panic A × World) : Type 0 where
  pub same_end : wrapped.0 ≡ bare.0
  pub captured_once :
      (rec : Panic)
      → bare.0 ≡ panicked rec
      → quiet rec ≡ false
      → (attrs : Attributes) × (wrapped.1.reports ≡ recovered ctx rec attrs ∷ bare.1.reports)
  pub kept_quiet :
      (rec : Panic) → bare.0 ≡ panicked rec → quiet rec ≡ true → wrapped.1.reports ≡ bare.1.reports

ended_well :
    {A : Type 0} (quiet : Panic → Bool) (ctx : Context) (a : A) (w w' : World)
    → SameEnd quiet ctx (returned a, w) (returned a, w')
ended_well quiet ctx a w w' = record {
  same_end = refl;
  captured_once = λ rec p q. cc;
  kept_quiet = λ rec p q. cc;
}

ended_badly :
    {A : Type 0} (quiet : Panic → Bool) (ctx : Context) (v : Panic) (attrs : Attributes)
    (w w' : World)
    → (quiet v ≡ false → w'.reports ≡ recovered ctx v attrs ∷ w.reports)
    → (quiet v ≡ true → w'.reports ≡ w.reports)
    → SameEnd {A = A} quiet ctx (panicked v, w) (panicked v, w')
ended_badly quiet ctx v attrs w w' loud silent = record {
  same_end = refl;
  captured_once = λ rec p q.
      let same : v ≡ rec = cc in
      (
        attrs,
        subst (λ x. quiet x ≡ false → w'.reports ≡ recovered ctx x attrs ∷ w.reports) same loud q,
      );
  kept_quiet =
      λ rec p q. let same : v ≡ rec = cc in silent (subst (λ x. quiet x ≡ true) (sym same) q);
}

-- The quiet panics of gin; fiber, fasthttp and gRPC have none.
abbrev pub gin_quiet : Panic → Bool
gin_quiet v = is_abort_panic v || is_broken_pipe_panic v

abbrev pub never_quiet : Panic → Bool
never_quiet v = false

nethttp-SameEnd :
    (r : Request) (ctx : Context) (out : Result Panic (Unit {0}) × World)
    → SameEnd is_abort_panic ctx out (nethttp_defer r ctx out)
unfolding nethttp_defer capture_recovered
nethttp-SameEnd r ctx (returned u, w) = ended_well is_abort_panic ctx u w w
nethttp-SameEnd r ctx (panicked v, w) = elim (Bool-cases (is_abort_panic v)) [
  | inl e ↦ rw e (ended_badly is_abort_panic ctx v empty w w (λ q. ground arith) (λ q. refl))
  | inr e ↦ rw e (ended_badly is_abort_panic ctx v _ w _ (λ q. refl) (λ q. ground arith))
]

module _ (opts : Options) (on : opts.disable_repanic ≡ false) (r : Request) (ctx : Context) where
  gin-SameEnd :
      (out : Result Panic (Unit {0}) × World)
      → SameEnd gin_quiet ctx out (gin_defer opts r ctx (gin_next opts r ctx out))
  unfolding gin_defer gin_next capture_recovered
  gin-SameEnd (returned u, w) = ended_well gin_quiet ctx u w _
  gin-SameEnd (panicked v, w) =
      let silent = ended_badly {A = Unit {0}} gin_quiet ctx v empty w w in
      elim (Bool-cases (is_abort_panic v)) [
        | inl e ↦ rw (e, on) (silent (λ q. ground arith) (λ q. refl))
        | inr e ↦ elim (Bool-cases (is_broken_pipe_panic v)) [
          | inl f ↦ rw (e, f, on) (silent (λ q. ground arith) (λ q. refl))
          | inr f ↦
              rw (e, f, on) (ended_badly gin_quiet ctx v _ w _ (λ q. refl) (λ q. ground arith))
        ]
      ]

  aborted :
      {A : Type 0} (a : A) (v : Panic) (w : World)
      → SameEnd is_abort_panic ctx (panicked v, w) (abort_defer a opts r ctx (panicked v, w))
  unfolding abort_defer capture_recovered
  aborted a v w = elim (Bool-cases (is_abort_panic v)) [
    | inl e ↦ rw e (ended_badly is_abort_panic ctx v empty w w (λ q. ground arith) (λ q. refl))
    | inr e ↦ rw (e, on) (ended_badly is_abort_panic ctx v _ w _ (λ q. refl) (λ q. ground arith))
  ]

  iris-SameEnd :
      (out : Result Panic (Unit {0}) × World)
      → SameEnd is_abort_panic ctx out (abort_defer tt opts r ctx (iris_next opts r ctx out))
  unfolding abort_defer iris_next
  iris-SameEnd (returned u, w) = ended_well is_abort_panic ctx u w _
  iris-SameEnd (panicked v, w) = aborted tt v w

  echo-SameEnd :
      (out : Result Panic (Option Error) × World)
      → SameEnd is_abort_panic ctx out (abort_defer none opts r ctx (answer_next opts r ctx out))
  unfolding abort_defer answer_next
  echo-SameEnd (returned none, w) = ended_well is_abort_panic ctx none w w
  echo-SameEnd (returned (some e), w) = ended_well is_abort_panic ctx (some e) w _
  echo-SameEnd (panicked v, w) = aborted none v w

  fiber-SameEnd :
      (out : Result Panic (Option Error) × World)
      → SameEnd never_quiet ctx out (fiber_defer opts r ctx (answer_next opts r ctx out))
  unfolding fiber_defer answer_next capture_recovered flush_best_effort
  fiber-SameEnd (returned none, w) = ended_well never_quiet ctx none w w
  fiber-SameEnd (returned (some e), w) = ended_well never_quiet ctx (some e) w _
  fiber-SameEnd (panicked v, w) = rw on (ended_badly never_quiet ctx v _ w _ (λ q. refl) (λ q. cc))

  fasthttp-SameEnd :
      (out : Result Panic (Unit {0}) × World)
      → SameEnd never_quiet ctx out (fasthttp_defer opts r ctx out)
  unfolding fasthttp_defer capture_recovered flush_best_effort
  fasthttp-SameEnd (returned u, w) = ended_well never_quiet ctx u w w
  fasthttp-SameEnd (panicked v, w) =
      rw on (ended_badly never_quiet ctx v _ w _ (λ q. refl) (λ q. cc))

  negroni-SameEnd :
      (out : Result Panic (Unit {0}) × World)
      → SameEnd is_abort_panic ctx out (negroni_defer opts r ctx out)
  unfolding negroni_defer capture_recovered
  negroni-SameEnd (returned u, w) = ended_well is_abort_panic ctx u w w
  negroni-SameEnd (panicked v, w) = elim (Bool-cases (is_abort_panic v)) [
    | inl e ↦ rw e (ended_badly is_abort_panic ctx v empty w w (λ q. ground arith) (λ q. refl))
    | inr e ↦ rw (e, on) (ended_badly is_abort_panic ctx v _ w _ (λ q. refl) (λ q. ground arith))
  ]

rpc-SameEnd :
    {R : Type 0} (rpc_code : Error → ℕ) (internal : Error) (opts : Options) (full_method : String)
    (ctx : Context) (out : Result Panic (Option R × Option Error) × World)
    → opts.disable_repanic ≡ false
    → SameEnd never_quiet ctx out
        (rpc_defer internal opts full_method ctx (rpc_next rpc_code opts full_method ctx out))
unfolding rpc_defer rpc_next capture_recovered flush_best_effort
rpc-SameEnd rpc_code internal opts full_method ctx (returned (resp, err), w) on =
    ended_well never_quiet ctx (resp, err) w _
rpc-SameEnd rpc_code internal opts full_method ctx (panicked v, w) on =
    rw on (ended_badly never_quiet ctx v _ w _ (λ q. refl) (λ q. cc))

-- The handlers of the eight packages, run bare in the context and the world that the middleware
-- makes for them.
abbrev pub bare : {A : Type 0} → (Context → Act World Panic A) → Context → Act World Panic A
bare next ctx w = let (child, w') = seed_scope ctx w in next child w'

abbrev pub Wraps :
    {A : Type 0}
    → (Panic → Bool)
    → Context
    → (Context → Act World Panic A)
    → Act World Panic A
    → Type 0
Wraps quiet ctx next wrapped =
    (w : World) → SameEnd quiet (seed_scope ctx w).0 (bare next ctx w) (wrapped w)

-- all eight, with the same options and request
pub record Transparent (opts : Options) (r : Request) (ctx : Context) : Type 1 where
  pub by_nethttp :
      (next : Context → Act World Panic (Unit {0}))
      → Wraps is_abort_panic ctx next (nethttp r next ctx)
  pub by_gin :
      (next : Context → Act World Panic (Unit {0})) → Wraps gin_quiet ctx next (gin opts r next ctx)
  pub by_iris :
      (next : Context → Act World Panic (Unit {0}))
      → Wraps is_abort_panic ctx next (iris opts r next ctx)
  pub by_negroni :
      (next : Context → Act World Panic (Unit {0}))
      → Wraps is_abort_panic ctx next (negroni opts r next ctx)
  pub by_fasthttp :
      (handler : Context → Act World Panic (Unit {0}))
      → Wraps never_quiet none handler (fasthttp opts r handler)
  pub by_echo :
      (next : Context → Act World Panic (Option Error))
      → Wraps is_abort_panic ctx next (echo opts r next ctx)
  pub by_fiber :
      (next : Context → Act World Panic (Option Error))
      → Wraps never_quiet ctx next (fiber opts r next ctx)
  pub by_grpc :
      {R : Type 0} (rpc_code : Error → ℕ) (internal : Error) (full_method : String)
      (handler : Context → Act World Panic (Option R × Option Error))
      → Wraps never_quiet ctx handler
          (server_interceptor rpc_code internal opts full_method handler ctx)

-- Without DisableRepanic every middleware lets its handler end as it would bare in the request's own
-- scope, with the same answer or the same panic; and a panic is captured exactly once, in that
-- scope's context, unless it is one of the quiet ones of the framework, which leave no report.
pub middlewares-Transparent :
    (opts : Options) (r : Request) (ctx : Context)
    → opts.disable_repanic ≡ false
    → Transparent opts r ctx
unfolding nethttp gin iris negroni fasthttp echo fiber server_interceptor
middlewares-Transparent opts r ctx on = record {
  by_nethttp = λ next w. nethttp-SameEnd r (seed_scope ctx w).0 (bare next ctx w);
  by_gin = λ next w. gin-SameEnd opts on r (seed_scope ctx w).0 (bare next ctx w);
  by_iris = λ next w. iris-SameEnd opts on r (seed_scope ctx w).0 (bare next ctx w);
  by_negroni = λ next w. negroni-SameEnd opts on r (seed_scope ctx w).0 (bare next ctx w);
  by_fasthttp = λ handler w. fasthttp-SameEnd opts on r (seed_scope none w).0 (bare handler none w);
  by_echo = λ next w. echo-SameEnd opts on r (seed_scope ctx w).0 (bare next ctx w);
  by_fiber = λ next w. fiber-SameEnd opts on r (seed_scope ctx w).0 (bare next ctx w);
  by_grpc = λ rpc_code internal full_method handler w.
      rpc-SameEnd rpc_code internal opts full_method (seed_scope ctx w).0 (bare handler ctx w) on;
}
