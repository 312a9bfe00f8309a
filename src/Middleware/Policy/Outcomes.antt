-- ===== src/Middleware/Policy/Outcomes.antt =====
-- How the deferred functions of the middlewares end, against their policies.
use groundcover_go.Base.{
  ℕ, ◌≡◌, refl, ap, arith, Bool, true, false, not, ◌&&◌, List, [], ◌∷◌, map, Bool-cases, inl, inr,
  if◌then◌else◌,
}
use groundcover_go.Capture.Attributes.{Attributes}
use groundcover_go.Capture.Scope.{Context}
use groundcover_go.Guard.{Result, returned, panicked}
use groundcover_go.Middleware.{
  Error, Panic, is_abort_panic, is_broken_pipe_panic, World, Request, Options, capture_recovered,
  capture_error, attributes_with_status, is_server_status, status_if_raised,
}
use groundcover_go.Middleware.Http.{
  nethttp_defer, gin_defer, gin_next, capture_collected, iris_next, abort_defer, fasthttp_defer,
  negroni_defer, capture_err, get_err,
}
use groundcover_go.Middleware.Policy.{
  Policy, outcome, error_reports, nethttp_policy, negroni_policy, gin_policy, iris_policy,
  fasthttp_policy, blames_client, when, newest,
}

is_server_status_lem : (status : ℕ) → is_server_status status ≡ not (blames_client status)
unfolding is_server_status
is_server_status_lem status = ground arith

capture_collected_lem :
    (r : Request) (ctx : Context) (errors : List Error) (w : World)
    → capture_collected r ctx errors w ≡ record w {
      reports =
          error_reports ctx (map (λ e. (e, attributes_with_status r w.status)) errors) w.reports;
    }
unfolding capture_collected capture_error
capture_collected_lem r ctx [] w = refl
capture_collected_lem r ctx (e ∷ errors) w =
    capture_collected_lem r ctx errors (capture_error ctx e (attributes_with_status r w.status) w)

-- the errors that are due under a test, against the test in the code
pub due_if :
    (ctx : Context) (t : Bool) (due : List (Error × Attributes)) (w w' : World)
    → w' ≡ record w { reports = error_reports ctx due w.reports }
    → (if t then w' else w) ≡ record w { reports = error_reports ctx (when t due) w.reports }
due_if ctx true due w w' h = h
due_if ctx false due w w' h = refl

module _ (opts : Options) (r : Request) (ctx : Context) where
  pub nethttp-outcome :
      (out : Result Panic (Unit {0}) × World)
      → nethttp_defer r ctx out ≡ outcome (nethttp_policy opts r) ctx out
  unfolding nethttp_defer capture_recovered
  nethttp-outcome (returned u, w) = refl
  nethttp-outcome (panicked v, w) = elim (Bool-cases (is_abort_panic v)) [
    | inl e ↦ rw e refl
    | inr e ↦ rw e refl
  ]

  pub negroni-outcome :
      (out : Result Panic (Unit {0}) × World)
      → negroni_defer opts r ctx out ≡ outcome (negroni_policy opts r) ctx out
  unfolding negroni_defer capture_recovered
  negroni-outcome (returned u, w) = refl
  negroni-outcome (panicked v, w) = elim (Bool-cases (is_abort_panic v)) [
    | inl e ↦ rw e refl
    | inr e ↦ elim (Bool-cases opts.disable_repanic) [
      | inl d ↦ rw (e, d) refl
      | inr d ↦ rw (e, d) refl
    ]
  ]

  pub gin-outcome :
      (out : Result Panic (Unit {0}) × World)
      → gin_defer opts r ctx (gin_next opts r ctx out) ≡ outcome (gin_policy opts r) ctx out
  unfolding gin_defer gin_next capture_recovered
  gin-outcome (returned u, w) =
      rw (is_server_status_lem w.status) (
        ap (λ x. (returned tt, x)) (due_if ctx _ _ w _ (capture_collected_lem r ctx w.collected w)))
  gin-outcome (panicked v, w) = elim (Bool-cases opts.disable_repanic) [
    | inl d ↦ elim (Bool-cases (is_abort_panic v)) [
      | inl e ↦ rw (d, e) refl
      | inr e ↦ elim (Bool-cases (is_broken_pipe_panic v)) [
        | inl f ↦ rw (d, e, f) refl
        | inr f ↦ rw (d, e, f) refl
      ]
    ]
    | inr d ↦ elim (Bool-cases (is_abort_panic v)) [
      | inl e ↦ rw (d, e) refl
      | inr e ↦ elim (Bool-cases (is_broken_pipe_panic v)) [
        | inl f ↦ rw (d, e, f) refl
        | inr f ↦ rw (d, e, f) refl
      ]
    ]
  ]

  pub aborted :
      {A : Type 0} (p : Policy A) (v : Panic) (w : World)
      → abort_defer p.answer opts r ctx (panicked v, w)
        ≡ outcome
            (record p {
              quiet = is_abort_panic;
              stops_quiet = false;
              raises = not opts.disable_repanic;
              flushes = false;
              described =
                  λ w. attributes_with_status r (status_if_raised (not opts.disable_repanic) w);
            })
            ctx
            (panicked v, w)
  unfolding abort_defer capture_recovered
  aborted p v w = elim (Bool-cases (is_abort_panic v)) [
    | inl e ↦ rw e refl
    | inr e ↦ elim (Bool-cases opts.disable_repanic) [
      | inl d ↦ rw (e, d) refl
      | inr d ↦ rw (e, d) refl
    ]
  ]

  -- the newest error, if there is one
  newest_lem :
      (errors : List Error) (w : World)
      → (if opts.capture_errors then capture_err r ctx (get_err errors) w else w) ≡ record w {
        reports =
            error_reports ctx
              (when
                (opts.capture_errors && not (blames_client w.status))
                (map (λ e. (e, attributes_with_status r w.status)) (newest opts r errors)))
              w.reports;
      }
  unfolding capture_error
  newest_lem [] w = elim (Bool-cases opts.capture_errors) [
    | inl d ↦ elim (Bool-cases (blames_client w.status)) [
      | inl b ↦ rw (d, b) refl
      | inr b ↦ rw (d, b) refl
    ]
    | inr d ↦ rw d refl
  ]
  newest_lem (e ∷ errors) w = elim (Bool-cases opts.capture_errors) [
    | inl d ↦
        rw (d, is_server_status_lem w.status) (due_if ctx (not (blames_client w.status)) _ w _ refl)
    | inr d ↦ rw d refl
  ]

  pub iris-outcome :
      (out : Result Panic (Unit {0}) × World)
      → abort_defer tt opts r ctx (iris_next opts r ctx out) ≡ outcome (iris_policy opts r) ctx out
  unfolding abort_defer iris_next
  iris-outcome (returned u, w) = ap (λ x. (returned tt, x)) (newest_lem w.collected w)
  iris-outcome (panicked v, w) = aborted (iris_policy opts r) v w

  pub fasthttp-outcome :
      (out : Result Panic (Unit {0}) × World)
      → fasthttp_defer opts r ctx out ≡ outcome (fasthttp_policy opts r) ctx out
  unfolding fasthttp_defer capture_recovered
  fasthttp-outcome (returned u, w) = refl
  fasthttp-outcome (panicked v, w) = elim (Bool-cases opts.disable_repanic) [
    | inl d ↦ rw d refl
    | inr d ↦ rw d refl
  ]
