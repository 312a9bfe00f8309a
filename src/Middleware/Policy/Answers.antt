-- ===== src/Middleware/Policy/Answers.antt =====
-- The same of the middlewares whose handlers answer with an error: echo, fiber and gRPC.
use Prim.Native.String.{String}
use groundcover_go.Base.{
  ℕ, ◌≡◌, refl, ap, arith, true, ◌&&◌, Option, none, some, [], ◌∷◌, Bool-cases, inl, inr, leb,
  if◌then◌else◌,
}
use groundcover_go.Capture.Scope.{Context}
use groundcover_go.Guard.{Result, returned, panicked}
use groundcover_go.Middleware.{
  Error, Panic, World, Request, Options, capture_recovered, capture_error, attributes_with_status,
  is_server_error, error_status,
}
use groundcover_go.Middleware.Http.{abort_defer, answer_next, fiber_defer}
use groundcover_go.Middleware.Rpc.{is_server_fault, maybe_capture_rpc_error, rpc_next, rpc_defer}
use groundcover_go.Middleware.Policy.{
  outcome, error_reports, echo_policy, fiber_policy, grpc_policy, among, faults, when, answered,
}
use groundcover_go.Middleware.Policy.Outcomes.{due_if, aborted}

module _ (opts : Options) (r : Request) (ctx : Context) where
  -- the error of an answer, whose code is `o`
  answered_with :
      (o : Option ℕ) (e : Error) (w : World)
      → (if opts.capture_errors && elim o [ none ↦ true | some code ↦ leb 500 code ]
          then capture_error ctx e
              (attributes_with_status r (elim o [ none ↦ 500 | some code ↦ code ]))
              w
          else w)
        ≡ record w {
          reports =
              error_reports ctx
                (elim o [
                  | none ↦ when opts.capture_errors ((e, attributes_with_status r 500) ∷ [])
                  | some code ↦
                      when
                        (opts.capture_errors && leb 500 code)
                        ((e, attributes_with_status r code) ∷ [])
                ])
                w.reports;
        }
  unfolding capture_error
  answered_with none e w = elim (Bool-cases opts.capture_errors) [
    | inl d ↦ rw d refl
    | inr d ↦ rw d refl
  ]
  answered_with (some code) e w =
      due_if ctx (opts.capture_errors && leb 500 code) ((e, attributes_with_status r code) ∷ []) w _
        refl

  answered_lem :
      (e : Error) (w : World)
      → (if opts.capture_errors && is_server_error e
          then capture_error ctx e (attributes_with_status r (error_status e)) w
          else w)
        ≡ record w { reports = error_reports ctx (answered opts r (some e) w) w.reports }
  unfolding is_server_error error_status
  answered_lem e w = answered_with e.http_code e w

  pub echo-outcome :
      (out : Result Panic (Option Error) × World)
      → abort_defer none opts r ctx (answer_next opts r ctx out)
        ≡ outcome (echo_policy opts r) ctx out
  unfolding abort_defer answer_next
  echo-outcome (returned none, w) = refl
  echo-outcome (returned (some e), w) = ap (λ x. (returned (some e), x)) (answered_lem e w)
  echo-outcome (panicked v, w) = aborted opts r ctx (echo_policy opts r) v w

  pub fiber-outcome :
      (out : Result Panic (Option Error) × World)
      → fiber_defer opts r ctx (answer_next opts r ctx out) ≡ outcome (fiber_policy opts r) ctx out
  unfolding fiber_defer answer_next capture_recovered
  fiber-outcome (returned none, w) = refl
  fiber-outcome (returned (some e), w) = ap (λ x. (returned (some e), x)) (answered_lem e w)
  fiber-outcome (panicked v, w) = elim (Bool-cases opts.disable_repanic) [
    | inl d ↦ rw d refl
    | inr d ↦ rw d refl
  ]

is_server_fault_lem : (code : ℕ) → is_server_fault code ≡ among code faults
unfolding is_server_fault
is_server_fault_lem code = ground arith

pub grpc-outcome :
    {R : Type 0} (rpc_code : Error → ℕ) (internal : Error) (opts : Options) (full_method : String)
    (ctx : Context) (out : Result Panic (Option R × Option Error) × World)
    → rpc_defer internal opts full_method ctx (rpc_next rpc_code opts full_method ctx out)
      ≡ outcome (grpc_policy rpc_code internal opts full_method) ctx out
unfolding rpc_defer rpc_next maybe_capture_rpc_error capture_recovered capture_error
grpc-outcome rpc_code internal opts full_method ctx (returned (resp, none), w) = refl
grpc-outcome rpc_code internal opts full_method ctx (returned (resp, some e), w) =
    rw (is_server_fault_lem (rpc_code e)) (
      ap (λ x. (returned (resp, some e), x))
        (due_if ctx (opts.capture_errors && among (rpc_code e) faults) _ w _ refl))
grpc-outcome rpc_code internal opts full_method ctx (panicked v, w) =
    elim (Bool-cases opts.disable_repanic) [ inl d ↦ rw d refl | inr d ↦ rw d refl ]
