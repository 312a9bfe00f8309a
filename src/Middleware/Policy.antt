-- ===== src/Middleware/Policy.antt =====
-- One middleware for all frameworks, by a table of what each package decides: the specification that
-- the eight of Middleware/Http and Middleware/Rpc follow.
pub mod Outcomes
pub mod Answers
pub mod Uniform
use Prim.Native.String.{String}
use groundcover_go.Base.{
  ℕ, Bool, true, false, not, ◌&&◌, ◌||◌, Option, none, some, List, [], ◌∷◌, ◌++◌, map, leb, ◌==◌,
  if◌then◌else◌,
}
use groundcover_go.Capture.Attributes.{Attributes}
use groundcover_go.Capture.Scope.{Context}
use groundcover_go.Guard.{Result, returned, panicked, Act}
use groundcover_go.Middleware.{
  Error, Panic, is_abort_panic, is_broken_pipe_panic, Report, recovered, errored, World, Request,
  Options, flush_best_effort, seed_scope, request_attributes, attributes_with_status,
  attributes_without_route, status_if_raised, status_if_blank,
}
use groundcover_go.Middleware.Rpc.{base_attributes, error_attributes}

-- What a package decides, for handlers that answer with an `A`.
pub record Policy (A : Type 0) : Type 0 where
  -- panics that are not reported, and whether DisableRepanic stops them all the same
  pub quiet : Panic → Bool
  pub stops_quiet : Bool
  -- whether a panic that was reported is raised again
  pub raises : Bool
  -- whether the events are flushed before that
  pub flushes : Bool
  -- the attributes of a panic's report
  pub described : World → Attributes
  -- the answer in place of a panic that is not raised
  pub answer : A
  -- the errors that are due after an answer, the first one first, with their attributes
  pub due : A → World → List (Error × Attributes)

abbrev pub error_reports : Context → List (Error × Attributes) → List Report → List Report
error_reports ctx [] old = old
error_reports ctx ((e, attrs) ∷ due) old = error_reports ctx due (errored ctx e attrs ∷ old)

module _ {A : Type 0} (p : Policy A) where
  -- how the middleware ends where the handler did so
  abbrev pub outcome : Context → Result Panic A × World → Result Panic A × World
  outcome ctx (returned a, w) =
      (returned a, record w { reports = error_reports ctx (p.due a w) w.reports })
  outcome ctx (panicked v, w) =
      let w' = record w { reports = recovered ctx v (p.described w) ∷ w.reports } in
      if p.quiet v
      then (if p.stops_quiet then returned p.answer else panicked v, w)
      else if p.raises
      then (panicked v, if p.flushes then flush_best_effort w' else w')
      else (returned p.answer, w')

  abbrev pub middleware : (Context → Act World Panic A) → Context → Act World Panic A
  middleware next ctx w = let (child, w') = seed_scope ctx w in outcome child (next child w')

abbrev pub nothing_due : {A : Type 0} → A → World → List (Error × Attributes)
nothing_due a w = []

-- A status or a code that does not blame the client.
abbrev blames_client : ℕ → Bool
blames_client status = leb 400 status && leb status 499

abbrev pub when : {A : Type 0} → Bool → List A → List A
when test due = if test then due else []

module _ (opts : Options) (r : Request) where
  abbrev repanic : Bool
  repanic = not opts.disable_repanic

  -- net/http has no options, and its panics always go on.
  abbrev pub nethttp_policy : Policy (Unit {0})
  nethttp_policy = record {
    quiet = is_abort_panic;
    stops_quiet = false;
    raises = true;
    flushes = false;
    described = λ w. request_attributes r;
    answer = tt;
    due = nothing_due;
  }

  abbrev pub negroni_policy : Policy (Unit {0})
  negroni_policy = record nethttp_policy { raises = repanic }

  -- all collected errors, with the status of the response, unless it blames the client
  abbrev pub gin_policy : Policy (Unit {0})
  gin_policy = record {
    quiet = λ v. is_abort_panic v || is_broken_pipe_panic v;
    stops_quiet = opts.disable_repanic;
    raises = repanic;
    flushes = false;
    described = λ w. attributes_with_status r (status_if_raised repanic w);
    answer = tt;
    due = λ a w.
        when (opts.capture_errors && not (blames_client w.status))
          (map (λ e. (e, attributes_with_status r w.status)) w.collected);
  }

  -- the newest error alone
  abbrev newest : List Error → List Error
  newest [] = []
  newest (e ∷ errors) = e ∷ []

  abbrev pub iris_policy : Policy (Unit {0})
  iris_policy = record gin_policy {
    quiet = is_abort_panic;
    stops_quiet = false;
    due = λ a w.
        when (opts.capture_errors && not (blames_client w.status))
          (map (λ e. (e, attributes_with_status r w.status)) (newest w.collected));
  }

  -- the error that the handler answers with, unless its code is below 500; no code counts as a 500
  abbrev answered : Option Error → World → List (Error × Attributes)
  answered none w = []
  answered (some e) w = elim e.http_code [
    | none ↦ when opts.capture_errors ((e, attributes_with_status r 500) ∷ [])
    | some code ↦
        when (opts.capture_errors && leb 500 code) ((e, attributes_with_status r code) ∷ [])
  ]

  abbrev pub echo_policy : Policy (Option Error)
  echo_policy = record {
    quiet = is_abort_panic;
    stops_quiet = false;
    raises = repanic;
    flushes = false;
    described = λ w. attributes_with_status r (status_if_raised repanic w);
    answer = none;
    due = answered;
  }

  abbrev pub fiber_policy : Policy (Option Error)
  fiber_policy = record {
    quiet = λ v. false;
    stops_quiet = false;
    raises = repanic;
    flushes = true;
    described = λ w. attributes_with_status r (status_if_blank repanic w);
    answer = none;
    due = answered;
  }

  abbrev pub fasthttp_policy : Policy (Unit {0})
  fasthttp_policy = record {
    quiet = λ v. false;
    stops_quiet = false;
    raises = repanic;
    flushes = true;
    described = λ w. attributes_without_route r (status_if_blank repanic w);
    answer = tt;
    due = nothing_due;
  }

-- Unknown, DeadlineExceeded, Unimplemented, Internal, Unavailable and DataLoss are the server's faults.
abbrev faults : List ℕ
faults = 2 ∷ 4 ∷ 12 ∷ 13 ∷ 14 ∷ 15 ∷ []

abbrev among : ℕ → List ℕ → Bool
among n [] = false
among n (m ∷ ms) = n == m || among n ms

module _ (rpc_code : Error → ℕ) (internal : Error) (opts : Options) (full_method : String) where
  abbrev rpc_due : {R : Type 0} → Option R × Option Error → World → List (Error × Attributes)
  rpc_due (resp, none) w = []
  rpc_due (resp, some e) w =
      when (opts.capture_errors && among (rpc_code e) faults)
        ((e, error_attributes full_method (rpc_code e)) ∷ [])

  abbrev pub grpc_policy : {R : Type 0} → Policy (Option R × Option Error)
  grpc_policy = record {
    quiet = λ v. false;
    stops_quiet = false;
    raises = not opts.disable_repanic;
    flushes = true;
    described = λ w. base_attributes full_method;
    answer = (none, some internal);
    due = rpc_due;
  }
