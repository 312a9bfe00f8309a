-- ===== src/Middleware/Http.antt =====
-- nethttp/middleware.go and gin, echo, fiber, fasthttp, iris and negroni of contrib.
-- The code reads the request's context again when it captures; a handler that puts another scope in
-- its place is left out.
use groundcover_go.Base.{Bool, not, ◌&&◌, Option, none, some, List, [], ◌∷◌, if◌then◌else◌}
use groundcover_go.Capture.Scope.{Context}
use groundcover_go.Guard.{Result, returned, panicked, Act, after_defer}
use groundcover_go.Middleware.{
  Error, Panic, is_abort_panic, is_broken_pipe_panic, World, Request, Options, capture_recovered,
  capture_error, flush_best_effort, seed_scope, request_attributes, attributes_with_status,
  attributes_without_route, status_if_raised, status_if_blank, is_server_status, is_server_error,
  error_status,
}

-- the end of the deferred functions: `panic(rec)`, unless it is disabled
abbrev pub raise_unless : {A : Type 0} → Bool → A → Panic → World → Result Panic A × World
raise_unless disabled a rec w = if disabled then (returned a, w) else (panicked rec, w)

abbrev pub Done : Type 0
Done = Result Panic (Unit {0}) × World

-- what a handler returns in echo and fiber
abbrev pub Answered : Type 0
Answered = Result Panic (Option Error) × World

unfoldable pub nethttp_defer : Request → Context → Done → Done
nethttp_defer r ctx = after_defer (λ rec w. (
  panicked rec,
  if not (is_abort_panic rec) then capture_recovered ctx rec (request_attributes r) w else w,
))

unfoldable pub nethttp :
    Request → (Context → Act World Panic (Unit {0})) → Context → Act World Panic (Unit {0})
nethttp r next ctx w = let (child, w') = seed_scope ctx w in nethttp_defer r child (next child w')

unfoldable pub gin_defer : Options → Request → Context → Done → Done
gin_defer opts r ctx = after_defer (λ rec w.
    let repanic = not opts.disable_repanic in
    let w' =
      if not (is_abort_panic rec) && not (is_broken_pipe_panic rec)
      then capture_recovered ctx rec (attributes_with_status r (status_if_raised repanic w)) w
      else w in
    raise_unless opts.disable_repanic tt rec w')

-- the loop over `c.Errors`
unfoldable pub capture_collected : Request → Context → List Error → World → World
capture_collected r ctx [] w = w
capture_collected r ctx (e ∷ errors) w =
    capture_collected r ctx errors (capture_error ctx e (attributes_with_status r w.status) w)

-- after `c.Next()` of gin
unfoldable pub gin_next : Options → Request → Context → Done → Done
gin_next opts r ctx (panicked rec, w) = (panicked rec, w)
gin_next opts r ctx (returned u, w) = (
  returned tt,
  if opts.capture_errors && is_server_status w.status
      then capture_collected r ctx w.collected w
      else w,
)

unfoldable pub gin :
    Options
    → Request
    → (Context → Act World Panic (Unit {0}))
    → Context
    → Act World Panic (Unit {0})
gin opts r next ctx w =
    let (child, w') = seed_scope ctx w in
    gin_defer opts r child (gin_next opts r child (next child w'))

-- `ctx.GetErr()` of iris: the newest error that was recorded
abbrev pub get_err : List Error → Option Error
get_err [] = none
get_err (e ∷ errors) = some e

abbrev pub capture_err : Request → Context → Option Error → World → World
capture_err r ctx none w = w
capture_err r ctx (some e) w =
    if is_server_status w.status
    then capture_error ctx e (attributes_with_status r w.status) w
    else w

unfoldable pub iris_next : Options → Request → Context → Done → Done
iris_next opts r ctx (panicked rec, w) = (panicked rec, w)
iris_next opts r ctx (returned u, w) =
    (returned tt, if opts.capture_errors then capture_err r ctx (get_err w.collected) w else w)

-- the deferred function of iris and, with the answer of a handler, of echo
unfoldable pub abort_defer :
    {A : Type 0} → A → Options → Request → Context → Result Panic A × World → Result Panic A × World
abort_defer a opts r ctx = after_defer (λ rec w.
    let status = status_if_raised (not opts.disable_repanic) w in
    if is_abort_panic rec
    then (panicked rec, w)
    else raise_unless opts.disable_repanic a rec
        (capture_recovered ctx rec (attributes_with_status r status) w))

unfoldable pub iris :
    Options
    → Request
    → (Context → Act World Panic (Unit {0}))
    → Context
    → Act World Panic (Unit {0})
iris opts r next ctx w =
    let (child, w') = seed_scope ctx w in
    abort_defer tt opts r child (iris_next opts r child (next child w'))

-- after `next(c)` of echo and `c.Next()` of fiber
unfoldable pub answer_next : Options → Request → Context → Answered → Answered
answer_next opts r ctx (panicked rec, w) = (panicked rec, w)
answer_next opts r ctx (returned none, w) = (returned none, w)
answer_next opts r ctx (returned (some e), w) = (
  returned (some e),
  if opts.capture_errors && is_server_error e
      then capture_error ctx e (attributes_with_status r (error_status e)) w
      else w,
)

unfoldable pub echo :
    Options
    → Request
    → (Context → Act World Panic (Option Error))
    → Context
    → Act World Panic (Option Error)
echo opts r next ctx w =
    let (child, w') = seed_scope ctx w in
    abort_defer none opts r child (answer_next opts r child (next child w'))

unfoldable pub fiber_defer : Options → Request → Context → Answered → Answered
fiber_defer opts r ctx = after_defer (λ rec w.
    let status = status_if_blank (not opts.disable_repanic) w in
    let w' = capture_recovered ctx rec (attributes_with_status r status) w in
    if opts.disable_repanic then (returned none, w') else (panicked rec, flush_best_effort w'))

unfoldable pub fiber :
    Options
    → Request
    → (Context → Act World Panic (Option Error))
    → Context
    → Act World Panic (Option Error)
fiber opts r next ctx w =
    let (child, w') = seed_scope ctx w in
    fiber_defer opts r child (answer_next opts r child (next child w'))

unfoldable pub fasthttp_defer : Options → Request → Context → Done → Done
fasthttp_defer opts r ctx = after_defer (λ rec w.
    let status = status_if_blank (not opts.disable_repanic) w in
    let w' = capture_recovered ctx rec (attributes_without_route r status) w in
    if opts.disable_repanic then (returned tt, w') else (panicked rec, flush_best_effort w'))

-- fasthttp's scopes start from `context.Background()`, which carries none.
unfoldable pub fasthttp :
    Options → Request → (Context → Act World Panic (Unit {0})) → Act World Panic (Unit {0})
fasthttp opts r handler w =
    let (child, w') = seed_scope none w in fasthttp_defer opts r child (handler child w')

unfoldable pub negroni_defer : Options → Request → Context → Done → Done
negroni_defer opts r ctx = after_defer (λ rec w.
    if is_abort_panic rec
    then (panicked rec, w)
    else raise_unless opts.disable_repanic tt rec
        (capture_recovered ctx rec (request_attributes r) w))

unfoldable pub negroni :
    Options
    → Request
    → (Context → Act World Panic (Unit {0}))
    → Context
    → Act World Panic (Unit {0})
negroni opts r next ctx w =
    let (child, w') = seed_scope ctx w in negroni_defer opts r child (next child w')
