-- ===== src/Middleware.antt =====
-- The middlewares: nethttp/middleware.go and the packages under contrib. Each runs a handler with a
-- scope of its own, captures what it panics with, and raises the panic again unless it is told not
-- to. What a framework keeps of a request and its response is in `Request` and `World`; a capture
-- is a call of the client's `CaptureRecovered` or `CaptureError` with its option, here a record of
-- that call, since the client contains whatever happens in it. With `WithClient` the calls go to
-- another client, and are the same.
pub mod Http
pub mod Rpc
pub mod Faithful
pub mod Policy
mod Examples
use Prim.Native.String.{String}
use groundcover_go.Base.{
  ℕ, ◌+◌, Bool, true, false, not, ◌&&◌, ◌||◌, Option, none, some, List, [], ◌∷◌, ltb, leb, ◌==◌,
  if◌then◌else◌,
}
use groundcover_go.Base.Int.{pos}
use groundcover_go.Capture.Attributes.{Attributes, string, whole, empty, entry}
use groundcover_go.Capture.Scope.{Store, Context, isolated_scope_context}
use groundcover_go.Capture.Stack.{contains}

-- what the code asks of an error: the answers of errors.Is and errors.As, and its text
pub record Error : Type 0 where
  pub is_abort_handler : Bool
  pub is_epipe : Bool
  pub is_econnreset : Bool
  pub lower_text : String
  -- the code of an echo.HTTPError or a fiber.Error in its chain
  pub http_code : Option ℕ

pub data Panic : Type 0 where
  error : Error → Panic
  value : ℕ → Panic

unfoldable pub is_abort_panic : Panic → Bool
is_abort_panic (error e) = e.is_abort_handler
is_abort_panic (value n) = false

unfoldable pub is_broken_pipe_panic : Panic → Bool
is_broken_pipe_panic (error e) =
    e.is_epipe
    || (e.is_econnreset
        || (contains e.lower_text "broken pipe"
            || contains e.lower_text "connection reset by peer"))
is_broken_pipe_panic (value n) = false

pub data Report : Type 0 where
  recovered : Context → Panic → Attributes → Report
  errored : Context → Error → Attributes → Report

pub record World : Type 0 where
  pub store : Store
  -- the newest first
  pub reports : List Report
  pub flushes : ℕ
  -- the response: its status as it stands, whether it has been started, whether its body is empty
  pub status : ℕ
  pub written : Bool
  pub body_empty : Bool
  -- the errors that gin and iris collect
  pub collected : List Error

pub record Request : Type 0 where
  pub method : String
  pub path : String
  pub host : String
  pub route : String

pub record Options : Type 0 where
  pub capture_errors : Bool
  pub disable_repanic : Bool

unfoldable pub capture_recovered : Context → Panic → Attributes → World → World
capture_recovered ctx v attrs w = record w { reports = recovered ctx v attrs ∷ w.reports }

unfoldable pub capture_error : Context → Error → Attributes → World → World
capture_error ctx e attrs w = record w { reports = errored ctx e attrs ∷ w.reports }

unfoldable pub flush_best_effort : World → World
flush_best_effort w = record w { flushes = w.flushes + 1 }

-- `gc.WithIsolatedScope`: the request's context, and the world with its scope
unfoldable pub seed_scope : Context → World → Context × World
seed_scope ctx w =
    let (child, store) = isolated_scope_context w.store ctx in (child, record w { store = store })

-- the attributes of nethttp and negroni
unfoldable pub request_attributes : Request → Attributes
request_attributes r =
    entry "http.request.method" (string r.method)
      (entry "url.path" (string r.path) (entry "server.address" (string r.host) empty))

-- the attributes of the other frameworks
unfoldable pub attributes_with_status : Request → ℕ → Attributes
attributes_with_status r status = entry "http.request.method" (string r.method) (
    entry "url.path" (string r.path) (
      entry "http.route" (string r.route)
        (entry "http.response.status_code" (whole (pos status)) empty)))

-- those of fasthttp, which has no routes
unfoldable pub attributes_without_route : Request → ℕ → Attributes
attributes_without_route r status = entry "http.request.method" (string r.method) (
    entry "url.path" (string r.path) (entry "http.response.status_code" (whole (pos status)) empty))

-- the status on the panic path of gin, echo and iris
unfoldable pub status_if_raised : Bool → World → ℕ
status_if_raised will_repanic w = if will_repanic && not w.written then 500 else w.status

-- and that of fiber and fasthttp
unfoldable pub status_if_blank : Bool → World → ℕ
status_if_blank will_repanic w =
    if will_repanic && (w.status == 200 && w.body_empty) then 500 else w.status

-- `isServerError` of gin and iris
unfoldable pub is_server_status : ℕ → Bool
is_server_status status = ltb status 400 || leb 500 status

-- `isServerError` of echo and fiber
unfoldable pub is_server_error : Error → Bool
is_server_error e = elim e.http_code [ none ↦ true | some code ↦ leb 500 code ]

-- the status in `errorAttributes` of echo and fiber
unfoldable pub error_status : Error → ℕ
error_status e = elim e.http_code [ none ↦ 500 | some code ↦ code ]
