-- ===== src/Middleware/Rpc.antt =====
-- contrib/grpc/grpc.go: the interceptors of unary and stream calls. The answer of a stream's handler
-- is its error alone, so both interceptors are one on the type of responses.
pub mod Method
use text.Mathlib.Text.{starts_with, find?}
use text.Mathlib.Text.{◌==◌ as str_eq}
use Prim.Native.String.{String, len, slice}
use groundcover_go.Base.{ℕ, ◌+◌, Bool, ◌&&◌, ◌||◌, Option, none, some, ◌==◌, if◌then◌else◌}
use groundcover_go.Base.Int.{pos}
use groundcover_go.Capture.Attributes.{Attributes, string, whole, empty, entry, set}
use groundcover_go.Capture.Scope.{Context}
use groundcover_go.Guard.{Result, returned, panicked, Act, after_defer}
use groundcover_go.Middleware.{
  Error, Panic, World, Options, capture_recovered, capture_error, flush_best_effort, seed_scope,
}

-- codes.Unknown, DeadlineExceeded, Unimplemented, Internal, Unavailable, DataLoss
unfoldable pub is_server_fault : ℕ → Bool
is_server_fault code =
    code == 2 || (code == 4 || (code == 12 || (code == 13 || (code == 14 || code == 15))))

-- the service and the method; the text is cut at bytes
unfoldable pub parse_full_method : String → String × String
parse_full_method full_method =
    let name = slice full_method 1 (len full_method) in
    if starts_with full_method "/"
    then elim (find? name "/") [
      | none ↦ (name, "")
      | some i ↦ (slice name 0 i, slice name (i + 1) (len name))
    ]
    else ("", "")

unfoldable pub base_attributes : String → Attributes
base_attributes full_method =
    let (service, method) = parse_full_method full_method in
    let attrs₀ = entry "rpc.system" (string "grpc") empty in
    let attrs₁ = if str_eq service "" then attrs₀ else set attrs₀ "rpc.service" (string service) in
    if str_eq method "" then attrs₁ else set attrs₁ "rpc.method" (string method)

unfoldable pub error_attributes : String → ℕ → Attributes
error_attributes full_method code =
    set (base_attributes full_method) "rpc.grpc.status_code" (whole (pos code))

abbrev pub Replied : Type 0 → Type 0
Replied R = Result Panic (Option R × Option Error) × World

-- `rpc_code` is what the package status makes of an error, and `internal` the error that
-- `status.Error(codes.Internal, "internal server error")` gives.
module _ (rpc_code : Error → ℕ) where
  unfoldable pub maybe_capture_rpc_error : Options → String → Context → Option Error → World → World
  maybe_capture_rpc_error opts full_method ctx none w = w
  maybe_capture_rpc_error opts full_method ctx (some e) w =
      if opts.capture_errors && is_server_fault (rpc_code e)
      then capture_error ctx e (error_attributes full_method (rpc_code e)) w
      else w

  unfoldable pub rpc_next : {R : Type 0} → Options → String → Context → Replied R → Replied R
  rpc_next opts full_method ctx (panicked rec, w) = (panicked rec, w)
  rpc_next opts full_method ctx (returned (resp, err), w) =
      (returned (resp, err), maybe_capture_rpc_error opts full_method ctx err w)

module _ (internal : Error) where
  unfoldable pub rpc_defer : {R : Type 0} → Options → String → Context → Replied R → Replied R
  rpc_defer opts full_method ctx = after_defer (λ rec w.
      let w' = capture_recovered ctx rec (base_attributes full_method) w in
      if opts.disable_repanic
      then (returned (none, some internal), w')
      else (panicked rec, flush_best_effort w'))

module _ (rpc_code : Error → ℕ) (internal : Error) where
  unfoldable pub server_interceptor :
      {R : Type 0}
      → Options
      → String
      → (Context → Act World Panic (Option R × Option Error))
      → Context
      → Act World Panic (Option R × Option Error)
  server_interceptor opts full_method handler ctx w =
      let (child, w') = seed_scope ctx w in
      rpc_defer internal opts full_method child
        (rpc_next rpc_code opts full_method child (handler child w'))
