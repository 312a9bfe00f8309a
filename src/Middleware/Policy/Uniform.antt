-- ===== src/Middleware/Policy/Uniform.antt =====
-- Every middleware of the repository is the one of its policy.
use Prim.Native.String.{String}
use groundcover_go.Base.{ℕ, ◌≡◌, Option, none}
use groundcover_go.Capture.Scope.{Context}
use groundcover_go.Guard.{Act}
use groundcover_go.Middleware.{Error, Panic, World, Request, Options}
use groundcover_go.Middleware.Http.{nethttp, gin, iris, echo, fiber, fasthttp, negroni}
use groundcover_go.Middleware.Rpc.{server_interceptor}
use groundcover_go.Middleware.Policy.{
  Policy, middleware, nethttp_policy, negroni_policy, gin_policy, iris_policy, echo_policy,
  fiber_policy, fasthttp_policy, grpc_policy,
}

-- the code is the middleware of the policy
abbrev pub Follows :
    {A : Type 0} → Policy A → ((Context → Act World Panic A) → Act World Panic A) → Context → Type 0
Follows {A = A} p wrapped ctx =
    (next : Context → Act World Panic A) (w : World) → wrapped next w ≡ middleware p next ctx w

-- all eight, with the same options and request
pub record Uniform (opts : Options) (r : Request) (ctx : Context) : Type 1 where
  pub by_nethttp : Follows (nethttp_policy opts r) (λ next. nethttp r next ctx) ctx
  pub by_gin : Follows (gin_policy opts r) (λ next. gin opts r next ctx) ctx
  pub by_iris : Follows (iris_policy opts r) (λ next. iris opts r next ctx) ctx
  pub by_negroni : Follows (negroni_policy opts r) (λ next. negroni opts r next ctx) ctx
  pub by_fasthttp : Follows (fasthttp_policy opts r) (λ handler. fasthttp opts r handler) none
  pub by_echo : Follows (echo_policy opts r) (λ next. echo opts r next ctx) ctx
  pub by_fiber : Follows (fiber_policy opts r) (λ next. fiber opts r next ctx) ctx
  pub by_grpc :
      (R : Type 0) (rpc_code : Error → ℕ) (internal : Error) (full_method : String)
      → Follows {A = Option R × Option Error}
          (grpc_policy rpc_code internal opts full_method)
          (λ handler. server_interceptor rpc_code internal opts full_method handler ctx)
          ctx
