-- ===== src/Middleware/Examples.antt =====
-- The middlewares at concrete inputs.
use groundcover_go.Base.{◌≡◌, refl, true, false, none}
use groundcover_go.Middleware.{Options, Request}
use groundcover_go.Middleware.Faithful.{Transparent, middlewares-Transparent}
use groundcover_go.Middleware.Rpc.{parse_full_method}
use groundcover_go.Middleware.Rpc.Method.{full_name, no_slash, parse_full_method-full_name}
use groundcover_go.Middleware.Policy.Uniform.{Uniform}

abbrev checkout : Request
checkout = record { method = "POST"; path = "/pay/7"; host = "shop.example"; route = "/pay/:id" }

abbrev standard : Options
standard = record { capture_errors = true; disable_repanic = false }

middlewares-Transparent_example : Transparent standard checkout none
middlewares-Transparent_example = middlewares-Transparent standard checkout none refl

-- without raising panics again
abbrev swallowing : Options
swallowing = record { capture_errors = true; disable_repanic = true }

parse_full_method-full_name_example :
    parse_full_method (full_name "shop.Cart" "Add") ≡ ("shop.Cart", "Add")
unfolding no_slash
parse_full_method-full_name_example = parse_full_method-full_name "shop.Cart" "Add" refl
