-- ===== src/Sdk/Global.antt =====
-- client_global.go: the client behind the package-level functions. A client is named by a number,
-- in the order of construction. A `Close` in the background has been started for each client of
-- `torn_down`, with a bound of five seconds of its own.
use groundcover_go.Base.{
  arith, ℕ, zero, suc, ◌≡◌, refl, ap, ◌∙◌, Option, none, some, List, [], ◌∷◌, length, Bool, true,
  false,
}
use Prim.Native.String.{String}
use groundcover_go.Capture.Attributes.{Value}
use groundcover_go.Capture.Client.{Facts, new_panic_event, finish}
use groundcover_go.Capture.Scope.{Scope}
use groundcover_go.Ring.{HasZero}
use groundcover_go.Capture.Event.{Event}
use groundcover_go.Sdk.{
  working, recover, returned, event_of, capture, capture_and_flush, perform, Toll, flush, Sdk,
  disabled, Settings, new_client,
}
use groundcover_go.Capture.Resource.{Host}

-- `global`, the clients constructed so far, and those being closed
pub record Global : Type 0 where
  pub current : Option (ℕ × Sdk)
  pub made : ℕ
  pub torn_down : List ℕ

abbrev pub at_start : Global
at_start = record { current = none; made = 0; torn_down = [] }

abbrev pub replaced : Option (ℕ × Sdk) → List ℕ → List ℕ
replaced none down = down
replaced (some (n, prev)) down = n ∷ down

-- `Init` after `New`, and whether it returned an error. A client that was just made is never the
-- previous one.
abbrev pub swap_in : Option Sdk → Global → Global × Bool
swap_in none g = (g, true)
swap_in (some c) g = (
  record {
    current = some (g.made, c);
    made = suc g.made;
    torn_down = replaced g.current g.torn_down;
  },
  false,
)

unfoldable pub init : Host → Settings → Global → Global × Bool
init host s g = swap_in (new_client host s) g

-- `currentGlobal`
abbrev pub or_disabled : Option (ℕ × Sdk) → Sdk
or_disabled none = disabled
or_disabled (some (n, c)) = c

unfoldable pub current_global : Global → Sdk
current_global g = or_disabled g.current

-- calls of `Init`, the first one last
unfoldable pub inits : Host → List Settings → Global → Global
inits host [] g = g
inits host (s ∷ ss) g = (init host s (inits host ss g)).0

-- the clients that these calls construct, the first one last
abbrev pub with_new : Option Sdk → List Sdk → List Sdk
with_new none cs = cs
with_new (some c) cs = c ∷ cs

unfoldable pub constructed : Host → List Settings → List Sdk
constructed host [] = []
constructed host (s ∷ ss) = with_new (new_client host s) (constructed host ss)

-- the numbers below `n`, from the top
unfoldable pub below : ℕ → List ℕ
below zero = []
below (suc n) = n ∷ below n

-- the state that the clients leave: the last one current, and every other one torn down once
unfoldable pub served : List Sdk → Global
unfolding below
served [] = at_start
served (c ∷ cs) = record {
  current = some (length cs, c);
  made = suc (length cs);
  torn_down = below (length cs);
}

abbrev pub last_one : List Sdk → Sdk
last_one [] = disabled
last_one (c ∷ cs) = c

-- An `Init` that fails changes nothing.
pub swap_in-served :
    (o : Option Sdk) (cs : List Sdk) → (swap_in o (served cs)).0 ≡ served (with_new o cs)
unfolding served below
swap_in-served none cs = refl
swap_in-served (some c) [] = refl
swap_in-served (some c) (b ∷ cs) = refl

-- After any calls of `Init`, the current client is the one that the last successful call made, the
-- clients of the earlier ones have each been torn down exactly once and that one has not, and a
-- failed call has left no trace. Before the first success, the package's functions use the
-- disabled client.
pub inits_lem :
    (host : Host) (ss : List Settings)
    → (inits host ss at_start ≡ served (constructed host ss))
      × (current_global (inits host ss at_start) ≡ last_one (constructed host ss))
unfolding inits constructed init current_global served
inits_lem host [] = (refl, refl)
inits_lem host (s ∷ ss) =
    let h = inits_lem host ss in
    let step : inits host (s ∷ ss) at_start ≡ served (constructed host (s ∷ ss)) =
      ap (λ g. (swap_in (new_client host s) g).0) h.0
      ∙ swap_in-served (new_client host s) (constructed host ss) in
    (step, ap current_global step ∙ current (constructed host (s ∷ ss)))
  where
    current : (cs : List Sdk) → current_global (served cs) ≡ last_one cs
    current [] = refl
    current (c ∷ cs) = refl

module _ {V : Type 0} ⦃z : HasZero Event⦄ (print : Value → String) where
  -- `Recover` of the package, on the current client: it flushes whatever became of the capture
  unfoldable pub global_recover :
      Option Scope → Option (V × Option Facts × Toll) → Sdk → Sdk × Option V
  global_recover scope none sdk = (sdk, none)
  global_recover scope (some (v, f, t)) disabled = (disabled, some v)
  global_recover scope (some (v, f, t)) (working w) =
      (working (flush t (capture print w scope [] (event_of new_panic_event f))), some v)

  -- whether the capture of a panic came to its end
  abbrev came_through : Option Scope → Option (V × Option Facts × Toll) → Sdk → Bool
  came_through scope (some (v, none, t)) (working w) = false
  came_through scope (some (v, some f, t)) (working w) =
      returned (finish print w.config scope [] (new_panic_event f)).0
  came_through scope _ _ = true

  -- The package's `Recover` raises what the client's does, and where the capture of the panic comes
  -- to its end, it leaves the same client.
  pub global_recover-perform :
      (scope : Option Scope) (p : Option (V × Option Facts × Toll)) (sdk : Sdk)
      → ((global_recover scope p sdk).1 ≡ (perform print (recover scope p) sdk).1)
        × (came_through scope p sdk ≡ true
            → (global_recover scope p sdk).0 ≡ (perform print (recover scope p) sdk).0)
  unfolding global_recover perform capture_and_flush
  global_recover-perform scope none sdk = (refl, λ h. refl)
  global_recover-perform scope (some (v, f, t)) disabled = (refl, λ h. refl)
  global_recover-perform scope (some (v, none, t)) (working w) = (refl, λ h. ground arith)
  global_recover-perform scope (some (v, some f, t)) (working w) = (refl, λ h. rw h refl)
