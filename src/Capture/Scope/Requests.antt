-- ===== src/Capture/Scope/Requests.antt =====
-- Requests that are served at once, each behind `WithIsolatedScope` of a shared context, and the
-- specification of what they see.
pub mod Apart
use groundcover_go.Base.{
  ℕ, zero, suc, ◌+◌, ◌≤◌, ◌<◌, ◌≡◌, refl, ap, ◌∙◌, Option, none, some, List, [], ◌∷◌, ◌++◌, map,
  ◌==◌, arith, true, false,
}
use groundcover_go.Capture.Scope.{
  Scope, Store, Context, clone_scope, scope_from_context, alloc, blank, ensure_scope,
  isolated_scope_context, update, with_scope,
}
use groundcover_go.Capture.Scope.Isolation.{IsMade}

-- The next request arrives; request number `i`, the first being 0, changes its scope; code outside
-- of the requests changes the shared one.
pub data Event : Type 0 where
  arrive : Event
  change : ℕ → (Scope → Scope) → Event
  change_shared : (Scope → Scope) → Event

-- the store, and the contexts of the requests in the order of their arrival
pub record Serving : Type 0 where
  pub store : Store
  pub requests : List Context

-- `WithScope` on the context of request number `i`, if it has arrived
unfoldable pub with_request : List Context → ℕ → (Scope → Scope) → Store → Store
with_request [] i f st = st
with_request (ctx ∷ ctxs) zero f st = (with_scope st ctx f).1
with_request (ctx ∷ ctxs) (suc i) f st = with_request ctxs i f st

unfoldable pub serve : Context → Serving → Event → Serving
serve shared s arrive =
    let (child, st) = isolated_scope_context s.store shared in
    record { store = st; requests = s.requests ++ (child ∷ []) }
serve shared s (change i f) = record s { store = with_request s.requests i f s.store }
serve shared s (change_shared f) = record s { store = (with_scope s.store shared f).1 }

unfoldable pub serve_all : Context → Serving → List Event → Serving
serve_all shared s [] = s
serve_all shared s (e ∷ es) = serve_all shared (serve shared s e) es

-- The specification: each request has a scope of its own, a value.
pub record Private : Type 0 where
  pub shared : Option Scope
  pub scopes : List Scope

unfoldable pub change_at : ℕ → (Scope → Scope) → List Scope → List Scope
change_at i f [] = []
change_at zero f (s ∷ ss) = f s ∷ ss
change_at (suc i) f (s ∷ ss) = s ∷ change_at i f ss

abbrev changed : (Scope → Scope) → Option Scope → Option Scope
changed f none = none
changed f (some s) = some (f s)

unfoldable pub step : Private → Event → Private
step p arrive = record p { scopes = p.scopes ++ (clone_scope p.shared ∷ []) }
step p (change i f) = record p { scopes = change_at i f p.scopes }
step p (change_shared f) = record p { shared = changed f p.shared }

unfoldable pub steps : Private → List Event → Private
steps p [] = p
steps p (e ∷ es) = steps (step p e) es

-- what the contexts see
abbrev pub seen : Store → List Context → List (Option Scope)
seen st ctxs = map (scope_from_context st) ctxs
