-- ===== src/Capture/Scope.antt =====
-- scope.go: request scopes and the contexts that carry them.
-- A context is the number of its scope in a store of scopes, if it carries one; scopes are made one
-- after another. The mutex makes each operation of a scope one step.
pub mod Isolation
pub mod Requests
use text.Mathlib.Text.{◌==◌ as str_eq}
use Prim.Native.String.{String}
use groundcover_go.Base.{
  ℕ, zero, suc, ◌+◌, Bool, not, ◌&&◌, Option, none, some, ◌==◌, if◌then◌else◌,
}
use groundcover_go.Capture.Attributes.{Attributes, Value, empty, set, merge, clone}
use groundcover_go.Capture.Event.{Level, User, Event, is_zero, valid}

pub record Scope : Type 0 where
  pub user : User
  pub attributes : Attributes
  pub level : Level
  pub fingerprint : String
  pub session_id : String
  pub anonymous_id : String

abbrev pub blank : Scope
blank = record {
  user = record { id = ""; email = ""; name = ""; organization = "" };
  attributes = empty;
  level = "";
  fingerprint = "";
  session_id = "";
  anonymous_id = "";
}

pub set_user : User → Scope → Scope
set_user u s = record s { user = u }

pub set_attributes : Attributes → Scope → Scope
set_attributes a s = record s { attributes = merge s.attributes a }

pub set_attribute : String → Value → Scope → Scope
set_attribute k v s = record s { attributes = set s.attributes k v }

pub set_level : Level → Scope → Scope
set_level l s = record s { level = l }

pub set_fingerprint : String → Scope → Scope
set_fingerprint fp s = record s { fingerprint = fp }

pub set_session_id : String → Scope → Scope
set_session_id id s = record s { session_id = id }

pub set_anonymous_id : String → Scope → Scope
set_anonymous_id id s = record s { anonymous_id = id }

pub clone_scope : Option Scope → Scope
clone_scope none = blank
clone_scope (some s) = record s { attributes = clone s.attributes }

-- the text that the scope sets, or else the event's
abbrev pub or_else : String → String → String
or_else s old = if str_eq s "" then old else s

unfoldable pub apply_to : Option Scope → Event → Event
apply_to none e = e
apply_to (some s) e = record e {
  user = if is_zero s.user then e.user else s.user;
  attributes = merge e.attributes s.attributes;
  level = if valid s.level && not e.level_locked then s.level else e.level;
  fingerprint = or_else s.fingerprint e.fingerprint;
  session_id = or_else s.session_id e.session_id;
  anonymous_id = or_else s.anonymous_id e.anonymous_id;
}

-- the scopes that contexts share, by number
pub record Store : Type 0 where
  pub count : ℕ
  pub scopes : ℕ → Scope

abbrev pub Context : Type 0
Context = Option ℕ

pub scope_from_context : Store → Context → Option Scope
scope_from_context st none = none
scope_from_context st (some i) = some (st.scopes i)

-- a new scope and a context that carries it
pub alloc : Store → Scope → Context × Store
alloc st s = (
  some st.count,
  record { count = st.count + 1; scopes = λ i. if i == st.count then s else st.scopes i },
)

-- the context, and the number of its scope
pub ensure_scope : Store → Context → ℕ × Store
ensure_scope st (some i) = (i, st)
ensure_scope st none = (st.count, (alloc st blank).1)

pub isolated_scope_context : Store → Context → Context × Store
isolated_scope_context st ctx = alloc st (clone_scope (scope_from_context st ctx))

-- a change of one scope, which every context that carries it sees
pub update : Store → ℕ → (Scope → Scope) → Store
update st i f = record st { scopes = λ j. if j == i then f (st.scopes j) else st.scopes j }

-- `Client.WithScope`, and with `set_user u` `Client.SetUser`: `f` is what the callback did to the
-- scope, a callback that panicked halfway included.
pub with_scope : Store → Context → (Scope → Scope) → Context × Store
with_scope st ctx f = let (i, st') = ensure_scope st ctx in (some i, update st' i f)

pub set_user_on : Store → Context → User → Context × Store
set_user_on st ctx u = with_scope st ctx (set_user u)
