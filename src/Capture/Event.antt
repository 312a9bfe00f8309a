-- ===== src/Capture/Event.antt =====
-- level.go, user.go and event.go: severities, identities, events and the options of a capture.
-- A `Level` is a text, as in Go. An `Option` is a function from events to events: a nil one is the
-- identity. `Timestamp` is a number of nanoseconds.
use text.Mathlib.Text.{◌==◌ as str_eq}
use Prim.Native.String.{String}
use groundcover_go.Base.{ℕ, Bool, ◌&&◌, ◌||◌, List, if◌then◌else◌}
use groundcover_go.Capture.Attributes.{Attributes, merge}

abbrev pub Level : Type 0
Level = String

pub severity_number : Level → ℕ
severity_number l =
    if str_eq l "debug"
    then 5
    else (if str_eq l "info"
        then 9
        else (if str_eq l "warning"
            then 13
            else (if str_eq l "error" then 17 else (if str_eq l "fatal" then 21 else 17))))

unfoldable pub valid : Level → Bool
valid l =
    str_eq l "debug"
    || (str_eq l "info" || (str_eq l "warning" || (str_eq l "error" || str_eq l "fatal")))

pub record User : Type 0 where
  pub id : String
  pub email : String
  pub name : String
  pub organization : String

abbrev pub is_zero : User → Bool
is_zero u = str_eq u.id "" && (str_eq u.email "" && (str_eq u.name "" && str_eq u.organization ""))

pub record Frame : Type 0 where
  pub function : String
  pub file : String
  pub line : ℕ
  pub in_app : Bool

pub record Service : Type 0 where
  pub name : String
  pub version : String

pub record Event : Type 0 where
  pub id : String
  pub timestamp : ℕ
  pub type : String
  pub level : Level
  pub user : User
  pub session_id : String
  pub anonymous_id : String
  pub service : Service
  pub error_type : String
  pub error_message : String
  pub error_handled : Bool
  pub stacktrace : List Frame
  pub fingerprint : String
  pub title : String
  pub attributes : Attributes
  pub level_locked : Bool

pub with_attributes : Attributes → Event → Event
with_attributes a e = record e { attributes = merge e.attributes a }

unfoldable pub with_level : Level → Event → Event
with_level l e = if valid l then record e { level = l } else e

pub with_fingerprint : String → Event → Event
with_fingerprint fp e = record e { fingerprint = fp }

pub with_title : String → Event → Event
with_title title e = record e { title = title }

pub with_user : User → Event → Event
with_user u e = record e { user = u }
