-- ===== src/Capture/Client.antt =====
-- `newErrorEvent`, `newPanicEvent`, the captures, `finishAndEnqueue`, `runBeforeSend` and `enqueue` of
-- client.go, from the event that is built to the buffer and the counters. What the runtime, the
-- clock and the error give (the identifier, the time, the stack, the type and the text of the
-- error) comes in as `Facts`; the text that `writeDebug` writes is in Debug.
-- User code may panic: an option or a hasher then gives `none`.
pub mod Guarantees
pub mod Levels
pub mod Guarded
pub mod Enqueue
use text.Mathlib.Text.{◌==◌ as str_eq}
use Prim.Native.String.{String}
use groundcover_go.Base.{
  ℕ, ◌+◌, Bool, true, false, Option, none, some, List, [], ◌∷◌, ltb, leb, if◌then◌else◌,
}
use groundcover_go.Base.Int.{ℤ}
use groundcover_go.Metrics.{
  Metrics, overflow, before_send, inc_captured, add_dropped, inc_panics_recovered,
  set_queue_pending,
}
use groundcover_go.Ring.{Buffer, HasZero, push, len, bytes}
use groundcover_go.Capture.Attributes.{Value, Attributes, empty, sanitize_attributes}
use groundcover_go.Capture.Event.{Level, User, Frame, Service, Event, with_level}
use groundcover_go.Capture.Fingerprint.{fingerprint}
use groundcover_go.Capture.Scope.{Scope, apply_to}
use groundcover_go.Capture.Title.{title_for, message_error_type}

-- what `BeforeSend` comes to; one that panics may have changed the event that it was given
pub data Answer : Type 0 where
  returned panicked : Event → Answer
  returned_nil : Answer

pub record ClientConfig : Type 0 where
  pub before_send : Option (Event → Answer)
  pub hasher : Option (String → Option String)
  pub batch_size : ℕ
  -- what `OnDrop` and the writer of a client in debug mode do: none where there is none, and else
  -- whether it panics on a number of entries or on an event
  pub on_drop : Option (ℕ → Bool)
  pub debug_out : Option (Event → Bool)

-- an option that may panic
abbrev pub Opt : Type 0
Opt = Event → Option Event

unfoldable pub apply_options : List Opt → Event → Option Event
apply_options [] e = some e
apply_options (o ∷ opts) e = elim (o e) [ none ↦ none | some e' ↦ apply_options opts e' ]

-- `runBeforeSend`: the event that goes on, if any, and whether the callback panicked
unfoldable pub run_before_send : Option (Event → Answer) → Event → Option Event × Bool
run_before_send none e = (some e, false)
run_before_send (some f) e = elim (f e) [
  | returned e' ↦ (some e', false)
  | returned_nil ↦ (none, false)
  | panicked e' ↦ (some e', true)
]

-- both answers of the hasher, if it gave them
abbrev pub with_hashes : Option String → Option String → Event → Option Event
with_hashes (some id) (some email) e =
    some (record e { user = record e.user { id = id; email = email } })
with_hashes (some id) none e = none
with_hashes none _ e = none

unfoldable pub hash_identity : Option (String → Option String) → Event → Option Event
hash_identity none e = some e
hash_identity (some h) e = with_hashes (h e.user.id) (h e.user.email) e

-- the key and the title where none is set, and the snapshot of the attributes
pub label : (Value → String) → Event → Event
label print e = record e {
  fingerprint = if str_eq e.fingerprint "" then fingerprint e else e.fingerprint;
  title = if str_eq e.title "" then title_for e else e.title;
  attributes = sanitize_attributes print e.attributes;
}

-- what the goroutine of a capture leaves: the event to enqueue, one that `BeforeSend` refused, or
-- nothing, where an option or the hasher panicked
pub data Finished : Type 0 where
  ready : Event → Finished
  refused lost : Finished

abbrev pub or_lost : (Value → String) → Option Event → Finished
or_lost print none = lost
or_lost print (some e) = ready (label print e)

-- after `BeforeSend`
abbrev pub after_answer : (Value → String) → ClientConfig → Option Event × Bool → Finished × Bool
after_answer print cfg (none, p) = (refused, p)
after_answer print cfg (some e, p) = (or_lost print (hash_identity cfg.hasher e), p)

-- after the options
abbrev pub after_options : (Value → String) → ClientConfig → Option Event → Finished × Bool
after_options print cfg none = (lost, false)
after_options print cfg (some e) = after_answer print cfg (run_before_send cfg.before_send e)

-- `finishAndEnqueue` up to `writeDebug`, and whether `BeforeSend` panicked
unfoldable pub finish :
    (Value → String) → ClientConfig → Option Scope → List Opt → Event → Finished × Bool
finish print cfg scope opts e = after_options print cfg (apply_options opts (apply_to scope e))

-- the client's state, the numbers of lost entries for `OnDrop`, and the calls of `Notify`
pub record Client : Type 0 where
  pub ring : Buffer Event
  pub metrics : Metrics
  pub on_drop : List ℕ
  pub notified : ℕ

-- A callback under `safeguard.Do`, as in `fireOnDrop` and `writeDebug`: one that is nil is not
-- called, and the panic of one that panics is counted.
unfoldable pub call_guarded : {A : Type 0} → Option (A → Bool) → A → Metrics → Metrics
call_guarded none a m = m
call_guarded (some f) a m = if f a then inc_panics_recovered m else m

module _ ⦃z : HasZero Event⦄ where
  unfoldable pub enqueue : ClientConfig → Client → Event → Client
  enqueue cfg c e =
      let (ring, dropped) = push c.ring e in
      let metrics =
        if ltb 0 dropped
        then call_guarded cfg.on_drop dropped (add_dropped c.metrics overflow dropped)
        else c.metrics in
      record {
        ring = ring;
        metrics = set_queue_pending metrics (len ring) (bytes ring);
        on_drop = if ltb 0 dropped then dropped ∷ c.on_drop else c.on_drop;
        notified = if leb cfg.batch_size (len ring) then c.notified + 1 else c.notified;
      }

  -- the last lines; a panic that `safeguard.Do` contained is counted
  unfoldable pub settle : ClientConfig → Client → Finished → Client
  settle cfg c (ready e) =
      let written = call_guarded cfg.debug_out e c.metrics in
      enqueue cfg (record c { metrics = inc_captured written }) e
  settle cfg c refused = record c { metrics = add_dropped c.metrics before_send 1 }
  settle cfg c lost = record c { metrics = inc_panics_recovered c.metrics }

  unfoldable pub finish_and_enqueue :
      (Value → String) → ClientConfig → Client → Option Scope → List Opt → Event → Client
  finish_and_enqueue print cfg c scope opts e =
      let (finished, panicked_before) = finish print cfg scope opts e in
      let c' : Client =
        if panicked_before then record c { metrics = inc_panics_recovered c.metrics } else c in
      settle cfg c' finished

-- what the runtime, the clock and the error or the panic value give
pub record Facts : Type 0 where
  pub id : String
  pub timestamp : ℕ
  pub error_type : String
  pub error_message : String
  pub stacktrace : List Frame
  pub service : Service

abbrev pub event_type : String
event_type = "exception"

-- the event literal, with the fields in which the three constructions differ
abbrev pub built : Facts → Level → Bool → Bool → Event
built f level handled locked = record {
  id = f.id;
  timestamp = f.timestamp;
  type = event_type;
  level = level;
  user = record { id = ""; email = ""; name = ""; organization = "" };
  session_id = "";
  anonymous_id = "";
  service = f.service;
  error_type = f.error_type;
  error_message = f.error_message;
  error_handled = handled;
  stacktrace = f.stacktrace;
  fingerprint = "";
  title = "";
  attributes = empty;
  level_locked = locked;
}

unfoldable pub new_error_event : Facts → Event
new_error_event f = built f "error" true false

-- a panic value that is no error has "panic" for its type
pub new_panic_event : Facts → Event
new_panic_event f = built f "fatal" false true

pub new_message_event : Facts → String → Event
new_message_event f msg =
    built (record f { error_type = message_error_type; error_message = msg; stacktrace = [] })
      "info" true false

-- the options of `CaptureMessage`: the level first
pub message_options : Level → List Opt → List Opt
message_options level opts = (λ e. some (with_level level e)) ∷ opts
