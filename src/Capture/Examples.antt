-- ===== src/Capture/Examples.antt =====
-- The theorems of the capture path at concrete inputs.
use text.Mathlib.Text.{◌==◌ as str_eq}
use Prim.Native.String.{String, ◌++◌}
use groundcover_go.Base.{
  ◌≡◌, refl, true, false, none, some, List, [], ◌∷◌, map, arith, if◌then◌else◌,
}
use groundcover_go.Base.Int.{pos}
use groundcover_go.Capture.Attributes.{
  Value, Attributes, string, whole, real, object, array, item, end, empty, entry, get,
  sanitize_attributes,
}
use groundcover_go.Capture.Attributes.Sanitized.{finite, json_entries, sanitize_attributes-json}
use groundcover_go.Capture.Attributes.Lookup.{first_of}
use groundcover_go.Capture.Event.{User, Event, valid}
use groundcover_go.Capture.Fingerprint.Digits.{is_digit}
use groundcover_go.Capture.Fingerprint.Message.{normalize_message}
use groundcover_go.Capture.Fingerprint.Message.Grouping.{
  all_digits, digit_run, normalize_message_runs,
}
use groundcover_go.Capture.Scope.{Scope, Store, blank, set_user, scope_from_context, apply_to}
use groundcover_go.Capture.Scope.Requests.{
  Event as Change, arrive, change, change_shared, serve_all, steps, seen,
}
use groundcover_go.Capture.Scope.Requests.Apart.{serve_all-steps}
use groundcover_go.Capture.Attributes.Unordered.{swapped, as_is}
use groundcover_go.Capture.AnyOrder.{UsedAlike, any_order}
use groundcover_go.Capture.Utf8.Text.{utf8}
use groundcover_go.Capture.Fingerprint.{fingerprint}
use groundcover_go.Capture.Fingerprint.Stable.{group-fingerprint}
use groundcover_go.Capture.Client.{
  ClientConfig, returned, Facts, finish, label, apply_options, run_before_send, hash_identity,
  new_error_event,
}
use groundcover_go.Capture.Client.Guarantees.{Enqueued, finish-Enqueued}
use groundcover_go.Capture.Client.Levels.{Severities, severities}
use groundcover_go.Capture.Wire.{build_metadata, is_session_level_key, is_sdk_managed_key}
use groundcover_go.Capture.Wire.Managed.{pick, managed, build_metadata_lem}

abbrev print : Value → String
print v = "{}"

abbrev facts : Facts
facts = record {
  id = "1";
  timestamp = 7;
  error_type = "*net.OpError";
  error_message = "dial  tcp\n10.0.0.7";
  stacktrace = record { function = "main.run"; file = "main.go"; line = 12; in_app = true } ∷ [];
  service = record { name = "shop"; version = "1.2" };
}

abbrev ann : User
ann = record { id = "ann"; email = "a@b.c"; name = ""; organization = "" }

abbrev signed_in : Scope
signed_in = record blank { user = ann; level = "warning" }

-- a caller that tries to set the user's identifier, and nests a value
abbrev forged : Attributes
forged = entry "user.id" (string "raw") (
    entry "cart"
      (object
        (entry "items" (array (item (whole (pos 3)) (item (real 4609434218613702656) end))) empty))
      empty)

abbrev captured : Event
captured = record {
  id = "1";
  timestamp = 7;
  type = "exception";
  level = "error";
  user = ann;
  session_id = "";
  anonymous_id = "";
  service = record { name = "shop"; version = "1.2" };
  error_type = "*net.OpError";
  error_message = "dial  tcp\n10.0.0.7";
  error_handled = true;
  stacktrace = [];
  fingerprint = "";
  title = "";
  attributes = forged;
  level_locked = false;
}

abbrev host : Attributes
host = entry "host.name" (string "h1") (entry "service.name" (string "shop") empty)

sanitize_attributes-json_example : json_entries 10 (sanitize_attributes print forged) ≡ true
unfolding finite
sanitize_attributes-json_example = sanitize_attributes-json print forged refl

normalize_message_runs_example :
    normalize_message ("order " ++ ("12" ++ " failed"))
    ≡ normalize_message ("order " ++ ("3456" ++ " failed"))
unfolding digit_run all_digits is_digit
normalize_message_runs_example = normalize_message_runs "order " "12" "3456" " failed" refl refl

build_metadata_lem_example :
    get (build_metadata captured host) "user.id"
    ≡ pick (managed captured) "user.id" (
        first_of
          (if is_session_level_key "user.id" then none else get host "user.id")
          (if is_sdk_managed_key "user.id" then none else get forged "user.id"))
build_metadata_lem_example = build_metadata_lem captured host "user.id"

severities_example : Severities (some signed_in) facts "cart is empty" "info"
unfolding valid
severities_example = severities (some signed_in) facts "cart is empty" "info" refl

abbrev one_scope : Store
one_scope = record { count = 1; scopes = λ i. signed_in }

-- two requests: the first one signs a user in before the second arrives, and the shared scope changes
-- in between
abbrev two_requests : List Change
two_requests =
    arrive
    ∷ change 0 (set_user ann)
    ∷ change_shared (set_user ann)
    ∷ arrive
    ∷ change 1 (set_user ann)
    ∷ []

serve_all-steps_example :
    let s = serve_all (some 0) (record { store = one_scope; requests = [] }) two_requests in
    let p =
      steps (record { shared = scope_from_context one_scope (some 0); scopes = [] }) two_requests in
    (seen s.store s.requests ≡ map some p.scopes) × (scope_from_context s.store (some 0) ≡ p.shared)
serve_all-steps_example = serve_all-steps (some 0) one_scope two_requests (omega arith)

-- the caller's attributes in two orders
any_order_example :
    UsedAlike print
      (λ v. utf8 (print v))
      captured
      (entry "cart" (whole (pos 3)) (entry "page" (string "pay") empty))
      (entry "page" (string "pay") (entry "cart" (whole (pos 3)) empty))
      host
      host
any_order_example =
    any_order print (λ v. utf8 (print v)) captured
      (swapped "cart" "page" (whole (pos 3)) (string "pay") empty refl) (as_is host)

-- the same error, with another message and at another line, and behind a frame of a library
abbrev captured_again : Event
captured_again = record captured {
  error_message = "dial tcp 10.0.0.9";
  stacktrace =
      record { function = "net.Dial"; file = "dial.go"; line = 90; in_app = false }
      ∷ record { function = "main.run"; file = "main.go"; line = 15; in_app = true }
      ∷ [];
}

group-fingerprint_example :
    fingerprint (record captured { stacktrace = facts.stacktrace }) ≡ fingerprint captured_again
group-fingerprint_example =
    group-fingerprint (record captured { stacktrace = facts.stacktrace }) captured_again refl

-- a hasher, and a callback that lets everything pass
abbrev hashing : ClientConfig
hashing = record {
  before_send = some (λ e. returned e);
  hasher = some (λ s. some (if str_eq s "" then "" else "#" ++ s));
  on_drop = none;
  debug_out = none;
  batch_size = 250;
}

abbrev hashed_event : Event
hashed_event = record (apply_to (some signed_in) (new_error_event facts)) {
  user = record { id = "#ann"; email = "#a@b.c"; name = ""; organization = "" };
}

finish-Enqueued_example :
    Enqueued print hashing (some signed_in) [] (new_error_event facts) (label print hashed_event)
unfolding finish run_before_send hash_identity apply_options apply_to new_error_event
finish-Enqueued_example =
    finish-Enqueued print hashing (some signed_in) [] (new_error_event facts)
      (label print hashed_event) refl
