-- ===== src/Sdk/Examples.antt =====
-- The client at concrete inputs.
use Prim.Native.String.{String, ◌++◌ as ◌<>◌}
use groundcover_go.Base.{
  true, ℕ, ◌≡◌, false, none, some, Option, refl, List, [], ◌∷◌, arith, if◌then◌else◌,
}
use groundcover_go.Base.Int.{pos, negsuc}
use groundcover_go.Ring.{HasZero}
use groundcover_go.Capture.Attributes.{Value}
use groundcover_go.Capture.Event.{Event}
use groundcover_go.Capture.Client.{
  ClientConfig, Facts, new_panic_event, new_error_event, finish, label, run_before_send,
  hash_identity, apply_options,
}
use groundcover_go.Capture.Scope.{Scope, blank, apply_to}
use groundcover_go.Capture.Resource.{detect_resource}
use groundcover_go.Capture.Wire.Payload.{to_wire_event}
use groundcover_go.Sdk.Privacy.{Pseudonymous, finish-Pseudonymous}
use text.Mathlib.Text.{◌==◌ as str_eq}
use groundcover_go.Capture.Resource.{Host}
use groundcover_go.Sdk.{
  Working, Toll, flush, capture, Settings, Sdk, working, assemble, new_client, Call, recover,
  perform,
}
use groundcover_go.Sdk.Setup.{Constructed, new_client_lem}
use groundcover_go.Sdk.Global.{init, current_global, global_recover, served}
use groundcover_go.Sdk.Session.Stats.{Accounts, calls_since, session-Accounts}
use groundcover_go.Capture.Settings.{with_client_defaults, validate}
use groundcover_go.Capture.Fingerprint.Message.{trim_space, trim_left, trim_right}
use groundcover_go.Capture.Title.{is_space}
use groundcover_go.Sdk.Session.{
  act, perform_on, deed_on, did, worked, scoped, Action, init_with, call, run, global_call,
  sessions, clients,
}
use groundcover_go.Sdk.Session.Routed.{run_lem}
use groundcover_go.Sdk.Calls.{Performed, perform-Performed}

abbrev bare : Host
bare = record {
  getenv = λ k. "";
  hostname = "h1";
  build_info = none;
  module_path = "";
  runtime_version = "go1.24";
  goos = "linux";
  goarch = "amd64";
  num_cpu = "4";
  gomaxprocs = "4";
  now = 0;
}

abbrev settings : String → Settings
settings dsn = record {
  config = record {
    dsn = dsn;
    max_queue = pos 0;
    max_bytes = pos 4096;
    batch_size = pos 10;
    flush_interval = pos 0;
    max_batch_bytes = pos 0;
    max_retries = negsuc 0;
    retry_max = pos 0;
    rate_limit_backoff = pos 0;
    stack_depth_max = pos 0;
    disabled = false;
  };
  service = record { service_name = "shop"; env = ""; release = "" };
  ingestion_key = "key";
  before_send = none;
  hasher = none;
  on_drop = none;
  debug_out = none;
}

abbrev facts : Facts
facts = record {
  id = "1";
  timestamp = 7;
  error_type = "panic";
  error_message = "boom";
  stacktrace = [];
  service = record { name = "shop"; version = "" };
}

instance abbrev zero_Event : HasZero Event
zero_Event = record { zero_value = new_error_event facts }

abbrev print : Value → String
print v = "{}"

new_client_lem_example :
    Constructed (settings "ingest.example") (new_client bare (settings "ingest.example"))
new_client_lem_example = new_client_lem bare (settings "ingest.example") (omega arith)

-- a flush of one batch of one event, in which one panic is contained
abbrev flushing : Toll
flushing = record {
  batches = 1;
  sent = 0;
  dropped_send = 1;
  retries = 0;
  rate_limited = 0;
  panics = 1;
  subsystems_disabled = 0;
}

-- a panic with the value 7
abbrev panicking : Call ℕ
panicking = recover none (some (7, some facts, flushing))

abbrev running : Sdk
running = working (assemble bare (settings "a.example") (settings "a.example").config)

perform-Performed_example : Performed print panicking running (perform print panicking running)
perform-Performed_example = perform-Performed print panicking running

-- a capture before the first client, one with a client, and one with the next client, the last first
abbrev session : List (Action ℕ)
session =
    call (did panicking)
    ∷ init_with (settings "b.example")
    ∷ call (worked flushing)
    ∷ call (scoped true)
    ∷ call (did panicking)
    ∷ init_with (settings " ")
    ∷ init_with (settings "a.example")
    ∷ call (did panicking)
    ∷ []

run_lem_example :
    (run print bare session ≡ served (clients print (sessions bare session)))
    × ((global_call print (did panicking) (run print bare session)).1 ≡ some 7)
run_lem_example = run_lem print bare session (did panicking)

-- one client, and a panic that it captures
abbrev short : List (Action ℕ)
short = call (did panicking) ∷ init_with (settings "a.example") ∷ []

abbrev new_one : Working
new_one = assemble bare (settings "a.example") (with_client_defaults (settings "a.example").config)

abbrev panicked_once : Working
panicked_once = flush flushing (capture print new_one none [] (some (new_panic_event facts)))

session-Accounts_example : Accounts print (calls_since (sessions bare short)) panicked_once.client
unfolding run act init new_client validate with_client_defaults global_call perform_on deed_on
    global_recover current_global trim_space trim_left trim_right is_space
session-Accounts_example = session-Accounts print bare short panicked_once refl

abbrev marking : String → Option String
marking s = some (if str_eq s "" then "" else "#" <> s)

abbrev pseudonymizing : ClientConfig
pseudonymizing = record {
  before_send = none;
  hasher = some marking;
  batch_size = 250;
  on_drop = none;
  debug_out = none;
}

abbrev signed_in : Scope
signed_in = record blank {
  user = record { id = "ann"; email = "a@b.c"; name = ""; organization = "" };
}

abbrev marked : Event
marked = label print (record (apply_to (some signed_in) (new_error_event facts)) {
  user = record { id = "#ann"; email = "#a@b.c"; name = ""; organization = "" };
})

finish-Pseudonymous_example :
    Pseudonymous marking
      (to_wire_event marked (detect_resource (settings "").service bare) ("s", "t"))
unfolding finish run_before_send hash_identity apply_options apply_to new_error_event
finish-Pseudonymous_example =
    finish-Pseudonymous print pseudonymizing marking refl (some signed_in) []
      (new_error_event facts) marked refl (settings "").service bare ("s", "t")
