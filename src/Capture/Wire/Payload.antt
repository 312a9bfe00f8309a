-- ===== src/Capture/Wire/Payload.antt =====
-- wire.go: the payload of a batch. `json.Marshal`, which turns it into bytes, and the random span and
-- trace identifiers are parameters.
use Prim.Native.String.{String}
use groundcover_go.Base.{ℕ, suc, Bool, List, [], ◌∷◌, Option}
use groundcover_go.Base.Int.{pos}
use groundcover_go.Capture.Attributes.{Attributes, string, whole, empty, entry}
use groundcover_go.Capture.Event.{Frame, Event}
use groundcover_go.Capture.Resource.{Resource}
use groundcover_go.Capture.Wire.{build_metadata}

pub record WireFrame : Type 0 where
  pub filename : String
  pub function : String
  pub lineno : ℕ
  pub colno : ℕ

pub record WireAttributes : Type 0 where
  pub error_type : String
  pub error_message : String
  pub error_handled : Bool
  pub error_stacktrace : List WireFrame
  pub error_fingerprint : String
  pub error_metadata : Attributes

pub record WireEvent : Type 0 where
  pub type : String
  pub level : String
  pub timestamp : ℕ
  pub id : String
  pub span_id : String
  pub parent_span_id : String
  pub trace_id : String
  pub attributes : WireAttributes

pub record WirePayload : Type 0 where
  pub session_attributes : Attributes
  pub events : List WireEvent

pub session_attributes : Resource → Attributes
session_attributes r = entry "service.name" (string r.service_name) (
    entry "env" (string r.env) (
      entry "namespace" (string r.namespace) (
        entry "cluster" (string r.cluster) (
          entry "releaseId" (string r.release) (
            entry "session_start_time" (whole (pos r.start_time))
              (entry "userAgent" (string r.user_agent) empty))))))

pub wire_frames : List Frame → List WireFrame
wire_frames [] = []
wire_frames (f ∷ frames) =
    record { filename = f.file; function = f.function; lineno = f.line; colno = 0 }
    ∷ wire_frames frames

-- with the span and the trace identifier that were drawn for it
unfoldable pub to_wire_event : Event → Resource → String × String → WireEvent
to_wire_event e res (span, trace) = record {
  type = e.type;
  level = e.level;
  timestamp = e.timestamp;
  id = e.id;
  span_id = span;
  parent_span_id = "";
  trace_id = trace;
  attributes = record {
    error_type = e.error_type;
    error_message = e.error_message;
    error_handled = e.error_handled;
    error_stacktrace = wire_frames e.stacktrace;
    error_fingerprint = e.fingerprint;
    error_metadata = build_metadata e res.attrs;
  };
}

-- `drawn i` are the identifiers of the event number `i`.
pub wire_events : List Event → Resource → (ℕ → String × String) → ℕ → List WireEvent
wire_events [] res drawn i = []
wire_events (e ∷ events) res drawn i =
    to_wire_event e res (drawn i) ∷ wire_events events res drawn (suc i)

pub encode_batch :
    {Body : Type 0}
    → (WirePayload → Option Body)
    → (ℕ → String × String)
    → List Event
    → Resource
    → Option Body
encode_batch marshal drawn events res = marshal (record {
  session_attributes = session_attributes res;
  events = wire_events events res drawn 0;
})
