-- ===== src/Capture/Wire.antt =====
-- wire.go: the metadata of an event on the wire.
pub mod AnyOrder
pub mod Managed
pub mod Payload
pub mod Size
use text.Mathlib.Text.{◌==◌ as str_eq}
use Prim.Native.String.{String}
use groundcover_go.Base.{ℕ, Bool, ◌||◌, if◌then◌else◌}
use groundcover_go.Base.Int.{pos}
use groundcover_go.Capture.Attributes.{Value, Attributes, string, whole, empty, entry, set, merge}
use groundcover_go.Capture.Event.{User, Event, severity_number}

abbrev pub is_session_level_key : String → Bool
is_session_level_key k =
    str_eq k "service.name"
    || (str_eq k "service.version"
        || (str_eq k "deployment.environment.name"
            || (str_eq k "k8s.namespace.name" || str_eq k "k8s.cluster.name")))

abbrev pub is_sdk_managed_key : String → Bool
is_sdk_managed_key k =
    str_eq k "user.id"
    || (str_eq k "user.email"
        || (str_eq k "user.name"
            || (str_eq k "user.organization"
                || (str_eq k "session.id"
                    || (str_eq k "anonymous_id"
                        || (str_eq k "level"
                            || (str_eq k "severity_number" || str_eq k "gc.title")))))))

-- the entries whose keys do not pass a test, each written to the map in turn
pub copy_without : (String → Bool) → Attributes → Attributes
copy_without skip empty = empty
copy_without skip (entry k v a) =
    if skip k then copy_without skip a else entry k v (copy_without skip a)

pub set_if_non_empty : Attributes → String → String → Attributes
set_if_non_empty md k v = if str_eq v "" then md else set md k (string v)

-- the two loops: the caller's attributes, and the detected ones of the resource over them
pub custom_and_resource : Event → Attributes → Attributes
custom_and_resource e attrs =
    merge (copy_without is_sdk_managed_key e.attributes) (copy_without is_session_level_key attrs)

-- the identity, as dotted keys
pub with_identity : Attributes → Event → Attributes
with_identity md₀ e =
    let md₁ = set_if_non_empty md₀ "user.id" e.user.id in
    let md₂ = set_if_non_empty md₁ "user.email" e.user.email in
    let md₃ = set_if_non_empty md₂ "user.name" e.user.name in
    let md₄ = set_if_non_empty md₃ "user.organization" e.user.organization in
    let md₅ = set_if_non_empty md₄ "session.id" e.session_id in
    set_if_non_empty md₅ "anonymous_id" e.anonymous_id

pub build_metadata : Event → Attributes → Attributes
build_metadata e attrs =
    let md₁ = with_identity (custom_and_resource e attrs) e in
    let md₂ = set md₁ "level" (string e.level) in
    let md₃ = set md₂ "severity_number" (whole (pos (severity_number e.level))) in
    set_if_non_empty md₃ "gc.title" e.title
