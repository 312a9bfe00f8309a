-- ===== src/Capture.antt =====
-- The root package's capture path: attributes.go, level.go, user.go, event.go, scope.go, title.go,
-- wire.go, debug.go and `finishAndEnqueue` of client.go. A Go string is a text, so without invalid UTF-8.
pub mod Attributes
pub mod Event
pub mod Scope
pub mod Title
pub mod Fingerprint
pub mod Client
pub mod Stack
pub mod ErrorType
pub mod Identifiers
pub mod Hasher
pub mod Logger
pub mod Settings
pub mod Wire
pub mod Version
pub mod Resource
pub mod Utf8
pub mod Debug
pub mod AnyOrder
mod FactExamples
mod Examples
