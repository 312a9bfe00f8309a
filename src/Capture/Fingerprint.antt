-- ===== src/Capture/Fingerprint.antt =====
-- fingerprint.go and `inAppFrames` of stacktrace.go: the grouping key of an event.
pub mod Digits
pub mod Hash
pub mod Message
pub mod Stable
use Prim.Native.String.{String}
use groundcover_go.Base.{ℕ, List, [], ◌∷◌, if◌then◌else◌}
use groundcover_go.Capture.Event.{Event, Frame}
use groundcover_go.Capture.Fingerprint.Hash.{offset64, write_byte, write, format_uint}
use groundcover_go.Capture.Fingerprint.Message.{normalize_message}

pub in_app_frames : List Frame → List Frame
in_app_frames [] = []
in_app_frames (f ∷ frames) = if f.in_app then f ∷ in_app_frames frames else in_app_frames frames

write_frames : ℕ → List Frame → ℕ
write_frames h [] = h
write_frames h (f ∷ frames) =
    write_frames (write (write_byte (write (write_byte h 0) f.function) 0) f.file) frames

-- the hash of an event's type and in-app frames, or of its message where there are none
pub hashed : String → String → List Frame → ℕ
hashed error_type msg [] = write offset64 (normalize_message msg)
hashed error_type msg (f ∷ frames) = write_frames (write offset64 error_type) (f ∷ frames)

unfoldable pub fingerprint : Event → String
fingerprint e = format_uint (hashed e.error_type e.error_message (in_app_frames e.stacktrace))
