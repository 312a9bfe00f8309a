-- ===== src/Capture/Wire/Size.antt =====
-- `estimateSize` of wire.go: what an event counts for in the byte budget of the buffer. The sums stay
-- far below an `int`'s bound, as all the texts are in memory.
use Prim.Native.String.{len}
use groundcover_go.Base.{ℕ, ◌+◌, ◌≤◌, ◌≡◌, List, [], ◌∷◌, arith}
use groundcover_go.Base.Int.{pos}
use groundcover_go.Ring.{clamp_size}
use groundcover_go.Capture.Attributes.{
  Value, Items, Attributes, string, object, array, end, item, empty, entry,
}
use groundcover_go.Capture.Event.{Frame, Event}

abbrev pub scalar_size_estimate : ℕ
scalar_size_estimate = 16

unfoldable mutual
  pub estimate_value_size : Value → ℕ
  estimate_value_size (string s) = len s
  estimate_value_size (object a) = 2 + estimate_entries a
  estimate_value_size (array vs) = 2 + estimate_items vs
  estimate_value_size _ = scalar_size_estimate

  pub estimate_items : Items → ℕ
  estimate_items end = 0
  estimate_items (item v vs) = estimate_value_size v + estimate_items vs

  pub estimate_entries : Attributes → ℕ
  estimate_entries empty = 0
  estimate_entries (entry k v a) = len k + estimate_value_size v + estimate_entries a

pub frames_size : List Frame → ℕ
frames_size [] = 0
frames_size (f ∷ frames) = len f.function + len f.file + 24 + frames_size frames

unfoldable pub estimate_size : Event → ℕ
estimate_size e =
    256
    + len e.type
    + len e.error_type
    + len e.error_message
    + len e.fingerprint
    + len e.title
    + frames_size e.stacktrace
    + estimate_entries e.attributes
    + (len e.user.id + len e.user.email + len e.user.name + len e.user.organization)

-- An event counts for 256 bytes more than its message, title, frames and attributes together, at
-- least, and `Push` takes the estimate as it is.
pub estimate_size_lem :
    (e : Event)
    → (256
          + len e.error_message
          + len e.title
          + frames_size e.stacktrace
          + estimate_entries e.attributes
        ≤ estimate_size e)
      × (clamp_size (pos (estimate_size e)) ≡ estimate_size e)
unfolding estimate_size clamp_size
estimate_size_lem e = (omega arith, ground arith)
