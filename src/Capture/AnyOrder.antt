-- ===== src/Capture/AnyOrder.antt =====
-- A Go map is visited in an order of its own choice, by the loops of `Attributes.merge`,
-- `sanitizeAttributes`, `estimateSize`, `buildMetadata` and `attrsSummary`.
use mathlib.Core.Quot
use Prim.Native.String.{String}
use groundcover_go.Base.{◌≡◌}
use groundcover_go.Capture.Attributes.{Value, Attributes, merge, sanitize_attributes}
use groundcover_go.Capture.Attributes.Unordered.{
  of_entries, Reordered, Reordered-SameMap, snapshot-Reordered, merge-SameMap,
}
use groundcover_go.Capture.Debug.{render_debug}
use groundcover_go.Capture.Debug.Shown.{render_debug-Reordered}
use groundcover_go.Capture.Event.{Event}
use groundcover_go.Capture.Utf8.{Bytes}
use groundcover_go.Capture.Wire.{build_metadata}
use groundcover_go.Capture.Wire.AnyOrder.{estimate_size-Reordered, build_metadata-SameMap}
use groundcover_go.Capture.Wire.Size.{estimate_size}

module _ (print : Value → String) (shown : Value → Bytes) where
  -- the event with the snapshot of some attributes
  abbrev pub holding : Event → Attributes → Event
  holding e a = record e { attributes = sanitize_attributes print a }

  -- Attributes `a` and `b` of the event, and `c` and `d` of the resource, are used alike.
  pub record UsedAlike (e : Event) (a b c d : Attributes) : Type 0 where
    pub merged : of_entries (merge a c) ≡ of_entries (merge b d)
    pub snapshots : of_entries (holding e a).attributes ≡ of_entries (holding e b).attributes
    pub sizes : estimate_size (holding e a) ≡ estimate_size (holding e b)
    pub metadata :
        of_entries (build_metadata (holding e a) c) ≡ of_entries (build_metadata (holding e b) d)
    pub debug_blocks : render_debug shown (holding e a) ≡ render_debug shown (holding e b)

  -- Let the attributes of an event, and those of the resource, each be visited in two orders, which
  -- differ by exchanges of neighbours of different keys. As maps, with the order forgotten, their
  -- merges, the snapshots of the attributes and the metadata on the wire are equal; and so are the
  -- sizes that the snapshots count for and the blocks of text in debug mode.
  pub any_order :
      (e : Event) {a b c d : Attributes} → Reordered a b → Reordered c d → UsedAlike e a b c d
  any_order e {a} {b} {c} {d} r q =
      let s = snapshot-Reordered print r in
      let t = Reordered-SameMap s in
      let u = Reordered-SameMap q in
      record {
        merged = Quot.sound (merge-SameMap a b c d (Reordered-SameMap r) u);
        snapshots = Quot.sound t;
        sizes = estimate_size-Reordered e s;
        metadata = Quot.sound (build_metadata-SameMap e _ _ c d t u);
        debug_blocks = render_debug-Reordered shown e s;
      }
