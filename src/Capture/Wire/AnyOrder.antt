-- ===== src/Capture/Wire/AnyOrder.antt =====
-- The loops of `estimateSize` and `buildMetadata` over maps, whose order is Go's choice.
use Prim.Native.String.{len}
use groundcover_go.Base.{◌+◌, ◌≡◌, refl, sym, ap, ap₂, ◌∙◌, none, arith, if◌then◌else◌}
use groundcover_go.Capture.Attributes.{Attributes}
use groundcover_go.Capture.Attributes.Lookup.{first_of}
use groundcover_go.Capture.Attributes.Unordered.{
  SameMap, Reordered, as_is, swapped, behind, and_then,
}
use groundcover_go.Capture.Event.{Event}
use groundcover_go.Capture.Wire.{is_session_level_key, is_sdk_managed_key, build_metadata}
use groundcover_go.Capture.Wire.Managed.{managed, pick, build_metadata_lem}
use groundcover_go.Capture.Wire.Size.{estimate_entries, estimate_value_size, estimate_size}

estimate_entries-Reordered :
    {a b : Attributes} → Reordered a b → estimate_entries a ≡ estimate_entries b
unfolding estimate_value_size
estimate_entries-Reordered (as_is a) = refl
estimate_entries-Reordered (swapped j k v w a ne) = omega arith
estimate_entries-Reordered (behind k v r) =
    ap (λ n. len k + estimate_value_size v + n) (estimate_entries-Reordered r)
estimate_entries-Reordered (and_then r q) =
    estimate_entries-Reordered r ∙ estimate_entries-Reordered q

pub estimate_size-Reordered :
    (e : Event) {a b : Attributes}
    → Reordered a b
    → estimate_size (record e { attributes = a }) ≡ estimate_size (record e { attributes = b })
unfolding estimate_size
estimate_size-Reordered e r = rw (estimate_entries-Reordered r) refl

pub build_metadata-SameMap :
    (e : Event) (a b c d : Attributes)
    → SameMap a b
    → SameMap c d
    → SameMap
        (build_metadata (record e { attributes = a }) c)
        (build_metadata (record e { attributes = b }) d)
build_metadata-SameMap e a b c d h g k =
    build_metadata_lem (record e { attributes = a }) c k
    ∙ ap₂
        (λ x y. pick (managed e) k (
          first_of (if is_session_level_key k then none else x)
            (if is_sdk_managed_key k then none else y)))
        (g k) (h k)
    ∙ sym (build_metadata_lem (record e { attributes = b }) d k)
